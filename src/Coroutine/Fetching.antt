-- ===== src/Coroutine/Fetching.antt =====
-- `fetch_nodes`: what is taken, what is left, and in which order.
use new_rpc.Base.{
  ℕ, ◌+◌, ◌^◌, ◌<◌, ◌≡◌, ◌≢◌, refl, sym, ap, ◌∙◌, inl, inr, Bool, true, false, Bool-cases, ◌==◌,
  ==_iff, if◌then◌else◌, some, List, [], ◌∷◌, ◌++◌, arith, length, length-append,
}
use new_rpc.Serialization.Memory.{ok}
use new_rpc.Coroutine.Frame.{LinkedCoroutine, Frames, set_link}
use new_rpc.Coroutine.Queue.{CoroutineQueue, decrement, assign_slot, append_to_target, take_node}
use new_rpc.Coroutine.Chain.{
  Fresh, last_of-Fresh, Distinct, Chain, IsQueue, last_of, link-set_link, Chain-set_link,
}
use new_rpc.Coroutine.Fifo.{append_frames, append_to_tail_lem}
use new_rpc.Coroutine.Unlink.{
  slot_of, Fresh-front, Fresh-without, Apart, Distinct-without, Apart-without, Apart-snoc,
  Apart-last_of, Chain-skip, Chain-at, Fresh-last_of, Chain-rest,
}
use new_rpc.Coroutine.Rounds.{IsQueue-set_link}

-- The frames of a list with a given answer, in order.
abbrev pub select : (ℕ → Bool) → Bool → List ℕ → List ℕ
select c true [] = []
select c false [] = []
select c true (x ∷ xs) = if c x then x ∷ select c true xs else select c true xs
select c false (x ∷ xs) = if c x then select c false xs else x ∷ select c false xs

-- The loop has kept `ks` and has moved `ts` to the target; `rs` are the frames to come.
pub record IsFetching (fr : Frames) (q t : CoroutineQueue) (ks rs ts : List ℕ) (iter : ℕ)
    : Type 0 where
  pub chain : Chain fr q.head (ks ++ rs)
  pub rest : Chain fr iter rs
  pub size : q.size ≡ length (ks ++ rs)
  pub distinct : Distinct (ks ++ rs)
  pub apart : Apart ts (ks ++ rs)
  pub target : IsQueue fr t ts
  pub room : length (ks ++ rs) + length ts + 1 < 2 ^ 64

-- The condition does not read the link of a frame.
abbrev pub IgnoresLink : (LinkedCoroutine → Bool) → Type 0
IgnoresLink condition =
    (x : LinkedCoroutine) (v : ℕ) → condition (record x { in_queue_link_next = v }) ≡ condition x

abbrev pub Agrees : (LinkedCoroutine → Bool) → (ℕ → Bool) → Frames → Type 0
Agrees condition c fr = (p : ℕ) → condition (fr p) ≡ c p

-- Nothing but the links of frames has changed.
abbrev pub KeepsAllButLinks : Frames → Frames → Type 0
KeepsAllButLinks fr fr' =
    (p : ℕ) → record (fr' p) { in_queue_link_next = 0 } ≡ record (fr p) { in_queue_link_next = 0 }

pub KeepsAllButLinks-set_link : (fr : Frames) (a v : ℕ) → KeepsAllButLinks fr (set_link fr a v)
unfolding set_link
KeepsAllButLinks-set_link fr a v p = elim (Bool-cases (a == p)) [
  | inl same ↦ rw same (ap (λ q. record (fr q) { in_queue_link_next = 0 }) ((==_iff a p).0 same))
  | inr other ↦ rw other refl
]

pub KeepsAllButLinks-append_frames :
    (fr : Frames) (ts : List ℕ) (a : ℕ) → KeepsAllButLinks fr (append_frames fr ts a)
KeepsAllButLinks-append_frames fr [] a p = refl
KeepsAllButLinks-append_frames fr (t ∷ ts) a p = KeepsAllButLinks-set_link fr (last_of t ts) a p

-- So a condition that does not read links holds of the same frames.
pub Agrees-KeepsAllButLinks :
    (condition : LinkedCoroutine → Bool) (c : ℕ → Bool) (fr fr' : Frames)
    → IgnoresLink condition
    → KeepsAllButLinks fr fr'
    → Agrees condition c fr
    → Agrees condition c fr'
Agrees-KeepsAllButLinks condition c fr fr' i k g p =
    sym (i (fr' p) 0) ∙ ap condition (k p) ∙ i (fr p) 0 ∙ g p

pub Chain-append_frames :
    (fr : Frames) (ts : List ℕ) (a p : ℕ) (ys : List ℕ)
    → Apart ts ys
    → Chain fr p ys
    → Chain (append_frames fr ts a) p ys
Chain-append_frames fr [] a p ys s c = c
Chain-append_frames fr (t ∷ ts) a p ys s c =
    Chain-set_link fr (last_of t ts) a p ys (Apart-last_of t ts ys s) c

-- Frames that are not in the lists keep their links.
abbrev pub KeepsLinks : Frames → Frames → List ℕ → List ℕ → Type 0
KeepsLinks fr fr' xs ts =
    (p : ℕ) → Fresh p xs → Fresh p ts → (fr' p).in_queue_link_next ≡ (fr p).in_queue_link_next

pub link-append_frames :
    (fr : Frames) (ts : List ℕ) (a p : ℕ)
    → Fresh p ts
    → (append_frames fr ts a p).in_queue_link_next ≡ (fr p).in_queue_link_next
link-append_frames fr [] a p f = refl
link-append_frames fr (t ∷ ts) a p f =
    ground (arith, link-set_link fr (last_of t ts) a p, last_of-Fresh p t ts f)

-- What the loop's write to its slot does.
slot_written :
    (fr : Frames) (q t : CoroutineQueue) (ks : List ℕ) (x : ℕ) (rs ts : List ℕ) (iter : ℕ)
    → IsFetching fr q t ks (x ∷ rs) ts iter
    → (fr' : Frames) × (h : ℕ) × (assign_slot fr q (slot_of ks) (fr x).in_queue_link_next
        ≡ (fr', record q { head = h }))
      × Chain fr' h (ks ++ rs)
      × IsQueue fr' t ts
      × KeepsAllButLinks fr fr'
      × KeepsLinks fr fr' (ks ++ (x ∷ rs)) ts
unfolding assign_slot
slot_written fr q t [] x rs ts iter v = (
  fr,
  (fr x).in_queue_link_next,
  refl,
  (Chain-at fr q.head [] x rs v.chain).1,
  v.target,
  λ p. refl,
  λ p f h. refl,
)
slot_written fr q t (k ∷ ks) x rs ts iter v =
    let next = (fr x).in_queue_link_next in
    (
      set_link fr (last_of k ks) next,
      q.head,
      refl,
      Chain-skip fr q.head k ks x rs v.distinct v.chain,
      IsQueue-set_link fr t (last_of k ks) next ts (Fresh-last_of k ks (x ∷ rs) ts v.apart)
          v.target,
      KeepsAllButLinks-set_link fr (last_of k ks) next,
      λ p f h. ground (
        arith,
        link-set_link fr (last_of k ks) next p,
        last_of-Fresh p k ks (Fresh-front p (k ∷ ks) (x ∷ rs) f),
      ),
    )

pub set_link_other :
    (fr : Frames) (a v p : ℕ)
    → p ≢ a
    → (set_link fr a v p).in_queue_link_next ≡ (fr p).in_queue_link_next
set_link_other fr a v p h = ground (arith, link-set_link fr a v p)

length-without :
    (ks : List ℕ) (x : ℕ) (rs : List ℕ) → length (ks ++ (x ∷ rs)) ≡ length (ks ++ rs) + 1
length-without [] x rs = omega arith
length-without (k ∷ ks) x rs = omega (arith, length-without ks x rs)

-- A frame that fulfils the condition moves to the target.
pub take_node_lem :
    (fr : Frames) (q t : CoroutineQueue) (ks : List ℕ) (x : ℕ) (rs ts : List ℕ) (iter : ℕ)
    → IsFetching fr q t ks (x ∷ rs) ts iter
    → (fr' : Frames) × (q' : CoroutineQueue) × (t' : CoroutineQueue) × (take_node fr q
          (some t)
          (slot_of ks)
          x
        ≡ ok (fr', q', some t'))
      × IsFetching fr' q' t' ks rs (ts ++ (x ∷ [])) (fr x).in_queue_link_next
      × KeepsAllButLinks fr fr'
      × (q'.tail ≡ q.tail)
      × KeepsLinks fr fr' (ks ++ (x ∷ rs)) ts
unfolding take_node append_to_target
take_node_lem fr q t ks x rs ts iter v =
    let (fr1, h, written, chain, target, same, kept) = slot_written fr q t ks x rs ts iter v in
    let (others, distinct) = Distinct-without ks x rs v.distinct in
    let (fresh, apart) = Apart-without ts ks x rs v.apart in
    let (nonnull, behind) = Chain-at fr q.head ks x rs v.chain in
    let fr2 = set_link fr1 x 0 in
    let null_link : (fr2 x).in_queue_link_next ≡ 0 = ground (arith, link-set_link fr1 x 0 x) in
    let len = length-without ks x rs in
    let (t', appended, longer) =
      append_to_tail_lem fr2 t ts x (IsQueue-set_link fr1 t x 0 ts fresh target) fresh nonnull
        null_link (omega (arith, v.room)) in
    let chain' =
      Chain-append_frames fr2 ts x h (ks ++ rs) apart
        (Chain-set_link fr1 x 0 h (ks ++ rs) others chain) in
    let left : decrement q.size ≡ length (ks ++ rs) = omega (arith, v.size, v.room) in
    (
      append_frames fr2 ts x,
      record { head = h; tail = q.tail; size = decrement q.size },
      t',
      rw (written, appended),
      record {
        chain = chain';
        rest =
            Chain-rest fr (append_frames fr2 ts x) h (fr x).in_queue_link_next ks rs chain' behind;
        size = left;
        distinct = distinct;
        apart = Apart-snoc ts x (ks ++ rs) apart others;
        target = longer;
        room = omega (arith, v.room, length-append ts (x ∷ []));
      },
      λ p. KeepsAllButLinks-append_frames fr2 ts x p ∙ KeepsAllButLinks-set_link fr1 x 0 p ∙ same p,
      refl,
      λ p f g'.
          link-append_frames fr2 ts x p g'
          ∙ set_link_other fr1 x 0 p (Fresh-without p ks x rs f).0
          ∙ kept p f g',
    )
