-- ===== src/Coroutine/FetchLoop.antt =====
-- The loop of `fetch_nodes`.
use new_rpc.Base.{
  ℕ, suc, ◌≡◌, ◌≢◌, refl, ap, ◌∙◌, inl, inr, Bool, true, false, Bool-cases, ◌==◌, ==_iff,
  if◌then◌else◌, Option, some, List, [], ◌∷◌, ◌++◌, append-nil, append_assoc, arith, length,
}
use new_rpc.Serialization.Memory.{Result, ok, ◌>>=◌}
use new_rpc.Coroutine.Frame.{LinkedCoroutine, Frames}
use new_rpc.Coroutine.Queue.{CoroutineQueue, Slot, at_link, take_node, fetch_loop}
use new_rpc.Coroutine.Chain.{Chain, IsQueue, last_of-snoc, Fresh-snoc}
use new_rpc.Coroutine.Unlink.{slot_of, Fresh-without}
use new_rpc.Coroutine.Fetching.{
  select, IsFetching, IgnoresLink, Agrees, KeepsLinks, KeepsAllButLinks, Agrees-KeepsAllButLinks,
  take_node_lem,
}

slot_of-snoc : (ks : List ℕ) (x : ℕ) → slot_of (ks ++ (x ∷ [])) ≡ at_link x
slot_of-snoc [] x = refl
slot_of-snoc (k ∷ ks) x = ap at_link (last_of-snoc k ks x)

-- What the loop leaves: the frames kept, in the queue's chain, and the target.
pub record IsFetched (fr : Frames) (q t : CoroutineQueue) (ks ts : List ℕ) (tail : ℕ) : Type 0 where
  pub chain : Chain fr q.head ks
  pub size : q.size ≡ length ks
  pub kept_tail : q.tail ≡ tail
  pub target : IsQueue fr t ts

keep_node :
    (fr : Frames) (q t : CoroutineQueue) (ks : List ℕ) (x : ℕ) (rs ts : List ℕ) (iter : ℕ)
    → IsFetching fr q t ks (x ∷ rs) ts iter
    → IsFetching fr q t (ks ++ (x ∷ [])) rs ts (fr x).in_queue_link_next
keep_node fr q t ks x rs ts iter v =
    let same : (ks ++ (x ∷ [])) ++ rs ≡ ks ++ (x ∷ rs) = append_assoc ks (x ∷ []) rs in
    record {
      chain = rw same v.chain;
      rest = v.rest.2;
      size = rw same v.size;
      distinct = rw same v.distinct;
      apart = rw same v.apart;
      target = v.target;
      room = rw same v.room;
    }

if_true {ℓ} : {A : Type ℓ} (b : Bool) (x y : A) → b ≡ true → (if b then x else y) ≡ x
if_true b x y h = rw h

if_false {ℓ} : {A : Type ℓ} (b : Bool) (x y : A) → b ≡ false → (if b then x else y) ≡ y
if_false b x y h = rw h

-- One round of the loop that takes a frame.
fetch_loop_taken :
    (condition : LinkedCoroutine → Bool) (n : ℕ) (fr fr1 : Frames) (q q1 t t1 : CoroutineQueue)
    (last : Slot) (x : ℕ)
    → x ≢ 0
    → condition (fr x) ≡ true
    → take_node fr q (some t) last x ≡ ok (fr1, q1, some t1)
    → fetch_loop condition (suc n) fr q (some t) last x
      ≡ fetch_loop condition n fr1 q1 (some t1) last (fr x).in_queue_link_next
unfolding fetch_loop
fetch_loop_taken condition n fr fr1 q q1 t t1 last x h yes_taken took =
    let nonnull : (x == 0) ≡ false = ground (arith, h) in
    if_false (x == 0) _ _ nonnull
    ∙ if_true (condition (fr x)) _ _ yes_taken
    ∙ ap
        (λ (o : Result (Frames × CoroutineQueue × Option CoroutineQueue)).
          o >>= λ (fr', q', t'). fetch_loop condition n fr' q' t' last (fr x).in_queue_link_next)
        took

pub fetch_loop_lem :
    (condition : LinkedCoroutine → Bool) (c : ℕ → Bool)
    → IgnoresLink condition
    → (rs : List ℕ) (fr : Frames) (q t : CoroutineQueue) (ks ts : List ℕ) (iter : ℕ)
    → Agrees condition c fr
    → IsFetching fr q t ks rs ts iter
    → (fr' : Frames) × (q' : CoroutineQueue) × (t' : CoroutineQueue) × (fetch_loop condition
          (length rs)
          fr
          q
          (some t)
          (slot_of ks)
          iter
        ≡ ok (fr', q', some t'))
      × IsFetched fr' q' t' (ks ++ select c false rs) (ts ++ select c true rs) q.tail
      × KeepsLinks fr fr' (ks ++ rs) ts
      × KeepsAllButLinks fr fr'
unfolding fetch_loop
fetch_loop_lem condition c i [] fr q t ks ts iter g v = (
  fr,
  q,
  t,
  rw ((==_iff iter 0).1 v.rest),
  record { chain = v.chain; size = v.size; kept_tail = refl; target = rw (append-nil ts) v.target },
  λ p f h. refl,
  λ p. refl,
)
fetch_loop_lem condition c i (x ∷ rs) fr q t ks ts iter g v =
    let nonnull : (x == 0) ≡ false = ground (arith, v.rest.1) in
    elim (Bool-cases (c x)) [
      | inl picked ↦
          let (fr1, q1, t1, took, w, same, tail, first) = take_node_lem fr q t ks x rs ts iter v in
          let (fr', q', t', done, end, kept, unchanged) =
            fetch_loop_lem condition c i rs fr1 q1 t1 ks (ts ++ (x ∷ [])) (fr x).in_queue_link_next
              (Agrees-KeepsAllButLinks condition c fr fr1 i same g) w in
          (
            fr',
            q',
            t',
            rw v.rest.0 (
                fetch_loop_taken condition (length rs) fr fr1 q q1 t t1 (slot_of ks) x v.rest.1
                  (g x ∙ picked) took
                ∙ done),
            rw picked (record {
              chain = end.chain;
              size = end.size;
              kept_tail = end.kept_tail ∙ tail;
              target = rw (append_assoc ts (x ∷ []) (select c true rs)) at end.target;
            }),
            λ p f h.
                let (apart, others) = Fresh-without p ks x rs f in
                kept p others (Fresh-snoc p ts x h apart) ∙ first p f h,
            λ p. unchanged p ∙ same p,
          )
      | inr stays ↦
          let (fr', q', t', done, end, kept, unchanged) =
            fetch_loop_lem condition c i rs fr q t (ks ++ (x ∷ [])) ts (fr x).in_queue_link_next g
              (keep_node fr q t ks x rs ts iter v) in
          let joined = append_assoc ks (x ∷ []) (select c false rs) in
          (
            fr',
            q',
            t',
            rw (v.rest.0, nonnull, g x, stays) (rw (slot_of-snoc ks x) at done),
            rw stays (record {
              chain = rw joined at end.chain;
              size = rw joined at end.size;
              kept_tail = end.kept_tail;
              target = end.target;
            }),
            λ p f h. kept p (rw (append_assoc ks (x ∷ []) rs) f) h,
            unchanged,
          )
    ]
