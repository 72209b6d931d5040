-- ===== src/Coroutine/Unlink.antt =====
-- Taking a frame out of the middle of a chain.
use new_rpc.Base.{ℕ, ◌≡◌, ◌≢◌, sym, List, [], ◌∷◌, ◌++◌, arith}
use new_rpc.Coroutine.Frame.{Frames, set_link}
use new_rpc.Coroutine.Queue.{Slot, at_head, at_link}
use new_rpc.Coroutine.Chain.{
  Fresh, Distinct, Chain, last_of, link-set_link, Chain-set_link, last_of-Fresh,
}

-- Where the loop writes, when `ks` are the frames that it has kept.
abbrev pub slot_of : List ℕ → Slot
slot_of [] = at_head
slot_of (k ∷ ks) = at_link (last_of k ks)

-- No frame of the first list is in the second.
abbrev pub Apart : List ℕ → List ℕ → Type 0
Apart [] ys = Unit {0}
Apart (x ∷ xs) ys = Fresh x ys × Apart xs ys

pub Fresh-without :
    (a : ℕ) (ks : List ℕ) (x : ℕ) (rs : List ℕ)
    → Fresh a (ks ++ (x ∷ rs))
    → (a ≢ x) × Fresh a (ks ++ rs)
Fresh-without a [] x rs f = f
Fresh-without a (k ∷ ks) x rs f = let (h, g) = Fresh-without a ks x rs f.1 in (h, (f.0, g))

pub Distinct-without :
    (ks : List ℕ) (x : ℕ) (rs : List ℕ)
    → Distinct (ks ++ (x ∷ rs))
    → Fresh x (ks ++ rs) × Distinct (ks ++ rs)
Distinct-without [] x rs d = d
Distinct-without (k ∷ ks) x rs d =
    let (h, f) = Fresh-without k ks x rs d.0 in
    let (g, d') = Distinct-without ks x rs d.1 in (((λ e. h (sym e)), g), (f, d'))

pub Apart-without :
    (ts ks : List ℕ) (x : ℕ) (rs : List ℕ)
    → Apart ts (ks ++ (x ∷ rs))
    → Fresh x ts × Apart ts (ks ++ rs)
Apart-without [] ks x rs p = (tt, tt)
Apart-without (t ∷ ts) ks x rs p =
    let (h, f) = Fresh-without t ks x rs p.0 in
    let (g, q) = Apart-without ts ks x rs p.1 in (((λ e. h (sym e)), g), (f, q))

pub Apart-snoc :
    (ts : List ℕ) (x : ℕ) (ys : List ℕ) → Apart ts ys → Fresh x ys → Apart (ts ++ (x ∷ [])) ys
Apart-snoc [] x ys p f = (f, tt)
Apart-snoc (t ∷ ts) x ys p f = (p.0, Apart-snoc ts x ys p.1 f)

-- The last of some frames that are apart from others.
pub Apart-last_of : (t : ℕ) (ts ys : List ℕ) → Apart (t ∷ ts) ys → Fresh (last_of t ts) ys
Apart-last_of t [] ys p = p.0
Apart-last_of t (u ∷ ts) ys p = Apart-last_of u ts ys p.1

-- The last of the frames before another one is none of the others, nor among those behind.
pub last_kept-Fresh : (k : ℕ) (ks rs : List ℕ) → Distinct ((k ∷ ks) ++ rs) → Fresh (last_of k ks) rs
last_kept-Fresh k [] rs d = d.0
last_kept-Fresh k (l ∷ ks) rs d = last_kept-Fresh l ks rs d.1

pub Fresh-front : (a : ℕ) (xs ys : List ℕ) → Fresh a (xs ++ ys) → Fresh a xs
Fresh-front a [] ys f = tt
Fresh-front a (x ∷ xs) ys f = (f.0, Fresh-front a xs ys f.1)

-- The link of the last frame that is kept skips the frame that is taken.
pub Chain-skip :
    (fr : Frames) (p k : ℕ) (ks : List ℕ) (x : ℕ) (rs : List ℕ)
    → Distinct ((k ∷ ks) ++ (x ∷ rs))
    → Chain fr p ((k ∷ ks) ++ (x ∷ rs))
    → Chain (set_link fr (last_of k ks) (fr x).in_queue_link_next) p ((k ∷ ks) ++ rs)
Chain-skip fr p k [] x rs d c =
    let link : (set_link fr k (fr x).in_queue_link_next k).in_queue_link_next
        ≡ (fr x).in_queue_link_next =
      ground (arith, link-set_link fr k (fr x).in_queue_link_next k) in
    (
      c.0,
      c.1,
      rw link
          (Chain-set_link fr k (fr x).in_queue_link_next (fr x).in_queue_link_next rs d.0.1 c.2.2),
    )
Chain-skip fr p k (l ∷ ks) x rs d c =
    let v = (fr x).in_queue_link_next in
    let apart : k ≢ last_of l ks = last_of-Fresh k l ks (Fresh-front k (l ∷ ks) (x ∷ rs) d.0) in
    let link : (set_link fr (last_of l ks) v k).in_queue_link_next ≡ (fr k).in_queue_link_next =
      ground (arith, link-set_link fr (last_of l ks) v k) in
    (c.0, c.1, rw link (Chain-skip fr (fr k).in_queue_link_next l ks x rs d.1 c.2))

-- The last of the frames at the front of a chain.
pub Chain-at :
    (fr : Frames) (p : ℕ) (ks : List ℕ) (x : ℕ) (rs : List ℕ)
    → Chain fr p (ks ++ (x ∷ rs))
    → (x ≢ 0) × Chain fr (fr x).in_queue_link_next rs
Chain-at fr p [] x rs c = (c.1, c.2)
Chain-at fr p (k ∷ ks) x rs c = Chain-at fr (fr k).in_queue_link_next ks x rs c.2

pub Fresh-last_of :
    (k : ℕ) (ks ys ts : List ℕ) → Apart ts ((k ∷ ks) ++ ys) → Fresh (last_of k ks) ts
Fresh-last_of k ks ys [] a = tt
Fresh-last_of k ks ys (t ∷ ts) a = (
  (λ e. last_of-Fresh t k ks (Fresh-front t (k ∷ ks) ys a.0) (sym e)),
  Fresh-last_of k ks ys ts a.1,
)

-- The back of a chain starts where it started before, if it holds the same frames.
pub Chain-rest :
    (fr fr' : Frames) (p n : ℕ) (ks rs : List ℕ)
    → Chain fr' p (ks ++ rs)
    → Chain fr n rs
    → Chain fr' n rs
Chain-rest fr fr' p n ks [] c d = d
Chain-rest fr fr' p n ks (x ∷ rs) c d = let (h, e) = Chain-at fr' p ks x rs c in (d.0, h, e)
