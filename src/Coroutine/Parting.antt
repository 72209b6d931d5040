-- ===== src/Coroutine/Parting.antt =====
-- Frames that are parted into those that fulfil a condition and the others, and lists of frames that
-- have none in common.
use new_rpc.Base.{
  ℕ, ◌≤◌, sym, inl, inr, Bool, true, false, Bool-cases, List, [], ◌∷◌, ◌++◌, arith, length,
}
use new_rpc.Coroutine.Frame.{Frames}
use new_rpc.Coroutine.Queue.{CoroutineQueue}
use new_rpc.Coroutine.Chain.{Fresh, Distinct, Chain, IsQueue, Fresh-snoc}
use new_rpc.Coroutine.Unlink.{Apart}
use new_rpc.Coroutine.Fifo.{append_frames}
use new_rpc.Coroutine.Fetching.{select, KeepsLinks, Chain-append_frames}

pub Apart-cons : (x : ℕ) (ts ys : List ℕ) → Fresh x ts → Apart ts ys → Apart ts (x ∷ ys)
Apart-cons x [] ys f a = tt
Apart-cons x (t ∷ ts) ys f a = (((λ e. f.0 (sym e)), a.0), Apart-cons x ts ys f.1 a.1)

Apart-nil : (ys : List ℕ) → Apart ys []
Apart-nil [] = tt
Apart-nil (y ∷ ys) = (tt, Apart-nil ys)

pub Apart-sym : (xs ys : List ℕ) → Apart xs ys → Apart ys xs
Apart-sym [] ys a = Apart-nil ys
Apart-sym (x ∷ xs) ys a = Apart-cons x ys xs a.0 (Apart-sym xs ys a.1)

-- One more frame at the end of the second list.
pub Apart-snoc_right :
    (x : ℕ) (ts ys : List ℕ) → Fresh x ts → Apart ts ys → Apart ts (ys ++ (x ∷ []))
Apart-snoc_right x [] ys f a = tt
Apart-snoc_right x (t ∷ ts) ys f a =
    (Fresh-snoc t ys x a.0 (λ e. f.0 (sym e)), Apart-snoc_right x ts ys f.1 a.1)

pub Fresh-select :
    (a : ℕ) (c : ℕ → Bool) (b : Bool) (xs : List ℕ) → Fresh a xs → Fresh a (select c b xs)
Fresh-select a c true [] f = tt
Fresh-select a c false [] f = tt
Fresh-select a c true (x ∷ xs) f = elim (Bool-cases (c x)) [
  | inl h ↦ rw h (f.0, Fresh-select a c true xs f.1)
  | inr h ↦ rw h (Fresh-select a c true xs f.1)
]
Fresh-select a c false (x ∷ xs) f = elim (Bool-cases (c x)) [
  | inl h ↦ rw h (Fresh-select a c false xs f.1)
  | inr h ↦ rw h (f.0, Fresh-select a c false xs f.1)
]

-- The frames that fulfil the condition are apart from the others,
pub select-Apart :
    (c : ℕ → Bool) (xs : List ℕ) → Distinct xs → Apart (select c true xs) (select c false xs)
select-Apart c [] d = tt
select-Apart c (x ∷ xs) d = elim (Bool-cases (c x)) [
  | inl h ↦ rw h (Fresh-select x c false xs d.0, select-Apart c xs d.1)
  | inr h ↦ rw h (
      Apart-cons x (select c true xs) (select c false xs) (Fresh-select x c true xs d.0)
        (select-Apart c xs d.1))
]

-- and both are apart from what all of them are apart from.
pub Apart-select :
    (c : ℕ → Bool) (b : Bool) (ys xs : List ℕ) → Apart ys xs → Apart ys (select c b xs)
Apart-select c b [] xs a = tt
Apart-select c b (y ∷ ys) xs a = (Fresh-select y c b xs a.0, Apart-select c b ys xs a.1)

pub length-select-le : (c : ℕ → Bool) (xs : List ℕ) → length (select c true xs) ≤ length xs
length-select-le c [] = omega arith
length-select-le c (x ∷ xs) = elim (Bool-cases (c x)) [
  | inl h ↦ rw h (omega (arith, length-select-le c xs))
  | inr h ↦ rw h (omega (arith, length-select-le c xs))
]

-- Chains and queues of frames whose links are kept.
pub Chain-KeepsLinks :
    (fr fr' : Frames) (xs ts : List ℕ) (p : ℕ) (ys : List ℕ)
    → KeepsLinks fr fr' xs ts
    → Apart ys xs
    → Apart ys ts
    → Chain fr p ys
    → Chain fr' p ys
Chain-KeepsLinks fr fr' xs ts p [] k a b c = c
Chain-KeepsLinks fr fr' xs ts p (y ∷ ys) k a b c = (
  c.0,
  c.1,
  rw (k y a.0 b.0) (Chain-KeepsLinks fr fr' xs ts (fr y).in_queue_link_next ys k a.1 b.1 c.2),
)

pub IsQueue-KeepsLinks :
    (fr fr' : Frames) (xs : List ℕ) (q : CoroutineQueue) (ys : List ℕ)
    → KeepsLinks fr fr' xs []
    → Apart ys xs
    → IsQueue fr q ys
    → IsQueue fr' q ys
IsQueue-KeepsLinks fr fr' xs q ys k a v = record {
  chain = Chain-KeepsLinks fr fr' xs [] q.head ys k a (Apart-nil ys) v.chain;
  tail = v.tail;
  size = v.size;
  distinct = v.distinct;
  bounded = v.bounded;
}

pub IsQueue-append_frames :
    (fr : Frames) (ts : List ℕ) (a : ℕ) (q : CoroutineQueue) (ys : List ℕ)
    → Apart ts ys
    → IsQueue fr q ys
    → IsQueue (append_frames fr ts a) q ys
IsQueue-append_frames fr ts a q ys s v = record {
  chain = Chain-append_frames fr ts a q.head ys s v.chain;
  tail = v.tail;
  size = v.size;
  distinct = v.distinct;
  bounded = v.bounded;
}
