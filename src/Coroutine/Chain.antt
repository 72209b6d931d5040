-- ===== src/Coroutine/Chain.antt =====
-- The frames that a queue holds, as a list, and what a write to a link does to it.
use new_rpc.Base.{
  ℕ, ◌^◌, ◌<◌, ◌≡◌, ◌≢◌, refl, sym, ◌==◌, if◌then◌else◌, List, [], ◌∷◌, ◌++◌, arith, length,
}
use new_rpc.Coroutine.Frame.{Frames, set_link}
use new_rpc.Coroutine.Queue.{CoroutineQueue}

-- The links lead from `p` through `xs` to null.
abbrev pub Chain : Frames → ℕ → List ℕ → Type 0
Chain fr p [] = p ≡ 0
Chain fr p (x ∷ xs) = (p ≡ x) × (x ≢ 0) × Chain fr (fr x).in_queue_link_next xs

abbrev pub Fresh : ℕ → List ℕ → Type 0
Fresh a [] = Unit {0}
Fresh a (x ∷ xs) = (a ≢ x) × Fresh a xs

abbrev pub Distinct : List ℕ → Type 0
Distinct [] = Unit {0}
Distinct (x ∷ xs) = Fresh x xs × Distinct xs

abbrev pub last_of : ℕ → List ℕ → ℕ
last_of d [] = d
last_of d (x ∷ xs) = last_of x xs

-- The queue holds the frames `xs`, in this order; every frame once, none of them null.
pub record IsQueue (fr : Frames) (q : CoroutineQueue) (xs : List ℕ) : Type 0 where
  pub chain : Chain fr q.head xs
  pub tail : q.tail ≡ last_of 0 xs
  pub size : q.size ≡ length xs
  pub distinct : Distinct xs
  pub bounded : length xs < 2 ^ 64

pub link-set_link :
    (fr : Frames) (a v p : ℕ)
    → (set_link fr a v p).in_queue_link_next ≡ (if a == p then v else (fr p).in_queue_link_next)
unfolding set_link
link-set_link fr a v p = ground arith

pub Chain-set_link :
    (fr : Frames) (a v p : ℕ) (xs : List ℕ)
    → Fresh a xs
    → Chain fr p xs
    → Chain (set_link fr a v) p xs
Chain-set_link fr a v p [] f c = c
Chain-set_link fr a v p (x ∷ xs) f c =
    let kept : (set_link fr a v x).in_queue_link_next ≡ (fr x).in_queue_link_next =
      ground (arith, link-set_link fr a v x, f.0) in
    (c.0, c.1, rw kept (Chain-set_link fr a v (fr x).in_queue_link_next xs f.1 c.2))

pub last_of-Fresh : (a x : ℕ) (xs : List ℕ) → Fresh a (x ∷ xs) → a ≢ last_of x xs
last_of-Fresh a x [] f = f.0
last_of-Fresh a x (y ∷ ys) f = last_of-Fresh a y ys f.1

pub last_of-ne_null : (fr : Frames) (p x : ℕ) (xs : List ℕ) → Chain fr p (x ∷ xs) → last_of x xs ≢ 0
last_of-ne_null fr p x [] c = c.1
last_of-ne_null fr p x (y ∷ ys) c = last_of-ne_null fr (fr x).in_queue_link_next y ys c.2

-- The last frame's link is set to a frame that ends the chain.
pub Chain-snoc :
    (fr : Frames) (p x : ℕ) (xs : List ℕ) (a : ℕ)
    → Chain fr p (x ∷ xs)
    → Distinct (x ∷ xs)
    → Fresh a (x ∷ xs)
    → a ≢ 0
    → (fr a).in_queue_link_next ≡ 0
    → Chain (set_link fr (last_of x xs) a) p (x ∷ (xs ++ (a ∷ [])))
Chain-snoc fr p x [] a c d f h e =
    let here : (set_link fr x a x).in_queue_link_next ≡ a =
      ground (arith, link-set_link fr x a x) in
    let there : (set_link fr x a a).in_queue_link_next ≡ 0 =
      ground (arith, link-set_link fr x a a, f.0) in
    (c.0, c.1, (here, h, there))
Chain-snoc fr p x (y ∷ ys) a c d f h e =
    let last = last_of y ys in
    let kept : (set_link fr last a x).in_queue_link_next ≡ (fr x).in_queue_link_next =
      ground (arith, link-set_link fr last a x, last_of-Fresh x y ys d.0) in
    (c.0, c.1, rw kept (Chain-snoc fr (fr x).in_queue_link_next y ys a c.2 d.1 f.1 h e))

pub Fresh-snoc : (b : ℕ) (xs : List ℕ) (a : ℕ) → Fresh b xs → b ≢ a → Fresh b (xs ++ (a ∷ []))
Fresh-snoc b [] a f h = (h, tt)
Fresh-snoc b (x ∷ xs) a f h = (f.0, Fresh-snoc b xs a f.1 h)

pub Distinct-snoc : (xs : List ℕ) (a : ℕ) → Distinct xs → Fresh a xs → Distinct (xs ++ (a ∷ []))
Distinct-snoc [] a d f = (tt, tt)
Distinct-snoc (x ∷ xs) a d f =
    (Fresh-snoc x xs a d.0 (λ e. f.0 (sym e)), Distinct-snoc xs a d.1 f.1)

pub last_of-snoc : (d : ℕ) (xs : List ℕ) (a : ℕ) → last_of d (xs ++ (a ∷ [])) ≡ a
last_of-snoc d [] a = refl
last_of-snoc d (x ∷ xs) a = last_of-snoc x xs a
