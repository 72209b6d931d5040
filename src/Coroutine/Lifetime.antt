-- ===== src/Coroutine/Lifetime.antt =====
-- References to a frame: the handles that count it, and when it is destroyed.
use new_rpc.Base.{
  ℕ, ◌+◌, ◌-◌, ◌^◌, ◌<◌, ◌≡◌, refl, ap, Bool, false, ◌||◌, List, [], ◌∷◌, arith, length,
}
use new_rpc.Coroutine.Frame.{LinkedCoroutine, Frames, make_frame}
use new_rpc.Coroutine.Task.{release, acquire}

-- A handle is copied or committed, or a handle or the running coroutine gives its reference up.
pub data RefOp : Type 0 where
  acquires releases : RefOp

-- Whether any release destroys the frame, and the frames afterwards.
pub run_refs : Frames → ℕ → List RefOp → Frames × Bool
unfolding release acquire
run_refs fr p [] = (fr, false)
run_refs fr p (acquires ∷ ops) = run_refs (acquire fr p) p ops
run_refs fr p (releases ∷ ops) =
    let (fr', destroyed) = release fr p in
    let (fr'', later) = run_refs fr' p ops in (fr'', destroyed || later)

-- With `n` references held, each release gives up one that is held.
abbrev pub IsBalanced : ℕ → List RefOp → Type 0
IsBalanced n [] = Unit {0}
IsBalanced n (acquires ∷ ops) = IsBalanced (n + 1) ops
IsBalanced n (releases ∷ ops) = (0 < n) × IsBalanced (n - 1) ops

-- The references that are held at the end.
abbrev pub held : ℕ → List RefOp → ℕ
held n [] = n
held n (acquires ∷ ops) = held (n + 1) ops
held n (releases ∷ ops) = held (n - 1) ops

release_lem :
    (fr : Frames) (p n : ℕ)
    → (fr p).ref_cnt ≡ n
    → 0 < n
    → n < 2 ^ 64
    → ((release fr p).1 ≡ false) × (((release fr p).0 p).ref_cnt ≡ n - 1)
unfolding release
release_lem fr p n e h small = ground arith

acquire_lem :
    (fr : Frames) (p n : ℕ) → (fr p).ref_cnt ≡ n → n + 1 < 2 ^ 64 → (acquire fr p p).ref_cnt ≡ n + 1
unfolding acquire
acquire_lem fr p n e small = ground arith

refs_counted :
    (fr : Frames) (p n : ℕ) (ops : List RefOp)
    → (fr p).ref_cnt ≡ n
    → IsBalanced n ops
    → n + length ops < 2 ^ 64
    → ((run_refs fr p ops).1 ≡ false) × (((run_refs fr p ops).0 p).ref_cnt ≡ held n ops)
unfolding run_refs
refs_counted fr p n [] e b small = (refl, e)
refs_counted fr p n (acquires ∷ ops) e b small =
    refs_counted (acquire fr p) p (n + 1) ops (acquire_lem fr p n e (omega arith)) b (omega arith)
refs_counted fr p n (releases ∷ ops) e b small =
    let (kept, count) = release_lem fr p n e b.0 (omega arith) in
    let (later, end) = refs_counted (release fr p).0 p (n - 1) ops count b.1 (omega arith) in
    (rw (kept, later) refl, end)

-- A frame starts with one reference, and while every release gives up a reference that is held, its
-- count is the number of references held; but no release destroys it, not even the one that gives
-- up the last reference, since `dec` returns the count before the subtraction.
pub run_refs-make_frame :
    (fr : Frames) (p : ℕ) (ops : List RefOp)
    → fr p ≡ make_frame p
    → IsBalanced 1 ops
    → 1 + length ops < 2 ^ 64
    → ((run_refs fr p ops).1 ≡ false) × (((run_refs fr p ops).0 p).ref_cnt ≡ held 1 ops)
unfolding make_frame
run_refs-make_frame fr p ops e b small =
    refs_counted fr p 1 ops (ap (λ (x : LinkedCoroutine). x.ref_cnt) e) b small
