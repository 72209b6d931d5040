-- ===== src/Coroutine/Rounds.antt =====
-- The order in which the scheduler resumes coroutines.
use new_rpc.Base.{ℕ, ◌≡◌, ◌≢◌, refl, true, false, ◌==◌, ==_iff, List, [], ◌∷◌, arith}
use new_rpc.Serialization.Memory.{Result, ok, ◌>>=◌}
use new_rpc.Coroutine.Frame.{Frames, set_link, put_frame}
use new_rpc.Coroutine.Queue.{CoroutineQueue, empty_queue, is_empty, append_to_tail, pop_from_head}
use new_rpc.Coroutine.Chain.{Fresh, Chain, IsQueue, link-set_link, Chain-set_link}
use new_rpc.Coroutine.Fifo.{pop_from_head_lem}
use new_rpc.Coroutine.Task.{acquire}
use new_rpc.Coroutine.Scheduler.{Scheduler, worker_round}

-- A queue of one frame.
abbrev pub singleton : ℕ → CoroutineQueue
singleton x = record { head = x; tail = x; size = 1 }

append_to_empty :
    (fr : Frames) (x : ℕ)
    → x ≢ 0
    → (fr x).in_queue_link_next ≡ 0
    → append_to_tail fr empty_queue x ≡ ok (fr, singleton x)
unfolding append_to_tail is_empty
append_to_empty fr x h e =
    let nonnull : (x == 0) ≡ false = ground (arith, h) in
    let free : ((fr x).in_queue_link_next == 0) ≡ true = (==_iff _ 0).1 e in rw (nonnull, free)

pop_from_singleton :
    (fr : Frames) (x : ℕ)
    → x ≢ 0
    → (fr x).in_queue_link_next ≡ 0
    → pop_from_head fr (singleton x) ≡ ok (set_link fr x 0, empty_queue, x)
unfolding pop_from_head
pop_from_singleton fr x h e =
    let nonnull : (x == 0) ≡ false = ground (arith, h) in
    let same : (x == x) ≡ true = (==_iff x x).1 refl in
    let free : ((fr x).in_queue_link_next == 0) ≡ true = (==_iff _ 0).1 e in
    rw (nonnull, same, free)

pub IsQueue-set_link :
    (fr : Frames) (q : CoroutineQueue) (a v : ℕ) (xs : List ℕ)
    → Fresh a xs
    → IsQueue fr q xs
    → IsQueue (set_link fr a v) q xs
IsQueue-set_link fr q a v xs f c = record {
  chain = Chain-set_link fr a v q.head xs f c.chain;
  tail = c.tail;
  size = c.size;
  distinct = c.distinct;
  bounded = c.bounded;
}

-- The frames when `x` has come off the scheduler's queue and off that of the thread.
abbrev pub taken : Frames → ℕ → Frames
taken fr x = set_link (set_link fr x 0) x 0

pub worker_round_lem :
    (resume : Scheduler → ℕ → Result Scheduler) (s : Scheduler) (x : ℕ) (xs : List ℕ)
    → IsQueue s.frames s.coroutine_queue (x ∷ xs)
    → (q' : CoroutineQueue) × (worker_round resume s empty_queue ≡ (
        resume (record s { frames = taken s.frames x; coroutine_queue = q' }) x >>= λ s'.
        ok (s', empty_queue)))
      × IsQueue (taken s.frames x) q' xs
unfolding worker_round is_empty
worker_round_lem resume s x xs v =
    let filled : (s.coroutine_queue.size == 0) ≡ false = ground (arith, v.size) in
    let (q, popped, rest) = pop_from_head_lem s.frames s.coroutine_queue x xs v in
    let fr = set_link s.frames x 0 in
    let free : (fr x).in_queue_link_next ≡ 0 = ground (arith, link-set_link s.frames x 0 x) in
    (
      q,
      rw (
        filled,
        popped,
        append_to_empty fr x v.chain.1 free,
        pop_from_singleton fr x v.chain.1 free,
      ),
      IsQueue-set_link fr q x 0 xs v.distinct.0 rest,
    )

-- A worker thread with nothing of its own resumes exactly one coroutine in a round, the one that has
-- been ready for longest; when it is resumed it is in no queue, and the others are ready in the order
-- in which they came. What the coroutine does is arbitrary.
pub worker_round-IsQueue :
    (resume : Scheduler → ℕ → Result Scheduler) (s : Scheduler) (x : ℕ) (xs : List ℕ)
    → IsQueue s.frames s.coroutine_queue (x ∷ xs)
    → (fr' : Frames) × (q' : CoroutineQueue) × (worker_round resume s empty_queue ≡ (
        resume (record s { frames = fr'; coroutine_queue = q' }) x >>= λ s'. ok (s', empty_queue)))
      × IsQueue fr' q' xs
      × ((fr' x).in_queue_link_next ≡ 0)
worker_round-IsQueue resume s x xs v =
    let (q, round, rest) = worker_round_lem resume s x xs v in
    (taken s.frames x, q, round, rest, ground (arith, link-set_link (set_link s.frames x 0) x 0 x))

pub Chain-links :
    (fr fr' : Frames) (p : ℕ) (xs : List ℕ)
    → ((a : ℕ) → (fr' a).in_queue_link_next ≡ (fr a).in_queue_link_next)
    → Chain fr p xs
    → Chain fr' p xs
Chain-links fr fr' p [] same c = c
Chain-links fr fr' p (x ∷ xs) same c =
    (c.0, c.1, rw (same x) (Chain-links fr fr' (fr x).in_queue_link_next xs same c.2))

-- The frames after the two assignments of `commit`.
abbrev pub marked : Frames → ℕ → Frames
marked fr t = put_frame (acquire fr t) t (record (acquire fr t t) { has_running_cnt = true })

pub link-marked :
    (fr : Frames) (t a : ℕ) → (marked fr t a).in_queue_link_next ≡ (fr a).in_queue_link_next
unfolding acquire
link-marked fr t a = ground arith

pub IsQueue-marked :
    (fr : Frames) (q : CoroutineQueue) (t : ℕ) (xs : List ℕ)
    → IsQueue fr q xs
    → IsQueue (marked fr t) q xs
IsQueue-marked fr q t xs c = record {
  chain = Chain-links fr (marked fr t) q.head xs (link-marked fr t) c.chain;
  tail = c.tail;
  size = c.size;
  distinct = c.distinct;
  bounded = c.bounded;
}
