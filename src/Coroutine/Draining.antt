-- ===== src/Coroutine/Draining.antt =====
-- The end of `CoroScheduler::loop_` of coroutine_framework/scheduler.cpp after `stop`.
use mathlib.Core.Path.{subst}
use new_rpc.Base.{
  ℕ, zero, suc, ◌+◌, ◌^◌, ◌<◌, ◌≡◌, ◌≢◌, refl, sym, ap, ◌∙◌, true, false, List, [], ◌∷◌, arith,
  length,
}
use new_rpc.Serialization.Memory.{Result, ok, ◌>>=◌, Endian}
use new_rpc.Serialization.Types.{Ty, Val}
use new_rpc.Coroutine.Frame.{LinkedCoroutine, Frames, set_link}
use new_rpc.Coroutine.Queue.{empty_queue}
use new_rpc.Coroutine.Chain.{Fresh, IsQueue}
use new_rpc.Coroutine.Unlink.{Apart}
use new_rpc.Coroutine.Fetching.{KeepsAllButLinks, KeepsAllButLinks-set_link}
use new_rpc.Coroutine.Parting.{IsQueue-KeepsLinks}
use new_rpc.Coroutine.Task.{final_suspend, response_of}
use new_rpc.Coroutine.Scheduler.{Scheduler, goes_on, worker_rounds}
use new_rpc.Coroutine.Rounds.{taken, worker_round_lem}
use new_rpc.Coroutine.Fairness.{worker_rounds-suc}
use new_rpc.Coroutine.Ending.{CanAnswer, final_suspend-root}

-- The frame `f` at `p` is a root that calls no other coroutine and will return `v`.
abbrev pub IsRoot : (port : ℕ) (t : Ty) → Val t → (p : ℕ) → LinkedCoroutine → Type 0
IsRoot port t v p f =
    (f.next ≡ p)
    × (f.prev ≡ p)
    × (f.has_running_cnt ≡ true)
    × (0 < f.ref_cnt)
    × (f.ref_cnt < 2 ^ 64)
    × CanAnswer port t v (response_of f.coro_local_var)

abbrev pub AreRoots : (port : ℕ) (t : Ty) → (ℕ → Val t) → Frames → List ℕ → Type 0
AreRoots port t results fr [] = Unit {0}
AreRoots port t results fr (x ∷ xs) =
    IsRoot port t (results x) x (fr x) × AreRoots port t results fr xs

-- A coroutine that returns `results p` when the frame `p` is resumed.
abbrev pub returning : Endian → (port : ℕ) (t : Ty) → (ℕ → Val t) → Scheduler → ℕ → Result Scheduler
returning e port t results s p =
    final_suspend e port t (results p) s.frames p s.running_coro_cnt >>= λ end.
    ok (record s { frames = end.frames; running_coro_cnt = end.running })

KeepsAllButLinks-taken : (fr : Frames) (x : ℕ) → KeepsAllButLinks fr (taken fr x)
KeepsAllButLinks-taken fr x p =
    KeepsAllButLinks-set_link (set_link fr x 0) x 0 p ∙ KeepsAllButLinks-set_link fr x 0 p

IsRoot-taken :
    (port : ℕ) (t : Ty) (v : Val t) (fr : Frames) (x p : ℕ)
    → IsRoot port t v p (fr p)
    → IsRoot port t v p (taken fr x p)
IsRoot-taken port t v fr x p root =
    subst (IsRoot port t v p) (sym (KeepsAllButLinks-taken fr x p)) root

AreRoots-taken :
    (port : ℕ) (t : Ty) (results : ℕ → Val t) (fr : Frames) (x : ℕ) (xs : List ℕ)
    → AreRoots port t results fr xs
    → AreRoots port t results (taken fr x) xs
AreRoots-taken port t results fr x [] roots = tt
AreRoots-taken port t results fr x (y ∷ ys) roots =
    (IsRoot-taken port t (results y) fr x y roots.0, AreRoots-taken port t results fr x ys roots.1)

AreRoots-others :
    (port : ℕ) (t : Ty) (results : ℕ → Val t) (fr fr' : Frames) (x : ℕ) (xs : List ℕ)
    → ((p : ℕ) → x ≢ p → fr' p ≡ fr p)
    → Fresh x xs
    → AreRoots port t results fr xs
    → AreRoots port t results fr' xs
AreRoots-others port t results fr fr' x [] same f roots = tt
AreRoots-others port t results fr fr' x (y ∷ ys) same f roots =
    (rw (same y f.0) (roots.0), AreRoots-others port t results fr fr' x ys same f.1 roots.1)

Apart-one : (x : ℕ) (ys : List ℕ) → Fresh x ys → Apart ys (x ∷ [])
Apart-one x [] f = tt
Apart-one x (y ∷ ys) f = (((λ e. f.0 (sym e)), tt), Apart-one x ys f.1)

ended :
    (k : ℕ) (resume : Scheduler → ℕ → Result Scheduler) (s : Scheduler)
    → goes_on s ≡ false
    → worker_rounds resume k s empty_queue ≡ ok (s, empty_queue)
unfolding worker_rounds
ended zero resume s e = refl
ended (suc k) resume s e = rw e refl

-- After `stop` the loop of a worker thread ends: each coroutine that is ready runs to its end, in
-- as many rounds as there are coroutines, then nothing is ready, no root counts as running, and the
-- condition of the loop is false, so that any rounds more change nothing. The ready coroutines are
-- all that are running; each is a root alone in its chain, takes part in the count, has between 1 and
-- 2 ^ 64 - 1 references, and returns when it is resumed, a result that can be sent if it answers a
-- request.
pub worker_rounds-drained :
    (e : Endian) (port : ℕ) (t : Ty) (results : ℕ → Val t) (s : Scheduler) (xs : List ℕ)
    → s.stop_flag ≡ true
    → IsQueue s.frames s.coroutine_queue xs
    → AreRoots port t results s.frames xs
    → s.running_coro_cnt ≡ length xs
    → (s' : Scheduler) × ((k : ℕ)
        → worker_rounds (returning e port t results) (k + length xs) s empty_queue
          ≡ ok (s', empty_queue))
      × IsQueue s'.frames s'.coroutine_queue []
      × (s'.running_coro_cnt ≡ 0)
      × (goes_on s' ≡ false)
worker_rounds-drained e port t results s [] off v roots count =
    let over : goes_on s ≡ false = unfold goes_on in rw (off, count) refl in
    (s, (λ k. ended (k + 0) (returning e port t results) s over), v, count, over)
worker_rounds-drained e port t results s (x ∷ xs) off v roots count =
    let resume = returning e port t results in
    let on : goes_on s ≡ true = unfold goes_on in ground (arith, off, count) in
    let one_more : (k : ℕ) → k + length (x ∷ xs) ≡ suc (k + length xs) = λ k. omega arith in
    let (q, round, rest) = worker_round_lem resume s x xs v in
    let fr = taken s.frames x in
    let (next, prev, marked, held, small, can) : IsRoot port t (results x) x (fr x) =
      IsRoot-taken port t (results x) s.frames x x roots.0 in
    let (end, done, sent, notified, fewer, last) =
      final_suspend-root e port t (results x) fr x s.running_coro_cnt
        (record { linked = (next, prev); distinct = (tt, tt) }) marked held small
        (omega (arith, count)) (omega (arith, count, v.bounded)) can in
    let s1 = record s {
      frames = end.frames;
      coroutine_queue = q;
      running_coro_cnt = end.running;
    } in
    let queued : IsQueue end.frames q xs =
      IsQueue-KeepsLinks fr end.frames (x ∷ []) q xs
        (λ p other none.
          ap (λ (f : LinkedCoroutine). f.in_queue_link_next)
            (last.others p (λ same. other.0 (sym same))))
        (Apart-one x xs v.distinct.0) rest in
    let roots1 =
      AreRoots-others port t results fr end.frames x xs last.others v.distinct.0
        (AreRoots-taken port t results s.frames x xs roots.1) in
    let (s', rounds, none_ready, none_running, over) =
      worker_rounds-drained e port t results s1 xs off queued roots1
        (omega (arith, fewer, count)) in
    (
      s',
      (λ k.
          ap (λ n. worker_rounds resume n s empty_queue) (one_more k)
          ∙ worker_rounds-suc resume (k + length xs) s empty_queue on
          ∙ rw (round, done) (rounds k)),
      none_ready,
      none_running,
      over,
    )
