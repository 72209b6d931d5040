-- ===== src/Coroutine/Fairness.antt =====
-- The loop of a worker thread, `CoroScheduler::loop_` of coroutine_framework/scheduler.cpp, over several
-- rounds: who is resumed when.
use new_rpc.Base.{
  ℕ, suc, ◌+◌, ◌^◌, ◌<◌, ◌≡◌, ◌≢◌, refl, ◌∙◌, true, false, List, [], ◌∷◌, ◌++◌, append-nil,
  append_assoc, arith, length,
}
use new_rpc.Serialization.Memory.{Result, ok, thrown, undefined, aborted, ◌>>=◌}
use new_rpc.Coroutine.Queue.{CoroutineQueue, empty_queue}
use new_rpc.Coroutine.Chain.{Fresh, IsQueue}
use new_rpc.Coroutine.Fifo.{append_to_tail-IsQueue}
use new_rpc.Coroutine.Scheduler.{
  Scheduler, commit_frame, co_suspend, goes_on, worker_round, worker_rounds,
}
use new_rpc.Coroutine.Rounds.{worker_round-IsQueue}

-- The first list is what is left of the second when some of its members are dropped.
pub data Left : List ℕ → List ℕ → Type 0 where
  nothing : Left [] []
  dropped : {x : ℕ} {ys xs : List ℕ} → Left ys xs → Left ys (x ∷ xs)
  kept : {x : ℕ} {ys xs : List ℕ} → Left ys xs → Left (x ∷ ys) (x ∷ xs)

Left-append : {ts us ys xs : List ℕ} → Left ts us → Left ys xs → Left (ts ++ ys) (us ++ xs)
Left-append nothing l = l
Left-append (dropped k) l = dropped (Left-append k l)
Left-append (kept k) l = kept (Left-append k l)

-- Whatever a resumed coroutine does, it comes to a suspension; the coroutines that are ready stay so,
-- in order, and it is itself behind them or is not ready. It does not stop the scheduler.
abbrev pub GivesWay : (Scheduler → ℕ → Result Scheduler) → Type 0
GivesWay resume =
    (s : Scheduler) (p : ℕ) (xs : List ℕ)
    → IsQueue s.frames s.coroutine_queue xs
    → Fresh p xs
    → p ≢ 0
    → (s.frames p).in_queue_link_next ≡ 0
    → length xs + 1 < 2 ^ 64
    → (s' : Scheduler) × (ts : List ℕ) × (resume s p ≡ ok s')
      × IsQueue s'.frames s'.coroutine_queue (xs ++ ts)
      × Left ts (p ∷ [])
      × (s'.stop_flag ≡ s.stop_flag)

-- A coroutine that awaits `co_suspend`.
pub co_suspend-GivesWay : GivesWay co_suspend
unfolding co_suspend commit_frame
co_suspend-GivesWay s p xs v f h e room =
    let (fr, q, done, longer) =
      append_to_tail-IsQueue s.frames s.coroutine_queue xs p v f h e room in
    (
      record s { frames = fr; coroutine_queue = q },
      p ∷ [],
      rw done refl,
      longer,
      kept nothing,
      refl,
    )

pub worker_rounds-suc :
    (resume : Scheduler → ℕ → Result Scheduler) (rounds : ℕ) (s : Scheduler)
    (ready : CoroutineQueue)
    → goes_on s ≡ true
    → worker_rounds resume (suc rounds) s ready
      ≡ (worker_round resume s ready >>= λ (s', ready'). worker_rounds resume rounds s' ready')
unfolding worker_rounds
worker_rounds-suc resume rounds s ready on = rw on refl

goes_on-started : (s : Scheduler) → s.stop_flag ≡ false → goes_on s ≡ true
unfolding goes_on
goes_on-started s on = rw on refl

no_more :
    (resume : Scheduler → ℕ → Result Scheduler) (r : Result Scheduler) (ready : CoroutineQueue)
    (last : Result (Scheduler × CoroutineQueue))
    → last ≡ (r >>= λ s'. ok (s', ready))
    → (last >>= λ (s', ready'). worker_rounds resume 0 s' ready') ≡ (r >>= λ s'. ok (s', ready))
unfolding worker_rounds
no_more resume (ok s) ready last e = rw e refl
no_more resume (thrown x) ready last e = rw e refl
no_more resume undefined ready last e = rw e refl
no_more resume aborted ready last e = rw e refl

-- No coroutine starves: a worker thread resumes the coroutine that has `front` ahead of it in the
-- round after theirs, whatever those do, as long as each gives way. At that time the coroutines that
-- were behind it are ready, in order, and behind them those of `front` that are ready again, in
-- order, and it is in no queue itself. The scheduler has not been stopped.
pub worker_rounds-fair :
    (resume : Scheduler → ℕ → Result Scheduler) (s : Scheduler) (front : List ℕ) (x : ℕ)
    (back : List ℕ)
    → GivesWay resume
    → s.stop_flag ≡ false
    → IsQueue s.frames s.coroutine_queue (front ++ (x ∷ back))
    → (s' : Scheduler) × (again : List ℕ) × (worker_rounds resume (suc (length front)) s empty_queue
        ≡ (resume s' x >>= λ s''. ok (s'', empty_queue)))
      × IsQueue s'.frames s'.coroutine_queue (back ++ again)
      × ((s'.frames x).in_queue_link_next ≡ 0)
      × Left again front
worker_rounds-fair resume s [] x back g on v =
    let (fr, q, round, rest, free) = worker_round-IsQueue resume s x back v in
    let s' = record s { frames = fr; coroutine_queue = q } in
    (
      s',
      [],
      worker_rounds-suc resume 0 s empty_queue (goes_on-started s on)
          ∙ no_more resume (resume s' x) empty_queue (worker_round resume s empty_queue) round,
      rw (append-nil back) rest,
      free,
      nothing,
    )
worker_rounds-fair resume s (y ∷ ys) x back g on v =
    let (fr, q, round, rest, free) = worker_round-IsQueue resume s y (ys ++ (x ∷ back)) v in
    let s1 = record s { frames = fr; coroutine_queue = q } in
    let (s2, ts, resumed, queued, left, flag) =
      g s1 y (ys ++ (x ∷ back)) rest v.distinct.0 v.chain.1 free (omega (arith, v.bounded)) in
    let longer : IsQueue s2.frames s2.coroutine_queue (ys ++ (x ∷ (back ++ ts))) =
      rw (append_assoc ys (x ∷ back) ts) at queued in
    let (s', again, rounds, rest', free', left') =
      worker_rounds-fair resume s2 ys x (back ++ ts) g (flag ∙ on) longer in
    (
      s',
      ts ++ again,
      worker_rounds-suc resume (suc (length ys)) s empty_queue (goes_on-started s on)
          ∙ rw (round, resumed) rounds,
      rw (append_assoc back ts again) at rest',
      free',
      Left-append left left',
    )
