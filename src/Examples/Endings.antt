-- ===== src/Examples/Endings.antt =====
-- A scheduler that has been stopped, with two coroutines that are still to run.
use new_rpc.Base.{ℕ, ◌+◌, ◌≡◌, refl, true, false, ◌∷◌, [], arith}
use new_rpc.Serialization.Memory.{ok, little}
use new_rpc.Serialization.Types.{fundamental}
use new_rpc.Coroutine.Frame.{Frames, make_frame, set_link}
use new_rpc.Coroutine.Queue.{empty_queue}
use new_rpc.Coroutine.Chain.{IsQueue}
use new_rpc.Coroutine.Scheduler.{Scheduler, goes_on, worker_rounds}
use new_rpc.Coroutine.Draining.{returning, worker_rounds-drained}

-- Roots that a scheduler counts, frame 1 ahead of frame 2.
abbrev frames : Frames
frames = set_link (λ p. record (make_frame p) { has_running_cnt = true }) 1 2

abbrev stopping : Scheduler
stopping = record {
  frames = frames;
  coroutine_queue = record { head = 1; tail = 2; size = 2 };
  stop_flag = true;
  running_coro_cnt = 2;
}

stopping-IsQueue : IsQueue frames stopping.coroutine_queue (1 ∷ 2 ∷ [])
unfolding make_frame set_link
stopping-IsQueue = record {
  chain = (refl, (λ h. absurd (omega arith)), (refl, (λ h. absurd (omega arith)), refl));
  tail = refl;
  size = refl;
  distinct = (((λ h. absurd (omega arith)), tt), (tt, tt));
  bounded = omega arith;
}

-- Each of them returns its address.
worker_rounds-drained_example :
    (s' : Scheduler) × ((k : ℕ)
      → worker_rounds (returning little 9000 (fundamental 8) (λ p. p)) (k + 2) stopping empty_queue
        ≡ ok (s', empty_queue))
    × IsQueue s'.frames s'.coroutine_queue []
    × (s'.running_coro_cnt ≡ 0)
    × (goes_on s' ≡ false)
unfolding make_frame set_link
worker_rounds-drained_example =
    worker_rounds-drained little 9000 (fundamental 8) (λ p. p) stopping (1 ∷ 2 ∷ []) refl
      stopping-IsQueue
      (
        (refl, refl, refl, omega arith, omega arith, tt),
        ((refl, refl, refl, omega arith, omega arith, tt), tt),
      )
      refl
