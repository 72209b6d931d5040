-- ===== src/Framework/Shutdown.antt =====
-- What `~CoroScheduler` leaves of the threads.
use new_rpc.Base.{◌≡◌, refl, Bool, true, false, List, [], ◌∷◌, map, arith, some}
use new_rpc.Framework.Threads.{Thread, not_started, running, joined, join}
use new_rpc.Framework.Lifecycle.{Framework, join_all, destroy}

abbrev pub is_running : Thread → Bool
is_running running = true
is_running not_started = false
is_running joined = false

-- A thread after its loop has ended and it has been waited for.
abbrev pub settled : Thread → Thread
settled not_started = not_started
settled running = joined
settled joined = joined

-- No thread is in its loop.
abbrev pub AllStill : List Thread → Type 0
AllStill [] = Unit {0}
AllStill (t ∷ ts) = (is_running t ≡ false) × AllStill ts

pub record IsStill (f : Framework) : Type 0 where
  pub time_still : is_running f.time_module.loop_thread ≡ false
  pub net_still : is_running f.net_module.thread ≡ false
  pub workers_still : AllStill f.workers

-- The scheduler after `stop` and `wait`.
abbrev pub shut_down : Framework → Framework
shut_down f = record f {
  stop_flag = true;
  time_module = record { stop_flag = true; loop_thread = settled f.time_module.loop_thread };
  net_module = record f.net_module { io_stopped = true; thread = settled f.net_module.thread };
  workers = map settled f.workers;
}

join-true : (t : Thread) → join true t ≡ some (settled t)
unfolding join
join-true not_started = refl
join-true running = refl
join-true joined = refl

join_all-true : (ts : List Thread) → join_all true ts ≡ some (map settled ts)
unfolding join_all
join_all-true [] = refl
join_all-true (not_started ∷ ts) = rw (join_all-true ts)
join_all-true (running ∷ ts) = rw (join_all-true ts)
join_all-true (joined ∷ ts) = rw (join_all-true ts)

settled-is_running : (t : Thread) → is_running (settled t) ≡ false
settled-is_running not_started = refl
settled-is_running running = refl
settled-is_running joined = refl

map-settled-AllStill : (ts : List Thread) → AllStill (map settled ts)
map-settled-AllStill [] = tt
map-settled-AllStill (t ∷ ts) = (settled-is_running t, map-settled-AllStill ts)

pub shut_down-IsStill : (f : Framework) → IsStill (shut_down f)
shut_down-IsStill f = record {
  time_still = settled-is_running f.time_module.loop_thread;
  net_still = settled-is_running f.net_module.thread;
  workers_still = map-settled-AllStill f.workers;
}

-- With no coroutine running, `stop` and then `wait` return.
pub destroy-shut_down : (f : Framework) → f.running_coro_cnt ≡ 0 → destroy f ≡ some (shut_down f)
unfolding destroy
destroy-shut_down f h = ground (
  arith,
  join-true f.time_module.loop_thread,
  join-true f.net_module.thread,
  join_all-true f.workers,
)
