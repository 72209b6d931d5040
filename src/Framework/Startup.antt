-- ===== src/Framework/Startup.antt =====
-- What `CoroScheduler::start` leaves, on every way out of it.
use new_rpc.Base.{
  ℕ, zero, suc, ◌+◌, ◌≤◌, ◌<◌, ◌≡◌, refl, inl, inr, ◌⊎◌, true, false, Bool-cases, List, [], ◌∷◌,
  ◌++◌, length, length-append, sym, ap, arith,
}
use mathlib.Core.Path.{subst}
use new_rpc.Framework.Threads.{Thread, running, time_start, net_start, net_start_failed}
use new_rpc.Framework.Lifecycle.{
  Framework, make_framework, destroy, Machine, Started, started, failed, hangs, make_workers,
  start_failed, start_workers, start_net, start,
}
use new_rpc.Framework.Shutdown.{
  is_running, IsStill, shut_down, shut_down-IsStill, destroy-shut_down,
}

abbrev pub AllRunning : List Thread → Type 0
AllRunning [] = Unit {0}
AllRunning (t ∷ ts) = (is_running t ≡ true) × AllRunning ts

-- Everything that `start` asks for is there.
pub record Suffices (e : Machine) (wanted : ℕ) : Type 0 where
  pub time_thread : e.makes_time_thread ≡ true
  pub net_thread : e.makes_net_thread ≡ true
  pub port : e.port_opens ≡ true
  pub worker_threads : wanted ≤ e.makes_workers

-- A thread is missing, and `start` gets as far as noticing it.
abbrev pub LacksThread : Machine → ℕ → Type 0
LacksThread e wanted =
    (e.makes_time_thread ≡ false)
    ⊎ ((e.makes_net_thread ≡ false) ⊎ ((e.port_opens ≡ true) × (e.makes_workers < wanted)))

pub record IsRunning (wanted : ℕ) (f : Framework) : Type 0 where
  pub time_runs : is_running f.time_module.loop_thread ≡ true
  pub net_runs : is_running f.net_module.thread ≡ true
  pub workers_run : AllRunning f.workers
  pub as_many : length f.workers ≡ wanted
  pub not_stopped : f.stop_flag ≡ false

-- What each way out means for the machine and for the threads.
abbrev pub Fits : Machine → ℕ → Started → Type 0
Fits e wanted (started f) = Suffices e wanted × IsRunning wanted f × (f.tls_set ≡ false)
Fits e wanted (failed f) = LacksThread e wanted × IsStill f × (f.tls_set ≡ false)
Fits e wanted hangs =
    (e.makes_time_thread ≡ true) × (e.makes_net_thread ≡ true) × (e.port_opens ≡ false)

AllRunning-append : (ts us : List Thread) → AllRunning ts → AllRunning us → AllRunning (ts ++ us)
AllRunning-append [] us h k = k
AllRunning-append (t ∷ ts) us (h, hs) k = (h, AllRunning-append ts us hs k)

-- What the loop leaves, and what its result says.
make_workers_lem :
    (wanted available : ℕ) (ts : List Thread)
    → AllRunning ts
    → AllRunning (make_workers wanted available ts).0
      × ((((make_workers wanted available ts).1 ≡ true)
            × (wanted ≤ available)
            × (length (make_workers wanted available ts).0 ≡ length ts + wanted))
          ⊎ (((make_workers wanted available ts).1 ≡ false) × (available < wanted)))
unfolding make_workers
make_workers_lem zero available ts r = (r, inl (refl, omega arith, omega arith))
make_workers_lem (suc wanted) zero ts r = (r, inr (refl, omega arith))
make_workers_lem (suc wanted) (suc available) ts r =
    let (all, rest) =
      make_workers_lem wanted available (ts ++ (running ∷ []))
        (AllRunning-append ts (running ∷ []) r (refl, tt)) in
    (all, ground (arith, rest, length-append ts (running ∷ [])))

start_failed-shut_down :
    (f : Framework)
    → f.running_coro_cnt ≡ 0
    → start_failed f ≡ failed (record (shut_down f) { tls_set = false })
unfolding start_failed destroy
start_failed-shut_down f h = ground (arith, destroy-shut_down f h)

start_failed-Fits :
    (e : Machine) (wanted : ℕ) (f : Framework)
    → f.running_coro_cnt ≡ 0
    → LacksThread e wanted
    → Fits e wanted (start_failed f)
start_failed-Fits e wanted f h l =
    subst (Fits e wanted) (sym (start_failed-shut_down f h)) (l, still f, refl)
  where
    still : (g : Framework) → IsStill (record (shut_down g) { tls_set = false })
    still g =
        let s = shut_down-IsStill g in
        record {
          time_still = s.time_still;
          net_still = s.net_still;
          workers_still = s.workers_still;
        }

-- The two services run, and no worker has been made.
record ServicesRun (f : Framework) : Type 0 where
  time_runs : is_running f.time_module.loop_thread ≡ true
  net_runs : is_running f.net_module.thread ≡ true
  no_worker : f.workers ≡ []
  no_coroutine : f.running_coro_cnt ≡ 0

start_workers-Fits :
    (e : Machine) (f : Framework)
    → e.makes_time_thread ≡ true
    → e.makes_net_thread ≡ true
    → e.port_opens ≡ true
    → ServicesRun f
    → Fits e f.worker_thread_num (start_workers e f)
unfolding start_workers
start_workers-Fits e f ht hn hp r =
    let made = make_workers_lem f.worker_thread_num e.makes_workers f.workers (rw r.no_worker tt) in
    elim made.1 [
      | inl (all, enough, count) ↦ rw all (
        record { time_thread = ht; net_thread = hn; port = hp; worker_threads = enough },
        record {
          time_runs = r.time_runs;
          net_runs = r.net_runs;
          workers_run = made.0;
          as_many = omega (arith, count, ap length r.no_worker);
          not_stopped = refl;
        },
        refl,
      )
      | inr (few, lacks) ↦ rw few (
          start_failed-Fits e f.worker_thread_num
            (record f {
              stop_flag = false;
              workers = (make_workers f.worker_thread_num e.makes_workers f.workers).0;
            })
            r.no_coroutine (inr (inr (hp, lacks))))
    ]

start_net-Fits :
    (e : Machine) (f : Framework)
    → e.makes_time_thread ≡ true
    → is_running f.time_module.loop_thread ≡ true
    → f.workers ≡ []
    → f.running_coro_cnt ≡ 0
    → Fits e f.worker_thread_num (start_net e f)
unfolding start_net
start_net-Fits e f ht time none_made idle = elim (Bool-cases e.makes_net_thread) [
  | inl hn ↦ elim (Bool-cases e.port_opens) [
    | inl hp ↦
        simp (hn, hp, net_start)
          (start_workers-Fits e
            (record f { net_module = record f.net_module { stop_flag = false; thread = running } })
            ht hn hp
            (record {
              time_runs = time;
              net_runs = refl;
              no_worker = none_made;
              no_coroutine = idle;
            }))
    | inr hp ↦ simp (hn, hp, net_start) (ht, refl, refl)
  ]
  | inr hn ↦ simp hn (
      start_failed-Fits e f.worker_thread_num
        (record f { net_module = net_start_failed f.net_module }) idle (inr (inl hn)))
]

-- Each way out of `start` for a new scheduler. If it returns, both services' threads and all workers
-- can be made and the port opens, all threads are in their loops, there are as many workers as wanted
-- and the scheduler is not stopped. If it throws, a thread is missing and `start` gets as far as
-- noticing it, and no thread is in its loop. If it never comes back, the two services' threads can be
-- made but the port cannot be opened. When it returns or throws, the thread-local pointers are null.
pub start-Fits : (e : Machine) (wanted : ℕ) → Fits e wanted (start e (make_framework wanted))
unfolding start make_framework
start-Fits e wanted = elim (Bool-cases e.makes_time_thread) [
  | inl ht ↦ simp ht (
      start_net-Fits e
        (record (make_framework wanted) {
          tls_set = true;
          time_module = time_start (make_framework wanted).time_module;
        })
        ht refl refl refl)
  | inr ht ↦
      simp ht (inl refl, record { time_still = refl; net_still = refl; workers_still = tt }, refl)
]
