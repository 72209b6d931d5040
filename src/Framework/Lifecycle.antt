-- ===== src/Framework/Lifecycle.antt =====
-- `CoroScheduler::start`, `stop`, `wait` and the destructor, and `GlobalInit`.
use Prim.Native.String.{String}
use new_rpc.Base.{
  ℕ, zero, suc, Bool, true, false, ◌&&◌, List, [], ◌∷◌, ◌++◌, Option, none, some, ◌==◌,
  if◌then◌else◌,
}
use new_rpc.Error.{err_map}
use new_rpc.Framework.Threads.{
  Thread, not_started, running, join, TimeThread, time_start, time_start_failed, time_stop,
  time_wait, NetThread, net_start, net_start_failed, net_stop, net_wait,
}

-- `tls_set` says whether `TLS_SCHEDULER` and `TLS_FRAMEWORK` of the calling thread point to the
-- scheduler.
pub record Framework : Type 0 where
  pub time_module : TimeThread
  pub net_module : NetThread
  pub workers : List Thread
  pub worker_thread_num : ℕ
  pub stop_flag : Bool
  pub running_coro_cnt : ℕ
  pub tls_set : Bool

-- The members' constructors, before the call of `start`.
unfoldable pub make_framework : (worker_thread_num : ℕ) → Framework
make_framework worker_thread_num = record {
  time_module = record { stop_flag = false; loop_thread = not_started };
  net_module = record { stop_flag = true; io_stopped = false; thread = not_started };
  workers = [];
  worker_thread_num = worker_thread_num;
  stop_flag = true;
  running_coro_cnt = 0;
  tls_set = false;
}

unfoldable pub stop : Framework → Framework
unfolding time_stop net_stop
stop f = record f {
  stop_flag = true;
  time_module = time_stop f.time_module;
  net_module = net_stop f.net_module;
}

-- `for (auto &thread : workers_) if (thread.joinable()) thread.join()`
unfoldable pub join_all : (ends : Bool) → List Thread → Option (List Thread)
unfolding join
join_all ends [] = some []
join_all ends (t ∷ ts) = elim (join ends t) [
  | none ↦ none
  | some t' ↦ elim (join_all ends ts) [ none ↦ none | some ts' ↦ some (t' ∷ ts') ]
]

-- A worker's loop ends when the flag is set and no coroutine is running.
unfoldable pub workers_end : Framework → Bool
workers_end f = f.stop_flag && (f.running_coro_cnt == 0)

unfoldable pub wait : Framework → Option Framework
unfolding time_wait net_wait join_all workers_end
wait f = elim (time_wait f.time_module) [
  | none ↦ none
  | some t ↦ elim (net_wait f.net_module) [
    | none ↦ none
    | some n ↦ elim (join_all (workers_end f) f.workers) [
      | none ↦ none
      | some ts ↦ some (record f { time_module = t; net_module = n; workers = ts })
    ]
  ]
]

-- `~CoroScheduler`.
unfoldable pub destroy : Framework → Option Framework
unfolding stop wait
destroy f = wait (stop f)

-- What `start` meets: whether the two services' threads can be made, whether the port opens, and how
-- many worker threads can be made.
pub record Machine : Type 0 where
  pub makes_time_thread : Bool
  pub makes_net_thread : Bool
  pub port_opens : Bool
  pub makes_workers : ℕ

-- `start` returns, throws, or never comes back.
pub data Started : Type 0 where
  started failed : Framework → Started
  hangs : Started

-- The loop that makes the workers, and whether all could be made.
unfoldable pub make_workers : (wanted available : ℕ) → List Thread → List Thread × Bool
make_workers zero available ts = (ts, true)
make_workers (suc wanted) zero ts = (ts, false)
make_workers (suc wanted) (suc available) ts = make_workers wanted available (ts ++ (running ∷ []))

-- The handler: `stop`, `wait`, and the exception goes on.
unfoldable pub start_failed : Framework → Started
unfolding stop wait
start_failed f = elim (wait (stop f)) [
  | none ↦ hangs
  | some f' ↦ failed (record f' { tls_set = false })
]

-- The part of `start` behind the two services.
unfoldable pub start_workers : Machine → Framework → Started
unfolding make_workers start_failed
start_workers e f =
    let (ts, all) = make_workers f.worker_thread_num e.makes_workers f.workers in
    let f' = record f { stop_flag = false; workers = ts } in
    if all then started (record f' { tls_set = false }) else start_failed f'

unfoldable pub start_net : Machine → Framework → Started
unfolding net_start net_start_failed start_workers start_failed
start_net e f =
    let net = elim (net_start e.port_opens f.net_module) as (λ _. Started) [
      | none ↦ hangs
      | some n ↦ start_workers e (record f { net_module = n })
    ] in
    if e.makes_net_thread
    then net
    else start_failed (record f { net_module = net_start_failed f.net_module })

unfoldable pub start : Machine → Framework → Started
unfolding time_start time_start_failed start_net start_failed
start e f =
    let f1 = record f { tls_set = true } in
    if e.makes_time_thread
    then start_net e (record f1 { time_module = time_start f1.time_module })
    else start_failed (record f1 { time_module = time_start_failed f1.time_module })

-- `LogLevel`, and spdlog's levels.
pub data LogLevel : Type 0 where
  trace debug info warn error critical : LogLevel

pub data SpdlogLevel : Type 0 where
  level_trace level_debug level_info level_warn level_err level_critical : SpdlogLevel

-- The `switch` of `Logger::init`.
unfoldable pub spdlog_level : LogLevel → SpdlogLevel
spdlog_level trace = level_trace
spdlog_level debug = level_debug
spdlog_level info = level_info
spdlog_level warn = level_warn
spdlog_level error = level_err
spdlog_level critical = level_critical

-- What is set up once: the logger's level and the messages of the errors.
pub record Globals : Type 0 where
  pub level : Option SpdlogLevel
  pub messages : List (ℕ × String)

-- Before `GlobalInit` there is no logger, and `ERR_MAP_` is empty.
unfoldable pub no_globals : Globals
no_globals = record { level = none; messages = [] }

unfoldable pub global_init : LogLevel → Globals → Globals
unfolding spdlog_level err_map
global_init level g = record { level = some (spdlog_level level); messages = err_map }
