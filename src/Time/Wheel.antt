-- ===== src/Time/Wheel.antt =====
-- `TimeService` of time_module/time_service.h and time_service.cpp, and `co_sleep` of
-- async_action.ipp. The steady clock is read by the environment: each reading is an argument. The
-- scheduler's queue of ready coroutines stands for `TLS_SCHEDULER`.
use Prim.Native.Nat.{bit_and}
use new_rpc.Base.{
  ℕ, zero, suc, ◌+◌, ◌-◌, ◌*◌, ◌/◌, ◌%◌, ◌^◌, Bool, true, false, ◌||◌, Option, none, some, leb,
  ◌==◌, if◌then◌else◌,
}
use new_rpc.Serialization.Memory.{Result, ok, undefined, ◌>>=◌}
use new_rpc.Coroutine.Frame.{LinkedCoroutine, Frames, put_frame, sync_release}
use new_rpc.Coroutine.Queue.{
  CoroutineQueue, empty_queue, append_to_tail, pop_from_head, fetch_nodes,
}

-- BUCKET_NUM
abbrev pub bucket_num : ℕ
bucket_num = 4096

pub record TimeWheelBucket : Type 0 where
  pub scan_over_ts : ℕ
  pub waiting_queue : CoroutineQueue

pub record TimeService : Type 0 where
  pub stop_flag : Bool
  pub precision : ℕ
  pub start_bucket_run_ts : ℕ
  pub buckets : ℕ → TimeWheelBucket

-- `TimeService(precision)`, at the time `now`.
unfoldable pub make_service : (precision now : ℕ) → TimeService
make_service precision now = record {
  stop_flag = false;
  precision = precision;
  start_bucket_run_ts = now;
  buckets = λ idx. record { scan_over_ts = 0; waiting_queue = empty_queue };
}

-- The frames, the wheel and the queue of the scheduler.
pub record World : Type 0 where
  pub frames : Frames
  pub service : TimeService
  pub ready : CoroutineQueue

abbrev pub put_bucket : World → ℕ → TimeWheelBucket → World
put_bucket w idx b = record w {
  service = record w.service { buckets = λ i. if idx == i then b else w.service.buckets i };
}

-- `TLS_SCHEDULER->commit(frame)`
unfoldable pub commit : World → (frame : ℕ) → Result World
commit w frame =
    append_to_tail w.frames w.ready frame >>= λ (fr, q). ok (record w { frames = fr; ready = q })

-- `coro_local_var_->wake_up_ts_`
unfoldable pub wake_up_ts : LinkedCoroutine → Result ℕ
wake_up_ts x = elim x.coro_local_var [ none ↦ undefined | some locals ↦ ok locals.wake_up_ts ]

-- The bucket for a time after the start of the round: the number of whole periods, rounded up.
-- (The precision is not 0: `TimeService` is made with a fixed one.)
unfoldable pub calculated_bucket_idx : (precision start wake : ℕ) → ℕ
calculated_bucket_idx precision start wake = (wake - start - 1) / precision + 1

unfoldable pub real_bucket_idx : (precision start wake : ℕ) → ℕ
unfolding calculated_bucket_idx
real_bucket_idx precision start wake =
    bit_and (calculated_bucket_idx precision start wake) (bucket_num - 1)

-- The critical section on a bucket: `true` if the bucket has been scanned too late for the frame.
unfoldable pub enter_bucket : World → (idx wake frame : ℕ) → Result (World × Bool)
enter_bucket w idx wake frame =
    let bucket = w.service.buckets idx in
    let entered = append_to_tail w.frames bucket.waiting_queue frame >>= λ (fr, q).
    ok (put_bucket (record w { frames = fr }) idx (record bucket { waiting_queue = q }), false) in
    if leb wake bucket.scan_over_ts then ok (w, true) else entered

-- `register_frame` behind the reading of the wake-up time.
unfoldable pub register_at : World → (frame wake : ℕ) → Result World
unfolding commit real_bucket_idx enter_bucket
register_at w frame wake = do
  let start = w.service.start_bucket_run_ts
  (w', miss_awaken) ←
      (if leb wake start
        then ok (w, true)
        else enter_bucket w (real_bucket_idx w.service.precision start wake) wake frame)
  if miss_awaken then commit w' frame else ok w'

unfoldable pub register_frame : World → (frame : ℕ) → Result World
unfolding register_at wake_up_ts
register_frame w frame = wake_up_ts (w.frames frame) >>= register_at w frame

-- `co_sleep::await_suspend` at the time `now`.
unfoldable pub co_sleep : World → (frame now sleep_ts : ℕ) → Result World
unfolding sync_release register_frame
co_sleep w frame now sleep_ts = elim ((w.frames frame).coro_local_var) [
  | none ↦ undefined
  | some locals ↦
      let wake = (now + sleep_ts) % 2 ^ 64 in
      let asleep =
        put_frame w.frames frame (record (w.frames frame) {
          coro_local_var = some (record locals { wake_up_ts = wake });
        }) in
      register_frame (record w { frames = sync_release asleep frame }) frame
]

-- The condition of `fetch_nodes`. (A frame in a bucket has locals.)
unfoldable pub is_due : (now : ℕ) → (force_awake : Bool) → LinkedCoroutine → Bool
is_due now force_awake x = elim x.coro_local_var [
  | none ↦ force_awake
  | some locals ↦ leb locals.wake_up_ts now || force_awake
]

-- `while (!ready_queue.empty()) commit(pop_from_head())`, for as many rounds as the queue has frames.
unfoldable pub commit_all : (rounds : ℕ) → World → CoroutineQueue → Result World
unfolding commit
commit_all zero w q = ok w
commit_all (suc rounds) w q = do
  (fr, q', frame) ← pop_from_head w.frames q
  w' ← commit (record w { frames = fr }) frame
  commit_all rounds w' q'

unfoldable pub wakeup_frame_on_bucket : World → (idx now : ℕ) → (force_awake : Bool) → Result World
unfolding is_due commit_all
wakeup_frame_on_bucket w idx now force_awake = do
  let bucket = w.service.buckets idx
  (fr, waiting, fetched) ←
      fetch_nodes (is_due now force_awake) w.frames bucket.waiting_queue (some empty_queue)
  let scanned =
      put_bucket (record w { frames = fr }) idx
        (record { scan_over_ts = now; waiting_queue = waiting })
  elim fetched [ none ↦ ok scanned | some q ↦ commit_all q.size scanned q ]

-- One round of `loop_`: the next bucket, the start of a new round of the wheel at the bucket 0, and
-- the wake-up. The three readings of the clock are arguments; the last result is the time to wait.
unfoldable pub loop_round : World → (idx start_now scan_now now : ℕ) → Result (World × ℕ × Option ℕ)
unfolding wakeup_frame_on_bucket
loop_round w idx start_now scan_now now = do
  let idx' = bit_and (idx + 1) (bucket_num - 1)
  let started =
      if idx' == 0
      then record w { service = record w.service { start_bucket_run_ts = start_now } }
      else w
  w' ← wakeup_frame_on_bucket started idx' scan_now false
  let next_run_ts = (w'.service.start_bucket_run_ts + w'.service.precision * (idx' + 1)) % 2 ^ 64
  ok (w', idx', (if leb next_run_ts now then none else some (next_run_ts - now)))

-- After `stop`: every bucket below `n` is emptied by force, at the time `now idx`.
unfoldable pub wakeup_all : (n : ℕ) → World → (now : ℕ → ℕ) → Result World
unfolding wakeup_frame_on_bucket
wakeup_all zero w now = ok w
wakeup_all (suc n) w now = wakeup_all n w now >>= λ w'. wakeup_frame_on_bucket w' n (now n) true
