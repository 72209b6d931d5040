-- ===== src/Coroutine/Scheduler.antt =====
-- `CommonExecuteModule` of common_execute_module.h and `CoroScheduler` of scheduler.h and scheduler.cpp:
-- the queue of ready coroutines, and the rounds of a worker thread. What a coroutine does when it is
-- resumed is a parameter.
use new_rpc.Base.{ℕ, zero, suc, ◌+◌, ◌%◌, ◌^◌, Bool, true, not, ◌||◌, ◌==◌, if◌then◌else◌}
use new_rpc.Error.{error_no, has_been_stopped}
use new_rpc.Serialization.Memory.{Result, ok, ◌>>=◌, ◌>>◌}
use new_rpc.Serialization.Types.{Expected, value, unexpected}
use new_rpc.Coroutine.Frame.{Frames, put_frame}
use new_rpc.Coroutine.Queue.{
  CoroutineQueue, empty_queue, is_empty, not_null, append_to_tail, pop_from_head,
}
use new_rpc.Coroutine.Task.{CoroTask, acquire}

pub record Scheduler : Type 0 where
  pub frames : Frames
  pub coroutine_queue : CoroutineQueue
  pub stop_flag : Bool
  pub running_coro_cnt : ℕ

-- The constructor, before its call of `start`.
unfoldable pub make_scheduler : Frames → Scheduler
make_scheduler fr = record {
  frames = fr;
  coroutine_queue = empty_queue;
  stop_flag = true;
  running_coro_cnt = 0;
}

-- `CommonExecuteModule::commit`.
unfoldable pub commit_frame : Scheduler → (frame : ℕ) → Result Scheduler
commit_frame s frame = append_to_tail s.frames s.coroutine_queue frame >>= λ (fr, q).
    ok (record s { frames = fr; coroutine_queue = q })

-- `co_suspend::await_suspend` of the coroutine `self`: it goes to the end of the queue.
unfoldable pub co_suspend : Scheduler → (self : ℕ) → Result Scheduler
unfolding commit_frame
co_suspend s self = commit_frame s self

-- `CoroScheduler::commit`, the same for both kinds of reference.
unfoldable pub commit_task : Scheduler → CoroTask → Result (Scheduler × Expected (Unit {0}))
unfolding acquire commit_frame
commit_task s task =
    let counted = acquire s.frames task in
    let marked = put_frame counted task (record (counted task) { has_running_cnt = true }) in
    let running = (s.running_coro_cnt + 1) % 2 ^ 64 in
    if s.stop_flag
    then ok (s, unexpected (error_no has_been_stopped))
    else (not_null task
        >> (commit_frame (record s { frames = marked; running_coro_cnt = running }) task >>= λ s'.
            ok (s', value tt)))

-- The condition of the loop of `loop_`.
unfoldable pub goes_on : Scheduler → Bool
goes_on s = not s.stop_flag || not (s.running_coro_cnt == 0)

-- The critical section of `loop_`, after the wait: at most one coroutine is taken.
unfoldable pub take_one : Scheduler → (ready : CoroutineQueue) → Result (Scheduler × CoroutineQueue)
unfolding is_empty append_to_tail pop_from_head
take_one s ready =
    if is_empty s.coroutine_queue
    then ok (s, ready)
    else (pop_from_head s.frames s.coroutine_queue >>= λ (fr, q, frame).
        append_to_tail fr ready frame >>= λ (fr', ready').
        ok (record s { frames = fr'; coroutine_queue = q }, ready'))

-- `consume_ready_coroutine_`, for as many rounds as the thread's own queue has frames.
unfoldable pub consume_ready :
    (resume : Scheduler → ℕ → Result Scheduler)
    → (rounds : ℕ) → Scheduler
    → (ready : CoroutineQueue) → Result (Scheduler × CoroutineQueue)
unfolding pop_from_head
consume_ready resume zero s ready = ok (s, ready)
consume_ready resume (suc rounds) s ready = do
  (fr, ready', frame) ← pop_from_head s.frames ready
  s' ← resume (record s { frames = fr }) frame
  consume_ready resume rounds s' ready'

-- One round of the loop.
unfoldable pub worker_round :
    (resume : Scheduler → ℕ → Result Scheduler)
    → Scheduler
    → (ready : CoroutineQueue) → Result (Scheduler × CoroutineQueue)
unfolding take_one consume_ready
worker_round resume s ready = do
  (s', ready') ← take_one s ready
  consume_ready resume ready'.size s' ready'

-- `loop_` of a worker thread, for at most `rounds` rounds.
unfoldable pub worker_rounds :
    (resume : Scheduler → ℕ → Result Scheduler)
    → (rounds : ℕ) → Scheduler
    → (ready : CoroutineQueue) → Result (Scheduler × CoroutineQueue)
unfolding goes_on worker_round
worker_rounds resume zero s ready = ok (s, ready)
worker_rounds resume (suc rounds) s ready =
    if goes_on s
    then (worker_round resume s ready >>= λ (s', ready'). worker_rounds resume rounds s' ready')
    else ok (s, ready)
