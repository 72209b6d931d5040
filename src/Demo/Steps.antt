-- ===== src/Demo/Steps.antt =====
-- The steps of a remote call, one after the other.
use new_rpc.Base.{ℕ, ◌≡◌, refl, ap, true, false, List, some, ==_iff, arith}
use new_rpc.Serialization.Memory.{ok, ◌>>=◌, Endian}
use new_rpc.Serialization.Types.{Ty, Members, Vals, Val}
use new_rpc.Net.Mapper.{return_type, ResponseInfo, Task}
use new_rpc.Net.Receive.{response_package}
use new_rpc.Net.Rpc.{RpcBase, with_args, prepare_request}
use new_rpc.Net.CoRpc.{CoRpc, call_with_args}
use new_rpc.Net.Service.{Service, update, commit_send_request_task}
use new_rpc.Net.Sending.{await_suspend}
use new_rpc.Coroutine.Frame.{CoroLocalVar, Frames, put_frame, sync_release}
use new_rpc.Coroutine.Task.{Finished, is_alone, response_of, finish_root, final_suspend}
use new_rpc.Demo.Functions.{Run, call_function, task_frame, run_task}

pub call_with_args_lem :
    (e : Endian) (c : CoRpc) (ms : Members) (vs : Vals ms) {r : RpcBase}
    → with_args e c.rpc_base ms vs ≡ ok r
    → call_with_args e c ms vs ≡ ok (record c { rpc_base = r })
unfolding call_with_args
call_with_args_lem e c ms vs made = ap (λ o. o >>= λ r. ok (record c { rpc_base = r })) made

pub await_suspend_lem :
    (e : Endian) (fr : Frames) (s : Service) (callback self : ℕ) {locals : CoroLocalVar}
    {r : RpcBase}
    → (fr self).coro_local_var ≡ some locals
    → prepare_request e (s.callbacks callback) locals.coro_id s.listen_port self ≡ ok r
    → await_suspend e fr s callback self
      ≡ ok (
        sync_release fr self,
        commit_send_request_task
            (record s { callbacks = update s.callbacks callback r })
            locals.coro_id
            r.endpoints
            r.send_buffer
            r.timeout
            self
            callback,
      )
unfolding await_suspend
await_suspend_lem e fr s callback self known made = ground (arith, known, made)

final_suspend_root :
    (e : Endian) (port : ℕ) (t : Ty) (v : Val t) (fr : Frames) (self running : ℕ)
    {info : ResponseInfo} {bytes : List ℕ}
    → is_alone fr self ≡ true
    → response_of (fr self).coro_local_var ≡ some info
    → response_package e info port t v ≡ ok bytes
    → final_suspend e port t v fr self running
      ≡ ok (finish_root fr self running (some (info.response_to_end_point, bytes)) false)
unfolding final_suspend
final_suspend_root e port t v fr self running alone known made =
    rw (alone, known, final_suspend, made)

-- A task's frame is a root, and says whom to answer.
task_alone :
    (task : Task) (fr : Frames) (self coro_id : ℕ)
    → is_alone (put_frame fr self (task_frame task coro_id self)) self ≡ true
unfolding is_alone task_frame
task_alone task fr self coro_id = ground (arith, (==_iff self self).1 refl)

task_answers :
    (task : Task) (fr : Frames) (self coro_id : ℕ)
    → response_of (put_frame fr self (task_frame task coro_id self) self).coro_local_var
      ≡ some task.response_info
unfolding task_frame
task_answers task fr self coro_id = ground (arith, (==_iff self self).1 refl)

-- The end of a task sends the response to where its request came from.
pub run_task_lem :
    (e : Endian) (port : ℕ) (task : Task) (fr : Frames) (self coro_id rand running : ℕ)
    {r : Run (Val (return_type task.function))} {bytes : List ℕ}
    → call_function task.function task.args rand ≡ ok r
    → response_package e task.response_info port (return_type task.function) r.result ≡ ok bytes
    → (finished : Finished) × (run_task e port task fr self coro_id rand running ≡ ok finished)
      × (finished.sent ≡ some (task.response_info.response_to_end_point, bytes))
unfolding run_task finish_root
run_task_lem e port task fr self coro_id rand running {r} {bytes} called made =
    let here = put_frame fr self (task_frame task coro_id self) in
    (
      finish_root here self running (some (task.response_info.response_to_end_point, bytes)) false,
      rw (
        called,
        final_suspend_root e port (return_type task.function) r.result here self running
            (task_alone task fr self coro_id) (task_answers task fr self coro_id) made,
      ),
      refl,
    )
