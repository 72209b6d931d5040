-- ===== src/Demo/Answered.antt =====
-- A remote call gives what the call of the function gives.
use new_rpc.Base.{
  ℕ, ◌+◌, ◌≤◌, ltb, ◌^◌, ◌<◌, ◌≡◌, refl, sym, ap, ◌∙◌, true, false, List, [], ◌∷◌, ◌++◌, length,
  append-nil, none, some, ◌==◌, ==_iff, arith,
}
use new_rpc.Serialization.Memory.{ok, Endian}
use new_rpc.Serialization.Types.{Vals, Val, value, unexpected}
use new_rpc.Serialization.Encoding.{encode, Fits, FitMembers}
use new_rpc.Net.EndPoint.{EndPoint, set_port}
use new_rpc.Net.Header.{header_type, header_vals}
use new_rpc.Net.Mapper.{Function, args_tuple, return_type}
use new_rpc.Error.{error_no, rpc_timeout}
use new_rpc.Net.Rpc.{timeout_cb, RpcBase, make_rpc, process_buffer_cb, accept_result, mark_received}
use new_rpc.Net.CoRpc.{one_result, await_resume}
use new_rpc.Net.Service.{
  fire, remove_timer, awaken, Service, MaintainInfo, update, commit_send_request_task, find_waiting,
  insert_waiting, erase_waiting,
}
use new_rpc.Net.Delivery.{receive_package-stream}
use new_rpc.Net.Response.{response_header, process_buffer_cb-encode}
use new_rpc.Net.Waiting.{find-insert}
use new_rpc.Net.Liveness.{timeout_-found}
use new_rpc.Coroutine.Frame.{CoroLocalVar}
use new_rpc.Demo.Functions.{Run, call_function}
use new_rpc.Demo.RemoteCall.{Caller, Callee, Network, IsReliable, total, remote_call}
use new_rpc.Demo.Widths.{
  length-result, result-IsReadable, result-Fits, function_id-lt, response_header-HeaderFits,
}
use new_rpc.Net.Received.{receive_response_lem}
use new_rpc.Demo.Asking.{waiting_rpc, update_self}
use new_rpc.Demo.Serving.{task_of, response_bytes}
use new_rpc.Demo.Asked.{asking_service, remote_call_lem}

erase-insert :
    (id : ℕ) (info : MaintainInfo) (m : List (ℕ × MaintainInfo))
    → find_waiting id m ≡ none
    → erase_waiting id (insert_waiting id info m) ≡ m
unfolding find_waiting insert_waiting erase_waiting
erase-insert id info [] h = ground (arith, (==_iff id id).1 refl)
erase-insert id info ((j, old) ∷ m) h = ground (arith, erase-insert id info m)

-- The call when its result is there.
abbrev pub answered :
    (f : Function)
    → Vals (args_tuple f)
    → (server : EndPoint) → (coro_id port server_port self : ℕ) → Val (return_type f)
    → RpcBase
answered f vs server coro_id port server_port self v =
    record (waiting_rpc f vs server coro_id port self) {
      endpoints = mark_received ((server, false) ∷ []) (set_port server server_port);
      received_results = (set_port server server_port, value v) ∷ [];
    }

answered_lem :
    (e : Endian) (f : Function) (vs : Vals (args_tuple f)) (server : EndPoint)
    (coro_id port server_port self : ℕ) (v : Val (return_type f))
    → Fits (return_type f) v
    → process_buffer_cb e
        (waiting_rpc f vs server coro_id port self)
        (set_port server server_port)
        (encode (return_type f) v)
      ≡ ok (answered f vs server coro_id port server_port self v, true)
unfolding accept_result make_rpc
answered_lem e f vs server coro_id port server_port self v fits =
    process_buffer_cb-encode e (waiting_rpc f vs server coro_id port self)
      (set_port server server_port) v fits (result-IsReadable f v)

-- A call of a registered function on another host, made with `co_rpc` for one endpoint, gives what the
-- call of the function gives there: the caller's coroutine is given to its scheduler, the calls that
-- wait are those that waited before, and `await_resume` gives the value that the function returns.
-- The hosts are of any byte order, the network loses no byte and keeps them in order but cuts them in
-- any way, and nothing else happens in between. The function's sleeps and the network's delay are
-- together below the timeout of the call, one second. The calling coroutine has locals, its address
-- is not null and its id does not wait; the call is for the address that the server listens at; the
-- server has not been stopped; arguments, id and ports fit their widths; and the function returns a
-- value on these arguments.
pub remote_call-call_function :
    (n : Network) (a : Caller) (b : Callee) (f : Function) (vs : Vals (args_tuple f))
    {locals : CoroLocalVar} {r : Run (Val (return_type f))}
    → IsReliable n
    → (a.frames a.self).coro_local_var ≡ some locals
    → (a.self == 0) ≡ false
    → find_waiting locals.coro_id a.service.waiting ≡ none
    → FitMembers (args_tuple f) vs
    → locals.coro_id < 256 ^ 8
    → a.service.listen_port < 256 ^ 2
    → b.service.listen_port < 256 ^ 2
    → b.address.port ≡ b.service.listen_port
    → call_function f vs b.rand ≡ ok r
    → total r.sleeps + n.delay < 1000000000
    → let done =
        answered f vs b.address locals.coro_id a.service.listen_port b.service.listen_port a.self
          r.result in
      (s : Service) × (remote_call n a b f vs ≡ ok s)
      × (s.ready ≡ a.service.ready ++ (a.self ∷ []))
      × (s.waiting ≡ a.service.waiting)
      × (s.callbacks a.callback ≡ done)
      × (await_resume (record { multi_rpc = false; rpc_base = done })
          ≡ ok (one_result (value r.result)))
unfolding remote_call await_resume commit_send_request_task
remote_call-call_function n a b f vs {locals} {r} whole known alive free fits small_id small_port
      small_server listens called early =
    let port = a.service.listen_port in
    let (memory, reached, here) =
      remote_call_lem n a b f vs whole known fits small_id small_port small_server listens called in
    let waiting = asking_service a memory b.address f vs locals.coro_id in
    let in_time : ltb (total r.sleeps + n.delay) 1000000000 ≡ true = ground (arith, early) in
    let info = (task_of f vs a.address locals.coro_id port).response_info in
    let server_port = b.service.listen_port in
    let response = response_bytes f r.result info server_port in
    let result = encode (return_type f) r.result in
    let header = response_header info server_port (length result) in
    let got =
      receive_package-stream a.endian (n.response_chunks response) header result []
        (whole.response_whole response
          ∙ ap (◌++◌ (encode header_type (header_vals header))) (sym (append-nil result)))
        (response_header-HeaderFits info server_port (length result) small_id (function_id-lt f)
          small_server (length-result f r.result))
        refl refl in
    let found : find_waiting locals.coro_id waiting.waiting
        ≡ some (record { coroutine = a.self; callback = a.callback }) =
      find-insert locals.coro_id locals.coro_id
        (record { coroutine = a.self; callback = a.callback }) a.service.waiting free
      ∙ ground (arith, (==_iff locals.coro_id locals.coro_id).1 refl) in
    let done =
      answered_lem a.endian f vs b.address locals.coro_id port server_port a.self r.result
        (result-Fits f vs b.rand called) in
    let finished = answered f vs b.address locals.coro_id port server_port a.self r.result in
    let received =
      receive_response_lem a.endian false waiting b.address (n.response_chunks response) got found
        (ap (λ q. process_buffer_cb a.endian q (set_port b.address server_port) result) here ∙ done)
        alive refl (omega (arith, length-result f r.result)) in
    (
      record waiting {
        callbacks = update memory a.callback finished;
        waiting = erase_waiting locals.coro_id waiting.waiting;
        ready = a.service.ready ++ (a.self ∷ []);
      },
      reached ∙ rw (in_time) received,
      refl,
      erase-insert locals.coro_id (record { coroutine = a.self; callback = a.callback })
          a.service.waiting free,
      update_self memory a.callback finished,
      refl,
    )

-- A remote call whose answer comes too late, since the function's sleeps and the network's delay are
-- together not below the timeout of one second, ends with the error RPC_TIMEOUT for the server; its
-- coroutine is given to the caller's scheduler, and the calls that wait are those that waited before.
-- The hosts, the network and the call are as for an answer that comes in time.
pub remote_call-late :
    (n : Network) (a : Caller) (b : Callee) (f : Function) (vs : Vals (args_tuple f))
    {locals : CoroLocalVar} {r : Run (Val (return_type f))}
    → IsReliable n
    → (a.frames a.self).coro_local_var ≡ some locals
    → (a.self == 0) ≡ false
    → find_waiting locals.coro_id a.service.waiting ≡ none
    → FitMembers (args_tuple f) vs
    → locals.coro_id < 256 ^ 8
    → a.service.listen_port < 256 ^ 2
    → b.service.listen_port < 256 ^ 2
    → b.address.port ≡ b.service.listen_port
    → call_function f vs b.rand ≡ ok r
    → 1000000000 ≤ total r.sleeps + n.delay
    → let done = record (waiting_rpc f vs b.address locals.coro_id a.service.listen_port a.self) {
      received_results = (b.address, unexpected (error_no rpc_timeout)) ∷ [];
    } in
      (s : Service) × (remote_call n a b f vs ≡ ok s)
      × (s.ready ≡ a.service.ready ++ (a.self ∷ []))
      × (s.waiting ≡ a.service.waiting)
      × (s.callbacks a.callback ≡ done)
      × (await_resume (record { multi_rpc = false; rpc_base = done })
          ≡ ok (one_result (unexpected (error_no rpc_timeout))))
unfolding await_resume commit_send_request_task fire remove_timer awaken timeout_cb
remote_call-late n a b f vs {locals} {r} whole known alive free fits small_id small_port
      small_server listens called late =
    let (memory, reached, here) =
      remote_call_lem n a b f vs whole known fits small_id small_port small_server listens called in
    let too_late : ltb (total r.sleeps + n.delay) 1000000000 ≡ false = ground (arith, late) in
    let waiting = asking_service a memory b.address f vs locals.coro_id in
    let found : find_waiting locals.coro_id waiting.waiting
        ≡ some (record { coroutine = a.self; callback = a.callback }) =
      find-insert locals.coro_id locals.coro_id
        (record { coroutine = a.self; callback = a.callback }) a.service.waiting free
      ∙ ground (arith, (==_iff locals.coro_id locals.coro_id).1 refl) in
    let done = record (waiting_rpc f vs b.address locals.coro_id a.service.listen_port a.self) {
      received_results = (b.address, unexpected (error_no rpc_timeout)) ∷ [];
    } in
    let timed : timeout_cb (memory a.callback) ≡ ok done = ap timeout_cb here in
    (
      record waiting {
        callbacks = update memory a.callback done;
        waiting = erase_waiting locals.coro_id waiting.waiting;
        timers = a.service.timers;
        ready = a.service.ready ++ (a.self ∷ []);
      },
      reached
          ∙ rw (too_late, (==_iff locals.coro_id locals.coro_id).1 refl)
              (timeout_-found (record waiting { timers = a.service.timers }) locals.coro_id
                  (record { coroutine = a.self; callback = a.callback }) found
                ∙ rw (timed, alive) refl),
      refl,
      erase-insert locals.coro_id (record { coroutine = a.self; callback = a.callback })
          a.service.waiting free,
      update_self memory a.callback done,
      refl,
    )
