-- ===== src/Net/Rpc.antt =====
-- `RpcBase` of async_action/async_action.h and async_action.ipp: one remote call, from its arguments
-- to the results of the endpoints that it was sent to.
use new_rpc.Base.{
  ℕ, ◌+◌, ◌-◌, ◌/◌, ◌%◌, ◌^◌, Bool, true, false, List, [], ◌∷◌, ◌++◌, map, Option, none, some,
  length, leb, ◌==◌, if◌then◌else◌,
}
use new_rpc.Error.{error_no, rpc_timeout}
use new_rpc.Serialization.Memory.{
  Result, ok, aborted, ◌>>=◌, ◌>>◌, check, Endian, cursor, new_bytes,
}
use new_rpc.Serialization.Types.{Ty, Members, Val, Vals, Expected, value, unexpected, default_val}
use new_rpc.Serialization.Serialize.{
  serialize, serialize_members, get_serialize_size, get_serialize_sizes,
}
use new_rpc.Serialization.Deserialize.{deserialize_from_start}
use new_rpc.Net.EndPoint.{
  EndPoint, endpoint_eq, FinishCondition, invalid, when_any, when_all, when_majority,
}
use new_rpc.Net.Header.{make_header, set_message_type, request, header_type, header_vals}

-- `ret` is the template's `RET`. `coroutine` is an address.
pub record RpcBase : Type 0 where
  pub ret : Ty
  pub endpoints : List (EndPoint × Bool)
  pub finish_condition : FinishCondition
  pub timeout : ℕ
  pub func_id : ℕ
  pub send_buffer : List ℕ
  pub total_serialize_size : ℕ
  pub received_results : List (EndPoint × Expected (Val ret))
  pub on_each_function : Option (EndPoint → Val ret → Bool → Val ret × Bool)
  pub coroutine : ℕ

-- `RpcBase()`.
unfoldable pub make_rpc : Ty → ℕ → RpcBase
make_rpc ret func_id = record {
  ret = ret;
  endpoints = [];
  finish_condition = when_all;
  timeout = 1000000000;
  func_id = func_id;
  send_buffer = [];
  total_serialize_size = 0;
  received_results = [];
  on_each_function = none;
  coroutine = 0;
}

-- `on`, for a range and for one endpoint.
unfoldable pub on : RpcBase → List EndPoint → RpcBase
on r xs = record r { endpoints = r.endpoints ++ map (λ x. (x, false)) xs }

unfoldable pub on_one : RpcBase → EndPoint → RpcBase
on_one r x = record r { endpoints = r.endpoints ++ ((x, false) ∷ []) }

unfoldable pub header_size : Result ℕ
header_size = get_serialize_size header_type (header_vals (make_header 1 0 0 0 0))

-- 1_KiB
abbrev pub local_buffer_size : ℕ
local_buffer_size = 1024

-- `with_args`: the arguments go into a fresh buffer, behind room for the header.
unfoldable pub with_args : Endian → RpcBase → (ms : Members) → Vals ms → Result RpcBase
unfolding new_bytes
with_args e r ms args = do
  header ← get_serialize_size header_type (header_vals (make_header 1 r.func_id 0 0 0))
  payload ← get_serialize_sizes ms args
  let total = header + payload
  check (leb total local_buffer_size)
  c ← serialize_members e ms args total (cursor (new_bytes total) header)
  check (c.pos == total)
  ok (record r { send_buffer = c.memory; total_serialize_size = total })

-- The part of `await_suspend` before the hand-over to the network module: the header goes in front
-- of the arguments. Its payload length is a subtraction of unsigned 64-bit numbers.
unfoldable pub prepare_request :
    Endian → RpcBase → (coro_id listen_port promise : ℕ) → Result RpcBase
prepare_request e r coro_id listen_port promise = do
  header ← set_message_type (make_header 1 r.func_id coro_id listen_port 0) request
  size ← get_serialize_size header_type (header_vals header)
  let payload = (r.total_serialize_size + 2 ^ 64 - size) % 2 ^ 64
  let filled = record header { payload_len = payload }
  c ← serialize e header_type (header_vals filled) (length r.send_buffer) (cursor r.send_buffer 0)
  check (c.pos == size)
  ok (record r { send_buffer = c.memory; coroutine = promise })

-- The loop that sets the receive flag of the first endpoint that is the peer.
unfoldable pub mark_received : List (EndPoint × Bool) → EndPoint → List (EndPoint × Bool)
mark_received [] peer = []
mark_received ((x, flag) ∷ xs) peer =
    if endpoint_eq x peer then (x, true) ∷ xs else (x, flag) ∷ mark_received xs peer

-- The `switch` on the finish condition.
unfoldable pub is_finished : FinishCondition → (size total : ℕ) → Result Bool
is_finished when_any size total = ok true
is_finished when_all size total = ok (size == total)
is_finished when_majority size total = ok (size == total / 2 + 1)
is_finished invalid size total = aborted

-- The user's callback may change the result and ask to be resumed.
unfoldable pub call_on_each {ℓ} :
    {A : Type ℓ} → Option (EndPoint → A → Bool → A × Bool) → EndPoint → A → Bool → A × Bool
call_on_each none peer v need_awaken = (v, need_awaken)
call_on_each (some f) peer v need_awaken = f peer v need_awaken

-- The part of `process_buffer_cb` behind `deserialize`: the call's state after a result, and whether
-- the coroutine is to go on. The flag that the user's callback sets is overwritten by the `switch`.
unfoldable pub accept_result : (r : RpcBase) → EndPoint → Val r.ret → Result (RpcBase × Bool)
unfolding mark_received is_finished call_on_each
accept_result r peer v = do
  let (v', asked) = call_on_each r.on_each_function peer v false
  let received = r.received_results ++ ((peer, value v') ∷ [])
  need_awaken ← is_finished r.finish_condition (length received) (length r.endpoints)
  ok (
    record r { endpoints = mark_received r.endpoints peer; received_results = received },
    need_awaken,
  )

unfoldable pub process_buffer_cb : Endian → RpcBase → EndPoint → List ℕ → Result (RpcBase × Bool)
unfolding accept_result deserialize_from_start
process_buffer_cb e r peer buffer = do
  v ← deserialize_from_start e r.ret (default_val r.ret) buffer (length buffer)
  accept_result r peer v

-- The loop of `timeout_cb`.
unfoldable pub timeout_results {ℓ} :
    {A : Type ℓ} → List (EndPoint × Bool) → List (EndPoint × Expected A)
timeout_results [] = []
timeout_results ((x, true) ∷ xs) = timeout_results xs
timeout_results ((x, false) ∷ xs) = (x, unexpected (error_no rpc_timeout)) ∷ timeout_results xs

unfoldable pub timeout_cb : RpcBase → Result RpcBase
unfolding timeout_results
timeout_cb r = do
  let received = r.received_results ++ timeout_results r.endpoints
  check (length received == length r.endpoints)
  ok (record r { received_results = received })

-- `await_resume` of a call to one endpoint: the first result; there must be one.
unfoldable pub first_result : (r : RpcBase) → Option (Expected (Val r.ret))
first_result r = elim r.received_results [ [] ↦ none | x ∷ xs ↦ some (x.1) ]
