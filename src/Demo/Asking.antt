-- ===== src/Demo/Asking.antt =====
-- What a remote call of a function leaves at the caller.
use new_rpc.Base.{
  ℕ, ◌+◌, ◌≡◌, refl, ap, ◌∙◌, false, List, [], ◌∷◌, ◌++◌, length, none, some, ==_iff, arith,
}
use new_rpc.Serialization.Memory.{ok, ◌>>=◌}
use new_rpc.Serialization.Types.{Vals}
use new_rpc.Serialization.Encoding.{encode, encode_members, FitMembers}
use new_rpc.Net.EndPoint.{EndPoint, when_all}
use new_rpc.Net.Header.{header_type, header_vals}
use new_rpc.Net.Mapper.{Function, function_id, args_tuple, return_type}
use new_rpc.Net.Rpc.{RpcBase, make_rpc, on_one, prepare_request}
use new_rpc.Net.CoRpc.{co_rpc, call_on_one}
use new_rpc.Net.Service.{update, commit_send_request_task}
use new_rpc.Net.Sending.{await_suspend}
use new_rpc.Net.Wire.{HeaderFits, request_header, with_args_lem, prepare_request_lem}
use new_rpc.Coroutine.Frame.{CoroLocalVar, Frames, sync_release}
use new_rpc.Demo.RemoteCall.{Caller, begin_call}
use new_rpc.Demo.Widths.{args-AreSized, length-args}
use new_rpc.Demo.Steps.{call_with_args_lem, await_suspend_lem}

-- The bytes of a request and of a response.
abbrev pub request_bytes : (f : Function) → Vals (args_tuple f) → (coro_id port : ℕ) → List ℕ
request_bytes f vs coro_id port =
    let args = encode_members (args_tuple f) vs in
    encode header_type (header_vals (request_header (function_id f) coro_id port (length args)))
    ++ args

-- The `RpcBase` of a call that waits.
abbrev pub waiting_rpc :
    (f : Function) → Vals (args_tuple f) → (server : EndPoint) → (coro_id port self : ℕ) → RpcBase
waiting_rpc f vs server coro_id port self = record {
  ret = return_type f;
  endpoints = (server, false) ∷ [];
  finish_condition = when_all;
  timeout = 1000000000;
  func_id = function_id f;
  send_buffer = request_bytes f vs coro_id port;
  total_serialize_size = 32 + length (encode_members (args_tuple f) vs);
  received_results = [];
  on_each_function = none;
  coroutine = self;
}

pub update_self {ℓ} : {A : Type ℓ} (f : ℕ → A) (p : ℕ) (v : A) → update f p v p ≡ v
update_self f p v = ground (arith, (==_iff p p).1 refl)

-- `begin_call` leaves the request behind the packages that are to be sent, and the call waiting.
pub begin_call_lem :
    (a : Caller) (server : EndPoint) (f : Function) (vs : Vals (args_tuple f))
    {locals : CoroLocalVar}
    → (a.frames a.self).coro_local_var ≡ some locals
    → FitMembers (args_tuple f) vs
    → HeaderFits (
        request_header
          (function_id f)
          locals.coro_id
          a.service.listen_port
          (length (encode_members (args_tuple f) vs)))
    → (fr : Frames) × (memory : ℕ → RpcBase) × (begin_call a server f vs
        ≡ ok (
          fr,
          commit_send_request_task
              (record a.service { callbacks = memory })
              locals.coro_id
              ((server, false) ∷ [])
              (request_bytes f vs locals.coro_id a.service.listen_port)
              1000000000
              a.self
              a.callback,
        ))
      × (memory a.callback ≡ waiting_rpc f vs server locals.coro_id a.service.listen_port a.self)
unfolding begin_call co_rpc make_rpc call_on_one on_one
begin_call_lem a server f vs {locals} known fits wide =
    let built = make_rpc (return_type f) (function_id f) in
    let (m, len, behind, made) =
      with_args_lem a.endian built (args_tuple f) vs fits (args-AreSized f vs)
        (omega (arith, length-args f vs)) in
    let filled = record (on_one built server) {
      send_buffer = m;
      total_serialize_size = 32 + length (encode_members (args_tuple f) vs);
    } in
    let before = record a.service { callbacks = update a.service.callbacks a.callback filled } in
    let prepared =
      prepare_request_lem a.endian filled locals.coro_id a.service.listen_port a.self
        (length (encode_members (args_tuple f) vs)) (encode_members (args_tuple f) vs) refl len
        behind (omega (arith, length-args f vs)) wide in
    let asking = waiting_rpc f vs server locals.coro_id a.service.listen_port a.self in
    (
      sync_release a.frames a.self,
      update before.callbacks a.callback asking,
      ap
            (λ o. o >>= λ c.
              await_suspend a.endian a.frames
                (record a.service {
                  callbacks = update a.service.callbacks a.callback (call_on_one c server).rpc_base;
                })
                a.callback a.self)
            (call_with_args_lem a.endian (co_rpc (return_type f) (function_id f)) (args_tuple f) vs
              made)
          ∙ await_suspend_lem a.endian a.frames before a.callback a.self known (
              ap (λ r. prepare_request a.endian r locals.coro_id a.service.listen_port a.self)
                (update_self a.service.callbacks a.callback filled)
              ∙ prepared),
      update_self before.callbacks a.callback asking,
    )
