-- ===== src/Demo/Asked.antt =====
-- A remote call up to the answer or the timer, whichever is first.
use new_rpc.Base.{
  ℕ, ◌+◌, ltb, ◌^◌, ◌<◌, ◌≡◌, refl, sym, ap, ◌∙◌, true, false, List, [], ◌∷◌, length, some, ==_iff,
  if◌then◌else◌,
}
use new_rpc.Serialization.Memory.{ok}
use new_rpc.Serialization.Types.{Vals, Val}
use new_rpc.Serialization.Encoding.{encode_members, FitMembers}
use new_rpc.Net.EndPoint.{EndPoint, set_port, bytes_eq}
use new_rpc.Net.Mapper.{Function, args_tuple, return_type}
use new_rpc.Net.Rpc.{RpcBase}
use new_rpc.Net.Service.{Service, commit_send_request_task, receive, fire}
use new_rpc.Coroutine.Frame.{CoroLocalVar}
use new_rpc.Demo.Functions.{Run, call_function}
use new_rpc.Demo.RemoteCall.{Caller, Callee, Network, IsReliable, arrives, total, remote_call}
use new_rpc.Demo.Widths.{newest-append, length-args, request_header-HeaderFits}
use new_rpc.Demo.Asking.{request_bytes, waiting_rpc, begin_call_lem}
use new_rpc.Demo.Serving.{task_of, response_bytes, serve_lem}

bytes_eq-same : (xs : List ℕ) → bytes_eq xs xs ≡ true
unfolding bytes_eq
bytes_eq-same [] = refl
bytes_eq-same (x ∷ xs) = rw ((==_iff x x).1 refl) (bytes_eq-same xs)

-- A package arrives at its own address.
arrives_self : (x : EndPoint) → arrives x x ≡ ok tt
unfolding arrives
arrives_self x =
    rw (bytes_eq-same x.ip, (==_iff x.port x.port).1 refl, (==_iff x.flags x.flags).1 refl)

arrives_lem : (x : EndPoint) (port : ℕ) → x.port ≡ port → arrives x (set_port x port) ≡ ok tt
unfolding set_port
arrives_lem x port same = ap (λ p. arrives x (record x { port = p })) (sym same) ∙ arrives_self x

-- The caller's service while the call waits.
abbrev pub asking_service :
    Caller
    → (ℕ → RpcBase)
    → (server : EndPoint) (f : Function) → Vals (args_tuple f)
    → (coro_id : ℕ) → Service
asking_service a memory server f vs coro_id =
    commit_send_request_task (record a.service { callbacks = memory }) coro_id
      ((server, false) ∷ []) (request_bytes f vs coro_id a.service.listen_port) 1000000000 a.self
      a.callback

pub remote_call_lem :
    (n : Network) (a : Caller) (b : Callee) (f : Function) (vs : Vals (args_tuple f))
    {locals : CoroLocalVar} {r : Run (Val (return_type f))}
    → IsReliable n
    → (a.frames a.self).coro_local_var ≡ some locals
    → FitMembers (args_tuple f) vs
    → locals.coro_id < 256 ^ 8
    → a.service.listen_port < 256 ^ 2
    → b.service.listen_port < 256 ^ 2
    → b.address.port ≡ b.service.listen_port
    → call_function f vs b.rand ≡ ok r
    → let port = a.service.listen_port in
      let info = (task_of f vs a.address locals.coro_id port).response_info in
      let response = response_bytes f r.result info b.service.listen_port in
      (memory : ℕ → RpcBase) × (remote_call n a b f vs ≡ (
        if ltb (total r.sleeps + n.delay) 1000000000
        then receive a.endian false
            (asking_service a memory b.address f vs locals.coro_id)
            b.address
            (n.response_chunks response)
        else fire (asking_service a memory b.address f vs locals.coro_id) locals.coro_id))
      × (memory a.callback ≡ waiting_rpc f vs b.address locals.coro_id port a.self)
unfolding remote_call commit_send_request_task
remote_call_lem n a b f vs {locals} {r} whole known fits small_id small_port small_server listens
      called =
    let args = encode_members (args_tuple f) vs in
    let port = a.service.listen_port in
    let (fr, memory, begun, here) = begin_call_lem a b.address f vs known fits (
      request_header-HeaderFits f locals.coro_id port (length args) small_id small_port
        (length-args f vs)) in
    let served =
      serve_lem n b a.address f vs locals.coro_id port whole fits small_id small_port small_server
        called in
    (
      memory,
      rw (
        begun,
        newest-append a.service.outbox (b.address, request_bytes f vs locals.coro_id port),
        arrives_lem b.address b.service.listen_port listens,
        served,
        arrives_self (set_port a.address port),
      ),
      here,
    )
