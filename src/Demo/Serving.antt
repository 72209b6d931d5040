-- ===== src/Demo/Serving.antt =====
-- What a server does with the request of a remote call.
use new_rpc.Base.{ℕ, ◌^◌, ◌<◌, ◌≡◌, refl, sym, ap, ◌∙◌, List, [], ◌++◌, length, append-nil, arith}
use new_rpc.Serialization.Memory.{ok}
use new_rpc.Serialization.Types.{Vals, Val}
use new_rpc.Serialization.Encoding.{encode, encode_members, FitMembers}
use new_rpc.Net.EndPoint.{EndPoint, set_port}
use new_rpc.Net.Header.{header_type, header_vals}
use new_rpc.Net.Mapper.{Function, function_id, args_tuple, return_type, ResponseInfo, Task}
use new_rpc.Net.Wire.{request_header}
use new_rpc.Net.Delivery.{receive_package-stream, reflect_commit_function-encode}
use new_rpc.Net.Response.{response_header, response_package-encode}
use new_rpc.Demo.Functions.{Run, call_function}
use new_rpc.Demo.RemoteCall.{Callee, Network, IsReliable, serve, total}
use new_rpc.Demo.Widths.{
  newest-append, length-args, result-IsSized, length-result, result-Fits, function_id-lt,
  request_header-HeaderFits, response_header-HeaderFits,
}
use new_rpc.Net.Received.{receive_request_lem}
use new_rpc.Demo.Steps.{run_task_lem}
use new_rpc.Demo.Asking.{request_bytes}

-- The task that a request makes, and the answer to it.
abbrev pub task_of :
    (f : Function) → Vals (args_tuple f) → (client : EndPoint) → (coro_id port : ℕ) → Task
task_of f vs client coro_id port = record {
  function = f;
  args = vs;
  response_info = record {
    response_to_end_point = set_port client port;
    response_to_coro_id = coro_id;
    response_rpc_type = function_id f;
  };
}

abbrev pub response_bytes :
    (f : Function) → Val (return_type f) → ResponseInfo → (port : ℕ) → List ℕ
response_bytes f v info port =
    let result = encode (return_type f) v in
    encode header_type (header_vals (response_header info port (length result))) ++ result

-- A request is answered with what the function returns on the server.
pub serve_lem :
    (n : Network) (b : Callee) (client : EndPoint) (f : Function) (vs : Vals (args_tuple f))
    (coro_id port : ℕ) {r : Run (Val (return_type f))}
    → IsReliable n
    → FitMembers (args_tuple f) vs
    → coro_id < 256 ^ 8
    → port < 256 ^ 2
    → b.service.listen_port < 256 ^ 2
    → call_function f vs b.rand ≡ ok r
    → let info = (task_of f vs client coro_id port).response_info in
      serve n b client (request_bytes f vs coro_id port)
      ≡ ok (
        info.response_to_end_point,
        response_bytes f r.result info b.service.listen_port,
        total r.sleeps,
      )
unfolding serve
serve_lem n b client f vs coro_id port {r} whole fits small_id small_port small_server called =
    let args = encode_members (args_tuple f) vs in
    let header = request_header (function_id f) coro_id port (length args) in
    let wide =
      request_header-HeaderFits f coro_id port (length args) small_id small_port
        (length-args f vs) in
    let bytes = request_bytes f vs coro_id port in
    let task = task_of f vs client coro_id port in
    let got =
      receive_package-stream b.endian (n.request_chunks bytes) header args []
        (whole.request_whole bytes
          ∙ ap (◌++◌ (encode header_type (header_vals header))) (sym (append-nil args)))
        wide refl refl in
    let received =
      receive_request_lem b.endian b.service client (n.request_chunks bytes) got
        (reflect_commit_function-encode b.endian f vs header client fits refl) refl
        (omega (arith, length-args f vs)) in
    let response =
      response_package-encode b.endian task.response_info b.service.listen_port (return_type f)
        r.result (result-Fits f vs b.rand called) (result-IsSized f r.result)
        (response_header-HeaderFits task.response_info b.service.listen_port
          (length (encode (return_type f) r.result)) small_id (function_id-lt f) small_server
          (length-result f r.result)) in
    let (finished, done, sent) =
      run_task_lem b.endian b.service.listen_port task b.frames b.self b.coro_id b.rand b.running
        called response in
    rw (received, newest-append b.service.tasks task, called, done, sent)
