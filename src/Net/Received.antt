-- ===== src/Net/Received.antt =====
-- `receive` of requests and responses as the other side sends them.
use new_rpc.Base.{
  ℕ, ◌≤◌, ◌≡◌, refl, sym, ap, ◌∙◌, Bool, true, false, List, [], ◌∷◌, ◌++◌, append-nil, leb, some,
  ◌==◌, arith, length,
}
use new_rpc.Serialization.Memory.{ok, Endian}
use new_rpc.Serialization.Types.{Vals}
use new_rpc.Serialization.Serialize.{get_serialize_size}
use new_rpc.Serialization.Encoding.{encode, encode_members, FitMembers}
use new_rpc.Net.EndPoint.{EndPoint, set_port}
use new_rpc.Net.Header.{PackageHeader, header_type, header_vals, get_message_type}
use new_rpc.Net.Mapper.{Function, function_id, args_tuple, Task, committed, reflect_commit_function}
use new_rpc.Net.Rpc.{RpcBase, process_buffer_cb}
use new_rpc.Net.Receive.{receive_package}
use new_rpc.Net.Service.{
  Service, MaintainInfo, update, find_waiting, erase_waiting, receive_response, receive,
}
use new_rpc.Net.Wire.{HeaderFits, request_header}
use new_rpc.Net.Delivery.{stream, receive_package-stream, reflect_commit_function-encode}

message_type-request : (x : PackageHeader) → x.flags ≡ 1 → get_message_type x ≡ 1
unfolding get_message_type
message_type-request x flags = rw flags

message_type-response : (x : PackageHeader) → x.flags ≡ 2 → get_message_type x ≡ 2
unfolding get_message_type
message_type-response x flags = rw flags

-- `receive` of a request whose function is registered.
pub receive_request_lem :
    (e : Endian) (s : Service) (peer : EndPoint) (chunks : List (List ℕ)) {x : PackageHeader}
    {payload : List ℕ} {task : Task}
    → receive_package e chunks ≡ ok (x, 32, payload)
    → reflect_commit_function e false x peer payload ≡ ok (committed task)
    → x.flags ≡ 1
    → x.payload_len ≤ 96
    → receive e false s peer chunks ≡ ok (record s { tasks = s.tasks ++ (task ∷ []) })
unfolding receive get_serialize_size
receive_request_lem e s peer chunks {x} got made flags small =
    let counted : leb x.payload_len 96 ≡ true = ground arith in
    rw (got, message_type-request x flags, made, counted)

-- `receive` of the response that ends a call.
pub receive_response_lem :
    (e : Endian) (stopped : Bool) (s : Service) (peer : EndPoint) (chunks : List (List ℕ))
    {x : PackageHeader} {payload : List ℕ} {info : MaintainInfo} {r : RpcBase}
    → receive_package e chunks ≡ ok (x, 32, payload)
    → find_waiting x.rpc_id s.waiting ≡ some info
    → process_buffer_cb e (s.callbacks info.callback) (set_port peer x.server_port) payload
      ≡ ok (r, true)
    → (r.coroutine == 0) ≡ false
    → x.flags ≡ 2
    → x.payload_len ≤ 96
    → receive e stopped s peer chunks
      ≡ ok (record s {
        callbacks = update s.callbacks info.callback r;
        waiting = erase_waiting x.rpc_id s.waiting;
        ready = s.ready ++ (r.coroutine ∷ []);
      })
unfolding receive get_serialize_size
receive_response_lem e stopped s peer chunks {x} got found done awake flags small =
    let counted : leb x.payload_len 96 ≡ true = ground arith in
    rw (got, message_type-response x flags, receive_response, found, done, awake, counted)

-- A request from end to end: the bytes that the caller's `await_suspend` sends (`request_header` and
-- the arguments, see `prepare_request-with_args`), cut into chunks in any way, make `receive` commit a
-- task of the called function behind those that there are, with the arguments of the call, and the
-- caller's address with the port that it listens at, its id and the function's number to answer to,
-- on a host of any byte order; nothing else is changed. The scheduler has not been stopped, the
-- numbers of the arguments and the fields of the header fit their widths, and the arguments take at
-- most 96 bytes.
pub receive-request :
    (e : Endian) (s : Service) (f : Function) (vs : Vals (args_tuple f)) (coro_id port : ℕ)
    (peer : EndPoint) (chunks : List (List ℕ))
    → FitMembers (args_tuple f) vs
    → let header =
        request_header (function_id f) coro_id port (length (encode_members (args_tuple f) vs)) in
      HeaderFits header
      → length (encode_members (args_tuple f) vs) ≤ 96
      → stream chunks ≡ encode header_type (header_vals header) ++ encode_members (args_tuple f) vs
      → receive e false s peer chunks
        ≡ ok (record s {
          tasks =
              s.tasks
              ++ (record {
                function = f;
                args = vs;
                response_info = record {
                  response_to_end_point = set_port peer port;
                  response_to_coro_id = coro_id;
                  response_rpc_type = function_id f;
                };
              }
                  ∷ []);
        })
receive-request e s f vs coro_id port peer chunks fits wide small here =
    let args = encode_members (args_tuple f) vs in
    let header = request_header (function_id f) coro_id port (length args) in
    let whole = here ∙ ap (◌++◌ (encode header_type (header_vals header))) (sym (append-nil _)) in
    receive_request_lem e s peer chunks
      (receive_package-stream e chunks header args [] whole wide refl refl)
      (reflect_commit_function-encode e f vs header peer fits refl) refl small
