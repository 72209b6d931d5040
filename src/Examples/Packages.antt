-- ===== src/Examples/Packages.antt =====
-- A call of `example_add` from the caller's buffer to the server's task, and its result back.
use new_rpc.Base.{ℕ, ◌≡◌, refl, List, [], ◌∷◌, ◌++◌, arith, take, drop, none, false}
use new_rpc.Serialization.Memory.{ok, big, le_bytes}
use new_rpc.Serialization.Types.{Members, fundamental, no_members, member, Vals, value}
use new_rpc.Serialization.Encoding.{encode}
use new_rpc.Net.EndPoint.{EndPoint, set_port, ipv4_bytes, when_all}
use new_rpc.Net.Header.{header_type, header_vals, PackageHeader}
use new_rpc.Net.Mapper.{example_add, ResponseInfo}
use new_rpc.Net.Rpc.{RpcBase, mark_received}
use new_rpc.Net.Receive.{read_exact}
use new_rpc.Net.Wire.{HeaderFits, request_header}
use new_rpc.Net.Delivery.{stream, read_exact-stream}
use new_rpc.Net.Service.{Service, update, commit_send_request_task, receive}
use new_rpc.Net.Response.{response_header}
use new_rpc.Net.Received.{receive-request}

abbrev peer : EndPoint
peer = record { ip = ipv4_bytes 127 0 0 1; port = 9000; flags = 1 }

-- A call of function 1 to one endpoint.
abbrev call : RpcBase
call = record {
  ret = fundamental 8;
  endpoints = (peer, false) ∷ [];
  finish_condition = when_all;
  timeout = 1000000000;
  func_id = 1;
  send_buffer = [];
  total_serialize_size = 0;
  received_results = [];
  on_each_function = none;
  coroutine = 5;
}

abbrev two_numbers : Members
two_numbers = member (fundamental 8) (member (fundamental 8) no_members)

abbrev args : Vals two_numbers
args = (3, (4, tt))

abbrev header : PackageHeader
header = request_header 1 42 9001 16

header-HeaderFits : HeaderFits header
header-HeaderFits = (
  omega arith,
  (
    omega arith,
    (
      omega arith,
      (omega arith, (omega arith, (omega arith, (omega arith, (omega arith, (omega arith, tt)))))),
    ),
  ),
)

abbrev three_chunks : List (List ℕ)
three_chunks = (1 ∷ 2 ∷ []) ∷ (3 ∷ []) ∷ (4 ∷ 5 ∷ 6 ∷ []) ∷ []

read_exact-stream_example :
    (rest : List (List ℕ)) × (read_exact 4 three_chunks ≡ ok (take 4 (stream three_chunks), rest))
    × (stream rest ≡ drop 4 (stream three_chunks))
read_exact-stream_example = read_exact-stream 4 three_chunks (omega arith)

-- The package, with the header cut in two and the arguments behind another package's first bytes.
abbrev package_chunks : List (List ℕ)
package_chunks =
    (1 ∷ 0 ∷ 0 ∷ 0 ∷ 41 ∷ 35 ∷ 1 ∷ 0 ∷ 42 ∷ 0 ∷ [])
    ∷ (0 ∷ 0 ∷ 0 ∷ 0 ∷ 0 ∷ 0 ∷ 1 ∷ 0 ∷ 1 ∷ 0 ∷ 16 ∷ 0 ∷ 0 ∷ 0 ∷ 0 ∷ 0 ∷ 0 ∷ 0 ∷ 221 ∷ 204 ∷ 187
        ∷ 170 ∷ 3 ∷ 0 ∷ 0 ∷ [])
    ∷ (0 ∷ 0 ∷ 0 ∷ 0 ∷ 0 ∷ 4 ∷ 0 ∷ 0 ∷ 0 ∷ 0 ∷ 0 ∷ 0 ∷ 0 ∷ [])
    ∷ []

-- A service that waits for nothing.
abbrev idle : Service
idle = record {
  listen_port = 9000;
  waiting = [];
  callbacks = λ p. call;
  timers = [];
  outbox = [];
  ready = [];
  tasks = [];
}

receive-request_example :
    receive big false idle peer package_chunks
    ≡ ok (record idle {
      tasks =
          record {
            function = example_add;
            args = args;
            response_info = record {
              response_to_end_point = set_port peer 9001;
              response_to_coro_id = 42;
              response_rpc_type = 1;
            };
          }
          ∷ [];
    })
unfolding encode le_bytes
receive-request_example =
    receive-request big idle example_add args 42 9001 peer package_chunks
      (omega arith, (omega arith, tt)) header-HeaderFits (omega arith) refl

abbrev pub info : ResponseInfo
info = record { response_to_end_point = peer; response_to_coro_id = 42; response_rpc_type = 1 }

pub response-HeaderFits : HeaderFits (response_header info 9000 8)
response-HeaderFits = (
  omega arith,
  (
    omega arith,
    (
      omega arith,
      (omega arith, (omega arith, (omega arith, (omega arith, (omega arith, (omega arith, tt)))))),
    ),
  ),
)

-- The response in one chunk.
abbrev response_chunks : List (List ℕ)
response_chunks =
    (encode header_type (header_vals (response_header info 9000 8)) ++ encode (fundamental 8) 7)
    ∷ []

-- The service whose call waits, with its object at 8.
abbrev asking : Service
asking =
    commit_send_request_task (record idle { callbacks = update idle.callbacks 8 call }) 42
      call.endpoints call.send_buffer 1000000000 5 8

abbrev answered_call : RpcBase
answered_call = record call {
  endpoints = mark_received call.endpoints (set_port peer 9000);
  received_results = (set_port peer 9000, value 7) ∷ [];
}
