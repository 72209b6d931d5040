-- ===== src/Examples/Remote.antt =====
-- A remote call of `example_add_point`, from a host of one byte order to one of the other.
use new_rpc.Base.{ℕ, ◌≡◌, refl, false, List, [], ◌∷◌, ap, append-nil, arith, none, some}
use new_rpc.Serialization.Memory.{ok, undefined, ◌>>=◌, little, big}
use new_rpc.Serialization.Types.{Vals, fundamental, value, unexpected}
use new_rpc.Net.EndPoint.{ipv4_bytes}
use new_rpc.Net.Mapper.{args_tuple, example_add, example_add_point}
use new_rpc.Net.Rpc.{RpcBase, make_rpc, with_args}
use new_rpc.Net.CoRpc.{one_result, await_resume}
use new_rpc.Net.Service.{Service, find_waiting}
use new_rpc.Net.Delivery.{stream}
use new_rpc.Coroutine.Frame.{LinkedCoroutine, make_frame}
use new_rpc.Demo.Functions.{add_int64, call_function}
use new_rpc.Demo.Programs.{test_add_point, coro_fibo, result_line}
use new_rpc.Text.Errors.{codes}
use new_rpc.Serialization.Serialize.{serialize_members, get_serialize_sizes}
use new_rpc.Demo.RemoteCall.{Caller, Callee, Network, IsReliable, total, remote_call}
use new_rpc.Demo.Answered.{answered, remote_call-call_function, remote_call-late}
use new_rpc.Demo.Asking.{waiting_rpc}
use new_rpc.Error.{error_no, rpc_timeout}

-- 3 + (-1), and the sum that is out of range.
add_int64_negative : add_int64 3 0xffffffffffffffff ≡ ok 2
unfolding add_int64
add_int64_negative = refl

add_int64_overflow : add_int64 0x7fffffffffffffff 1 ≡ undefined
unfolding add_int64
add_int64_overflow = refl

abbrev idle : ℕ → Service
idle port = record {
  listen_port = port;
  waiting = [];
  callbacks = λ p. make_rpc (fundamental 8) 0;
  timers = [];
  outbox = [];
  ready = [];
  tasks = [];
}

abbrev asking_frame : LinkedCoroutine
asking_frame = record (make_frame 7) {
  coro_local_var = some (record { coro_id = 42; wake_up_ts = 0; response_info = none });
}

abbrev client : Caller
client = record {
  endian = little;
  frames = λ p. asking_frame;
  service = idle 9001;
  address = record { ip = ipv4_bytes 10 0 0 1; port = 50000; flags = 1 };
  self = 7;
  callback = 100;
}

abbrev server : Callee
server = record {
  endian = big;
  frames = λ p. make_frame p;
  service = idle 9000;
  address = record { ip = ipv4_bytes 10 0 0 2; port = 9000; flags = 1 };
  self = 8;
  coro_id = 3;
  rand = 0;
  running = 1;
}

-- The first byte comes alone.
abbrev split_first : List ℕ → List (List ℕ)
split_first [] = []
split_first (x ∷ xs) = (x ∷ []) ∷ xs ∷ []

abbrev wire : Network
wire = record {
  delay = 40000000;
  request_chunks = split_first;
  response_chunks = λ bytes. bytes ∷ [];
}

wire-IsReliable : IsReliable wire
wire-IsReliable = record { request_whole = first; response_whole = λ bytes. append-nil bytes }
  where
    first : (bytes : List ℕ) → stream (split_first bytes) ≡ bytes
    first [] = refl
    first (x ∷ xs) = ap (◌∷◌ x) (append-nil xs)

sum :
    call_function example_add_point ((1, (2, tt)), ((3, (4, tt)), tt)) 0
    ≡ ok (record { sleeps = []; result = (4, (6, tt)) })
unfolding call_function
sum = refl

abbrev points : Vals (args_tuple example_add_point)
points = ((1, (2, tt)), ((3, (4, tt)), tt))

abbrev done_call : RpcBase
done_call = answered example_add_point points server.address 42 9001 9000 7 (4, (6, tt))

remote_call-call_function_example :
    (s : Service) × (remote_call wire client server example_add_point points ≡ ok s)
    × (s.ready ≡ 7 ∷ [])
    × (s.waiting ≡ [])
    × (s.callbacks 100 ≡ done_call)
    × (await_resume (record { multi_rpc = false; rpc_base = done_call })
        ≡ ok (one_result (value (4, (6, tt)))))
unfolding find_waiting total
remote_call-call_function_example =
    remote_call-call_function wire client server example_add_point points wire-IsReliable refl refl
      refl ((omega arith, (omega arith, tt)), ((omega arith, (omega arith, tt)), tt)) (omega arith)
      (omega arith) (omega arith) refl sum (omega arith)

-- `example_add` sleeps for as long as a call waits.
sum_of_numbers :
    call_function example_add (3, (4, tt)) 0 ≡ ok (record { sleeps = 1000000000 ∷ []; result = 7 })
unfolding call_function
sum_of_numbers = refl

abbrev late_call : RpcBase
late_call = record (waiting_rpc example_add (3, (4, tt)) server.address 42 9001 7) {
  received_results = (server.address, unexpected (error_no rpc_timeout)) ∷ [];
}

remote_call-late_example :
    (s : Service) × (remote_call wire client server example_add (3, (4, tt)) ≡ ok s)
    × (s.ready ≡ 7 ∷ [])
    × (s.waiting ≡ [])
    × (s.callbacks 100 ≡ late_call)
    × (await_resume (record { multi_rpc = false; rpc_base = late_call })
        ≡ ok (one_result (unexpected (error_no rpc_timeout))))
unfolding find_waiting total
remote_call-late_example =
    remote_call-late wire client server example_add (3, (4, tt)) wire-IsReliable refl refl refl
      (omega arith, (omega arith, tt)) (omega arith) (omega arith) (omega arith) refl sum_of_numbers
      (omega arith)

-- The call of main.cpp has a timeout of two seconds.
test_add_point_timeout :
    (test_add_point little server.address >>= λ c. ok c.rpc_base.timeout) ≡ ok 2000000000
unfolding test_add_point with_args serialize_members get_serialize_sizes
test_add_point_timeout = refl

fibo_5 : coro_fibo 5 ≡ ok 8
unfolding coro_fibo
fibo_5 = refl

-- A delay of 1.5 milliseconds.
delay_line :
    result_line (server.address, value 1500000)
    ≡ codes "print result from:[10.0.0.2:9000], delay:1.50ms"
unfolding result_line
delay_line = refl

timeout_line :
    result_line (server.address, unexpected 0xfffffc17)
    ≡ codes
        "\u{1b}[0;31mfrom:[10.0.0.2:9000], err:error:-1001, message:rpc response not returned at specified time span.\u{1b}[0m"
unfolding result_line
timeout_line = refl
