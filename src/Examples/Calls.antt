-- ===== src/Examples/Calls.antt =====
-- A call to two endpoints, one of which answers.
use new_rpc.Base.{ℕ, ◌≡◌, ◌≢◌, ◌↔◌, refl, [], ◌∷◌, ◌++◌, arith, length, none, true, false, List}
use new_rpc.Error.{error_no, rpc_timeout}
use new_rpc.Serialization.Memory.{ok, aborted, little}
use new_rpc.Serialization.Types.{fundamental, Expected, value, unexpected}
use new_rpc.Net.EndPoint.{EndPoint, ipv4_bytes, when_all, endpoint_eq, set_port}
use new_rpc.Serialization.Deserialize.{deserialize}
use new_rpc.Net.Header.{PackageHeader, magic_number}
use new_rpc.Net.Rpc.{RpcBase, process_buffer_cb, accept_result, timeout_cb}
use new_rpc.Net.Results.{IsDue, accept_result-IsDue, timeout_cb-IsCounted, timeout_cb-unawaited}
use new_rpc.Net.Service.{
  Service, MaintainInfo, update, find_waiting, commit_send_request_task, receive_response, fire,
  remove_timer,
}
use new_rpc.Net.Waiting.{has_timer}
use new_rpc.Net.Liveness.{IsLive}
use new_rpc.Net.Runs.{
  sent, Reach, here, next, TakesResult, Reach-IsLive, fire_wakes, receive_response-begun,
  stale_timer,
}

abbrev first_peer : EndPoint
first_peer = record { ip = ipv4_bytes 127 0 0 1; port = 9000; flags = 1 }

abbrev second_peer : EndPoint
second_peer = record { ip = ipv4_bytes 127 0 0 1; port = 9001; flags = 1 }

abbrev call : RpcBase
call = record {
  ret = fundamental 8;
  endpoints = (first_peer, false) ∷ (second_peer, false) ∷ [];
  finish_condition = when_all;
  timeout = 1000000000;
  func_id = 1;
  send_buffer = [];
  total_serialize_size = 0;
  received_results = [];
  on_each_function = none;
  coroutine = 5;
}

-- The second endpoint has answered.
abbrev half_done : RpcBase
half_done = record call {
  endpoints = (first_peer, false) ∷ (second_peer, true) ∷ [];
  received_results = (second_peer, value 7) ∷ [];
}

accept_second : accept_result call second_peer 7 ≡ ok (half_done, false)
unfolding accept_result endpoint_eq
accept_second = refl

accept_result-IsDue_example : (false ≡ true) ↔ IsDue when_all 1 2
accept_result-IsDue_example = accept_result-IsDue call second_peer 7 half_done false accept_second

timeout_cb-IsCounted_example :
    let all : List (EndPoint × Expected ℕ) =
      (second_peer, value 7) ∷ (first_peer, unexpected (error_no rpc_timeout)) ∷ [] in
    (timeout_cb half_done ≡ ok (record half_done { received_results = all })) × (length all ≡ 2)
timeout_cb-IsCounted_example = timeout_cb-IsCounted half_done (record { counted = refl })

-- An answer from a third party.
abbrev stranger : EndPoint
stranger = record { ip = ipv4_bytes 10 0 0 1; port = 80; flags = 1 }

abbrev confused : RpcBase
confused = record call { received_results = (stranger, value 9) ∷ [] }

timeout_cb-unawaited_example : timeout_cb confused ≡ aborted
unfolding endpoint_eq accept_result
timeout_cb-unawaited_example =
    timeout_cb-unawaited call stranger 9 confused (record { counted = refl }) refl refl

abbrev idle : Service
idle = record {
  listen_port = 9000;
  waiting = [];
  callbacks = λ p. call;
  timers = [];
  outbox = [];
  ready = [];
  tasks = [];
}

-- The service with the call under way: coroutine 42 waits, with its frame at 5 and its object at 8.
abbrev waiting_service : Service
waiting_service =
    commit_send_request_task (record idle { callbacks = update idle.callbacks 8 call }) 42
      call.endpoints call.send_buffer 1000000000 5 8

abbrev frame : ℕ
frame = 5

some_frame : frame ≢ 0
some_frame h = absurd (omega arith)

waiting-Reach : Reach idle waiting_service
waiting-Reach = next here (sent 42 call 1000000000 5 8 some_frame)

Reach-IsLive_example : IsLive waiting_service
Reach-IsLive_example = Reach-IsLive refl waiting-Reach

abbrev waiting_info : MaintainInfo
waiting_info = record { coroutine = 5; callback = 8 }

fire_wakes_example :
    (has_timer 42 waiting_service.timers ≡ true)
    × (s' : Service) × (fire waiting_service 42 ≡ ok s')
    × (s'.ready ≡ waiting_service.ready ++ (5 ∷ []))
    × (find_waiting 42 s'.waiting ≡ none)
    × (length (s'.callbacks 8).received_results ≡ length (waiting_service.callbacks 8).endpoints)
    × (s'.timers ≡ remove_timer 42 waiting_service.timers)
unfolding commit_send_request_task find_waiting
fire_wakes_example =
    fire_wakes waiting_service 42 waiting_info (Reach-IsLive refl waiting-Reach) refl
      (record { counted = refl })

-- The first endpoint's answer, in a service where the second one has answered.
abbrev answer_header : PackageHeader
answer_header = record {
  version = 1;
  reserved = 0;
  server_port = 9000;
  flags = 2;
  rpc_id = 42;
  process_restart_counter = 1;
  rpc_type = 1;
  checksum = magic_number;
  payload_len = 8;
}

abbrev answer_bytes : List ℕ
answer_bytes = 7 ∷ 0 ∷ 0 ∷ 0 ∷ 0 ∷ 0 ∷ 0 ∷ 0 ∷ []

abbrev half_service : Service
half_service = record waiting_service { callbacks = update idle.callbacks 8 half_done }

abbrev answered_call : RpcBase
answered_call = record call {
  endpoints = (first_peer, true) ∷ (second_peer, true) ∷ [];
  received_results = (second_peer, value 7) ∷ (first_peer, value 7) ∷ [];
}

half_service-IsLive : IsLive half_service
half_service-IsLive =
    let v = Reach-IsLive refl waiting-Reach in record { unique = v.unique; timed = v.timed }

receive_response-begun_example :
    (s' : Service) × (receive_response little half_service answer_header first_peer answer_bytes
      ≡ ok s')
    × TakesResult half_service s' 42 8 answered_call true
unfolding process_buffer_cb endpoint_eq deserialize set_port find_waiting commit_send_request_task
receive_response-begun_example =
    receive_response-begun little half_service answer_header first_peer answer_bytes waiting_info
      answered_call true half_service-IsLive refl some_frame refl

-- The call of coroutine 42 has been answered, and its timer is still there.
abbrev with_old_timer : Service
with_old_timer = record idle { timers = (42, 1000000000) ∷ [] }

with_old_timer-Reach : Reach with_old_timer with_old_timer
with_old_timer-Reach = here

stale_timer_example :
    let s1 =
      commit_send_request_task
        (record with_old_timer { callbacks = update with_old_timer.callbacks 8 call })
        42
        call.endpoints
        call.send_buffer
        1000000000
        5
        8 in
    (s' : Service) × (fire s1 42 ≡ ok s')
    × (s'.ready ≡ 5 ∷ [])
    × (length (s'.callbacks 8).received_results ≡ 2)
    × (has_timer 42 s'.timers ≡ true)
unfolding find_waiting
stale_timer_example =
    stale_timer with_old_timer 42 call 1000000000 5 8 (Reach-IsLive refl with_old_timer-Reach) refl
      refl (record { counted = refl }) some_frame
