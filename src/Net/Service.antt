-- ===== src/Net/Service.antt =====
-- `NetService` of net_module/net_service.h and net_service.cpp: the calls that wait for responses,
-- by the id of their coroutine. Sockets, threads and the lock are the environment's: each function
-- below is one critical section, and what it spawns or hands to the scheduler is listed in the state.
use new_rpc.Base.{
  ℕ, ◌-◌, Bool, List, [], ◌∷◌, ◌++◌, map, Option, none, some, leb, ◌==◌, if◌then◌else◌,
}
use new_rpc.Serialization.Memory.{
  Result, ok, thrown, undefined, aborted, ◌>>=◌, ◌>>◌, check, Endian,
}
use new_rpc.Serialization.Serialize.{get_serialize_size}
use new_rpc.Net.EndPoint.{EndPoint, set_port}
use new_rpc.Net.Header.{
  PackageHeader, empty_header, header_type, header_vals, get_message_type, message_type_value,
  request, response,
}
use new_rpc.Net.Rpc.{RpcBase, process_buffer_cb, timeout_cb}
use new_rpc.Net.Mapper.{Task, Commit, committed, refused, reflect_commit_function}
use new_rpc.Net.Receive.{receive_package, buffer_size}

-- `coroutine` and `callback` are addresses; 0 is the null pointer.
pub record MaintainInfo : Type 0 where
  pub coroutine : ℕ
  pub callback : ℕ

-- `waiting` is `waiting_coros_`. `callbacks` is the memory of the `RpcBase` objects; `timers` are the
-- spawned `timeout_` coroutines that have not run, with their durations; `outbox` the spawned
-- `send_`; `ready` the coroutines and `tasks` the requests that were given to the scheduler.
pub record Service : Type 0 where
  pub listen_port : ℕ
  pub waiting : List (ℕ × MaintainInfo)
  pub callbacks : ℕ → RpcBase
  pub timers : List (ℕ × ℕ)
  pub outbox : List (EndPoint × List ℕ)
  pub ready : List ℕ
  pub tasks : List Task

-- `find`, `insert` and `erase` of the map; `insert` leaves a key that is there as it is.
unfoldable pub find_waiting : ℕ → List (ℕ × MaintainInfo) → Option MaintainInfo
find_waiting id [] = none
find_waiting id ((j, info) ∷ m) = if j == id then some info else find_waiting id m

unfoldable pub insert_waiting : ℕ → MaintainInfo → List (ℕ × MaintainInfo) → List (ℕ × MaintainInfo)
insert_waiting id info [] = (id, info) ∷ []
insert_waiting id info ((j, old) ∷ m) =
    if j == id then (j, old) ∷ m else (j, old) ∷ insert_waiting id info m

unfoldable pub erase_waiting : ℕ → List (ℕ × MaintainInfo) → List (ℕ × MaintainInfo)
erase_waiting id [] = []
erase_waiting id ((j, info) ∷ m) = if j == id then m else (j, info) ∷ erase_waiting id m

abbrev pub update {ℓ} : {A : Type ℓ} → (ℕ → A) → ℕ → A → ℕ → A
update f p v q = if p == q then v else f q

unfoldable pub commit_send_request_task :
    Service
    → (coro_id : ℕ) (endpoints : List (EndPoint × Bool)) (buffer : List ℕ)
      (timeout_ns coroutine callback : ℕ)
    → Service
unfolding insert_waiting
commit_send_request_task s coro_id endpoints buffer timeout_ns coroutine callback = record s {
  waiting =
      insert_waiting coro_id (record { coroutine = coroutine; callback = callback }) s.waiting;
  timers = (coro_id, timeout_ns) ∷ s.timers;
  outbox = s.outbox ++ map (λ x. (x.0, buffer)) endpoints;
}

unfoldable pub commit_send_response_task : Service → EndPoint → List ℕ → Service
commit_send_response_task s endpoint buffer = record s {
  outbox = s.outbox ++ ((endpoint, buffer) ∷ []);
}

-- `if (coroutine) TLS_SCHEDULER->commit(coroutine)`
unfoldable pub commit_awaken : Service → ℕ → Service
commit_awaken s coroutine =
    if coroutine == 0 then s else record s { ready = s.ready ++ (coroutine ∷ []) }

-- The end of a call: its entry goes, unless the coroutine is null, and the coroutine is committed.
unfoldable pub awaken : Service → (coro_id coroutine : ℕ) → Service
unfolding erase_waiting commit_awaken
awaken s coro_id coroutine =
    if coroutine == 0
    then s
    else commit_awaken (record s { waiting = erase_waiting coro_id s.waiting }) coroutine

-- A result of `process_buffer_cb` that was found for the id.
unfoldable pub after_response : Service → (coro_id callback : ℕ) → RpcBase × Bool → Service
unfolding awaken
after_response s coro_id callback (r, need_awaken) =
    awaken (record s { callbacks = update s.callbacks callback r }) coro_id
      (if need_awaken then r.coroutine else 0)

-- The branch of `receive` for a response.
unfoldable pub receive_response :
    Endian → Service → PackageHeader → EndPoint → List ℕ → Result Service
unfolding find_waiting after_response
receive_response e s header peer payload = elim (find_waiting header.rpc_id s.waiting) [
  | none ↦ ok s
  | some info ↦
      process_buffer_cb e (s.callbacks info.callback) (set_port peer header.server_port) payload
      >>= λ o. ok (after_response s header.rpc_id info.callback o)
]

-- `assert(ret)` after a request.
unfoldable pub add_task : Service → Commit → Result Service
add_task s (committed task) = ok (record s { tasks = s.tasks ++ (task ∷ []) })
add_task s (refused error) = aborted

unfoldable pub dispatch :
    Endian → (stopped : Bool) → Service → PackageHeader → EndPoint → List ℕ → Result Service
unfolding receive_response add_task
dispatch e stopped s header peer payload =
    if get_message_type header == message_type_value request
    then reflect_commit_function e stopped header peer payload >>= add_task s
    else if get_message_type header == message_type_value response
    then receive_response e s header peer payload
    else aborted

-- `catch (const std::exception &)`: the connection is closed, and nothing has been changed.
abbrev pub catching : Service → Result Service → Result Service
catching s (ok s') = ok s'
catching s (thrown x) = ok s
catching s undefined = undefined
catching s aborted = aborted

-- `receive`, with the two `assert`s behind the branches. `peer` is what `remote_endpoint` gives; if that
-- call throws, which is before the `try`, nothing has been read or changed.
unfoldable pub receive :
    Endian → (stopped : Bool) → Service → EndPoint → List (List ℕ) → Result Service
unfolding dispatch
receive e stopped s peer chunks = catching s (do
  (header, pos, payload) ← receive_package e chunks
  s' ← dispatch e stopped s header peer payload
  size ← get_serialize_size header_type (header_vals empty_header)
  check (pos == size)
  check (leb header.payload_len (buffer_size - size))
  ok s')

-- `timeout_`, when its timer has run out.
unfoldable pub timeout_ : Service → (coro_id : ℕ) → Result Service
unfolding find_waiting awaken
timeout_ s coro_id = elim (find_waiting coro_id s.waiting) [
  | none ↦ ok s
  | some info ↦ timeout_cb (s.callbacks info.callback) >>= λ r.
      ok (
        awaken (record s { callbacks = update s.callbacks info.callback r }) coro_id info.coroutine)
]

-- The timers of which one fires are a list; the one that fires is taken off.
unfoldable pub remove_timer : ℕ → List (ℕ × ℕ) → List (ℕ × ℕ)
remove_timer id [] = []
remove_timer id ((j, d) ∷ ts) = if j == id then ts else (j, d) ∷ remove_timer id ts

unfoldable pub fire : Service → (coro_id : ℕ) → Result Service
unfolding remove_timer timeout_
fire s coro_id = timeout_ (record s { timers = remove_timer coro_id s.timers }) coro_id
