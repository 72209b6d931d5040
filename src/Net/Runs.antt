-- ===== src/Net/Runs.antt =====
-- Runs of a `NetService`: requests, responses and timers in any order.
use new_rpc.Base.{
  ℕ, ◌≡◌, ◌≢◌, refl, sym, ap, ◌∙◌, Bool, true, false, List, [], ◌∷◌, ◌++◌, append-nil, ◌&&◌, none,
  some, ◌==◌, ==_iff, if◌then◌else◌, arith, length,
}
use new_rpc.Serialization.Memory.{Result, ok, thrown, undefined, aborted, ◌>>=◌, Endian}
use new_rpc.Serialization.Types.{default_val}
use new_rpc.Serialization.Deserialize.{deserialize_from_start}
use new_rpc.Net.EndPoint.{EndPoint, set_port}
use new_rpc.Net.Header.{PackageHeader}
use new_rpc.Net.Rpc.{RpcBase, process_buffer_cb, accept_result, timeout_results}
use new_rpc.Net.Results.{IsCounted, timeout_cb_lem, accept_result-coroutine}
use new_rpc.Net.Service.{
  Service, MaintainInfo, find_waiting, erase_waiting, update, awaken, after_response,
  commit_send_request_task, receive_response, fire, remove_timer,
}
use new_rpc.Net.Waiting.{has_timer, find-insert, find-erase}
use new_rpc.Net.Liveness.{
  IsLive, timed_out, commit_send_request_task-IsLive, receive_response-IsLive, fire-IsLive,
  receive_response-found, timeout_-found, waiting-awaken, ready-awaken, callbacks-awaken,
  timers-awaken,
}

-- What can happen to a service: a coroutine sends a request, with its `RpcBase` object at the address
-- `callback`; a response comes in; the timer of a request runs out.
pub data Step (s : Service) : Service → Type 0 where
  sent :
      (id : ℕ) (r : RpcBase) (timeout_ns coroutine callback : ℕ)
      → coroutine ≢ 0
      → Step s (
          commit_send_request_task
            (record s { callbacks = update s.callbacks callback r })
            id
            r.endpoints
            r.send_buffer
            timeout_ns
            coroutine
            callback)
  received :
      (e : Endian) (x : PackageHeader) (peer : EndPoint) (payload : List ℕ) {s' : Service}
      → receive_response e s x peer payload ≡ ok s'
      → Step s s'
  fired : (id : ℕ) {s' : Service} → has_timer id s.timers ≡ true → fire s id ≡ ok s' → Step s s'

pub data Reach (s : Service) : Service → Type 0 where
  here : Reach s s
  next : {t u : Service} → Reach s t → Step t u → Reach s u

Step-IsLive : {s t : Service} → Step s t → IsLive s → IsLive t
Step-IsLive {s} (sent id r timeout_ns coroutine callback h) v =
    commit_send_request_task-IsLive (record s { callbacks = update s.callbacks callback r }) id
      r.endpoints r.send_buffer timeout_ns coroutine callback h
      (record { unique = v.unique; timed = v.timed })
Step-IsLive {s} (received e x peer payload {s' = t} done) v =
    receive_response-IsLive e s x peer payload t done v
Step-IsLive {s} (fired id {s' = t} h done) v = fire-IsLive s id t done v

find-nil : (id : ℕ) (m : List (ℕ × MaintainInfo)) → m ≡ [] → find_waiting id m ≡ none
unfolding find_waiting
find-nil id m h = rw h

start-IsLive : {s : Service} → s.waiting ≡ [] → IsLive s
start-IsLive {s} empty = record {
  unique = rw empty tt;
  timed = λ id info f. absurd (cc (find-nil id s.waiting empty));
}

-- However requests, responses and timeouts interleave, starting from a service with nothing waiting:
-- no id stands twice in the map, and every call that waits has a coroutine and a timer that is still
-- to run out.
pub Reach-IsLive : {s t : Service} → s.waiting ≡ [] → Reach s t → IsLive t
Reach-IsLive empty here = start-IsLive empty
Reach-IsLive empty (next r step) = Step-IsLive step (Reach-IsLive empty r)

if_false {ℓ} : {A : Type ℓ} (b : Bool) (x y : A) → b ≡ false → (if b then x else y) ≡ y
if_false b x y h = rw h

-- A call that waits in a reachable service is woken when its timer fires, if no response wakes it
-- before: the step cannot abort, the coroutine is given to the scheduler behind those that are
-- there, the id waits no more, the call has one result for each of its
-- endpoints, and one timer of the id is gone. The call's
-- results and receive flags are in step.
pub fire_wakes :
    (s : Service) (id : ℕ) (info : MaintainInfo)
    → IsLive s
    → find_waiting id s.waiting ≡ some info
    → IsCounted (s.callbacks info.callback)
    → (has_timer id s.timers ≡ true)
      × (s' : Service) × (fire s id ≡ ok s')
      × (s'.ready ≡ s.ready ++ (info.coroutine ∷ []))
      × (find_waiting id s'.waiting ≡ none)
      × (length (s'.callbacks info.callback).received_results
          ≡ length (s.callbacks info.callback).endpoints)
      × (s'.timers ≡ remove_timer id s.timers)
unfolding fire
fire_wakes s id info v there c =
    let r = s.callbacks info.callback in
    let (done, size) = timeout_cb_lem r c in
    let r' = record r { received_results = r.received_results ++ timeout_results r.endpoints } in
    let s0 = record s {
      callbacks = update s.callbacks info.callback r';
      timers = remove_timer id s.timers;
    } in
    let some_coroutine : (info.coroutine == 0) ≡ false =
      ground (arith, (v.timed id info there).0) in
    let same : (info.callback == info.callback) ≡ true =
      (==_iff info.callback info.callback).1 refl in
    let gone : find_waiting id (erase_waiting id s.waiting) ≡ none =
      rw (find-erase id id s.waiting v.unique, (==_iff id id).1 refl) in
    (
      (v.timed id info there).1,
      timed_out s id info r',
      timeout_-found (record s { timers = remove_timer id s.timers }) id info there ∙ rw done,
      ready-awaken s0 id info.coroutine ∙ if_false _ _ _ some_coroutine,
      ap (find_waiting id) (waiting-awaken s0 id info.coroutine ∙ if_false _ _ _ some_coroutine)
          ∙ gone,
      ap (λ (f : ℕ → RpcBase). length (f info.callback).received_results)
            (callbacks-awaken s0 id info.coroutine)
          ∙ rw same size,
      timers-awaken s0 id info.coroutine,
    )

bind_ok {ℓ κ} :
    {A : Type ℓ} {B : Type κ} (o : Result A) (f : A → Result B) (b : B)
    → (o >>= f) ≡ ok b
    → (a : A) × (f a ≡ ok b)
bind_ok (ok a) f b h = (a, h)
bind_ok (thrown x) f b h = absurd (cc)
bind_ok undefined f b h = absurd (cc)
bind_ok aborted f b h = absurd (cc)

process_buffer_cb-coroutine :
    (e : Endian) (r : RpcBase) (peer : EndPoint) (payload : List ℕ) (r' : RpcBase) (b : Bool)
    → process_buffer_cb e r peer payload ≡ ok (r', b)
    → r'.coroutine ≡ r.coroutine
unfolding process_buffer_cb
process_buffer_cb-coroutine e r peer payload r' b done =
    let (v, accepts) =
      bind_ok (deserialize_from_start e r.ret (default_val r.ret) payload (length payload))
        (accept_result r peer) (r', b) done in
    accept_result-coroutine r peer v r' b accepts

-- The service `s'` after the call `id` of the object at `callback` in `s` has got a result: the object is
-- `r`; if the call is due to go on, its coroutine is ready behind the others and the id waits no more.
abbrev pub TakesResult : (s s' : Service) (id callback : ℕ) → RpcBase → (due : Bool) → Type 0
TakesResult s s' id callback r due =
    (s'.callbacks callback ≡ r)
    × (s'.ready ≡ s.ready ++ (if due then (s.callbacks callback).coroutine ∷ [] else []))
    × ((j : ℕ)
        → find_waiting j s'.waiting ≡ (if due && id == j then none else find_waiting j s.waiting))
    × (s'.timers ≡ s.timers)
    × (s'.outbox ≡ s.outbox)
    × (s'.tasks ≡ s.tasks)

-- What a response to a call that waits leaves: the call has the result; if it is due to go on, its own
-- coroutine is given to the scheduler, once and behind those that are there, and the id, but no
-- other, waits no more; if not, the ids that wait and the ready coroutines are as before. Timers,
-- packages to be sent and tasks stay. The service is live, the call's coroutine is not null, and the
-- result can be read.
pub receive_response-begun :
    (e : Endian) (s : Service) (x : PackageHeader) (peer : EndPoint) (payload : List ℕ)
    (info : MaintainInfo) (r : RpcBase) (due : Bool)
    → IsLive s
    → find_waiting x.rpc_id s.waiting ≡ some info
    → (s.callbacks info.callback).coroutine ≢ 0
    → process_buffer_cb e (s.callbacks info.callback) (set_port peer x.server_port) payload
      ≡ ok (r, due)
    → (s' : Service) × (receive_response e s x peer payload ≡ ok s')
      × TakesResult s s' x.rpc_id info.callback r due
unfolding after_response awaken
receive_response-begun e s x peer payload info r true v there h done =
    let mine =
      process_buffer_cb-coroutine e (s.callbacks info.callback) (set_port peer x.server_port)
        payload r true done in
    let alive : (r.coroutine == 0) ≡ false = ground (arith, h, mine) in
    (
      after_response s x.rpc_id info.callback (r, true),
      receive_response-found e s x peer payload info there ∙ rw done refl,
      (
        rw (alive, (==_iff info.callback info.callback).1 refl) refl,
        rw alive (ap (λ c. s.ready ++ (c ∷ [])) mine),
        (λ id. rw alive (find-erase id x.rpc_id s.waiting v.unique)),
        rw alive refl,
        rw alive refl,
        rw alive refl,
      ),
    )
receive_response-begun e s x peer payload info r false v there h done = (
  after_response s x.rpc_id info.callback (r, false),
  receive_response-found e s x peer payload info there ∙ rw done refl,
  (
    rw ((==_iff info.callback info.callback).1 refl) refl,
    sym (append-nil s.ready),
    (λ id. refl),
    refl,
    refl,
    refl,
  ),
)

-- A timer left over from an earlier call of the same coroutine ends its next call. If the id has a
-- timer already when a call begins, then, of the two that it has, the one that fires first wakes the
-- coroutine, with a result for every endpoint though none has answered since the call began, and the
-- other is still to run out.
pub stale_timer :
    (s : Service) (id : ℕ) (r : RpcBase) (timeout_ns coroutine callback : ℕ)
    → IsLive s
    → find_waiting id s.waiting ≡ none
    → has_timer id s.timers ≡ true
    → IsCounted r
    → coroutine ≢ 0
    → let s1 =
        commit_send_request_task
          (record s { callbacks = update s.callbacks callback r })
          id
          r.endpoints
          r.send_buffer
          timeout_ns
          coroutine
          callback in
      (s' : Service) × (fire s1 id ≡ ok s')
      × (s'.ready ≡ s.ready ++ (coroutine ∷ []))
      × (length (s'.callbacks callback).received_results ≡ length r.endpoints)
      × (has_timer id s'.timers ≡ true)
unfolding commit_send_request_task remove_timer
stale_timer s id r timeout_ns coroutine callback v absent old c h =
    let s0 : Service = record s { callbacks = update s.callbacks callback r } in
    let s1 =
      commit_send_request_task s0 id r.endpoints r.send_buffer timeout_ns coroutine callback in
    let info : MaintainInfo = record { coroutine = coroutine; callback = callback } in
    let live =
      commit_send_request_task-IsLive s0 id r.endpoints r.send_buffer timeout_ns coroutine callback
        h (record { unique = v.unique; timed = v.timed }) in
    let self = (==_iff id id).1 refl in
    let there : find_waiting id s1.waiting ≡ some info =
      rw (find-insert id id info s.waiting absent, self) in
    let mine : s1.callbacks callback ≡ r = rw ((==_iff callback callback).1 refl) in
    let (_, s', done, woken, _, size, timers) = fire_wakes s1 id info live there (rw mine c) in
    (
      s',
      done,
      woken,
      size ∙ ap (λ (q : RpcBase). length q.endpoints) mine,
      rw (timers, remove_timer, self) old,
    )
