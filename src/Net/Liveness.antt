-- ===== src/Net/Liveness.antt =====
-- Every coroutine that waits for a remote call is woken, and woken once.
use new_rpc.Base.{
  ℕ, ◌≡◌, ◌≢◌, refl, sym, ap, ◌∙◌, inl, inr, Bool, true, false, List, [], ◌∷◌, ◌++◌, none, some,
  ◌==◌, if◌then◌else◌, arith, Bool-cases, Option-cases,
}
use new_rpc.Serialization.Memory.{Result, ok, thrown, undefined, aborted, ◌>>=◌, Endian}
use new_rpc.Net.EndPoint.{EndPoint, set_port}
use new_rpc.Net.Header.{PackageHeader}
use new_rpc.Net.Rpc.{RpcBase, process_buffer_cb, timeout_cb}
use new_rpc.Net.Service.{
  Service, MaintainInfo, find_waiting, erase_waiting, update, awaken, after_response,
  commit_send_request_task, receive_response, timeout_, fire, remove_timer,
}
use new_rpc.Net.Waiting.{
  HasUniqueIds, has_timer, find-insert, insert-found, find-erase, insert-HasUniqueIds,
  erase-HasUniqueIds, has_timer-remove_timer,
}

-- Every id in the map stands there once, has a coroutine, and a timer that has not run out.
pub record IsLive (s : Service) : Type 0 where
  pub unique : HasUniqueIds s.waiting
  pub timed :
      (id : ℕ) (info : MaintainInfo)
      → find_waiting id s.waiting ≡ some info
      → (info.coroutine ≢ 0) × (has_timer id s.timers ≡ true)

pub waiting-awaken :
    (s : Service) (id c : ℕ)
    → (awaken s id c).waiting ≡ (if c == 0 then s.waiting else erase_waiting id s.waiting)
unfolding awaken
waiting-awaken s id c = ground arith

pub timers-awaken : (s : Service) (id c : ℕ) → (awaken s id c).timers ≡ s.timers
unfolding awaken
timers-awaken s id c = ground arith

pub ready-awaken :
    (s : Service) (id c : ℕ)
    → (awaken s id c).ready ≡ (if c == 0 then s.ready else s.ready ++ (c ∷ []))
unfolding awaken
ready-awaken s id c = ground arith

pub callbacks-awaken : (s : Service) (id c : ℕ) → (awaken s id c).callbacks ≡ s.callbacks
unfolding awaken
callbacks-awaken s id c = ground arith

awaken-IsLive : (s : Service) (id c : ℕ) → IsLive s → IsLive (awaken s id c)
awaken-IsLive s id c v = elim (Bool-cases (c == 0)) [
  | inl null ↦ record {
    unique = rw (waiting-awaken s id c, null) v.unique;
    timed = rw (waiting-awaken s id c, null, timers-awaken s id c) v.timed;
  }
  | inr some_coroutine ↦ record {
    unique = rw (waiting-awaken s id c, some_coroutine) (erase-HasUniqueIds id s.waiting v.unique);
    timed =
        rw (waiting-awaken s id c, some_coroutine, timers-awaken s id c)
          (λ i info f. ground (arith, find-erase i id s.waiting v.unique, v.timed i info));
  }
]

IsLive-callbacks : (s : Service) (f : ℕ → RpcBase) → IsLive s → IsLive (record s { callbacks = f })
IsLive-callbacks s f v = record { unique = v.unique; timed = v.timed }

pub after_response-IsLive :
    (s : Service) (id cb : ℕ) (o : RpcBase × Bool) → IsLive s → IsLive (after_response s id cb o)
unfolding after_response
after_response-IsLive s id cb (r, need_awaken) v =
    awaken-IsLive (record s { callbacks = update s.callbacks cb r }) id
      (if need_awaken then r.coroutine else 0) (IsLive-callbacks s _ v)

pub commit_send_request_task-IsLive :
    (s : Service) (id : ℕ) (endpoints : List (EndPoint × Bool)) (buffer : List ℕ) (t c cb : ℕ)
    → c ≢ 0
    → IsLive s
    → IsLive (commit_send_request_task s id endpoints buffer t c cb)
unfolding commit_send_request_task
commit_send_request_task-IsLive s id endpoints buffer t c cb h v =
    let info : MaintainInfo = record { coroutine = c; callback = cb } in
    record {
      unique = insert-HasUniqueIds id info s.waiting v.unique;
      timed = elim (Option-cases (find_waiting id s.waiting)) [
        | inl fresh ↦ λ i x f. ground (arith, find-insert i id info s.waiting fresh, v.timed i x)
        | inr (old, there) ↦
            λ i x f. ground (arith, insert-found id info old s.waiting there, v.timed i x)
      ];
    }

pub ok-injective {ℓ} : {A : Type ℓ} {a b : A} → ok a ≡ ok b → a ≡ b
ok-injective h = cc

pub ok_bind {ℓ κ} :
    {A : Type ℓ} {B : Type κ} (o : Result A) (f : A → B) (y : B)
    → (o >>= λ a. ok (f a)) ≡ ok y
    → (a : A) × (o ≡ ok a) × (f a ≡ y)
ok_bind (ok a) f y h = (a, refl, cc)
ok_bind (thrown x) f y h = absurd (cc)
ok_bind undefined f y h = absurd (cc)
ok_bind aborted f y h = absurd (cc)

pub receive_response-absent :
    (e : Endian) (s : Service) (x : PackageHeader) (peer : EndPoint) (payload : List ℕ)
    → find_waiting x.rpc_id s.waiting ≡ none
    → receive_response e s x peer payload ≡ ok s
unfolding receive_response
receive_response-absent e s x peer payload h = rw (h, receive_response)

pub receive_response-found :
    (e : Endian) (s : Service) (x : PackageHeader) (peer : EndPoint) (payload : List ℕ)
    (info : MaintainInfo)
    → find_waiting x.rpc_id s.waiting ≡ some info
    → receive_response e s x peer payload ≡ (
        process_buffer_cb e (s.callbacks info.callback) (set_port peer x.server_port) payload
        >>= λ o. ok (after_response s x.rpc_id info.callback o))
unfolding receive_response
receive_response-found e s x peer payload info h = rw (h, receive_response)

pub timeout_-absent :
    (s : Service) (id : ℕ) → find_waiting id s.waiting ≡ none → timeout_ s id ≡ ok s
unfolding timeout_
timeout_-absent s id h = rw (h, timeout_)

pub timeout_-found :
    (s : Service) (id : ℕ) (info : MaintainInfo)
    → find_waiting id s.waiting ≡ some info
    → timeout_ s id ≡ (
        timeout_cb (s.callbacks info.callback) >>= λ r.
        ok (awaken (record s { callbacks = update s.callbacks info.callback r }) id info.coroutine))
unfolding timeout_
timeout_-found s id info h = rw (h, timeout_)

pub receive_response-IsLive :
    (e : Endian) (s : Service) (x : PackageHeader) (peer : EndPoint) (payload : List ℕ)
    (s' : Service)
    → receive_response e s x peer payload ≡ ok s'
    → IsLive s
    → IsLive s'
receive_response-IsLive e s x peer payload s' done v =
    elim (Option-cases (find_waiting x.rpc_id s.waiting)) [
      | inl absent ↦
          rw (ok-injective (sym (receive_response-absent e s x peer payload absent) ∙ done)) at v
      | inr (info, there) ↦
          let (o, _, e') =
            ok_bind
              (process_buffer_cb e (s.callbacks info.callback) (set_port peer x.server_port)
                payload)
              (after_response s x.rpc_id info.callback) s'
              (sym (receive_response-found e s x peer payload info there) ∙ done) in
          rw e' at (after_response-IsLive s x.rpc_id info.callback o v)
    ]

-- Taking a timer off keeps the others.
IsLive-remove_timer :
    (s : Service) (id : ℕ)
    → find_waiting id s.waiting ≡ none
    → IsLive s
    → IsLive (record s { timers = remove_timer id s.timers })
IsLive-remove_timer s id absent v = record {
  unique = v.unique;
  timed = λ i info f. (
    (v.timed i info f).0,
    has_timer-remove_timer i id s.timers (λ same. cc (ap (λ k. find_waiting k s.waiting) same))
        ∙ (v.timed i info f).1,
  );
}

-- The state after the timer of a waiting call has run out.
abbrev pub timed_out : Service → (id : ℕ) → MaintainInfo → RpcBase → Service
timed_out s id info r =
    awaken
      (record s {
        callbacks = update s.callbacks info.callback r;
        timers = remove_timer id s.timers;
      })
      id info.coroutine

timed_out-IsLive :
    (s : Service) (id : ℕ) (info : MaintainInfo) (r : RpcBase)
    → find_waiting id s.waiting ≡ some info
    → IsLive s
    → IsLive (timed_out s id info r)
unfolding awaken
timed_out-IsLive s id info r there v =
    let some_coroutine : (info.coroutine == 0) ≡ false =
      ground (arith, (v.timed id info there).0) in
    rw some_coroutine (record {
      unique = erase-HasUniqueIds id s.waiting v.unique;
      timed = λ i x f.
          let apart = find-erase i id s.waiting v.unique in
          let kept : find_waiting i s.waiting ≡ some x = ground (arith, apart) in
          let other : i ≢ id = ground (arith, apart) in
          ((v.timed i x kept).0, has_timer-remove_timer i id s.timers other ∙ (v.timed i x kept).1);
    })

pub fire-IsLive : (s : Service) (id : ℕ) (s' : Service) → fire s id ≡ ok s' → IsLive s → IsLive s'
unfolding fire
fire-IsLive s id s' done v = elim (Option-cases (find_waiting id s.waiting)) [
  | inl absent ↦
      rw
        (ok-injective
          (sym (timeout_-absent (record s { timers = remove_timer id s.timers }) id absent) ∙ done))
        at (IsLive-remove_timer s id absent v)
  | inr (info, there) ↦
      let (r, _, e) = ok_bind (timeout_cb (s.callbacks info.callback)) (timed_out s id info) s' (
        sym (timeout_-found (record s { timers = remove_timer id s.timers }) id info there)
        ∙ done) in
      rw e at (timed_out-IsLive s id info r there v)
]
