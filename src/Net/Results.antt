-- ===== src/Net/Results.antt =====
-- The bookkeeping of one remote call: its receive flags, its results, and when it goes on.
use new_rpc.Base.{
  ℕ, suc, ◌+◌, ◌-◌, ◌*◌, ◌≤◌, ◌<◌, ◌≡◌, ◌↔◌, refl, sym, ap, ◌∙◌, Bool, true, false, not, List, [],
  ◌∷◌, ◌++◌, arith, length, map, ◌==◌, ==_iff, if◌then◌else◌, length-append,
}
use new_rpc.Serialization.Memory.{Result, ok, thrown, undefined, aborted, ◌>>=◌}
use new_rpc.Error.{error_no, rpc_timeout}
use new_rpc.Serialization.Types.{Val, Expected, value, unexpected}
use new_rpc.Net.EndPoint.{
  EndPoint, endpoint_eq, FinishCondition, invalid, when_any, when_all, when_majority,
}
use new_rpc.Net.Rpc.{
  RpcBase, mark_received, is_finished, call_on_each, accept_result, timeout_results, timeout_cb,
}

-- The number of endpoints that have answered.
abbrev pub received_count : List (EndPoint × Bool) → ℕ
received_count [] = 0
received_count ((x, true) ∷ xs) = suc (received_count xs)
received_count ((x, false) ∷ xs) = received_count xs

-- The first endpoint that is the peer has not answered.
abbrev pub awaits : List (EndPoint × Bool) → EndPoint → Bool
awaits [] peer = false
awaits ((x, flag) ∷ xs) peer = if endpoint_eq x peer then not flag else awaits xs peer

-- There is a result for each endpoint that has answered, and no other.
pub record IsCounted (r : RpcBase) : Type 0 where
  pub counted : length r.received_results ≡ received_count r.endpoints

length-mark_received :
    (xs : List (EndPoint × Bool)) (peer : EndPoint) → length (mark_received xs peer) ≡ length xs
unfolding mark_received
length-mark_received [] peer = refl
length-mark_received ((x, flag) ∷ xs) peer = ground (arith, length-mark_received xs peer)

received_count-mark_received :
    (xs : List (EndPoint × Bool)) (peer : EndPoint)
    → received_count (mark_received xs peer)
      ≡ (if awaits xs peer then suc (received_count xs) else received_count xs)
unfolding mark_received
received_count-mark_received [] peer = refl
received_count-mark_received ((x, true) ∷ xs) peer =
    ground (arith, received_count-mark_received xs peer)
received_count-mark_received ((x, false) ∷ xs) peer =
    ground (arith, received_count-mark_received xs peer)

length-timeout_results {ℓ} :
    (A : Type ℓ) (xs : List (EndPoint × Bool))
    → length (timeout_results {A = A} xs) + received_count xs ≡ length xs
unfolding timeout_results
length-timeout_results A [] = refl
length-timeout_results A ((x, true) ∷ xs) = omega (arith, length-timeout_results A xs)
length-timeout_results A ((x, false) ∷ xs) = omega (arith, length-timeout_results A xs)

-- What `accept_result` returns, with the new state written out.
pub accepted : (r : RpcBase) → EndPoint → Val r.ret → RpcBase
unfolding call_on_each
accepted r peer v = record r {
  endpoints = mark_received r.endpoints peer;
  received_results =
      r.received_results ++ ((peer, value (call_on_each r.on_each_function peer v false).0) ∷ []);
}

pub accept_result_lem :
    (r : RpcBase) (peer : EndPoint) (v : Val r.ret)
    → accept_result r peer v ≡ (
        is_finished r.finish_condition (suc (length r.received_results)) (length r.endpoints)
        >>= λ b. ok (accepted r peer v, b))
unfolding accept_result accepted
accept_result_lem r peer v =
    let e : length (
          r.received_results
          ++ ((peer, value (call_on_each r.on_each_function peer v false).0) ∷ []))
        ≡ suc (length r.received_results) =
      omega (
        arith,
        length-append r.received_results
            ((peer, value (call_on_each r.on_each_function peer v false).0) ∷ []),
      ) in
    rw e

bind_inversion {ℓ} :
    {A : Type ℓ} (o : Result Bool) (x y : A) (b : Bool)
    → ◌>>=◌ {B = A × Bool} o (λ c. ok (x, c)) ≡ ok (y, b)
    → (x ≡ y) × (o ≡ ok b)
bind_inversion (ok c) x y b h = (cc, cc)
bind_inversion (thrown z) x y b h = absurd (cc)
bind_inversion undefined x y b h = absurd (cc)
bind_inversion aborted x y b h = absurd (cc)

accept_result_inversion :
    (r : RpcBase) (peer : EndPoint) (v : Val r.ret) (r' : RpcBase) (b : Bool)
    → accept_result r peer v ≡ ok (r', b)
    → (accepted r peer v ≡ r')
      × (is_finished r.finish_condition (suc (length r.received_results)) (length r.endpoints)
          ≡ ok b)
accept_result_inversion r peer v r' b h =
    bind_inversion _ (accepted r peer v) r' b (sym (accept_result_lem r peer v) ∙ h)

length-accepted :
    (r : RpcBase) (peer : EndPoint) (v : Val r.ret)
    → length (accepted r peer v).received_results ≡ suc (length r.received_results)
unfolding accepted
length-accepted r peer v = omega (
  arith,
  length-append r.received_results
      ((peer, value (call_on_each r.on_each_function peer v false).0) ∷ []),
)

accepted-IsCounted :
    (r : RpcBase) (peer : EndPoint) (v : Val r.ret)
    → IsCounted r
    → awaits r.endpoints peer ≡ true
    → IsCounted (accepted r peer v)
unfolding accepted
accepted-IsCounted r peer v c w = record {
  counted =
      length-accepted r peer v
      ∙ ap suc c.counted
      ∙ sym (rw w at (received_count-mark_received r.endpoints peer));
}

-- A response of an endpoint that has not answered keeps the results and the flags in step.
pub accept_result-IsCounted :
    (r : RpcBase) (peer : EndPoint) (v : Val r.ret) (r' : RpcBase) (b : Bool)
    → IsCounted r
    → awaits r.endpoints peer ≡ true
    → accept_result r peer v ≡ ok (r', b)
    → IsCounted r'
accept_result-IsCounted r peer v r' b c w done =
    rw (accept_result_inversion r peer v r' b done).0 at (accepted-IsCounted r peer v c w)

-- A result does not change whose call it is.
pub accept_result-coroutine :
    (r : RpcBase) (peer : EndPoint) (v : Val r.ret) (r' : RpcBase) (b : Bool)
    → accept_result r peer v ≡ ok (r', b)
    → r'.coroutine ≡ r.coroutine
unfolding accepted
accept_result-coroutine r peer v r' b done =
    ap (λ (q : RpcBase). q.coroutine) (sym (accept_result_inversion r peer v r' b done).0)

-- When the coroutine goes on: at once, at the last result, or at the one with which more than half of
-- the endpoints have answered.
abbrev pub IsDue : FinishCondition → (size total : ℕ) → Type 0
IsDue when_any size total = Unit {0}
IsDue when_all size total = size ≡ total
IsDue when_majority size total = (total < 2 * size) × (2 * (size - 1) ≤ total)
IsDue invalid size total = ⊥

is_finished_iff :
    (f : FinishCondition) (size total : ℕ) (b : Bool)
    → is_finished f (suc size) total ≡ ok b
    → (b ≡ true) ↔ IsDue f (suc size) total
unfolding is_finished
is_finished_iff when_any size total b h = (λ e. tt, λ d. cc)
is_finished_iff when_all size total b h = (λ e. ground arith, λ d. ground arith)
is_finished_iff when_majority size total b h = (λ e. ground arith, λ d. ground arith)
is_finished_iff invalid size total b h = (λ e. cc, λ d. absurd d)

-- After a response the coroutine goes on exactly if the finish condition is met by the number of
-- results, this one included: always, or all endpoints, or the least number that is a majority. The
-- flag by which the user's callback asks to be resumed has no influence.
pub accept_result-IsDue :
    (r : RpcBase) (peer : EndPoint) (v : Val r.ret) (r' : RpcBase) (b : Bool)
    → accept_result r peer v ≡ ok (r', b)
    → (b ≡ true) ↔ IsDue r.finish_condition (suc (length r.received_results)) (length r.endpoints)
accept_result-IsDue r peer v r' b done =
    is_finished_iff r.finish_condition (length r.received_results) (length r.endpoints) b
      (accept_result_inversion r peer v r' b done).1

ne→== : (a b : ℕ) → b < a → (a == b) ≡ false
ne→== a b h = ground arith

unanswered_fit :
    (r : RpcBase)
    → length (r.received_results ++ timeout_results r.endpoints) + received_count r.endpoints
      ≡ length r.received_results + length r.endpoints
unanswered_fit r = omega (
  arith,
  length-append r.received_results (timeout_results r.endpoints),
  length-timeout_results (Val r.ret) r.endpoints,
)

-- The endpoints that have not answered, and what each of them gets when the time is up.
abbrev pub unanswered : List (EndPoint × Bool) → List EndPoint
unanswered [] = []
unanswered ((x, true) ∷ xs) = unanswered xs
unanswered ((x, false) ∷ xs) = x ∷ unanswered xs

abbrev pub no_answer {ℓ} : {A : Type ℓ} → EndPoint → EndPoint × Expected A
no_answer x = (x, unexpected (error_no rpc_timeout))

timeout_results-unanswered {ℓ} :
    {A : Type ℓ} (xs : List (EndPoint × Bool))
    → timeout_results {A = A} xs ≡ map no_answer (unanswered xs)
unfolding timeout_results
timeout_results-unanswered [] = refl
timeout_results-unanswered ((x, true) ∷ xs) = timeout_results-unanswered xs
timeout_results-unanswered ((x, false) ∷ xs) =
    ap (◌∷◌ (no_answer x)) (timeout_results-unanswered xs)

pub timeout_cb_lem :
    (r : RpcBase)
    → IsCounted r
    → (timeout_cb r
        ≡ ok (record r { received_results = r.received_results ++ timeout_results r.endpoints }))
      × (length (r.received_results ++ timeout_results r.endpoints) ≡ length r.endpoints)
unfolding timeout_cb
timeout_cb_lem r c =
    let all : length (r.received_results ++ timeout_results r.endpoints) ≡ length r.endpoints =
      omega (arith, unanswered_fit r, c.counted) in
    (rw ((==_iff _ _).1 all), all)

-- When the time is up every endpoint that has not answered gets the error RPC_TIMEOUT, behind the
-- results that have come; there is then one result for each endpoint, and the `assert` holds.
pub timeout_cb-IsCounted :
    (r : RpcBase)
    → IsCounted r
    → let all = r.received_results ++ map no_answer (unanswered r.endpoints) in
      (timeout_cb r ≡ ok (record r { received_results = all })) × (length all ≡ length r.endpoints)
timeout_cb-IsCounted r c = rw (timeout_results-unanswered r.endpoints) at (timeout_cb_lem r c)

accepted-unawaited :
    (r : RpcBase) (peer : EndPoint) (v : Val r.ret)
    → IsCounted r
    → awaits r.endpoints peer ≡ false
    → timeout_cb (accepted r peer v) ≡ aborted
unfolding timeout_cb accepted
accepted-unawaited r peer v c w =
    let same : received_count (mark_received r.endpoints peer) ≡ received_count r.endpoints =
      rw w at (received_count-mark_received r.endpoints peer) in
    let more = unanswered_fit (accepted r peer v) in
    let len = length-accepted r peer v in
    let size = length-mark_received r.endpoints peer in
    let a = accepted r peer v in
    let over : length a.endpoints < length (a.received_results ++ timeout_results a.endpoints) =
      omega arith in
    rw
      (ne→== (length (a.received_results ++ timeout_results a.endpoints)) (length a.endpoints) over)

-- A result from an endpoint that is not awaited, because it has answered before, is listed twice
-- behind another one, or was never called, breaks the count: if the call does not end with it, the
-- `assert` of `timeout_cb` fails and the process ends.
pub timeout_cb-unawaited :
    (r : RpcBase) (peer : EndPoint) (v : Val r.ret) (r' : RpcBase)
    → IsCounted r
    → awaits r.endpoints peer ≡ false
    → accept_result r peer v ≡ ok (r', false)
    → timeout_cb r' ≡ aborted
timeout_cb-unawaited r peer v r' c w done =
    rw (accept_result_inversion r peer v r' false done).0 at (accepted-unawaited r peer v c w)
