-- ===== src/Net/Answers.antt =====
-- A call that is woken has an answer to give.
use new_rpc.Base.{
  ◌<◌, ◌≡◌, refl, ap, ◌∙◌, false, List, [], ◌∷◌, ◌++◌, arith, length, map, Bool, true,
}
use new_rpc.Error.{error_no, rpc_timeout}
use new_rpc.Serialization.Memory.{Result, ok, undefined}
use new_rpc.Serialization.Types.{Val, Expected, unexpected}
use new_rpc.Net.EndPoint.{EndPoint}
use new_rpc.Net.Rpc.{RpcBase, timeout_cb}
use new_rpc.Net.Results.{IsCounted, received_count, unanswered, no_answer, timeout_cb-IsCounted}
use new_rpc.Net.CoRpc.{Answer, one_result, await_resume}

-- What a call of one endpoint gives for its results.
abbrev pub answer :
    (r : RpcBase) → List (EndPoint × Expected (Val r.ret)) → Result (Answer (Val r.ret))
answer r xs =
    await_resume (record { multi_rpc = false; rpc_base = record r { received_results = xs } })

answer-nil :
    (r : RpcBase) (xs : List (EndPoint × Expected (Val r.ret)))
    → length xs ≡ 0
    → answer r xs ≡ undefined
unfolding await_resume
answer-nil r [] h = refl
answer-nil r (x ∷ xs) h = absurd (omega arith)

-- The first result that has come, or the error of the first endpoint when none has.
abbrev pub first_answer {ℓ} : {A : Type ℓ} → List (EndPoint × Expected A) → Expected A
first_answer [] = unexpected (error_no rpc_timeout)
first_answer (x ∷ xs) = x.1

unanswered_first :
    (r : RpcBase) (xs : List (EndPoint × Bool)) (got : List (EndPoint × Expected (Val r.ret)))
    → length got ≡ received_count xs
    → 0 < length xs
    → answer r (got ++ map no_answer (unanswered xs)) ≡ ok (one_result (first_answer got))
unfolding await_resume
unanswered_first r xs (g ∷ got) c h = refl
unanswered_first r [] [] c h = absurd (omega arith)
unanswered_first r ((x, true) ∷ xs) [] c h = absurd (omega arith)
unanswered_first r ((x, false) ∷ xs) [] c h = refl

-- A call of one endpoint that a timeout wakes gives an answer if it was sent anywhere: the first of
-- the results that have come, or the error RPC_TIMEOUT if none has. A call that was sent to no
-- endpoint has no result, and resuming it has no defined behaviour. The call's results and receive
-- flags are in step.
pub await_resume-timeout_cb :
    (r : RpcBase)
    → IsCounted r
    → let r' = record r {
      received_results = r.received_results ++ map no_answer (unanswered r.endpoints);
    } in
      (timeout_cb r ≡ ok r')
      × ((r.endpoints ≡ [])
          → await_resume (record { multi_rpc = false; rpc_base = r' }) ≡ undefined)
      × (0 < length r.endpoints
          → await_resume (record { multi_rpc = false; rpc_base = r' })
            ≡ ok (one_result (first_answer r.received_results)))
await_resume-timeout_cb r c =
    let all = r.received_results ++ map no_answer (unanswered r.endpoints) in
    let (done, size) = timeout_cb-IsCounted r c in
    (
      done,
      (λ empty. answer-nil r all (size ∙ ap length empty)),
      (λ some_endpoint. unanswered_first r r.endpoints r.received_results c.counted some_endpoint),
    )
