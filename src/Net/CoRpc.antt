-- ===== src/Net/CoRpc.antt =====
-- `co_rpc` of async_action/async_action.h: the awaitable that a call is built with. Every step moves
-- the `RpcBase` into a new `co_rpc`.
use new_rpc.Base.{ℕ, Bool, true, false, List, if◌then◌else◌, Option, none, some}
use new_rpc.Serialization.Memory.{Result, ok, undefined, ◌>>=◌, Endian}
use new_rpc.Serialization.Types.{Ty, Members, Val, Vals, Expected}
use new_rpc.Net.EndPoint.{EndPoint, when_any, when_all, when_majority}
use new_rpc.Net.Rpc.{RpcBase, make_rpc, on, on_one, with_args, first_result}

-- `multi_rpc` is the template's `MULTI_RPC`.
pub record CoRpc : Type 0 where
  pub multi_rpc : Bool
  pub rpc_base : RpcBase

-- `co_rpc<FUNC_PTR>()`.
unfoldable pub co_rpc : Ty → ℕ → CoRpc
unfolding make_rpc
co_rpc ret func_id = record { multi_rpc = false; rpc_base = make_rpc ret func_id }

unfoldable pub call_with_args : Endian → CoRpc → (ms : Members) → Vals ms → Result CoRpc
unfolding with_args
call_with_args e c ms args = with_args e c.rpc_base ms args >>= λ r. ok (record c { rpc_base = r })

unfoldable pub call_timeout : CoRpc → ℕ → CoRpc
call_timeout c timeout = record c { rpc_base = record c.rpc_base { timeout = timeout } }

-- `on` for a range makes a call of many endpoints, `on` for one endpoint a call of one.
unfoldable pub call_on : CoRpc → List EndPoint → CoRpc
unfolding on
call_on c endpoints = record { multi_rpc = true; rpc_base = on c.rpc_base endpoints }

unfoldable pub call_on_one : CoRpc → EndPoint → CoRpc
unfolding on_one
call_on_one c endpoint = record { multi_rpc = false; rpc_base = on_one c.rpc_base endpoint }

unfoldable pub call_when_all : CoRpc → CoRpc
call_when_all c = record c { rpc_base = record c.rpc_base { finish_condition = when_all } }

unfoldable pub call_when_any : CoRpc → CoRpc
call_when_any c = record c { rpc_base = record c.rpc_base { finish_condition = when_any } }

unfoldable pub call_when_majority : CoRpc → CoRpc
call_when_majority c = record c {
  rpc_base = record c.rpc_base { finish_condition = when_majority };
}

unfoldable pub call_on_each_result :
    (c : CoRpc) → (EndPoint → Val c.rpc_base.ret → Bool → Val c.rpc_base.ret × Bool) → CoRpc
call_on_each_result c f = record c { rpc_base = record c.rpc_base { on_each_function = some f } }

-- What `co_await` gives: all results, or the first one.
pub data Answer (A : Type 0) : Type 0 where
  all_results : List (EndPoint × Expected A) → Answer A
  one_result : Expected A → Answer A

-- `received_results_[0].second`; the first element of an empty vector is undefined.
unfoldable pub single_answer : {A : Type 0} → Option (Expected A) → Result (Answer A)
single_answer none = undefined
single_answer (some x) = ok (one_result x)

unfoldable pub await_resume : (c : CoRpc) → Result (Answer (Val c.rpc_base.ret))
unfolding first_result single_answer
await_resume c =
    if c.multi_rpc
    then ok (all_results c.rpc_base.received_results)
    else single_answer (first_result c.rpc_base)
