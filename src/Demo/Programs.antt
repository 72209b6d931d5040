-- ===== src/Demo/Programs.antt =====
-- The coroutines of the programs under demo/ and of main.cpp: the calls that they build, and what they
-- do with the answers.
use new_rpc.Base.{ℕ, zero, suc, ◌+◌, ◌-◌, ◌%◌, ◌^◌, Bool, List, ◌∷◌, ◌++◌, take}
use new_rpc.Serialization.Memory.{Result, ok, undefined, ◌>>=◌, Endian}
use new_rpc.Serialization.Types.{Val, Expected, value, unexpected}
use new_rpc.Net.EndPoint.{EndPoint}
use new_rpc.Net.Address.{dotted}
use new_rpc.Net.Mapper.{
  example_add, example_add_point, example_echo, function_id, args_tuple, return_type,
}
use new_rpc.Net.CoRpc.{
  CoRpc, co_rpc, call_with_args, call_on, call_on_one, call_timeout, call_when_all,
  call_on_each_result,
}
use new_rpc.Text.Number.{digits_of}
use new_rpc.Text.Units.{ts_text, lit_ms, lit_s}
use new_rpc.Text.Errors.{codes, expected_text}
use new_rpc.Demo.Functions.{add_int64}

-- `*ret`; it is undefined if there is an error.
unfoldable pub dereference {ℓ} : {A : Type ℓ} → Expected A → Result A
dereference (value x) = ok x
dereference (unexpected error) = undefined

-- `test_add_point` of main.cpp up to its `co_await`, and behind it.
unfoldable pub test_add_point : Endian → (peer : EndPoint) → Result CoRpc
unfolding co_rpc call_with_args call_on_one call_timeout lit_s
test_add_point e peer =
    call_with_args e (co_rpc (return_type example_add_point) (function_id example_add_point))
      (args_tuple example_add_point) ((1, (1, tt)), ((2, (2, tt)), tt))
    >>= λ c. ok (call_timeout (call_on_one c peer) (lit_s 2))

unfoldable pub test_add_point_result :
    Expected (Val (return_type example_add_point)) → Result (Val (return_type example_add_point))
unfolding dereference
test_add_point_result ret = dereference ret

-- `test_rpc` of demo_4_rpc_call.cpp, whose result is the answer.
unfoldable pub test_rpc : Endian → (peer : EndPoint) → Result CoRpc
unfolding co_rpc call_with_args call_on_one
test_rpc e peer =
    call_with_args e (co_rpc (return_type example_add) (function_id example_add))
      (args_tuple example_add) (1, (2, tt))
    >>= λ c. ok (call_on_one c peer)

-- `coro_fibo` of main.cpp, for an index that is not negative: what the chain of calls returns.
unfoldable pub coro_fibo : (idx : ℕ) → Result ℕ
unfolding add_int64
coro_fibo zero = ok 1
coro_fibo (suc zero) = ok 1
coro_fibo (suc (suc n)) = do ret1 ← coro_fibo (suc n); ret2 ← coro_fibo n; add_int64 ret1 ret2

-- The callback of `multi_rpc_call` of demo_5_multi_rpc_call.cpp: the result becomes the time since the
-- call, where `now_at` is the clock when the response of an endpoint is handled.
unfoldable pub note_delay :
    (before_call_ts : ℕ) (now_at : EndPoint → ℕ) → EndPoint → ℕ → Bool → ℕ × Bool
note_delay before_call_ts now_at from result need_awaken =
    ((now_at from + 2 ^ 64 - before_call_ts) % 2 ^ 64, need_awaken)

-- One round of the loop: the call, whose callback is set first here, since the type of its result is
-- that of the function called;
unfoldable pub multi_rpc_call :
    Endian → (endpoints : List EndPoint) (before_call_ts : ℕ) (now_at : EndPoint → ℕ) → Result CoRpc
unfolding co_rpc call_with_args call_on call_when_all call_timeout call_on_each_result note_delay
    lit_ms
multi_rpc_call e endpoints before_call_ts now_at =
    let called =
      call_on_each_result (co_rpc (return_type example_echo) (function_id example_echo))
        (note_delay before_call_ts now_at) in
    call_with_args e called (args_tuple example_echo) tt >>= λ c.
    ok (call_timeout (call_when_all (call_on c endpoints)) (lit_ms 500))

-- the line that is logged for a result,
abbrev pub end_point_text : EndPoint → List ℕ
end_point_text x = dotted (take 4 x.ip) ++ (b':' ∷ digits_of 10 x.port)

unfoldable pub result_line : EndPoint × Expected ℕ → List ℕ
unfolding dotted digits_of ts_text expected_text
result_line (from, value delay) =
    codes "print result from:["
    ++ (end_point_text from ++ (codes "], delay:" ++ ts_text (record { ts = delay })))
result_line (from, unexpected error) =
    codes "\u{1b}[0;31mfrom:["
    ++ (end_point_text from
        ++ (codes "], err:"
            ++ (expected_text (λ delay. digits_of 10 delay) (unexpected error)
                ++ codes "\u{1b}[0m")))

-- and the time to sleep.
unfoldable pub rest_of_second : (before_call_ts now : ℕ) → ℕ
unfolding lit_s
rest_of_second before_call_ts now = (before_call_ts + lit_s 1 + 2 ^ 64 - now) % 2 ^ 64
