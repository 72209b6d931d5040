-- ===== src/Demo/Functions.antt =====
-- The coroutines of demo/example_rpc.cpp that can be called from afar, the sum of points of
-- demo/point.h, and the root frame that a request makes of them. An int64_t is its bit pattern.
use new_rpc.Base.{
  ℕ, ◌+◌, ◌*◌, ◌%◌, ◌^◌, Bool, true, false, not, ◌&&◌, List, [], ◌∷◌, some, leb, if◌then◌else◌,
}
use new_rpc.Serialization.Memory.{Result, ok, undefined, ◌>>=◌, Endian}
use new_rpc.Serialization.Types.{Val, Vals}
use new_rpc.Net.Mapper.{
  Function, example_add, example_echo, example_add_point, args_tuple, return_type, Task,
}
use new_rpc.Coroutine.Frame.{LinkedCoroutine, Frames, put_frame, make_frame}
use new_rpc.Coroutine.Task.{Finished, final_suspend}

abbrev pub is_negative : ℕ → Bool
is_negative a = leb (2 ^ 63) a

abbrev pub same : Bool → Bool → Bool
same true b = b
same false b = not b

-- `a + b` on int64_t: the sum of two numbers of one sign must have that sign.
unfoldable pub add_int64 : ℕ → ℕ → Result ℕ
add_int64 a b =
    let sum = (a + b) % 2 ^ 64 in
    if same (is_negative a) (is_negative b) && not (same (is_negative sum) (is_negative a))
    then undefined
    else ok sum

-- What a coroutine does: how long it sleeps, in nanoseconds, and what it returns.
pub record Run {ℓ} (A : Type ℓ) : Type ℓ where
  pub sleeps : List ℕ
  pub result : A

unfoldable pub add : (a b : ℕ) → Result (Run ℕ)
unfolding add_int64
add a b = add_int64 a b >>= λ ret. ok (record { sleeps = 1000000000 ∷ []; result = ret })

-- `Point::operator+`.
unfoldable pub add_points : ℕ × ℕ → ℕ × ℕ → Result (ℕ × ℕ)
unfolding add_int64
add_points (ax, ay) (bx, by) = do x ← add_int64 ax bx; y ← add_int64 ay by; ok (x, y)

unfoldable pub add_point : ℕ × ℕ → ℕ × ℕ → Result (Run (ℕ × ℕ))
unfolding add_points
add_point a b = add_points a b >>= λ ret. ok (record { sleeps = []; result = ret })

-- `rand` is what the random generator gives, from 0 to 100.
unfoldable pub echo : (rand : ℕ) → Result (Run ℕ)
echo rand = ok (record { sleeps = (rand * 1000000) ∷ []; result = 0 })

-- A call of a function here, on the arguments as they were read.
unfoldable pub call_function :
    (f : Function) → Vals (args_tuple f) → (rand : ℕ) → Result (Run (Val (return_type f)))
unfolding add add_point echo
call_function example_add (a, (b, _)) rand = add a b
call_function example_echo vs rand = echo rand
call_function example_add_point ((ax, (ay, _)), ((bx, (by, _)), _)) rand =
    add_point (ax, ay) (bx, by) >>= λ r.
    ok (record { sleeps = r.sleeps; result = (r.result.0, (r.result.1, tt)) })

-- The frame that a request makes at the address `p`: a root with the locals that say whom to answer.
unfoldable pub task_frame : Task → (coro_id p : ℕ) → LinkedCoroutine
unfolding make_frame
task_frame task coro_id p = record (make_frame p) {
  coro_local_var =
      some (record { coro_id = coro_id; wake_up_ts = 0; response_info = some task.response_info });
  has_running_cnt = true;
}

-- The task's coroutine runs to its end.
unfoldable pub run_task :
    Endian → (listen_port : ℕ) → Task → Frames → (self coro_id rand running : ℕ) → Result Finished
unfolding task_frame
run_task e listen_port task fr self coro_id rand running = do
  r ← call_function task.function task.args rand
  final_suspend e listen_port (return_type task.function) r.result
      (put_frame fr self (task_frame task coro_id self)) self running
