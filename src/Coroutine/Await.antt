-- ===== src/Coroutine/Await.antt =====
-- The values of coroutines, in coroutine_framework/task.h and task.ipp: `co_return`, the awaitable of
-- a call, and what a `CoroTask` is asked for. `RefCount` and `ByteSpinLock` of utils.h. `results` is
-- the `result_` of each promise and `at_end` says which coroutines are at their last suspension.
use new_rpc.Base.{ℕ, Bool, true, false, not, List, [], ◌∷◌, Option, none, some, ◌==◌, if◌then◌else◌}
use new_rpc.Serialization.Memory.{Result, ok, ◌>>=◌, ◌>>◌, check}
use new_rpc.Coroutine.Frame.{Frames}
use new_rpc.Coroutine.Queue.{not_null}
use new_rpc.Coroutine.Task.{CoroTask, move_task, await_transform}

pub record Coroutines {ℓ} (A : Type ℓ) : Type ℓ where
  pub frames : Frames
  pub results : ℕ → A
  pub at_end : ℕ → Bool

-- What a `co_await` gives: the coroutine that the thread goes to, or none if the caller goes on.
abbrev pub Suspension : Type 0
Suspension = Option ℕ

module _ {ℓ} {A : Type ℓ} where
  -- `CoroPromise::return_value` of the coroutine `self`.
  unfoldable pub return_value : Coroutines A → (self : ℕ) → A → Coroutines A
  return_value s self result = record s { results = λ p. if self == p then result else s.results p }

  -- `co_await task`: `await_transform` and `MiddleAwaitable`. The task is moved into the awaitable,
  -- which is the first result; the thread goes to the callee.
  unfoldable pub await_task :
      Coroutines A → (self : ℕ) → (task : CoroTask) → Result (Coroutines A × CoroTask × Suspension)
  unfolding await_transform move_task
  await_task s self task =
      not_null task
      >> ok (
        record s { frames = await_transform s.frames self task },
        (move_task task).0,
        some (move_task task).0,
      )

  -- `MiddleAwaitable::await_resume`, when the thread has come back.
  unfoldable pub middle_resume : Coroutines A → (awaited : CoroTask) → A
  middle_resume s awaited = s.results awaited

  -- `CoroTask::done`, `get_result` and `wait`. `done` asks the handle, `wait` the flag that
  -- the last suspension of a root sets; a `wait` that does not return is `none`.
  unfoldable pub done : Coroutines A → (task : CoroTask) → Result Bool
  done s task = not_null task >> ok (s.at_end task)

  unfoldable pub get_result : Coroutines A → (task : CoroTask) → Result A
  unfolding done
  get_result s task = do finished ← done s task; check finished; ok (s.results task)

  unfoldable pub wait_task : Coroutines A → (task : CoroTask) → Result (Option CoroTask)
  wait_task s task = not_null task >> ok (if (s.frames task).done_flag then some task else none)

-- `CoroTask::reset`.
unfoldable pub reset : CoroTask → CoroTask
reset task = 0

-- `co_await GetPromiseOp{}` in the coroutine `self`: it does not suspend, and gives the promise.
unfoldable pub get_promise : (self : ℕ) → Suspension × ℕ
get_promise self = (none, self)

-- `ByteSpinLock`, whose state is the flag: `try_lock` says whether the lock was taken. `lock` spins
-- through what it reads until it reads false; `none` if it never does.
unfoldable pub try_lock : (locked : Bool) → Bool × Bool
try_lock locked = (true, not locked)

unfoldable pub unlock : (locked : Bool) → Bool
unlock locked = false

unfoldable pub lock : (reads : List Bool) → Option Bool
lock [] = none
lock (true ∷ reads) = lock reads
lock (false ∷ reads) = some true
