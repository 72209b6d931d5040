-- ===== src/Coroutine/Task.antt =====
-- coroutine_framework/task.h and task.ipp: the handles of a coroutine, its call chain and its end.
-- `LinkedCoroutine::link_next`, `empty` and `remove_self` are those of queue.h and queue.ipp.
use new_rpc.Base.{
  ℕ, ◌+◌, ◌-◌, ◌%◌, ◌^◌, Bool, true, false, List, Option, none, some, ◌==◌, if◌then◌else◌,
}
use new_rpc.Serialization.Memory.{Result, ok, ◌>>=◌, Endian}
use new_rpc.Serialization.Types.{Ty, Val}
use new_rpc.Net.EndPoint.{EndPoint}
use new_rpc.Net.Mapper.{ResponseInfo}
use new_rpc.Net.Receive.{response_package}
use new_rpc.Coroutine.Frame.{CoroLocalVar, Frames, put_frame, set_next, set_prev, inc, dec}

-- `LinkedCoroutine::empty`: the frame is in no call chain but its own.
unfoldable pub is_alone : Frames → ℕ → Bool
is_alone fr p = (fr p).prev == p

-- `link_next`, one assignment after the other.
unfoldable pub link_next : Frames → (self new_coroutine : ℕ) → Frames
unfolding set_next set_prev
link_next fr self new_coroutine =
    let tmp_next = (fr self).next in
    let fr1 = set_next fr self new_coroutine in
    let fr2 = set_next fr1 new_coroutine tmp_next in
    let fr3 = set_prev fr2 new_coroutine self in set_prev fr3 tmp_next new_coroutine

unfoldable pub remove_self : Frames → (self : ℕ) → Frames
unfolding is_alone set_next set_prev
remove_self fr self =
    let tmp_prev = (fr self).prev in
    let tmp_next = (fr self).next in
    if is_alone fr self
    then fr
    else set_prev (set_next (set_prev (set_next fr tmp_prev tmp_next) tmp_next tmp_prev) self 0)
        self 0

-- `await_transform` for a coroutine: the callee joins the caller's chain and shares its locals.
unfoldable pub await_transform : Frames → (self callee : ℕ) → Frames
unfolding link_next
await_transform fr self callee =
    let linked = link_next fr self callee in
    put_frame linked callee
      (record (linked callee) { coro_local_var = (linked self).coro_local_var })

-- `InitialAwaitable::await_resume`: a root frame gets locals of its own, numbered by the counter
-- `CoroLocalVar::ID`.
unfoldable pub initial_resume : Frames → (counter self : ℕ) → Frames × ℕ
initial_resume fr counter self = elim ((fr self).coro_local_var) [
  | some locals ↦ (fr, counter)
  | none ↦ (
    put_frame fr self (record (fr self) {
      coro_local_var = some (record { coro_id = counter; wake_up_ts = 0; response_info = none });
    }),
    (counter + 1) % 2 ^ 64,
  )
]

-- `if (ref_cnt_.dec() == 0) handle_.destroy()`: the frames, and whether the frame is destroyed.
unfoldable pub release : Frames → ℕ → Frames × Bool
unfolding dec
release fr p =
    let (old, left) = dec (fr p).ref_cnt in
    (put_frame fr p (record (fr p) { ref_cnt = left }), old == 0)

unfoldable pub acquire : Frames → ℕ → Frames
unfolding inc
acquire fr p = put_frame fr p (record (fr p) { ref_cnt = inc (fr p).ref_cnt })

-- `CoroTask`: the address of the promise, or null.
abbrev pub CoroTask : Type 0
CoroTask = ℕ

-- The copy constructor and the copy assignment; what the left side held is not released.
unfoldable pub copy_task : Frames → CoroTask → Frames × CoroTask
unfolding acquire
copy_task fr rhs = (acquire fr rhs, rhs)

unfoldable pub copy_assign : Frames → (same : Bool) → (self rhs : CoroTask) → Frames × CoroTask
unfolding acquire
copy_assign fr same self rhs = if same then (fr, self) else (acquire fr rhs, rhs)

-- The move constructor: the new task and what is left of the old one; and the move assignment, which
-- clears the right side and leaves the left side as it is.
unfoldable pub move_task : CoroTask → CoroTask × CoroTask
move_task rhs = (rhs, 0)

unfoldable pub move_assign : (same : Bool) → (self rhs : CoroTask) → CoroTask × CoroTask
move_assign same self rhs = if same then (self, rhs) else (self, 0)

-- `~CoroTask`.
unfoldable pub destroy_task : Frames → CoroTask → Frames × Bool
unfolding release
destroy_task fr t = if t == 0 then (fr, false) else release fr t

-- What the last suspension of a coroutine does beside its own frame: the coroutine to which the
-- thread goes (none is the no-op coroutine), the package that is sent, the waiters that are notified,
-- the number of running roots, and whether the frame is destroyed.
pub record Finished : Type 0 where
  pub frames : Frames
  pub resumed : Option ℕ
  pub sent : Option (EndPoint × List ℕ)
  pub notified : Bool
  pub running : ℕ
  pub destroyed : Bool

-- `if (promise_.frame_running_cnt_) (*promise_.frame_running_cnt_)--`
abbrev pub count_down : Bool → ℕ → ℕ
count_down true running = (running + 2 ^ 64 - 1) % 2 ^ 64
count_down false running = running

-- The end of a root frame: its locals go, and the reference that the scheduler held.
unfoldable pub finish_root :
    Frames → (self running : ℕ) → Option (EndPoint × List ℕ) → (notified : Bool) → Finished
unfolding release
finish_root fr self running sent notified =
    let cleared = put_frame fr self (record (fr self) {
      coro_local_var = none;
      done_flag = if notified then true else (fr self).done_flag;
    }) in
    let (released, destroyed) = release cleared self in
    record {
      frames = released;
      resumed = none;
      sent = sent;
      notified = notified;
      running = count_down (fr self).has_running_cnt running;
      destroyed = destroyed;
    }

abbrev pub response_of : Option CoroLocalVar → Option ResponseInfo
response_of none = none
response_of (some locals) = locals.response_info

-- `FinalAwaitable::await_suspend` of a coroutine that returned `result`.
unfoldable pub final_suspend :
    Endian → (listen_port : ℕ) → (t : Ty) → Val t → Frames → (self running : ℕ) → Result Finished
unfolding is_alone remove_self finish_root
final_suspend e listen_port t result fr self running =
    let root : Result Finished = elim (response_of (fr self).coro_local_var) [
      | none ↦ ok (finish_root fr self running none true)
      | some info ↦ response_package e info listen_port t result >>= λ bytes.
          ok (finish_root fr self running (some (info.response_to_end_point, bytes)) false)
    ] in
    if is_alone fr self
    then root
    else ok (record {
      frames = remove_self fr self;
      resumed = some (fr self).prev;
      sent = none;
      notified = false;
      running = running;
      destroyed = false;
    })
