-- ===== src/Coroutine/Frame.antt =====
-- `LinkedCoroutine` of coroutine_framework/queue.h, `CoroLocalVar` of local_var.h and `RefCount` of
-- utils.h. A frame is an address; 0 is the null pointer. The frames' memory is a function.
use new_rpc.Base.{ℕ, ◌+◌, ◌-◌, ◌%◌, ◌^◌, Bool, false, Option, none, ◌==◌, if◌then◌else◌}
use new_rpc.Net.Mapper.{ResponseInfo}

pub record CoroLocalVar : Type 0 where
  pub coro_id : ℕ
  pub wake_up_ts : ℕ
  pub response_info : Option ResponseInfo

pub record LinkedCoroutine : Type 0 where
  pub prev : ℕ
  pub next : ℕ
  pub in_queue_link_next : ℕ
  pub sync_cnt : ℕ
  pub coro_local_var : Option CoroLocalVar
  pub ref_cnt : ℕ
  pub done_flag : Bool
  pub has_running_cnt : Bool

abbrev pub Frames : Type 0
Frames = ℕ → LinkedCoroutine

abbrev pub put_frame : Frames → ℕ → LinkedCoroutine → Frames
put_frame fr p x q = if p == q then x else fr q

-- `LinkedCoroutine()` at the address `p`, with the count of `RefCount()`.
unfoldable pub make_frame : ℕ → LinkedCoroutine
make_frame p = record {
  prev = p;
  next = p;
  in_queue_link_next = 0;
  sync_cnt = 0;
  coro_local_var = none;
  ref_cnt = 1;
  done_flag = false;
  has_running_cnt = false;
}

-- `fr[p].in_queue_link_next_ = v`, and so for the other fields that are assigned.
unfoldable pub set_link : Frames → ℕ → ℕ → Frames
set_link fr p v = put_frame fr p (record (fr p) { in_queue_link_next = v })

unfoldable pub set_next : Frames → ℕ → ℕ → Frames
set_next fr p v = put_frame fr p (record (fr p) { next = v })

unfoldable pub set_prev : Frames → ℕ → ℕ → Frames
set_prev fr p v = put_frame fr p (record (fr p) { prev = v })

-- `sync_release`.
unfoldable pub sync_release : Frames → ℕ → Frames
sync_release fr p = put_frame fr p (record (fr p) { sync_cnt = ((fr p).sync_cnt + 1) % 2 ^ 64 })

-- `RefCount::inc`; and `dec`, which returns the count before the subtraction, as `fetch_sub` does.
unfoldable pub inc : ℕ → ℕ
inc shared_cnt = (shared_cnt + 1) % 2 ^ 64

unfoldable pub dec : ℕ → ℕ × ℕ
dec shared_cnt = (shared_cnt, (shared_cnt + 2 ^ 64 - 1) % 2 ^ 64)
