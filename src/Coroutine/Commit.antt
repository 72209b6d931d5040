-- ===== src/Coroutine/Commit.antt =====
-- `CoroScheduler::commit` of coroutine_framework/scheduler.cpp, for a task that is new to the scheduler.
use new_rpc.Base.{
  ℕ, ◌+◌, ◌%◌, ◌^◌, ◌<◌, ◌≡◌, ◌≢◌, refl, ap, ◌∙◌, true, false, ◌==◌, List, [], ◌∷◌, ◌++◌, arith,
  length,
}
use new_rpc.Serialization.Memory.{ok}
use new_rpc.Serialization.Types.{value}
use new_rpc.Coroutine.Frame.{LinkedCoroutine, Frames, inc}
use new_rpc.Coroutine.Chain.{Fresh, IsQueue}
use new_rpc.Coroutine.Fifo.{append_frames, append_to_tail_lem}
use new_rpc.Coroutine.Fetching.{KeepsAllButLinks, KeepsAllButLinks-append_frames}
use new_rpc.Coroutine.Task.{acquire}
use new_rpc.Coroutine.Scheduler.{Scheduler, commit_frame, commit_task}
use new_rpc.Coroutine.Rounds.{marked, link-marked, IsQueue-marked}

marked_lem :
    (fr : Frames) (t : ℕ)
    → (fr t).ref_cnt + 1 < 2 ^ 64
    → ((marked fr t t).ref_cnt ≡ (fr t).ref_cnt + 1) × (marked fr t t).has_running_cnt ≡ true
unfolding acquire inc
marked_lem fr t small = ground arith

-- While the scheduler runs, a new task is put behind those that are ready, counts as running, and its
-- frame has one more reference and takes part in the count. The task's frame is not null, is in no
-- queue, has fewer than 2 ^ 64 - 1 references, and there are fewer than 2 ^ 64 - 1 frames and tasks.
pub commit_task-IsQueue :
    (s : Scheduler) (xs : List ℕ) (t : ℕ)
    → s.stop_flag ≡ false
    → IsQueue s.frames s.coroutine_queue xs
    → Fresh t xs
    → t ≢ 0
    → (s.frames t).in_queue_link_next ≡ 0
    → (s.frames t).ref_cnt + 1 < 2 ^ 64
    → length xs + 1 < 2 ^ 64
    → s.running_coro_cnt + 1 < 2 ^ 64
    → (s' : Scheduler) × (commit_task s t ≡ ok (s', value tt))
      × IsQueue s'.frames s'.coroutine_queue (xs ++ (t ∷ []))
      × (s'.running_coro_cnt ≡ s.running_coro_cnt + 1)
      × ((s'.frames t).ref_cnt ≡ (s.frames t).ref_cnt + 1)
      × ((s'.frames t).has_running_cnt ≡ true)
unfolding commit_task commit_frame
commit_task-IsQueue s xs t running v f h e held room few =
    let nonnull : (t == 0) ≡ false = ground (arith, h) in
    let count : (s.running_coro_cnt + 1) % 2 ^ 64 ≡ s.running_coro_cnt + 1 = omega arith in
    let fr = marked s.frames t in
    let (q, done, longer) =
      append_to_tail_lem fr s.coroutine_queue xs t
        (IsQueue-marked s.frames s.coroutine_queue t xs v) f h (link-marked s.frames t t ∙ e)
        room in
    let kept : KeepsAllButLinks fr (append_frames fr xs t) =
      KeepsAllButLinks-append_frames fr xs t in
    let (more, takes_part) = marked_lem s.frames t held in
    (
      record s {
        frames = append_frames fr xs t;
        coroutine_queue = q;
        running_coro_cnt = s.running_coro_cnt + 1;
      },
      rw (running, nonnull, count, done),
      longer,
      refl,
      ap (λ (x : LinkedCoroutine). x.ref_cnt) (kept t) ∙ more,
      ap (λ (x : LinkedCoroutine). x.has_running_cnt) (kept t) ∙ takes_part,
    )
