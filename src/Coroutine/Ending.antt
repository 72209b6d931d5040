-- ===== src/Coroutine/Ending.antt =====
-- The end of a root frame, `FinalAwaitable::await_suspend` of coroutine_framework/task.ipp where the
-- call chain is the root alone, and how it balances `CoroScheduler::commit`.
use new_rpc.Base.{
  ℕ, ◌+◌, ◌-◌, ◌%◌, ◌^◌, ◌<◌, ◌≡◌, ◌≢◌, refl, sym, ◌∙◌, Bool, true, false, ◌||◌, Option, none, some,
  inl, inr, Option-cases, ap, ◌==◌, ==_iff, List, [], ◌++◌, arith, length,
}
use new_rpc.Serialization.Memory.{ok, Endian}
use new_rpc.Serialization.Types.{Ty, Val, Expected, value}
use new_rpc.Serialization.Encoding.{encode, Fits}
use new_rpc.Serialization.Output.{IsSized}
use new_rpc.Net.EndPoint.{EndPoint}
use new_rpc.Net.Header.{header_type, header_vals}
use new_rpc.Net.Mapper.{ResponseInfo}
use new_rpc.Net.Wire.{HeaderFits}
use new_rpc.Net.Response.{response_header, response_package-encode, ok-injective}
use new_rpc.Coroutine.Frame.{Frames, dec}
use new_rpc.Coroutine.Chain.{Fresh, IsQueue}
use new_rpc.Coroutine.Task.{Finished, is_alone, release, finish_root, final_suspend, response_of}
use new_rpc.Coroutine.CallChain.{IsCallChain}
use new_rpc.Coroutine.Scheduler.{Scheduler, commit_task}
use new_rpc.Coroutine.Commit.{commit_task-IsQueue}

-- The result of a root that answers a request can be sent whole.
abbrev pub CanAnswer : (port : ℕ) (t : Ty) → Val t → Option ResponseInfo → Type 0
CanAnswer port t v none = Unit {0}
CanAnswer port t v (some info) =
    Fits t v × IsSized t v × HeaderFits (response_header info port (length (encode t v)))

-- What goes out, and to whom.
abbrev pub answer : (port : ℕ) (t : Ty) → Val t → Option ResponseInfo → Option (EndPoint × List ℕ)
answer port t v none = none
answer port t v (some info) = some (
  info.response_to_end_point,
  encode header_type (header_vals (response_header info port (length (encode t v)))) ++ encode t v,
)

-- Whoever waits for the coroutine in this process is told.
abbrev pub is_awaited_here : Option ResponseInfo → Bool
is_awaited_here none = true
is_awaited_here (some info) = false

-- The thread is free, the frame `root` has given up its locals and one reference, is not destroyed,
-- and no other frame has changed.
pub record IsEnded (fr : Frames) (root : ℕ) (end : Finished) : Type 0 where
  pub free : end.resumed ≡ none
  pub cleared : (end.frames root).coro_local_var ≡ none
  pub counted : (end.frames root).ref_cnt + 1 ≡ (fr root).ref_cnt
  pub done : (end.frames root).done_flag ≡ (end.notified || (fr root).done_flag)
  pub kept : end.destroyed ≡ false
  pub others : (p : ℕ) → root ≢ p → end.frames p ≡ fr p

count_down_lem :
    (running : ℕ) → 0 < running → running < 2 ^ 64 → (running + 2 ^ 64 - 1) % 2 ^ 64 + 1 ≡ running
count_down_lem running some_run small = omega arith

finish_root_lem :
    (fr : Frames) (root running : ℕ) (sent : Option (EndPoint × List ℕ)) (notified : Bool)
    → (fr root).has_running_cnt ≡ true
    → 0 < (fr root).ref_cnt
    → (fr root).ref_cnt < 2 ^ 64
    → 0 < running
    → running < 2 ^ 64
    → ((finish_root fr root running sent notified).running + 1 ≡ running)
      × IsEnded fr root (finish_root fr root running sent notified)
unfolding finish_root release dec
finish_root_lem fr root running sent notified marked held small some_run few =
    let same : (root == root) ≡ true = (==_iff root root).1 refl in
    let zero_not : ((fr root).ref_cnt == 0) ≡ false = ground arith in
    (
      rw marked (count_down_lem running some_run few),
      record {
        free = refl;
        cleared = rw same refl;
        counted = rw same (count_down_lem (fr root).ref_cnt held small);
        done = ground (arith, same);
        kept = rw (same, zero_not);
        others = λ p other. ground (arith, other);
      },
    )

-- A root that is alone in its chain and has returned `v`.
pub final_suspend-root :
    (e : Endian) (port : ℕ) (t : Ty) (v : Val t) (fr : Frames) (root running : ℕ)
    → IsCallChain fr root []
    → (fr root).has_running_cnt ≡ true
    → 0 < (fr root).ref_cnt
    → (fr root).ref_cnt < 2 ^ 64
    → 0 < running
    → running < 2 ^ 64
    → CanAnswer port t v (response_of (fr root).coro_local_var)
    → (end : Finished) × (final_suspend e port t v fr root running ≡ ok end)
      × (end.sent ≡ answer port t v (response_of (fr root).coro_local_var))
      × (end.notified ≡ is_awaited_here (response_of (fr root).coro_local_var))
      × (end.running + 1 ≡ running)
      × IsEnded fr root end
unfolding final_suspend
final_suspend-root e port t v fr root running c marked held small some_run few can =
    let alone : is_alone fr root ≡ true = unfold is_alone in (==_iff _ root).1 (c.linked.1) in
    let ends = λ (sent : Option (EndPoint × List ℕ)) (notified : Bool).
      finish_root_lem fr root running sent notified marked held small some_run few in
    elim (Option-cases (response_of (fr root).coro_local_var)) [
      | inl nobody ↦ (
        finish_root fr root running none true,
        rw (alone, nobody),
        rw nobody refl,
        rw nobody refl,
        (ends none true).0,
        (ends none true).1,
      )
      | inr (info, asked) ↦
          let (fits, sized, wide) : CanAnswer port t v (some info) = rw asked at can in
          let sent = answer port t v (some info) in
          (
            finish_root fr root running sent false,
            rw (alone, asked, response_package-encode e info port t v fits sized wide),
            rw asked refl,
            rw asked refl,
            (ends sent false).0,
            (ends sent false).1,
          )
    ]

-- What `commit` adds for a task, the end of its coroutine gives back: from whatever state of the frames
-- it ends in, with its own reference and count as `commit` left them, and alone in its chain, the
-- thread is free, one root less is running, and the frame has the references that it had before,
-- without locals. A root that answers a request sends its result's encoding behind the header of a
-- response to whoever asked, and any other root notifies whoever waits for it, never both. The task
-- is new to a running scheduler, its frame is not null and in no queue, the numbers of frames,
-- references and tasks are below 2 ^ 64 - 1, at least one root is running when it ends, and a result
-- that goes out has numbers within their widths, a size that is defined, and header fields
-- within theirs.
pub final_suspend-commit_task :
    (e : Endian) (port : ℕ) (t : Ty) (v : Val t) (s s' : Scheduler) (xs : List ℕ) (task : ℕ)
    (fr : Frames) (running : ℕ)
    → s.stop_flag ≡ false
    → IsQueue s.frames s.coroutine_queue xs
    → Fresh task xs
    → task ≢ 0
    → (s.frames task).in_queue_link_next ≡ 0
    → (s.frames task).ref_cnt + 1 < 2 ^ 64
    → length xs + 1 < 2 ^ 64
    → s.running_coro_cnt + 1 < 2 ^ 64
    → commit_task s task ≡ ok (s', value tt)
    → (fr task).ref_cnt ≡ (s'.frames task).ref_cnt
    → (fr task).has_running_cnt ≡ (s'.frames task).has_running_cnt
    → IsCallChain fr task []
    → 0 < running
    → running < 2 ^ 64
    → CanAnswer port t v (response_of (fr task).coro_local_var)
    → (end : Finished) × (final_suspend e port t v fr task running ≡ ok end)
      × (end.sent ≡ answer port t v (response_of (fr task).coro_local_var))
      × (end.notified ≡ is_awaited_here (response_of (fr task).coro_local_var))
      × (end.running + 1 ≡ running)
      × ((end.frames task).ref_cnt ≡ (s.frames task).ref_cnt)
      × IsEnded fr task end
final_suspend-commit_task e port t v s s' xs task fr running on q f h free held room few done refs
      marked c some_run small can =
    let (s1, done1, longer, more_run, one_more, takes_part1) =
      commit_task-IsQueue s xs task on q f h free held room few in
    let same : s' ≡ s1 =
      ap (λ (x : Scheduler × Expected (Unit {0})). x.0) (ok-injective (sym done ∙ done1)) in
    let more : (fr task).ref_cnt ≡ (s.frames task).ref_cnt + 1 =
      refs ∙ (ap (λ (x : Scheduler). (x.frames task).ref_cnt) same ∙ one_more) in
    let takes_part : (fr task).has_running_cnt ≡ true =
      marked ∙ (ap (λ (x : Scheduler). (x.frames task).has_running_cnt) same ∙ takes_part1) in
    let (end, ends, sent, notified, count, ended) =
      final_suspend-root e port t v fr task running c takes_part (omega arith) (omega arith)
        some_run small can in
    (end, ends, sent, notified, count, omega (arith, ended.counted), ended)
