-- ===== src/Examples/Scheduling.antt =====
-- A scheduler with one task, a queue of three frames, a call without endpoints.
use new_rpc.Base.{
  ℕ, ◌+◌, ◌<◌, ◌≡◌, ◌≢◌, refl, Bool, true, false, List, ◌==◌, some, none, [], ◌∷◌, arith, map,
}
use new_rpc.Serialization.Memory.{ok, undefined, ◌>>=◌, little}
use new_rpc.Serialization.Memory.{le_bytes}
use new_rpc.Serialization.Encoding.{encode}
use new_rpc.Serialization.Types.{fundamental, value, unexpected}
use new_rpc.Net.EndPoint.{ipv4_bytes, when_all}
use new_rpc.Examples.Packages.{info, response-HeaderFits}
use new_rpc.Net.Rpc.{RpcBase, timeout_cb}
use new_rpc.Net.CoRpc.{one_result, await_resume}
use new_rpc.Net.Results.{no_answer, unanswered}
use new_rpc.Error.{error_no, rpc_timeout}
use new_rpc.Net.Answers.{await_resume-timeout_cb}
use new_rpc.Coroutine.Frame.{
  LinkedCoroutine, Frames, put_frame, inc, make_frame, set_link, sync_release,
}
use new_rpc.Coroutine.Queue.{CoroutineQueue, empty_queue, append_to_tail, fetch_nodes}
use new_rpc.Coroutine.Chain.{IsQueue, Chain}
use new_rpc.Coroutine.Scheduler.{Scheduler, commit_frame, commit_task, co_suspend, worker_rounds}
use new_rpc.Coroutine.Rounds.{marked}
use new_rpc.Coroutine.Fairness.{Left, co_suspend-GivesWay, worker_rounds-fair}
use new_rpc.Coroutine.Commit.{commit_task-IsQueue}
use new_rpc.Coroutine.Ending.{answer, IsEnded, final_suspend-commit_task}
use new_rpc.Coroutine.CallChain.{IsCallChain}
use new_rpc.Coroutine.Task.{Finished, acquire, final_suspend}
use new_rpc.Coroutine.Fetching.{KeepsLinks, KeepsAllButLinks}
use new_rpc.Coroutine.FetchLoop.{IsFetched}
use new_rpc.Coroutine.Fetched.{fetch_nodes-IsFetched}
use new_rpc.Coroutine.Tail.{follow, append_to_tail-lost}

-- The frames 1, 2 and 3 in a queue; frame 2 has been released once more.
abbrev frames : Frames
frames = set_link (set_link (sync_release make_frame 2) 1 2) 2 3

abbrev queue : CoroutineQueue
queue = record { head = 1; tail = 3; size = 3 }

ne : (a b : ℕ) → (a == b) ≡ false → a ≢ b
ne a b h e = ground arith

queue-IsQueue : IsQueue frames queue (1 ∷ 2 ∷ 3 ∷ [])
unfolding make_frame set_link sync_release
queue-IsQueue = record {
  chain = (refl, ne 1 0 refl, (refl, ne 2 0 refl, (refl, ne 3 0 refl, refl)));
  tail = refl;
  size = refl;
  distinct = ((ne 1 2 refl, (ne 1 3 refl, tt)), ((ne 2 3 refl, tt), (tt, tt)));
  bounded = omega arith;
}

abbrev is_released : LinkedCoroutine → Bool
is_released x = x.sync_cnt == 1

fetch_nodes-IsFetched_example :
    (fr' : Frames) × (q' : CoroutineQueue) × (t' : CoroutineQueue) × (fetch_nodes is_released frames
        queue
        (some empty_queue)
      ≡ ok (fr', q', some t'))
    × IsFetched fr' q' t' (1 ∷ 3 ∷ []) (2 ∷ []) 3
    × KeepsLinks frames fr' (1 ∷ 2 ∷ 3 ∷ []) []
    × KeepsAllButLinks frames fr'
unfolding make_frame set_link sync_release
fetch_nodes-IsFetched_example =
    fetch_nodes-IsFetched is_released frames queue (1 ∷ 2 ∷ 3 ∷ []) (λ x v. refl) queue-IsQueue
      (omega arith)

-- Frame 1 is alone in the chain, and the tail is frame 3.
abbrev stale_queue : CoroutineQueue
stale_queue = record { head = 1; tail = 3; size = 1 }

append_to_tail-lost_example :
    (fr' : Frames) × (q' : CoroutineQueue) × (append_to_tail make_frame stale_queue 4
      ≡ ok (fr', q'))
    × ((k : ℕ) → follow fr' k q'.head ≢ 4)
    × Chain fr' q'.head (1 ∷ [])
    × (q'.size ≡ 2)
unfolding make_frame
append_to_tail-lost_example =
    append_to_tail-lost make_frame stale_queue (1 ∷ []) 4 (refl, ne 1 0 refl, refl) refl
      (omega arith) (omega arith) (ne 3 1 refl, tt) (ne 4 1 refl, tt) (ne 3 0 refl) (ne 4 0 refl)
      refl

abbrev scheduler : Scheduler
scheduler = record {
  frames = frames;
  coroutine_queue = queue;
  stop_flag = false;
  running_coro_cnt = 3;
}

-- Each of the three awaits `co_suspend` again and again; frame 3 has two ahead of it.
worker_rounds-fair_example :
    (s' : Scheduler) × (again : List ℕ) × (worker_rounds co_suspend 3 scheduler empty_queue
      ≡ (co_suspend s' 3 >>= λ s''. ok (s'', empty_queue)))
    × IsQueue s'.frames s'.coroutine_queue again
    × ((s'.frames 3).in_queue_link_next ≡ 0)
    × Left again (1 ∷ 2 ∷ [])
worker_rounds-fair_example =
    worker_rounds-fair co_suspend scheduler (1 ∷ 2 ∷ []) 3 [] co_suspend-GivesWay refl queue-IsQueue

commit_task-IsQueue_example :
    (s' : Scheduler) × (commit_task scheduler 4 ≡ ok (s', value tt))
    × IsQueue s'.frames s'.coroutine_queue (1 ∷ 2 ∷ 3 ∷ 4 ∷ [])
    × (s'.running_coro_cnt ≡ 4)
    × ((s'.frames 4).ref_cnt ≡ 2)
    × ((s'.frames 4).has_running_cnt ≡ true)
unfolding make_frame set_link sync_release
commit_task-IsQueue_example =
    commit_task-IsQueue scheduler (1 ∷ 2 ∷ 3 ∷ []) 4 refl queue-IsQueue
      (ne 4 1 refl, (ne 4 2 refl, (ne 4 3 refl, tt))) (ne 4 0 refl) refl (omega arith) (omega arith)
      (omega arith)

-- The task 4 is behind the others.
abbrev committed : Scheduler
committed = record {
  frames = set_link (marked frames 4) 3 4;
  coroutine_queue = record { head = 1; tail = 4; size = 4 };
  stop_flag = false;
  running_coro_cnt = 4;
}

commit_done : commit_task scheduler 4 ≡ ok (committed, value tt)
unfolding commit_task commit_frame acquire inc append_to_tail set_link make_frame sync_release
commit_done = refl

-- The task answers a request, and has been taken from the queue.
abbrev frames_at_end : Frames
frames_at_end = put_frame committed.frames 4 (record (committed.frames 4) {
  in_queue_link_next = 0;
  coro_local_var = some (record { coro_id = 7; wake_up_ts = 0; response_info = some info });
})

frames_at_end-IsCallChain : IsCallChain frames_at_end 4 []
unfolding make_frame set_link sync_release acquire
frames_at_end-IsCallChain = record { linked = (refl, refl); distinct = (tt, tt) }

final_suspend-commit_task_example :
    (end : Finished) × (final_suspend little 9000 (fundamental 8) 7 frames_at_end 4 2 ≡ ok end)
    × (end.sent ≡ answer 9000 (fundamental 8) 7 (some info))
    × (end.notified ≡ false)
    × (end.running + 1 ≡ 2)
    × ((end.frames 4).ref_cnt ≡ 1)
    × IsEnded frames_at_end 4 end
unfolding make_frame set_link sync_release acquire inc encode le_bytes
final_suspend-commit_task_example =
    final_suspend-commit_task little 9000 (fundamental 8) 7 scheduler committed (1 ∷ 2 ∷ 3 ∷ []) 4
      frames_at_end 2 refl queue-IsQueue (ne 4 1 refl, (ne 4 2 refl, (ne 4 3 refl, tt)))
      (ne 4 0 refl) refl (omega arith) (omega arith) (omega arith) commit_done refl refl
      frames_at_end-IsCallChain (omega arith) (omega arith) (omega arith, tt, response-HeaderFits)

-- A call that was sent to one endpoint.
abbrev sent_call : RpcBase
sent_call = record {
  ret = fundamental 8;
  endpoints = (record { ip = ipv4_bytes 127 0 0 1; port = 9000; flags = 1 }, false) ∷ [];
  finish_condition = when_all;
  timeout = 1000000000;
  func_id = 1;
  send_buffer = [];
  total_serialize_size = 0;
  received_results = [];
  on_each_function = none;
  coroutine = 5;
}

await_resume-timeout_cb_example :
    let r' = record sent_call {
      received_results = map no_answer (unanswered sent_call.endpoints);
    } in
    (timeout_cb sent_call ≡ ok r')
    × ((sent_call.endpoints ≡ [])
        → await_resume (record { multi_rpc = false; rpc_base = r' }) ≡ undefined)
    × (0 < 1
        → await_resume (record { multi_rpc = false; rpc_base = r' })
          ≡ ok (one_result (unexpected (error_no rpc_timeout))))
await_resume-timeout_cb_example = await_resume-timeout_cb sent_call (record { counted = refl })
