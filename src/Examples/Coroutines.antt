-- ===== src/Examples/Coroutines.antt =====
-- Small queues and chains of coroutines.
use new_rpc.Base.{◌≡◌, refl, [], ◌∷◌, arith, none, some, false}
use new_rpc.Serialization.Memory.{ok, little}
use new_rpc.Serialization.Types.{fundamental}
use new_rpc.Coroutine.Frame.{Frames, make_frame}
use new_rpc.Coroutine.Queue.{CoroutineQueue, append_to_tail}
use new_rpc.Coroutine.Chain.{IsQueue}
use new_rpc.Coroutine.Fifo.{append_to_tail-IsQueue}
use new_rpc.Coroutine.Task.{await_transform, final_suspend}
use new_rpc.Coroutine.CallChain.{
  IsCallChain, await_transform-IsCallChain, final_suspend-IsCallChain,
}
use new_rpc.Coroutine.Lifetime.{acquires, releases, run_refs, run_refs-make_frame}

abbrev new_frames : Frames
new_frames = make_frame

-- Frame 1 in a queue, alone.
abbrev queue_of_1 : CoroutineQueue
queue_of_1 = record { head = 1; tail = 1; size = 1 }

queue_of_1-IsQueue : IsQueue new_frames queue_of_1 (1 ∷ [])
unfolding make_frame
queue_of_1-IsQueue = record {
  chain = (refl, (λ h. absurd (omega arith)), refl);
  tail = refl;
  size = refl;
  distinct = (tt, tt);
  bounded = omega arith;
}

append_to_tail-IsQueue_example :
    (fr' : Frames) × (q' : CoroutineQueue) × (append_to_tail new_frames queue_of_1 2 ≡ ok (fr', q'))
    × IsQueue fr' q' (1 ∷ 2 ∷ [])
unfolding make_frame
append_to_tail-IsQueue_example =
    append_to_tail-IsQueue new_frames queue_of_1 (1 ∷ []) 2 queue_of_1-IsQueue
      ((λ h. absurd (omega arith)), tt) (λ h. absurd (omega arith)) refl (omega arith)

-- The root 1 is running.
root-IsCallChain : IsCallChain new_frames 1 []
unfolding make_frame
root-IsCallChain = record { linked = (refl, refl); distinct = (tt, tt) }

await_transform-IsCallChain_example : IsCallChain (await_transform new_frames 1 2) 1 (2 ∷ [])
await_transform-IsCallChain_example =
    await_transform-IsCallChain new_frames 1 [] 2 root-IsCallChain ((λ h. absurd (omega arith)), tt)

-- The callee 2 returns to the root.
final_suspend-IsCallChain_example :
    (fr' : Frames) × (final_suspend little 9000
        (fundamental 8)
        7
        (await_transform new_frames 1 2)
        2
        1
      ≡ ok (record {
        frames = fr';
        resumed = some 1;
        sent = none;
        notified = false;
        running = 1;
        destroyed = false;
      }))
    × IsCallChain fr' 1 []
final_suspend-IsCallChain_example =
    final_suspend-IsCallChain little 9000 (fundamental 8) 7 (await_transform new_frames 1 2) 1 [] 2
      1
      (await_transform-IsCallChain new_frames 1 [] 2 root-IsCallChain
        ((λ h. absurd (omega arith)), tt))

-- A handle is copied, and both give up their references.
run_refs-make_frame_example :
    ((run_refs new_frames 1 (acquires ∷ releases ∷ releases ∷ [])).1 ≡ false)
    × (((run_refs new_frames 1 (acquires ∷ releases ∷ releases ∷ [])).0 1).ref_cnt ≡ 0)
run_refs-make_frame_example =
    run_refs-make_frame new_frames 1 (acquires ∷ releases ∷ releases ∷ []) refl
      (omega arith, (omega arith, tt)) (omega arith)
