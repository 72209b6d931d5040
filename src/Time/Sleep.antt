-- ===== src/Time/Sleep.antt =====
-- A coroutine that goes to sleep is in its bucket, or ready at once.
use new_rpc.Base.{
  ℕ, ◌+◌, ◌%◌, ◌^◌, ◌<◌, ◌≡◌, ◌≢◌, refl, ap, ◌∙◌, ==_iff, if◌then◌else◌, Option, none, some, List,
  [], ◌∷◌, ◌++◌, arith, length,
}
use new_rpc.Serialization.Memory.{Result, ok, undefined, ◌>>=◌}
use new_rpc.Coroutine.Frame.{CoroLocalVar, Frames, put_frame, sync_release}
use new_rpc.Coroutine.Queue.{CoroutineQueue}
use new_rpc.Coroutine.Chain.{Fresh, IsQueue}
use new_rpc.Coroutine.Unlink.{Apart}
use new_rpc.Coroutine.Rounds.{Chain-links}
use new_rpc.Time.Wheel.{World, wake_up_ts, register_at, register_frame, co_sleep}
use new_rpc.Time.Registered.{bucket_of, is_late, only_if, IsRegistered, register_at-IsRegistered}

-- The frames after the writes of `co_sleep`.
abbrev pub asleep : Frames → ℕ → CoroLocalVar → (wake : ℕ) → Frames
asleep fr frame locals wake =
    sync_release
      (put_frame fr frame
        (record (fr frame) { coro_local_var = some (record locals { wake_up_ts = wake }) }))
      frame

pub link-asleep :
    (fr : Frames) (frame : ℕ) (locals : CoroLocalVar) (wake p : ℕ)
    → (asleep fr frame locals wake p).in_queue_link_next ≡ (fr p).in_queue_link_next
unfolding sync_release
link-asleep fr frame locals wake p = ground arith

pub locals-asleep :
    (fr : Frames) (frame : ℕ) (locals : CoroLocalVar) (wake : ℕ)
    → (asleep fr frame locals wake frame).coro_local_var
      ≡ some (record locals { wake_up_ts = wake })
unfolding sync_release
locals-asleep fr frame locals wake = ground (arith, (==_iff frame frame).1 refl)

wake_up_ts-asleep :
    (fr : Frames) (frame : ℕ) (locals : CoroLocalVar) (wake : ℕ)
    → wake_up_ts (asleep fr frame locals wake frame) ≡ ok wake
unfolding wake_up_ts
wake_up_ts-asleep fr frame locals wake = rw (locals-asleep fr frame locals wake)

IsQueue-asleep :
    (fr : Frames) (frame : ℕ) (locals : CoroLocalVar) (wake : ℕ) (q : CoroutineQueue) (xs : List ℕ)
    → IsQueue fr q xs
    → IsQueue (asleep fr frame locals wake) q xs
IsQueue-asleep fr frame locals wake q xs v = record {
  chain =
      Chain-links fr (asleep fr frame locals wake) q.head xs (link-asleep fr frame locals wake)
        v.chain;
  tail = v.tail;
  size = v.size;
  distinct = v.distinct;
  bounded = v.bounded;
}

register_frame_at :
    (w : World) (frame wake : ℕ)
    → wake_up_ts (w.frames frame) ≡ ok wake
    → register_frame w frame ≡ register_at w frame wake
unfolding register_frame
register_frame_at w frame wake known = ap (λ (o : Result ℕ). o >>= register_at w frame) known

co_sleep_start :
    (w : World) (frame now sleep_ts : ℕ) {locals : CoroLocalVar}
    → (w.frames frame).coro_local_var ≡ some locals
    → co_sleep w frame now sleep_ts
      ≡ register_frame
          (record w { frames = asleep w.frames frame locals ((now + sleep_ts) % 2 ^ 64) })
          frame
unfolding co_sleep
co_sleep_start w frame now sleep_ts known =
    ap
      (λ (o : Option CoroLocalVar). elim o as (λ _. Result World) [
        | none ↦ undefined
        | some x ↦
            register_frame
              (record w { frames = asleep w.frames frame x ((now + sleep_ts) % 2 ^ 64) }) frame
      ])
      known

-- What `co_sleep` leaves: the frame is registered, from the frames with its wake-up time noted.
pub co_sleep_lem :
    (w : World) (frame now sleep_ts : ℕ) (xs ys : List ℕ) {locals : CoroLocalVar}
    → let wake = (now + sleep_ts) % 2 ^ 64 in
      (w.frames frame).coro_local_var ≡ some locals
      → IsQueue w.frames (w.service.buckets (bucket_of w wake)).waiting_queue xs
      → IsQueue w.frames w.ready ys
      → Fresh frame xs
      → Fresh frame ys
      → Apart xs ys
      → frame ≢ 0
      → (w.frames frame).in_queue_link_next ≡ 0
      → length xs + length ys + 1 < 2 ^ 64
      → (w' : World) × (co_sleep w frame now sleep_ts ≡ ok w')
        × IsRegistered (record w { frames = asleep w.frames frame locals wake }) w' wake frame xs ys
co_sleep_lem w frame now sleep_ts xs ys {locals} known v r f g a h e room =
    let wake : ℕ = (now + sleep_ts) % 2 ^ 64 in
    let fr = asleep w.frames frame locals wake in
    let w1 = record w { frames = fr } in
    let (w', done, put) =
      register_at-IsRegistered w1 frame wake xs ys
        (IsQueue-asleep w.frames frame locals wake
          (w.service.buckets (bucket_of w wake)).waiting_queue xs v)
        (IsQueue-asleep w.frames frame locals wake w.ready ys r) f g a h
        (link-asleep w.frames frame locals wake frame ∙ e) room in
    (
      w',
      co_sleep_start w frame now sleep_ts known
          ∙ register_frame_at w1 frame wake (wake_up_ts-asleep w.frames frame locals wake)
          ∙ done,
      put,
    )

-- `co_sleep` notes the wake-up time, the time now plus the duration on 64 bits, in the frame and puts
-- the frame behind the others in the bucket of that time; or, if the time is not after the start of the
-- wheel's round or not after the last scan of the bucket, behind the frames that are ready. The other
-- one of the two queues stays as it was, and the call does not abort. The frame has locals, is not
-- null, has a null link and is in neither queue; the two have no frame in common, and there are fewer
-- than 2 ^ 64 - 1 frames in them.
pub co_sleep-IsRegistered :
    (w : World) (frame now sleep_ts : ℕ) (xs ys : List ℕ) {locals : CoroLocalVar}
    → let wake = (now + sleep_ts) % 2 ^ 64 in
      (w.frames frame).coro_local_var ≡ some locals
      → IsQueue w.frames (w.service.buckets (bucket_of w wake)).waiting_queue xs
      → IsQueue w.frames w.ready ys
      → Fresh frame xs
      → Fresh frame ys
      → Apart xs ys
      → frame ≢ 0
      → (w.frames frame).in_queue_link_next ≡ 0
      → length xs + length ys + 1 < 2 ^ 64
      → (w' : World) × (co_sleep w frame now sleep_ts ≡ ok w')
        × IsQueue w'.frames w'.ready (ys ++ only_if (is_late w wake) frame)
        × IsQueue w'.frames
            (w'.service.buckets (bucket_of w wake)).waiting_queue
            (if is_late w wake then xs else xs ++ (frame ∷ []))
        × ((w'.frames frame).coro_local_var ≡ some (record locals { wake_up_ts = wake }))
co_sleep-IsRegistered w frame now sleep_ts xs ys {locals} known v r f g a h e room =
    let wake : ℕ = (now + sleep_ts) % 2 ^ 64 in
    let (w', done, put) = co_sleep_lem w frame now sleep_ts xs ys known v r f g a h e room in
    (w', done, put.ready, put.waiting, put.locals_kept ∙ locals-asleep w.frames frame locals wake)
