-- ===== src/Time/Registered.antt =====
-- A coroutine that is registered is in its bucket, or ready at once.
use new_rpc.Base.{
  ℕ, ◌+◌, ◌^◌, ◌<◌, ◌≡◌, ◌≢◌, refl, ap, ◌∙◌, inl, inr, Bool, true, false, Bool-cases, ◌||◌, leb,
  ==_iff, if◌then◌else◌, List, [], ◌∷◌, ◌++◌, append-nil, arith, length,
}
use new_rpc.Serialization.Memory.{Result, ok, ◌>>=◌}
use new_rpc.Coroutine.Frame.{Frames, set_link}
use new_rpc.Coroutine.Queue.{CoroutineQueue, append_to_tail}
use new_rpc.Coroutine.Chain.{Fresh, IsQueue}
use new_rpc.Coroutine.Fifo.{append_frames, append_to_tail_lem}
use new_rpc.Coroutine.Unlink.{Apart}
use new_rpc.Coroutine.Fetching.{KeepsLinks, link-append_frames}
use new_rpc.Coroutine.Parting.{Apart-sym, IsQueue-append_frames}
use new_rpc.Time.Wheel.{World, put_bucket, commit, real_bucket_idx, register_at}

locals-append_frames :
    (fr : Frames) (ts : List ℕ) (a p : ℕ)
    → (append_frames fr ts a p).coro_local_var ≡ (fr p).coro_local_var
unfolding set_link
locals-append_frames fr [] a p = refl
locals-append_frames fr (t ∷ ts) a p = ground arith

-- The bucket for a wake-up time, and whether it is too late for it.
abbrev pub bucket_of : World → (wake : ℕ) → ℕ
bucket_of w wake = real_bucket_idx w.service.precision w.service.start_bucket_run_ts wake

abbrev pub is_late : World → (wake : ℕ) → Bool
is_late w wake =
    leb wake w.service.start_bucket_run_ts
    || leb wake (w.service.buckets (bucket_of w wake)).scan_over_ts

abbrev pub only_if : Bool → ℕ → List ℕ
only_if b frame = if b then frame ∷ [] else []

-- What registering a frame leaves.
pub record IsRegistered (w w' : World) (wake frame : ℕ) (xs ys : List ℕ) : Type 0 where
  pub ready : IsQueue w'.frames w'.ready (ys ++ only_if (is_late w wake) frame)
  pub waiting :
      IsQueue w'.frames
        (w'.service.buckets (bucket_of w wake)).waiting_queue
        (if is_late w wake then xs else xs ++ (frame ∷ []))
  pub others : (i : ℕ) → bucket_of w wake ≢ i → w'.service.buckets i ≡ w.service.buckets i
  pub kept : KeepsLinks w.frames w'.frames xs ys
  pub locals_kept : (w'.frames frame).coro_local_var ≡ (w.frames frame).coro_local_var

module _ (w : World) (frame wake : ℕ) (xs ys : List ℕ)
    (v : IsQueue w.frames (w.service.buckets (bucket_of w wake)).waiting_queue xs)
    (r : IsQueue w.frames w.ready ys) (f : Fresh frame xs) (g : Fresh frame ys) (a : Apart xs ys)
    (h : frame ≢ 0) (e : (w.frames frame).in_queue_link_next ≡ 0)
    (room : length xs + length ys + 1 < 2 ^ 64) where
  register_late :
      is_late w wake ≡ true
      → register_at w frame wake ≡ commit w frame
      → (w' : World) × (register_at w frame wake ≡ ok w') × IsRegistered w w' wake frame xs ys
  unfolding commit
  register_late late now =
      let (q, appended, longer) =
        append_to_tail_lem w.frames w.ready ys frame r g h e (omega arith) in
      (
        record w { frames = append_frames w.frames ys frame; ready = q },
        now
            ∙ ap
                (λ (o : Result (Frames × CoroutineQueue)).
                  o >>= λ (fr, q'). ok (record w { frames = fr; ready = q' }))
                appended,
        record {
          ready = rw late longer;
          waiting = rw late (
              IsQueue-append_frames w.frames ys frame
                (w.service.buckets (bucket_of w wake)).waiting_queue xs (Apart-sym xs ys a) v);
          others = λ i n. refl;
          kept = λ p n m. link-append_frames w.frames ys frame p m;
          locals_kept = locals-append_frames w.frames ys frame frame;
        },
      )

  register_in_time :
      is_late w wake ≡ false
      → ((fr : Frames) (q : CoroutineQueue)
          → append_to_tail w.frames (w.service.buckets (bucket_of w wake)).waiting_queue frame
            ≡ ok (fr, q)
          → register_at w frame wake
            ≡ ok (
                put_bucket
                  (record w { frames = fr })
                  (bucket_of w wake)
                  (record (w.service.buckets (bucket_of w wake)) { waiting_queue = q })))
      → (w' : World) × (register_at w frame wake ≡ ok w') × IsRegistered w w' wake frame xs ys
  register_in_time late entered =
      let idx = bucket_of w wake in
      let bucket = w.service.buckets idx in
      let (q, appended, longer) =
        append_to_tail_lem w.frames bucket.waiting_queue xs frame v f h e (omega arith) in
      let fr = append_frames w.frames xs frame in
      let w' = put_bucket (record w { frames = fr }) idx (record bucket { waiting_queue = q }) in
      let here : w'.service.buckets idx ≡ record bucket { waiting_queue = q } =
        ground (arith, (==_iff idx idx).1 refl) in
      (
        w',
        entered fr q appended,
        record {
          ready = rw (late, append-nil ys) (IsQueue-append_frames w.frames xs frame w.ready ys a r);
          waiting = rw (late, here) longer;
          others = λ i n. ground (arith, n);
          kept = λ p n m. link-append_frames w.frames xs frame p n;
          locals_kept = locals-append_frames w.frames xs frame frame;
        },
      )

  pub register_at-IsRegistered :
      (w' : World) × (register_at w frame wake ≡ ok w') × IsRegistered w w' wake frame xs ys
  register_at-IsRegistered =
      let bucket = w.service.buckets (bucket_of w wake) in
      elim (Bool-cases (leb wake w.service.start_bucket_run_ts)) [
        | inl early ↦ register_late (rw early) (unfold register_at in rw early)
        | inr behind ↦ elim (Bool-cases (leb wake bucket.scan_over_ts)) [
          | inl scanned ↦
              register_late (rw (behind, scanned)) (unfold register_at in rw (behind, scanned))
          | inr ahead ↦
              register_in_time (rw (behind, ahead))
                (λ fr q appended. unfold register_at in rw (behind, ahead, appended))
        ]
      ]
