-- ===== src/Time/Turning.antt =====
-- Rounds of the loop of the time service: no sleeping coroutine is woken early, and none is lost.
use new_rpc.Base.{
  ℕ, ◌≤◌, ◌<◌, ◌≡◌, refl, sym, ap, ◌∙◌, inl, inr, Bool, Option, Option-cases, none, true, false,
  leb, some, List, [], ◌∷◌, ◌++◌, append-nil, arith, length, All,
}
use new_rpc.Serialization.Memory.{ok}
use new_rpc.Coroutine.Frame.{CoroLocalVar, Frames}
use new_rpc.Coroutine.Chain.{Chain, IsQueue}
use new_rpc.Coroutine.Unlink.{Apart}
use new_rpc.Time.Wheel.{World, bucket_num, is_due}
use new_rpc.Time.Loop.{Readings, loop_rounds}
use new_rpc.Time.Timely.{is_due_at}
use new_rpc.Time.Turn.{left_in, woken_by, Has, Has-append_right, Has-woken_by, Has-left_in}
use new_rpc.Time.Scan.{IsWheel}
use new_rpc.Time.Running.{loop_rounds_run}

-- The wake-up time that stands in the locals of the frame `p` has come at `t`.
abbrev pub is_over : (t : ℕ) → Option CoroLocalVar → Bool
is_over t none = false
is_over t (some locals) = leb locals.wake_up_ts t

abbrev pub time_is_up : Frames → (t p : ℕ) → Bool
time_is_up fr t p = is_over t (fr p).coro_local_var

is_due-time_is_up : (fr : Frames) (t p : ℕ) → is_due t false (fr p) ≡ time_is_up fr t p
unfolding is_due
is_due-time_is_up fr t p = elim (Option-cases (fr p).coro_local_var) [
  | inl unset ↦ rw unset refl
  | inr (locals, known) ↦ is_due_at t locals.wake_up_ts (fr p) locals known ∙ rw known refl
]

-- The rounds, where `due` says which coroutines are due.
pub loop_rounds_lem :
    (w : World) (b : ℕ → List ℕ) (ys : List ℕ) (idx : ℕ) (rs : List Readings) (last : ℕ → ℕ)
    (due : ℕ → ℕ → Bool)
    → IsWheel w b ys
    → All (λ r. r.stopped ≡ false) rs
    → ((t p : ℕ) → is_due t false (w.frames p) ≡ due t p)
    → (w' : World) × (loop_rounds w idx rs last ≡ ok (w', false))
      × IsWheel w' (left_in due idx rs b) (ys ++ woken_by due idx rs b)
unfolding loop_rounds
loop_rounds_lem w b ys idx rs last due v on tells =
    let (w', done, v', _) = loop_rounds_run w b ys due idx rs [] last v tells on in
    (w', ap (λ qs. loop_rounds w idx qs last) (sym (append-nil rs)) ∙ done, v')

-- The loop implements the abstract wheel: its rounds, up to a stop, do not abort, and leave in each
-- bucket and among the ready coroutines, in order, what scans of the lists in turn leave there,
-- whatever the clock shows. A coroutine is due at a scan if its wake-up time is not after the time of
-- the scan. The buckets are chains that are counted right, with no coroutine in two of them or ready as
-- well, and fewer than 2 ^ 64 - 1 in all; and nothing else happens in between.
pub loop_rounds-IsWheel :
    (w : World) (b : ℕ → List ℕ) (ys : List ℕ) (idx : ℕ) (rs : List Readings) (last : ℕ → ℕ)
    → IsWheel w b ys
    → All (λ r. r.stopped ≡ false) rs
    → let due = time_is_up w.frames in
      (w' : World) × (loop_rounds w idx rs last ≡ ok (w', false))
      × IsWheel w' (left_in due idx rs b) (ys ++ woken_by due idx rs b)
loop_rounds-IsWheel w b ys idx rs last v on =
    loop_rounds_lem w b ys idx rs last (time_is_up w.frames) v on (is_due-time_is_up w.frames)

module _ (w : World) (b : ℕ → List ℕ) (ys : List ℕ) (idx : ℕ) (rs : List Readings) (last : ℕ → ℕ)
    (p i : ℕ) {locals : CoroLocalVar} (v : IsWheel w b ys) (on : All (λ r. r.stopped ≡ false) rs)
    (here : Has p (b i)) (known : (w.frames p).coro_local_var ≡ some locals) where
  pub always_due :
      (qs : List Readings)
      → All (λ r. locals.wake_up_ts ≤ r.scan_now) qs
      → All (λ r. is_due r.scan_now false (w.frames p) ≡ true) qs
  always_due [] h = tt
  always_due (q ∷ qs) h =
      let reached : leb locals.wake_up_ts q.scan_now ≡ true = ground (arith, h.0) in
      (
        is_due_at q.scan_now locals.wake_up_ts (w.frames p) locals known ∙ reached,
        always_due qs h.1,
      )

  never_due :
      (qs : List Readings)
      → All (λ r. r.scan_now < locals.wake_up_ts) qs
      → All (λ r. is_due r.scan_now false (w.frames p) ≡ false) qs
  never_due [] h = tt
  never_due (q ∷ qs) h =
      let ahead : leb locals.wake_up_ts q.scan_now ≡ false = ground (arith, h.0) in
      (is_due_at q.scan_now locals.wake_up_ts (w.frames p) locals known ∙ ahead, never_due qs h.1)

  -- No sleeper is lost: a coroutine in a bucket is ready after one turn of the wheel, 4096 rounds, or
  -- more, whose scans are not before its wake-up time. The rounds do not abort. The buckets are chains
  -- that are counted right, with no coroutine in two of them or ready as well, and fewer than
  -- 2 ^ 64 - 1 in all; the loop is not stopped, and nothing else happens in between.
  pub loop_rounds_wakes :
      idx < bucket_num
      → i < bucket_num
      → bucket_num ≤ length rs
      → All (λ r. locals.wake_up_ts ≤ r.scan_now) rs
      → (w' : World) × (zs : List ℕ) × (loop_rounds w idx rs last ≡ ok (w', false))
        × IsQueue w'.frames w'.ready zs
        × Has p zs
  loop_rounds_wakes small bucket turn late =
      let due = λ (t q : ℕ). is_due t false (w.frames q) in
      let (w', done, v') = loop_rounds_lem w b ys idx rs last due v on (λ t q. refl) in
      (
        w',
        ys ++ woken_by due idx rs b,
        done,
        v'.ready,
        Has-append_right p ys (woken_by due idx rs b)
            (Has-woken_by due idx rs b p i small bucket (omega arith) here (always_due rs late)),
      )

  -- No sleeper is woken early: a coroutine in a bucket is still in its chain, and not ready, after any
  -- rounds whose scans are before its wake-up time. The rounds do not abort. The buckets are chains that
  -- are counted right, with no coroutine in two of them or ready as well, and fewer than 2 ^ 64 - 1 in
  -- all; the loop is not stopped, and nothing else happens in between.
  pub loop_rounds_keeps :
      All (λ r. r.scan_now < locals.wake_up_ts) rs
      → (w' : World) × (xs : List ℕ) × (zs : List ℕ) × (loop_rounds w idx rs last ≡ ok (w', false))
        × Chain w'.frames (w'.service.buckets i).waiting_queue.head xs
        × Has p xs
        × IsQueue w'.frames w'.ready zs
        × Apart xs zs
  loop_rounds_keeps early =
      let due = λ (t q : ℕ). is_due t false (w.frames q) in
      let (w', done, v') = loop_rounds_lem w b ys idx rs last due v on (λ t q. refl) in
      (
        w',
        left_in due idx rs b i,
        ys ++ woken_by due idx rs b,
        done,
        v'.chains i,
        Has-left_in due idx rs b p i here (never_due rs early),
        v'.ready,
        v'.ready_apart i,
      )
