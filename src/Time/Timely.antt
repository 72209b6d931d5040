-- ===== src/Time/Timely.antt =====
-- A coroutine that sleeps in the wheel and the scan of its bucket.
use mathlib.Core.Path.{subst}
use new_rpc.Base.{
  ℕ, ◌+◌, ◌%◌, ◌^◌, ◌<◌, ◌≡◌, ◌≢◌, refl, ap, ◌∙◌, inl, inr, Bool, true, false, Bool-cases, not,
  if◌then◌else◌, leb, some, List, [], ◌∷◌, ◌++◌, append-nil, arith, length, length-append,
}
use new_rpc.Serialization.Memory.{ok}
use new_rpc.Coroutine.Frame.{CoroLocalVar, LinkedCoroutine}
use new_rpc.Coroutine.Chain.{Fresh, Chain, IsQueue}
use new_rpc.Coroutine.Unlink.{Apart, Apart-snoc}
use new_rpc.Coroutine.Fetching.{select}
use new_rpc.Time.Wheel.{World, co_sleep, is_due, wakeup_frame_on_bucket}
use new_rpc.Time.Wakeup.{wakeup_frame_on_bucket-IsQueue}
use new_rpc.Time.Registered.{bucket_of, is_late, only_if}
use new_rpc.Time.Sleep.{co_sleep-IsRegistered}

select-snoc_due :
    (c : ℕ → Bool) (xs : List ℕ) (x : ℕ)
    → select c true (xs ++ (x ∷ [])) ≡ select c true xs ++ only_if (c x) x
select-snoc_due c [] x = refl
select-snoc_due c (y ∷ ys) x = elim (Bool-cases (c y)) [
  | inl h ↦ rw (h, select-snoc_due c ys x) refl
  | inr h ↦ rw (h, select-snoc_due c ys x) refl
]

select-snoc_rest :
    (c : ℕ → Bool) (xs : List ℕ) (x : ℕ)
    → select c false (xs ++ (x ∷ [])) ≡ select c false xs ++ only_if (not (c x)) x
select-snoc_rest c [] x = elim (Bool-cases (c x)) [ inl h ↦ rw h refl | inr h ↦ rw h refl ]
select-snoc_rest c (y ∷ ys) x = elim (Bool-cases (c y)) [
  | inl h ↦ rw (h, select-snoc_rest c ys x) refl
  | inr h ↦ rw (h, select-snoc_rest c ys x) refl
]

pub is_due_at :
    (later wake : ℕ) (x : LinkedCoroutine) (locals : CoroLocalVar)
    → x.coro_local_var ≡ some (record locals { wake_up_ts = wake })
    → is_due later false x ≡ leb wake later
unfolding is_due
is_due_at later wake x locals h =
    rw h (elim (Bool-cases (leb wake later)) [ inl e ↦ rw e refl | inr e ↦ rw e refl ])

-- A coroutine that has gone to sleep in time for its bucket is woken by a scan of the bucket exactly if
-- the scan's time is not before its wake-up time: it is then ready, behind the coroutines of the bucket
-- that are due as well; otherwise it stays in the bucket, behind the others that stay. Neither call
-- aborts. The frame has locals, is not null, has a null link and is neither in the bucket nor ready;
-- the frames in the bucket and those that are ready are different ones, and there are fewer than
-- 2 ^ 64 - 2 of them.
wakeup_frame_on_bucket-co_sleep :
    (w : World) (frame now sleep_ts later : ℕ) (xs ys : List ℕ) {locals : CoroLocalVar}
    → let wake = (now + sleep_ts) % 2 ^ 64 in
      (w.frames frame).coro_local_var ≡ some locals
      → IsQueue w.frames (w.service.buckets (bucket_of w wake)).waiting_queue xs
      → IsQueue w.frames w.ready ys
      → Fresh frame xs
      → Fresh frame ys
      → Apart xs ys
      → frame ≢ 0
      → (w.frames frame).in_queue_link_next ≡ 0
      → length xs + length ys + 2 < 2 ^ 64
      → is_late w wake ≡ false
      → (s : World) × (w' : World) × (co_sleep w frame now sleep_ts ≡ ok s)
        × (wakeup_frame_on_bucket s (bucket_of w wake) later false ≡ ok w')
        × IsQueue w'.frames w'.ready (
            ys
            ++ (select (λ p. is_due later false (s.frames p)) true xs
                ++ only_if (leb wake later) frame))
        × Chain w'.frames (w'.service.buckets (bucket_of w wake)).waiting_queue.head (
            select (λ p. is_due later false (s.frames p)) false xs
            ++ only_if (not (leb wake later)) frame)
wakeup_frame_on_bucket-co_sleep w frame now sleep_ts later xs ys {locals} known v r f g a h e room
      late =
    let wake : ℕ = (now + sleep_ts) % 2 ^ 64 in
    let (s, slept, ready, waiting, noted) =
      co_sleep-IsRegistered w frame now sleep_ts xs ys known v r f g a h e (omega arith) in
    let due = λ (p : ℕ). is_due later false (s.frames p) in
    let all = xs ++ (frame ∷ []) in
    let here : due frame ≡ leb wake later = is_due_at later wake (s.frames frame) locals noted in
    let waits : IsQueue s.frames (s.service.buckets (bucket_of w wake)).waiting_queue all =
      subst
        (λ (b : Bool).
          IsQueue s.frames (s.service.buckets (bucket_of w wake)).waiting_queue
            (if b then xs else all))
        late waiting in
    let others : IsQueue s.frames s.ready ys =
      subst (IsQueue s.frames s.ready)
        (ap (λ (b : Bool). ys ++ only_if b frame) late ∙ append-nil ys) ready in
    let (w', woken, ready', chain, size, time) =
      wakeup_frame_on_bucket-IsQueue s (bucket_of w wake) later false all ys waits others
        (Apart-snoc xs frame ys a g) (omega (arith, length-append xs (frame ∷ []))) in
    (
      s,
      w',
      slept,
      woken,
      subst (λ (zs : List ℕ). IsQueue w'.frames w'.ready (ys ++ zs))
          (select-snoc_due due xs frame
            ∙ ap (λ (b : Bool). select due true xs ++ only_if b frame) here)
          ready',
      subst (Chain w'.frames (w'.service.buckets (bucket_of w wake)).waiting_queue.head)
          (select-snoc_rest due xs frame
            ∙ ap (λ (b : Bool). select due false xs ++ only_if (not b) frame) here)
          chain,
    )
