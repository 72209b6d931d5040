-- ===== src/Time/Running.antt =====
-- The rounds of the loop of the time service, against the wheel of lists.
use mathlib.Core.Path.{subst}
use new_rpc.Base.{
  ℕ, ◌+◌, ◌-◌, ◌*◌, ◌%◌, ◌^◌, ◌≡◌, refl, sym, ap, ◌∙◌, inl, inr, Bool, true, false, Bool-cases,
  ◌==◌, leb, if◌then◌else◌, Option, none, some, List, [], ◌∷◌, ◌++◌, append-nil, append_assoc,
  arith, All,
}
use new_rpc.Serialization.Memory.{Result, ok, ◌>>=◌}
use new_rpc.Coroutine.Frame.{LinkedCoroutine, Frames}
use new_rpc.Coroutine.Fetching.{select, KeepsAllButLinks}
use new_rpc.Time.Wheel.{World, is_due, wakeup_frame_on_bucket, loop_round}
use new_rpc.Time.Loop.{Readings, loop_rounds}
use new_rpc.Time.Mask.{bucket_mask}
use new_rpc.Time.Turn.{change, next_idx, left_in, woken_by}
use new_rpc.Time.Scan.{IsWheel, wakeup_frame_on_bucket-IsWheel}

-- A new round of the wheel at the bucket 0.
abbrev started : World → (idx start_now : ℕ) → World
started w idx start_now =
    if idx == 0
    then record w { service = record w.service { start_bucket_run_ts = start_now } }
    else w

abbrev pub wait_for : World → (idx now : ℕ) → Option ℕ
wait_for w idx now =
    let next_run_ts = (w.service.start_bucket_run_ts + w.service.precision * (idx + 1)) % 2 ^ 64 in
    if leb next_run_ts now then none else some (next_run_ts - now)

started-IsWheel :
    (w : World) (b : ℕ → List ℕ) (ys : List ℕ) (idx start_now : ℕ)
    → IsWheel w b ys
    → IsWheel (started w idx start_now) b ys
started-IsWheel w b ys idx start_now v = elim (Bool-cases (idx == 0)) [
  | inl zeroth ↦ rw zeroth (record {
    chains = v.chains;
    sizes = v.sizes;
    distinct = v.distinct;
    apart = v.apart;
    ready_apart = v.ready_apart;
    ready = v.ready;
    room = v.room;
  })
  | inr other ↦ rw other v
]

frames-started : (w : World) (idx start_now : ℕ) → (started w idx start_now).frames ≡ w.frames
frames-started w idx start_now = elim (Bool-cases (idx == 0)) [
  | inl zeroth ↦ rw zeroth refl
  | inr other ↦ rw other refl
]

-- The abstract wheel's `due` is the code's condition at the frames of `w`.
abbrev pub Tells : (due : ℕ → ℕ → Bool) → Frames → Type 0
Tells due fr = (t p : ℕ) → is_due t false (fr p) ≡ due t p

is_due-ignores :
    (t : ℕ) (x : LinkedCoroutine)
    → is_due t false (record x { in_queue_link_next = 0 }) ≡ is_due t false x
unfolding is_due
is_due-ignores t x = refl

Tells-KeepsAllButLinks :
    (due : ℕ → ℕ → Bool) (fr fr' : Frames) → KeepsAllButLinks fr fr' → Tells due fr → Tells due fr'
Tells-KeepsAllButLinks due fr fr' k g t p =
    sym (is_due-ignores t (fr' p)) ∙ ap (is_due t false) (k p) ∙ is_due-ignores t (fr p) ∙ g t p

loop_round_lem :
    (w w' : World) (idx start_now scan_now now : ℕ)
    → wakeup_frame_on_bucket (started w (next_idx idx) start_now) (next_idx idx) scan_now false
      ≡ ok w'
    → loop_round w idx start_now scan_now now
      ≡ ok (w', next_idx idx, wait_for w' (next_idx idx) now)
unfolding loop_round
loop_round_lem w w' idx start_now scan_now now done =
    ap
      (λ (i : ℕ). wakeup_frame_on_bucket (started w i start_now) i scan_now false >>= λ v.
        ok (v, i, wait_for v i now))
      (bucket_mask (idx + 1))
    ∙ ap (λ (o : Result World). o >>= λ v. ok (v, next_idx idx, wait_for v (next_idx idx) now)) done

loop_rounds_step :
    (w w' : World) (idx : ℕ) (r : Readings) (rs : List Readings) (last : ℕ → ℕ)
    → loop_round w idx r.start_now r.scan_now r.now
      ≡ ok (w', next_idx idx, wait_for w' (next_idx idx) r.now)
    → r.stopped ≡ false
    → loop_rounds w idx (r ∷ rs) last ≡ loop_rounds w' (next_idx idx) rs last
unfolding loop_rounds
loop_rounds_step w w' idx r rs last done on = rw (done, on) refl

-- One round.
pub loop_round-IsWheel :
    (w : World) (b : ℕ → List ℕ) (ys : List ℕ) (due : ℕ → ℕ → Bool) (idx : ℕ) (r : Readings)
    → IsWheel w b ys
    → Tells due w.frames
    → let next = next_idx idx in
      (w' : World) × (loop_round w idx r.start_now r.scan_now r.now
        ≡ ok (w', next, wait_for w' next r.now))
      × IsWheel w'
          (change next (select (due r.scan_now) false (b next)) b)
          (ys ++ select (due r.scan_now) true (b next))
      × Tells due w'.frames
loop_round-IsWheel w b ys due idx r v tells =
    let next = next_idx idx in
    let w0 = started w next r.start_now in
    let tells0 : Tells due w0.frames =
      subst (Tells due) (sym (frames-started w next r.start_now)) tells in
    let (w', woken, v', kept) =
      wakeup_frame_on_bucket-IsWheel w0 b ys next r.scan_now false (due r.scan_now) (omega arith)
        (started-IsWheel w b ys next r.start_now v) (tells0 r.scan_now) in
    (
      w',
      loop_round_lem w w' idx r.start_now r.scan_now r.now woken,
      v',
      Tells-KeepsAllButLinks due w0.frames w'.frames kept tells0,
    )

-- The number of the bucket that was scanned last.
abbrev pub idx_after : (idx : ℕ) → List Readings → ℕ
idx_after idx [] = idx
idx_after idx (r ∷ rs) = idx_after (next_idx idx) rs

pub loop_rounds_run :
    (w : World) (b : ℕ → List ℕ) (ys : List ℕ) (due : ℕ → ℕ → Bool) (idx : ℕ)
    (rs rest : List Readings) (last : ℕ → ℕ)
    → IsWheel w b ys
    → Tells due w.frames
    → All (λ r. r.stopped ≡ false) rs
    → (w' : World) × (loop_rounds w idx (rs ++ rest) last
        ≡ loop_rounds w' (idx_after idx rs) rest last)
      × IsWheel w' (left_in due idx rs b) (ys ++ woken_by due idx rs b)
      × Tells due w'.frames
loop_rounds_run w b ys due idx [] rest last v tells on = (w, refl, rw (append-nil ys) v, tells)
loop_rounds_run w b ys due idx (r ∷ rs) rest last v tells on =
    let next = next_idx idx in
    let taken = select (due r.scan_now) true (b next) in
    let b1 = change next (select (due r.scan_now) false (b next)) b in
    let (w1, round, v1, tells1) = loop_round-IsWheel w b ys due idx r v tells in
    let (w', done, v', tells') =
      loop_rounds_run w1 b1 (ys ++ taken) due next rs rest last v1 tells1 on.1 in
    (
      w',
      loop_rounds_step w w1 idx r (rs ++ rest) last round on.0 ∙ done,
      rw (append_assoc ys taken (woken_by due next rs b1)) at v',
      tells',
    )
