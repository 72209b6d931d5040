-- ===== src/Time/Stopping.antt =====
-- The end of the loop of the time service: every sleeping coroutine is woken.
use mathlib.Core.Path.{subst}
use new_rpc.Base.{
  ℕ, zero, suc, ◌≤◌, ◌<◌, ◌≡◌, refl, sym, ap, ◌∙◌, inl, inr, true, false, Bool-cases, ◌==◌, ==_iff,
  Option, length, List, [], ◌∷◌, ◌++◌, append-nil, append_assoc, arith, All,
}
use new_rpc.Serialization.Memory.{Result, ok, ◌>>=◌}
use new_rpc.Coroutine.Frame.{LinkedCoroutine}
use new_rpc.Coroutine.Chain.{Chain, IsQueue}
use new_rpc.Coroutine.Fetching.{select}
use new_rpc.Time.Wheel.{World, bucket_num, is_due, loop_round, wakeup_all, wakeup_frame_on_bucket}
use new_rpc.Time.Loop.{Readings, loop_rounds, loop}
use new_rpc.Time.Turn.{
  change, next_idx, left_in, woken_by, Has, Has-append_left, Has-append_right, Has-turn, Has-scan,
}
use new_rpc.Time.Scan.{IsWheel, wakeup_frame_on_bucket-IsWheel}
use new_rpc.Time.Running.{wait_for, idx_after, loop_round-IsWheel, loop_rounds_run}

-- The buckets when the first `n` have been emptied, and what was in these.
emptied : ℕ → (ℕ → List ℕ) → ℕ → List ℕ
emptied zero b = b
emptied (suc n) b = change n [] (emptied n b)

collected : ℕ → (ℕ → List ℕ) → List ℕ
collected zero b = []
collected (suc n) b = collected n b ++ emptied n b n

emptied-above : (n : ℕ) (b : ℕ → List ℕ) (i : ℕ) → n ≤ i → emptied n b i ≡ b i
unfolding emptied
emptied-above zero b i h = refl
emptied-above (suc n) b i h =
    let other : (n == i) ≡ false = ground arith in rw other (emptied-above n b i (omega arith))

emptied-below : (n : ℕ) (b : ℕ → List ℕ) (i : ℕ) → i < n → emptied n b i ≡ []
unfolding emptied
emptied-below zero b i h = absurd (omega arith)
emptied-below (suc n) b i h = elim (Bool-cases (n == i)) [
  | inl last ↦ rw last refl
  | inr other ↦ rw other (emptied-below n b i (ground (arith, other)))
]

Has-collected : (n : ℕ) (b : ℕ → List ℕ) (p i : ℕ) → i < n → Has p (b i) → Has p (collected n b)
unfolding collected
Has-collected zero b p i h here = absurd (omega arith)
Has-collected (suc n) b p i h here = elim (Bool-cases (n == i)) [
  | inl last ↦
      let same = (==_iff n i).0 last in
      Has-append_right p (collected n b) (emptied n b n) (
        subst (Has p) (sym (emptied-above n b n (omega arith)))
          (subst (λ j. Has p (b j)) (sym same) here))
  | inr other ↦
      Has-append_left p (collected n b) (emptied n b n)
        (Has-collected n b p i (ground (arith, other)) here)
]

select_all : (xs : List ℕ) → select (λ p. true) true xs ≡ xs
select_all [] = refl
select_all (x ∷ xs) = ap (λ ys. x ∷ ys) (select_all xs)

select_none : (xs : List ℕ) → select (λ p. true) false xs ≡ []
select_none [] = refl
select_none (x ∷ xs) = select_none xs

is_due_forced : (now : ℕ) (x : LinkedCoroutine) → is_due now true x ≡ true
unfolding is_due
is_due_forced now x = ground arith

-- The wake-up by force empties the first buckets.
wakeup_all-IsWheel :
    (n : ℕ) (w : World) (b : ℕ → List ℕ) (ys : List ℕ) (now : ℕ → ℕ)
    → n ≤ bucket_num
    → IsWheel w b ys
    → (w' : World) × (wakeup_all n w now ≡ ok w') × IsWheel w' (emptied n b) (ys ++ collected n b)
unfolding wakeup_all emptied collected
wakeup_all-IsWheel zero w b ys now h v = (w, refl, rw (append-nil ys) v)
wakeup_all-IsWheel (suc n) w b ys now h v =
    let (w1, before, v1) = wakeup_all-IsWheel n w b ys now (omega arith) v in
    let here = emptied n b n in
    let zs = ys ++ collected n b in
    let (w', woken, v', kept) =
      wakeup_frame_on_bucket-IsWheel w1 (emptied n b) zs n (now n) true (λ p. true) (omega arith) v1
        (λ p. is_due_forced (now n) (w1.frames p)) in
    (
      w',
      ap (λ (o : Result World). o >>= λ x. wakeup_frame_on_bucket x n (now n) true) before ∙ woken,
      rw (append_assoc ys (collected n b) here) at (rw (select_all here, select_none here) at v'),
    )

loop_rounds_last :
    (w w1 w' : World) (idx idx' : ℕ) (wait : Option ℕ) (r : Readings) (last : ℕ → ℕ)
    → loop_round w idx r.start_now r.scan_now r.now ≡ ok (w1, idx', wait)
    → r.stopped ≡ true
    → wakeup_all bucket_num w1 last ≡ ok w'
    → loop_rounds w idx (r ∷ []) last ≡ ok (w', true)
unfolding loop_rounds
loop_rounds_last w w1 w' idx idx' wait r last round stop woken =
    rw (round, stop) (ap (λ (o : Result World). o >>= λ x. ok (x, true)) woken)

-- No sleeper is left behind: when the loop ends, because the flag is set in its last round, every
-- coroutine that was in a bucket at its start is ready, its time come or not, and its bucket is empty.
-- Nothing aborts. The buckets are chains that are counted right, with no coroutine in two of them or
-- ready as well, and fewer than 2 ^ 64 - 1 in all; and nothing else happens in between.
pub loop_wakes_all :
    (w : World) (b : ℕ → List ℕ) (ys : List ℕ) (qs : List Readings) (r : Readings) (last : ℕ → ℕ)
    (p i : ℕ)
    → IsWheel w b ys
    → All (λ q. q.stopped ≡ false) qs
    → r.stopped ≡ true
    → i < bucket_num
    → Has p (b i)
    → (w' : World) × (zs : List ℕ) × (loop w (qs ++ (r ∷ [])) last ≡ ok (w', true))
      × IsQueue w'.frames w'.ready zs
      × Has p zs
      × ((w'.service.buckets i).waiting_queue.head ≡ 0)
      × ((w'.service.buckets i).waiting_queue.size ≡ 0)
unfolding loop
loop_wakes_all w b ys qs r last p i v on stop small here =
    let due = λ (t q : ℕ). is_due t false (w.frames q) in
    let (w1, run, v1, tells1) = loop_rounds_run w b ys due 0 qs (r ∷ []) last v (λ t q. refl) on in
    let idx = idx_after 0 qs in
    let b1 = left_in due 0 qs b in
    let ys1 = ys ++ woken_by due 0 qs b in
    let (w2, round, v2, tells2) = loop_round-IsWheel w1 b1 ys1 due idx r v1 tells1 in
    let taken = select (due r.scan_now) true (b1 (next_idx idx)) in
    let b2 = change (next_idx idx) (select (due r.scan_now) false (b1 (next_idx idx))) b1 in
    let ys2 = ys1 ++ taken in
    let (w', woken, v') = wakeup_all-IsWheel bucket_num w2 b2 ys2 last (omega arith) v2 in
    let all = collected bucket_num b2 in
    let none_left = emptied-below bucket_num b2 i small in
    (
      w',
      ys2 ++ all,
      run
          ∙ loop_rounds_last w1 w2 w' idx (next_idx idx) (wait_for w2 (next_idx idx) r.now) r last
              round stop woken,
      v'.ready,
      elim (Has-turn due 0 qs b p i here) [
        | inr early ↦
            Has-append_left p ys2 all
              (Has-append_left p ys1 taken (Has-append_right p ys (woken_by due 0 qs b) early))
        | inl waits ↦ elim (Has-scan (due r.scan_now) (next_idx idx) b1 p i waits) [
          | inr now ↦ Has-append_left p ys2 all (Has-append_right p ys1 taken now)
          | inl still ↦ Has-append_right p ys2 all (Has-collected bucket_num b2 p i small still)
        ]
      ],
      subst (Chain w'.frames (w'.service.buckets i).waiting_queue.head) none_left (v'.chains i),
      v'.sizes i ∙ ap length none_left,
    )
