-- ===== src/Examples/Turns.antt =====
-- Whole turns of the wheel.
use new_rpc.Base.{
  ℕ, zero, suc, ◌≤◌, ◌<◌, ◌≡◌, ◌≢◌, refl, inl, inr, Bool-cases, false, true, if◌then◌else◌, ◌==◌,
  some, none, List, [], ◌∷◌, ◌++◌, arith, length, All,
}
use new_rpc.Serialization.Memory.{ok}
use new_rpc.Coroutine.Frame.{CoroLocalVar, Frames, make_frame}
use new_rpc.Coroutine.Queue.{empty_queue}
use new_rpc.Coroutine.Chain.{Chain, IsQueue}
use new_rpc.Coroutine.Unlink.{Apart}
use new_rpc.Time.Wheel.{World, TimeWheelBucket, bucket_num, real_bucket_idx, co_sleep}
use new_rpc.Time.Loop.{Readings, loop_rounds, loop}
use new_rpc.Time.Turn.{count, left_in, woken_by, Has}
use new_rpc.Time.Scan.{IsWheel}
use new_rpc.Time.Turning.{time_is_up, loop_rounds-IsWheel, loop_rounds_wakes, loop_rounds_keeps}
use new_rpc.Time.Stopping.{loop_wakes_all}
use new_rpc.Time.Sleeper.{IsNew, co_sleep_wakes}

ne : (a b : ℕ) → (a == b) ≡ false → a ≢ b
ne a b h e = ground arith

abbrev locals_of : ℕ → CoroLocalVar
locals_of p = record { coro_id = p; wake_up_ts = 50; response_info = none }

abbrev frames : Frames
frames p = record (make_frame p) { coro_local_var = some (locals_of p) }

-- The frame 1 is in the bucket 5, to sleep until 50.
abbrev bucket : ℕ → TimeWheelBucket
bucket idx = record {
  scan_over_ts = 0;
  waiting_queue = if 5 == idx then record { head = 1; tail = 1; size = 1 } else empty_queue;
}

abbrev world : World
world = record {
  frames = frames;
  service = record { stop_flag = false; precision = 10; start_bucket_run_ts = 0; buckets = bucket };
  ready = empty_queue;
}

abbrev lists : ℕ → List ℕ
lists i = if 5 == i then 1 ∷ [] else []

count-lists : (n : ℕ) → count n lists ≤ n
unfolding count
count-lists zero = omega arith
count-lists (suc n) = elim (Bool-cases (5 == n)) [
  | inl here ↦ rw here (omega (arith, count-lists n))
  | inr other ↦ rw other (omega (arith, count-lists n))
]

world-IsWheel : IsWheel world lists []
unfolding make_frame
world-IsWheel = record {
  chains = λ i. elim (Bool-cases (5 == i)) [
    | inl here ↦ rw here (refl, ne 1 0 refl, refl)
    | inr other ↦ rw other refl
  ];
  sizes = λ i. elim (Bool-cases (5 == i)) [ inl here ↦ rw here refl | inr other ↦ rw other refl ];
  distinct =
      λ i. elim (Bool-cases (5 == i)) [ inl here ↦ rw here (tt, tt) | inr other ↦ rw other tt ];
  apart = λ i j h. elim (Bool-cases (5 == i)) [
    | inl here ↦ elim (Bool-cases (5 == j)) [
      | inl there ↦ absurd (h (ground (arith, here, there)))
      | inr other ↦ rw (here, other) (tt, tt)
    ]
    | inr other ↦ rw other tt
  ];
  ready_apart =
      λ i. elim (Bool-cases (5 == i)) [ inl here ↦ rw here (tt, tt) | inr other ↦ rw other tt ];
  ready = record { chain = refl; tail = refl; size = refl; distinct = tt; bounded = omega arith };
  room = omega (arith, count-lists bucket_num);
}

-- `n` rounds, all at the same time, without a stop.
rounds : ℕ → (now : ℕ) → List Readings
rounds zero now = []
rounds (suc n) now =
    record { start_now = now; scan_now = now; now = now; stopped = false } ∷ rounds n now

length-rounds : (n now : ℕ) → length (rounds n now) ≡ n
unfolding rounds
length-rounds zero now = refl
length-rounds (suc n) now = omega (arith, length-rounds n now)

running : (n now : ℕ) → All (λ r. r.stopped ≡ false) (rounds n now)
unfolding rounds
running zero now = tt
running (suc n) now = (refl, running n now)

reached : (n now wake : ℕ) → wake ≤ now → All (λ r. wake ≤ r.scan_now) (rounds n now)
unfolding rounds
reached zero now wake h = tt
reached (suc n) now wake h = (h, reached n now wake h)

ahead : (n now wake : ℕ) → now < wake → All (λ r. r.scan_now < wake) (rounds n now)
unfolding rounds
ahead zero now wake h = tt
ahead (suc n) now wake h = (h, ahead n now wake h)

abbrev last_round : Readings
last_round = record { start_now = 40; scan_now = 40; now = 40; stopped = true }

loop_rounds-IsWheel_example :
    let due = time_is_up frames in
    (w' : World) × (loop_rounds world 0 (rounds 6 60) (λ i. 0) ≡ ok (w', false))
    × IsWheel w' (left_in due 0 (rounds 6 60) lists) ([] ++ woken_by due 0 (rounds 6 60) lists)
loop_rounds-IsWheel_example =
    loop_rounds-IsWheel world lists [] 0 (rounds 6 60) (λ i. 0) world-IsWheel (running 6 60)

-- After a turn at 60 the frame 1 is ready, after some rounds at 40 it still waits.
loop_rounds_wakes_example :
    (w' : World) × (zs : List ℕ) × (loop_rounds world 7 (rounds bucket_num 60) (λ i. 0)
      ≡ ok (w', false))
    × IsQueue w'.frames w'.ready zs
    × Has 1 zs
loop_rounds_wakes_example =
    loop_rounds_wakes world lists [] 7 (rounds bucket_num 60) (λ i. 0) 1 5 world-IsWheel
      (running bucket_num 60) (inl refl) refl (omega arith) (omega arith)
      (omega (arith, length-rounds bucket_num 60)) (reached bucket_num 60 50 (omega arith))

loop_rounds_keeps_example :
    (w' : World) × (xs : List ℕ) × (zs : List ℕ) × (loop_rounds world 0 (rounds 6 40) (λ i. 0)
      ≡ ok (w', false))
    × Chain w'.frames (w'.service.buckets 5).waiting_queue.head xs
    × Has 1 xs
    × IsQueue w'.frames w'.ready zs
    × Apart xs zs
loop_rounds_keeps_example =
    loop_rounds_keeps world lists [] 0 (rounds 6 40) (λ i. 0) 1 5 world-IsWheel (running 6 40)
      (inl refl) refl (ahead 6 40 50 (omega arith))

-- The loop ends at 40, before the wake-up time.
loop_wakes_all_example :
    (w' : World) × (zs : List ℕ) × (loop world (rounds 6 40 ++ (last_round ∷ [])) (λ i. 41)
      ≡ ok (w', true))
    × IsQueue w'.frames w'.ready zs
    × Has 1 zs
    × ((w'.service.buckets 5).waiting_queue.head ≡ 0)
    × ((w'.service.buckets 5).waiting_queue.size ≡ 0)
loop_wakes_all_example =
    loop_wakes_all world lists [] (rounds 6 40) last_round (λ i. 41) 1 5 world-IsWheel
      (running 6 40) refl (omega arith) (inl refl)

-- Frame 4 sleeps from 7 to 42, which is bucket 5 too.
four-IsNew : IsNew world lists [] 4 5
unfolding make_frame
four-IsNew = record {
  nowhere = λ i. elim (Bool-cases (5 == i)) [
    | inl here ↦ rw here (ne 4 1 refl, tt)
    | inr other ↦ rw other tt
  ];
  unready = tt;
  nonnull = ne 4 0 refl;
  unlinked = refl;
  tail = refl;
  room = omega (arith, count-lists bucket_num);
}

co_sleep_wakes_example :
    (s : World) × (w' : World) × (zs : List ℕ) × (co_sleep world 4 7 35 ≡ ok s)
    × (loop_rounds s 0 (rounds bucket_num 42) (λ i. 0) ≡ ok (w', false))
    × IsQueue w'.frames w'.ready zs
    × Has 4 zs
unfolding real_bucket_idx
co_sleep_wakes_example =
    co_sleep_wakes world lists [] 4 7 35 0 (rounds bucket_num 42) (λ i. 0) refl world-IsWheel
      four-IsNew (omega arith) (omega (arith, length-rounds bucket_num 42)) (running bucket_num 42)
      (reached bucket_num 42 42 (omega arith))
