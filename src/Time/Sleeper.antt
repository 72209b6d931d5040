-- ===== src/Time/Sleeper.antt =====
-- A coroutine that goes to sleep in the wheel, and the turn of the wheel that wakes it.
use mathlib.Core.Path.{subst}
use new_rpc.Base.{
  ℕ, ◌+◌, ◌%◌, ◌^◌, ◌≤◌, ◌<◌, ◌≡◌, ◌≢◌, ◌⊎◌, refl, sym, ap, ◌∙◌, inl, inr, Bool, true, false,
  ==_iff, if◌then◌else◌, some, List, [], ◌∷◌, ◌++◌, append-nil, arith, length, length-append, All,
}
use new_rpc.Serialization.Memory.{ok}
use new_rpc.Coroutine.Frame.{CoroLocalVar}
use new_rpc.Coroutine.Chain.{Fresh, Distinct, Distinct-snoc, Chain, IsQueue, last_of}
use new_rpc.Coroutine.Unlink.{Apart, Apart-snoc}
use new_rpc.Coroutine.Rounds.{Chain-links}
use new_rpc.Coroutine.Parting.{Apart-snoc_right, Chain-KeepsLinks}
use new_rpc.Time.Wheel.{World, bucket_num, is_due, co_sleep}
use new_rpc.Time.Loop.{Readings, loop_rounds}
use new_rpc.Time.Mask.{real_bucket_idx-mod}
use new_rpc.Time.Registered.{bucket_of, is_late, only_if, IsRegistered}
use new_rpc.Time.Sleep.{asleep, link-asleep, locals-asleep, co_sleep_lem}
use new_rpc.Time.Turn.{
  change, count, count-change, woken_by, Has, Has-append_left, Has-append_right, Has-woken_by,
}
use new_rpc.Time.Scan.{IsWheel, by_bucket, room_one}
use new_rpc.Time.Turning.{always_due, loop_rounds_lem}

-- The bucket's coroutines behind `co_sleep`.
abbrev pub placed : (late : Bool) → List ℕ → (frame : ℕ) → List ℕ
placed late xs frame = if late then xs else xs ++ (frame ∷ [])

Distinct-placed :
    (late : Bool) (xs : List ℕ) (frame : ℕ)
    → Distinct xs
    → Fresh frame xs
    → Distinct (placed late xs frame)
Distinct-placed true xs frame d f = d
Distinct-placed false xs frame d f = Distinct-snoc xs frame d f

Apart-placed :
    (late : Bool) (xs : List ℕ) (frame : ℕ) (zs : List ℕ)
    → Apart xs zs
    → Fresh frame zs
    → Apart (placed late xs frame) zs
Apart-placed true xs frame zs a f = a
Apart-placed false xs frame zs a f = Apart-snoc xs frame zs a f

Apart-placed_right :
    (late : Bool) (zs xs : List ℕ) (frame : ℕ)
    → Apart zs xs
    → Fresh frame zs
    → Apart zs (placed late xs frame)
Apart-placed_right true zs xs frame a f = a
Apart-placed_right false zs xs frame a f = Apart-snoc_right frame zs xs f a

Apart-only_if :
    (late : Bool) (zs ys : List ℕ) (frame : ℕ)
    → Apart zs ys
    → Fresh frame zs
    → Apart zs (ys ++ only_if late frame)
Apart-only_if true zs ys frame a f = Apart-snoc_right frame zs ys f a
Apart-only_if false zs ys frame a f = rw (append-nil ys) a

Apart-both :
    (late : Bool) (xs ys : List ℕ) (frame : ℕ)
    → Apart xs ys
    → Fresh frame xs
    → Fresh frame ys
    → Apart (placed late xs frame) (ys ++ only_if late frame)
Apart-both true xs ys frame a f g = Apart-snoc_right frame xs ys f a
Apart-both false xs ys frame a f g = rw (append-nil ys) (Apart-snoc xs frame ys a g)

room_placed :
    (late : Bool) (n idx : ℕ) (b : ℕ → List ℕ) (ys : List ℕ) (frame : ℕ)
    → idx < n
    → length ys + count n b + 2 < 2 ^ 64
    → length (ys ++ only_if late frame) + count n (change idx (placed late (b idx) frame) b) + 1
      < 2 ^ 64
room_placed true n idx b ys frame h room =
    omega (arith, room, count-change n idx (b idx) b h, length-append ys (frame ∷ []))
room_placed false n idx b ys frame h room = rw (append-nil ys) (
    omega (
      arith,
      room,
      count-change n idx (b idx ++ (frame ∷ [])) b h,
      length-append (b idx) (frame ∷ []),
    ))

-- A coroutine that is nowhere in the wheel and can be put behind those of its bucket.
pub record IsNew (w : World) (b : ℕ → List ℕ) (ys : List ℕ) (frame idx : ℕ) : Type 0 where
  pub nowhere : (i : ℕ) → Fresh frame (b i)
  pub unready : Fresh frame ys
  pub nonnull : frame ≢ 0
  pub unlinked : (w.frames frame).in_queue_link_next ≡ 0
  pub tail : (w.service.buckets idx).waiting_queue.tail ≡ last_of 0 (b idx)
  pub room : length ys + count bucket_num b + 2 < 2 ^ 64

registered-IsWheel :
    (w w' : World) (b : ℕ → List ℕ) (ys : List ℕ) (frame wake : ℕ) (locals : CoroLocalVar)
    → IsWheel w b ys
    → IsNew w b ys frame (bucket_of w wake)
    → IsRegistered
        (record w { frames = asleep w.frames frame locals wake })
        w'
        wake
        frame
        (b (bucket_of w wake))
        ys
    → IsWheel w'
        (change (bucket_of w wake) (placed (is_late w wake) (b (bucket_of w wake)) frame) b)
        (ys ++ only_if (is_late w wake) frame)
registered-IsWheel w w' b ys frame wake locals v n put =
    let idx = bucket_of w wake in
    let late = is_late w wake in
    let xs = placed late (b idx) frame in
    let below = (real_bucket_idx-mod w.service.precision w.service.start_bucket_run_ts wake).1 in
    record {
      chains =
          by_bucket (λ i zs. Chain w'.frames (w'.service.buckets i).waiting_queue.head zs) idx xs b
            put.waiting.chain
            (λ i h.
              subst (λ q. Chain w'.frames q.waiting_queue.head (b i)) (sym (put.others i h))
                (Chain-KeepsLinks (asleep w.frames frame locals wake) w'.frames (b idx) ys
                  (w.service.buckets i).waiting_queue.head (b i) put.kept
                  (v.apart i idx (λ e. h (sym e))) (v.ready_apart i)
                  (Chain-links w.frames (asleep w.frames frame locals wake)
                    (w.service.buckets i).waiting_queue.head (b i)
                    (link-asleep w.frames frame locals wake) (v.chains i))));
      sizes =
          by_bucket (λ i zs. (w'.service.buckets i).waiting_queue.size ≡ length zs) idx xs b
            put.waiting.size (λ i h. ap (λ q. q.waiting_queue.size) (put.others i h) ∙ v.sizes i);
      distinct =
          by_bucket (λ i zs. Distinct zs) idx xs b
            (Distinct-placed late (b idx) frame (v.distinct idx) (n.nowhere idx))
            (λ i h. v.distinct i);
      apart =
          by_bucket (λ i zs. (j : ℕ) → i ≢ j → Apart zs (change idx xs b j)) idx xs b
            (by_bucket (λ j zs. idx ≢ j → Apart xs zs) idx xs b (λ h. absurd (h refl))
              (λ j k h. Apart-placed late (b idx) frame (b j) (v.apart idx j k) (n.nowhere j)))
            (λ i h.
              by_bucket (λ j zs. i ≢ j → Apart (b i) zs) idx xs b
                (λ k. Apart-placed_right late (b i) (b idx) frame (v.apart i idx k) (n.nowhere i))
                (λ j k. v.apart i j));
      ready_apart =
          by_bucket (λ i zs. Apart zs (ys ++ only_if late frame)) idx xs b
            (Apart-both late (b idx) ys frame (v.ready_apart idx) (n.nowhere idx) n.unready)
            (λ i h. Apart-only_if late (b i) ys frame (v.ready_apart i) (n.nowhere i));
      ready = put.ready;
      room = room_placed late bucket_num idx b ys frame below n.room;
    }

-- `co_sleep` puts a new coroutine of a wheel behind those of the bucket of its wake-up time or, if it
-- is too late for that bucket, behind those that are ready; the wheel stays one, with all others where
-- they were, and the wake-up time is noted. The call does not abort. The coroutine has locals, is not
-- null, has a null link and is nowhere in the wheel; `tail_` of its bucket is the last coroutine there;
-- and there is room for one more.
pub co_sleep-IsWheel :
    (w : World) (b : ℕ → List ℕ) (ys : List ℕ) (frame now sleep_ts : ℕ) {locals : CoroLocalVar}
    → let wake = (now + sleep_ts) % 2 ^ 64 in
      let idx = bucket_of w wake in
      (w.frames frame).coro_local_var ≡ some locals
      → IsWheel w b ys
      → IsNew w b ys frame idx
      → (w' : World) × (co_sleep w frame now sleep_ts ≡ ok w')
        × IsWheel w'
            (change idx (placed (is_late w wake) (b idx) frame) b)
            (ys ++ only_if (is_late w wake) frame)
        × ((w'.frames frame).coro_local_var ≡ some (record locals { wake_up_ts = wake }))
co_sleep-IsWheel w b ys frame now sleep_ts {locals} known v n =
    let wake : ℕ = (now + sleep_ts) % 2 ^ 64 in
    let idx = bucket_of w wake in
    let below = (real_bucket_idx-mod w.service.precision w.service.start_bucket_run_ts wake).1 in
    let fits = room_one bucket_num idx b ys below v.room in
    let (w', done, put) =
      co_sleep_lem w frame now sleep_ts (b idx) ys known
        (record {
          chain = v.chains idx;
          tail = n.tail;
          size = v.sizes idx;
          distinct = v.distinct idx;
          bounded = omega (arith, fits);
        })
        v.ready (n.nowhere idx) n.unready (v.ready_apart idx) n.nonnull n.unlinked fits in
    (
      w',
      done,
      registered-IsWheel w w' b ys frame wake locals v n put,
      put.locals_kept ∙ locals-asleep w.frames frame locals wake,
    )

-- Where a coroutine that has just gone to sleep is found.
placed_cases :
    (late : Bool) (xs ys : List ℕ) (frame : ℕ)
    → Has frame (ys ++ only_if late frame) ⊎ Has frame (placed late xs frame)
placed_cases true xs ys frame = inl (Has-append_right frame ys (frame ∷ []) (inl refl))
placed_cases false xs ys frame = inr (Has-append_right frame xs (frame ∷ []) (inl refl))

-- A coroutine that goes to sleep is ready after one turn of the wheel, 4096 rounds, or more, whose
-- scans are not before its wake-up time, be it in time for its bucket or not. Neither the call nor the
-- rounds abort. The coroutine has locals, is not null, has a null link and is nowhere in the wheel;
-- `tail_` of its bucket is the last coroutine there; the buckets are chains that are counted right,
-- with no coroutine in two of them or ready as well, and there is room for one more; the loop is not
-- stopped, and nothing else happens in between.
pub co_sleep_wakes :
    (w : World) (b : ℕ → List ℕ) (ys : List ℕ) (frame now sleep_ts idx : ℕ) (rs : List Readings)
    (last : ℕ → ℕ) {locals : CoroLocalVar}
    → let wake = (now + sleep_ts) % 2 ^ 64 in
      (w.frames frame).coro_local_var ≡ some locals
      → IsWheel w b ys
      → IsNew w b ys frame (bucket_of w wake)
      → idx < bucket_num
      → bucket_num ≤ length rs
      → All (λ r. r.stopped ≡ false) rs
      → All (λ r. wake ≤ r.scan_now) rs
      → (s : World) × (w' : World) × (zs : List ℕ) × (co_sleep w frame now sleep_ts ≡ ok s)
        × (loop_rounds s idx rs last ≡ ok (w', false))
        × IsQueue w'.frames w'.ready zs
        × Has frame zs
co_sleep_wakes w b ys frame now sleep_ts idx rs last {locals} known v n small turn on late =
    let wake : ℕ = (now + sleep_ts) % 2 ^ 64 in
    let i = bucket_of w wake in
    let below = (real_bucket_idx-mod w.service.precision w.service.start_bucket_run_ts wake).1 in
    let (s, slept, v1, noted) = co_sleep-IsWheel w b ys frame now sleep_ts known v n in
    let b1 = change i (placed (is_late w wake) (b i) frame) b in
    let ys1 = ys ++ only_if (is_late w wake) frame in
    let due = λ (t q : ℕ). is_due t false (s.frames q) in
    let (w', done, v') = loop_rounds_lem s b1 ys1 idx rs last due v1 on (λ t q. refl) in
    let woken = woken_by due idx rs b1 in
    (
      s,
      w',
      ys1 ++ woken,
      slept,
      done,
      v'.ready,
      elim (placed_cases (is_late w wake) (b i) ys frame) [
        | inl at_once ↦ Has-append_left frame ys1 woken at_once
        | inr waits ↦
            let here : Has frame (b1 i) = rw ((==_iff i i).1 refl) waits in
            Has-append_right frame ys1 woken (
              Has-woken_by due idx rs b1 frame i small below (omega arith) here
                (always_due s b1 ys1 idx rs last frame i v1 on here noted rs late))
      ],
    )
