-- ===== src/Time/Scan.antt =====
-- The wheel in memory: every bucket is the chain of its coroutines, and a scan keeps that.
use mathlib.Core.Path.{subst, fun_ext}
use new_rpc.Base.{
  ℕ, ◌+◌, ◌^◌, ◌≤◌, ◌<◌, ◌≡◌, ◌≢◌, refl, sym, ap, ◌∙◌, inl, inr, Bool, true, false, Bool-cases,
  ◌==◌, ==_iff, List, [], ◌∷◌, ◌++◌, arith, length, length-append,
}
use new_rpc.Serialization.Memory.{ok}
use new_rpc.Coroutine.Chain.{Fresh, Distinct, Chain, IsQueue}
use new_rpc.Coroutine.Unlink.{Apart}
use new_rpc.Coroutine.Fetching.{select, KeepsAllButLinks}
use new_rpc.Coroutine.Parting.{
  Apart-sym, select-Apart, Apart-select, Fresh-select, Chain-KeepsLinks,
}
use new_rpc.Time.Wheel.{World, bucket_num, is_due, wakeup_frame_on_bucket}
use new_rpc.Time.Wakeup.{IsScanned, wakeup_frame_on_bucket-IsScanned}
use new_rpc.Time.Turn.{change, count, count-change, length-select}

-- The bucket `i` is the chain of `b i`, counted right, whatever its `tail_` is; `ys` are ready, and no
-- coroutine is in two of these lists. There are fewer than 2 ^ 64 - 1 of them.
pub record IsWheel (w : World) (b : ℕ → List ℕ) (ys : List ℕ) : Type 0 where
  pub chains : (i : ℕ) → Chain w.frames (w.service.buckets i).waiting_queue.head (b i)
  pub sizes : (i : ℕ) → (w.service.buckets i).waiting_queue.size ≡ length (b i)
  pub distinct : (i : ℕ) → Distinct (b i)
  pub apart : (i j : ℕ) → i ≢ j → Apart (b i) (b j)
  pub ready_apart : (i : ℕ) → Apart (b i) ys
  pub ready : IsQueue w.frames w.ready ys
  pub room : length ys + count bucket_num b + 1 < 2 ^ 64

-- What holds of the new list and of all others holds after the change.
pub by_bucket {ℓ} :
    (P : ℕ → List ℕ → Type ℓ) (idx : ℕ) (xs : List ℕ) (b : ℕ → List ℕ)
    → P idx xs
    → ((i : ℕ) → idx ≢ i → P i (b i))
    → (i : ℕ) → P i (change idx xs b i)
by_bucket P idx xs b here others i = elim (Bool-cases (idx == i)) [
  | inl same ↦ rw same (subst (λ j. P j xs) ((==_iff idx i).0 same) here)
  | inr other ↦ rw other (others i (ground (arith, other)))
]

Apart-append_right : (xs ys us : List ℕ) → Apart xs ys → Apart xs us → Apart xs (ys ++ us)
Apart-append_right [] ys us a b = tt
Apart-append_right (x ∷ xs) ys us a b =
    (Fresh-append x ys us a.0 b.0, Apart-append_right xs ys us a.1 b.1)
  where
    Fresh-append : (x : ℕ) (ys us : List ℕ) → Fresh x ys → Fresh x us → Fresh x (ys ++ us)
    Fresh-append x [] us f g = g
    Fresh-append x (y ∷ ys) us f g = (f.0, Fresh-append x ys us f.1 g)

Apart-select_left :
    (c : ℕ → Bool) (v : Bool) (xs ys : List ℕ) → Apart xs ys → Apart (select c v xs) ys
Apart-select_left c v xs ys a =
    Apart-sym ys (select c v xs) (Apart-select c v ys xs (Apart-sym xs ys a))

Distinct-select : (c : ℕ → Bool) (v : Bool) (xs : List ℕ) → Distinct xs → Distinct (select c v xs)
Distinct-select c true [] d = tt
Distinct-select c false [] d = tt
Distinct-select c true (x ∷ xs) d = elim (Bool-cases (c x)) [
  | inl h ↦ rw h (Fresh-select x c true xs d.0, Distinct-select c true xs d.1)
  | inr h ↦ rw h (Distinct-select c true xs d.1)
]
Distinct-select c false (x ∷ xs) d = elim (Bool-cases (c x)) [
  | inl h ↦ rw h (Distinct-select c false xs d.1)
  | inr h ↦ rw h (Fresh-select x c false xs d.0, Distinct-select c false xs d.1)
]

length-le-count : (n idx : ℕ) (b : ℕ → List ℕ) → idx < n → length (b idx) ≤ count n b
length-le-count n idx b h = omega (arith, count-change n idx [] b h)

-- A scan moves coroutines, so there are no more of them.
room_kept :
    (n idx : ℕ) (due : ℕ → Bool) (b : ℕ → List ℕ) (ys : List ℕ)
    → idx < n
    → length ys + count n b + 1 < 2 ^ 64
    → length (ys ++ select due true (b idx)) + count n (change idx (select due false (b idx)) b) + 1
      < 2 ^ 64
room_kept n idx due b ys h room = omega (
  arith,
  room,
  count-change n idx (select due false (b idx)) b h,
  length-select due (b idx),
  length-append ys (select due true (b idx)),
)

pub room_one :
    (n idx : ℕ) (b : ℕ → List ℕ) (ys : List ℕ)
    → idx < n
    → length ys + count n b + 1 < 2 ^ 64
    → length (b idx) + length ys + 1 < 2 ^ 64
room_one n idx b ys h room = omega (arith, room, length-le-count n idx b h)

scanned-IsWheel :
    (w w' : World) (b : ℕ → List ℕ) (ys : List ℕ) (idx now : ℕ) (due : ℕ → Bool)
    → idx < bucket_num
    → IsWheel w b ys
    → IsScanned w w' idx now due (b idx) ys
    → IsWheel w' (change idx (select due false (b idx)) b) (ys ++ select due true (b idx))
scanned-IsWheel w w' b ys idx now due below v s =
    let left = select due false (b idx) in
    let taken = select due true (b idx) in
    record {
      chains =
          by_bucket (λ i xs. Chain w'.frames (w'.service.buckets i).waiting_queue.head xs) idx left
            b s.chain
            (λ i h.
              subst (λ q. Chain w'.frames q.waiting_queue.head (b i)) (sym (s.others i h))
                (Chain-KeepsLinks w.frames w'.frames (b idx) ys
                  (w.service.buckets i).waiting_queue.head (b i) s.kept
                  (v.apart i idx (λ e. h (sym e))) (v.ready_apart i) (v.chains i)));
      sizes =
          by_bucket (λ i xs. (w'.service.buckets i).waiting_queue.size ≡ length xs) idx left b
            s.size (λ i h. ap (λ q. q.waiting_queue.size) (s.others i h) ∙ v.sizes i);
      distinct =
          by_bucket (λ i xs. Distinct xs) idx left b
            (Distinct-select due false (b idx) (v.distinct idx)) (λ i h. v.distinct i);
      apart =
          by_bucket (λ i xs. (j : ℕ) → i ≢ j → Apart xs (change idx left b j)) idx left b
            (by_bucket (λ j zs. idx ≢ j → Apart left zs) idx left b (λ h. absurd (h refl))
              (λ j k h. Apart-select_left due false (b idx) (b j) (v.apart idx j k)))
            (λ i h.
              by_bucket (λ j zs. i ≢ j → Apart (b i) zs) idx left b
                (λ k. Apart-select due false (b i) (b idx) (v.apart i idx k)) (λ j k. v.apart i j));
      ready_apart =
          by_bucket (λ i xs. Apart xs (ys ++ taken)) idx left b
            (Apart-append_right left ys taken
              (Apart-select_left due false (b idx) ys (v.ready_apart idx))
              (Apart-sym taken left (select-Apart due (b idx) (v.distinct idx))))
            (λ i h.
              Apart-append_right (b i) ys taken (v.ready_apart i)
                (Apart-select due true (b i) (b idx) (v.apart i idx (λ e. h (sym e)))));
      ready = s.ready;
      room = room_kept bucket_num idx due b ys below v.room;
    }

-- A scan of a bucket neither aborts nor breaks the wheel.
pub wakeup_frame_on_bucket-IsWheel :
    (w : World) (b : ℕ → List ℕ) (ys : List ℕ) (idx now : ℕ) (force_awake : Bool) (due : ℕ → Bool)
    → idx < bucket_num
    → IsWheel w b ys
    → ((p : ℕ) → is_due now force_awake (w.frames p) ≡ due p)
    → (w' : World) × (wakeup_frame_on_bucket w idx now force_awake ≡ ok w')
      × IsWheel w' (change idx (select due false (b idx)) b) (ys ++ select due true (b idx))
      × KeepsAllButLinks w.frames w'.frames
wakeup_frame_on_bucket-IsWheel w b ys idx now force_awake due below v agree =
    let (w', done, s) =
      wakeup_frame_on_bucket-IsScanned w idx now force_awake (b idx) ys (v.chains idx) (v.sizes idx)
        (v.distinct idx) v.ready (v.ready_apart idx) (room_one bucket_num idx b ys below v.room) in
    (
      w',
      done,
      scanned-IsWheel w w' b ys idx now due below v
          (subst (λ c. IsScanned w w' idx now c (b idx) ys) (fun_ext agree) s),
      s.unchanged,
    )
