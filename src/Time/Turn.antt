-- ===== src/Time/Turn.antt =====
-- The wheel seen as a list of coroutines for each bucket, and what scans of its buckets in turn leave.
use mathlib.Core.Path.{subst}
use new_rpc.Base.{
  ℕ, zero, suc, ◌+◌, ◌-◌, ◌%◌, ◌≤◌, ◌<◌, ◌≡◌, ◌⊎◌, refl, sym, ap, ◌∙◌, inl, inr, Bool, true, false,
  Bool-cases, ◌==◌, ==_iff, if◌then◌else◌, List, [], ◌∷◌, ◌++◌, arith, length, All,
}
use new_rpc.Coroutine.Fetching.{select}
use new_rpc.Time.Loop.{Readings}

-- One list is replaced.
abbrev pub change : (idx : ℕ) → List ℕ → (ℕ → List ℕ) → ℕ → List ℕ
change idx xs b i = if idx == i then xs else b i

-- The number of coroutines in the first `n` buckets.
unfoldable pub count : ℕ → (ℕ → List ℕ) → ℕ
count zero b = 0
count (suc n) b = count n b + length (b n)

abbrev pub next_idx : ℕ → ℕ
next_idx idx = (idx + 1) % 4096

-- What is left in the buckets after a scan of each next bucket for each reading of the clock, where
-- `due t p` says that `p` is to be woken at `t`; and what these scans have woken, in order.
abbrev pub left_in : (due : ℕ → ℕ → Bool) (idx : ℕ) → List Readings → (ℕ → List ℕ) → ℕ → List ℕ
left_in due idx [] b = b
left_in due idx (r ∷ rs) b =
    left_in due (next_idx idx) rs
      (change (next_idx idx) (select (due r.scan_now) false (b (next_idx idx))) b)

abbrev pub woken_by : (due : ℕ → ℕ → Bool) (idx : ℕ) → List Readings → (ℕ → List ℕ) → List ℕ
woken_by due idx [] b = []
woken_by due idx (r ∷ rs) b =
    select (due r.scan_now) true (b (next_idx idx))
    ++ woken_by due (next_idx idx) rs
        (change (next_idx idx) (select (due r.scan_now) false (b (next_idx idx))) b)

-- `p` is one of the coroutines.
abbrev pub Has : ℕ → List ℕ → Type 0
Has p [] = ⊥
Has p (x ∷ xs) = (p ≡ x) ⊎ Has p xs

pub Has-append_left : (p : ℕ) (xs ys : List ℕ) → Has p xs → Has p (xs ++ ys)
Has-append_left p [] ys h = absurd h
Has-append_left p (x ∷ xs) ys (inl e) = inl e
Has-append_left p (x ∷ xs) ys (inr h) = inr (Has-append_left p xs ys h)

pub Has-append_right : (p : ℕ) (xs ys : List ℕ) → Has p ys → Has p (xs ++ ys)
Has-append_right p [] ys h = h
Has-append_right p (x ∷ xs) ys h = inr (Has-append_right p xs ys h)

Has-select_taken :
    (c : ℕ → Bool) (p : ℕ) (xs : List ℕ) → c p ≡ true → Has p xs → Has p (select c true xs)
Has-select_taken c p [] e h = absurd h
Has-select_taken c p (x ∷ xs) e (inl same) =
    let here : c x ≡ true = (ap c (sym same)) ∙ e in rw here (inl same)
Has-select_taken c p (x ∷ xs) e (inr h) = elim (Bool-cases (c x)) [
  | inl k ↦ rw k (inr (Has-select_taken c p xs e h))
  | inr k ↦ rw k (Has-select_taken c p xs e h)
]

Has-select_left :
    (c : ℕ → Bool) (p : ℕ) (xs : List ℕ) → c p ≡ false → Has p xs → Has p (select c false xs)
Has-select_left c p [] e h = absurd h
Has-select_left c p (x ∷ xs) e (inl same) =
    let here : c x ≡ false = (ap c (sym same)) ∙ e in rw here (inl same)
Has-select_left c p (x ∷ xs) e (inr h) = elim (Bool-cases (c x)) [
  | inl k ↦ rw k (Has-select_left c p xs e h)
  | inr k ↦ rw k (inr (Has-select_left c p xs e h))
]

-- A scan leaves a coroutine where it is, or wakes it.
pub Has-scan :
    (c : ℕ → Bool) (next : ℕ) (b : ℕ → List ℕ) (p i : ℕ)
    → Has p (b i)
    → Has p (change next (select c false (b next)) b i) ⊎ Has p (select c true (b next))
Has-scan c next b p i here = elim (Bool-cases (next == i)) [
  | inr other ↦ inl (rw other here)
  | inl same ↦
      let there = subst (λ j. Has p (b j)) (sym ((==_iff next i).0 same)) here in
      elim (Bool-cases (c p)) [
        | inl picked ↦ inr (Has-select_taken c p (b next) picked there)
        | inr not_yet ↦ inl (rw same (Has-select_left c p (b next) not_yet there))
      ]
]

-- A coroutine that is due at every scan is woken by the time that its bucket's turn comes.
pub Has-woken_by :
    (due : ℕ → ℕ → Bool) (idx : ℕ) (rs : List Readings) (b : ℕ → List ℕ) (p i : ℕ)
    → idx < 4096
    → i < 4096
    → (i + 4095 - idx) % 4096 < length rs
    → Has p (b i)
    → All (λ r. due r.scan_now p ≡ true) rs
    → Has p (woken_by due idx rs b)
Has-woken_by due idx [] b p i h k near here always = absurd (omega arith)
Has-woken_by due idx (r ∷ rs) b p i h k near here always =
    let next = next_idx idx in
    let taken = select (due r.scan_now) true (b next) in
    let rest = change next (select (due r.scan_now) false (b next)) b in
    elim (Bool-cases (next == i)) [
      | inl now ↦ Has-append_left p taken (woken_by due next rs rest) (
          Has-select_taken (due r.scan_now) p (b next) always.0
            (subst (λ j. Has p (b j)) (sym ((==_iff next i).0 now)) here))
      | inr later ↦ Has-append_right p taken (woken_by due next rs rest) (
          Has-woken_by due next rs rest p i (omega arith) k (ground arith) (rw later here) always.1)
    ]

-- And one that is due at no scan stays in its bucket.
pub Has-left_in :
    (due : ℕ → ℕ → Bool) (idx : ℕ) (rs : List Readings) (b : ℕ → List ℕ) (p i : ℕ)
    → Has p (b i)
    → All (λ r. due r.scan_now p ≡ false) rs
    → Has p (left_in due idx rs b i)
Has-left_in due idx [] b p i here never = here
Has-left_in due idx (r ∷ rs) b p i here never =
    let next = next_idx idx in
    let kept = select (due r.scan_now) false (b next) in
    Has-left_in due next rs (change next kept b) p i
      (elim (Bool-cases (next == i)) [
        | inl now ↦ rw now (
            Has-select_left (due r.scan_now) p (b next) never.0
              (subst (λ j. Has p (b j)) (sym ((==_iff next i).0 now)) here))
        | inr later ↦ rw later here
      ])
      never.1

count-change_above :
    (n idx : ℕ) (xs : List ℕ) (b : ℕ → List ℕ) → n ≤ idx → count n (change idx xs b) ≡ count n b
unfolding count
count-change_above zero idx xs b h = refl
count-change_above (suc n) idx xs b h =
    let other : (idx == n) ≡ false = ground arith in
    rw (other, count-change_above n idx xs b (omega arith)) refl

pub count-change :
    (n idx : ℕ) (xs : List ℕ) (b : ℕ → List ℕ)
    → idx < n
    → count n (change idx xs b) + length (b idx) ≡ count n b + length xs
unfolding count
count-change zero idx xs b h = absurd (omega arith)
count-change (suc n) idx xs b h = elim (Bool-cases (idx == n)) [
  | inl last ↦
      rw ((==_iff idx n).0 last, (==_iff n n).1 refl, count-change_above n n xs b (omega arith))
        (omega arith)
  | inr below ↦ rw below (omega (arith, count-change n idx xs b (ground arith)))
]

pub length-select :
    (c : ℕ → Bool) (xs : List ℕ)
    → length (select c true xs) + length (select c false xs) ≡ length xs
length-select c [] = refl
length-select c (x ∷ xs) = elim (Bool-cases (c x)) [
  | inl h ↦ rw h (omega (arith, length-select c xs))
  | inr h ↦ rw h (omega (arith, length-select c xs))
]

-- Whatever the times, a coroutine is woken or stays in its bucket.
pub Has-turn :
    (due : ℕ → ℕ → Bool) (idx : ℕ) (rs : List Readings) (b : ℕ → List ℕ) (p i : ℕ)
    → Has p (b i)
    → Has p (left_in due idx rs b i) ⊎ Has p (woken_by due idx rs b)
Has-turn due idx [] b p i here = inl here
Has-turn due idx (r ∷ rs) b p i here =
    let next = next_idx idx in
    let c = due r.scan_now in
    let taken = select c true (b next) in
    let rest = change next (select c false (b next)) b in
    let later = woken_by due next rs rest in
    elim (Has-scan c next b p i here) [
      | inl stays ↦ elim (Has-turn due next rs rest p i stays) [
        | inl left ↦ inl left
        | inr woken ↦ inr (Has-append_right p taken later woken)
      ]
      | inr now ↦ inr (Has-append_left p taken later now)
    ]
