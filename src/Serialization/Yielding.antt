-- ===== src/Serialization/Yielding.antt =====
-- What the parts of `deserialize` read from any bytes, if they return.
use mathlib.Core.Path.{subst}
use new_rpc.Base.{
  ℕ, zero, suc, ◌+◌, ◌^◌, ◌≤◌, ◌<◌, ◌≡◌, refl, ◌∙◌, inl, inr, List, [], ◌∷◌, ◌++◌, arith, length,
  Bool-cases, All, take, drop, ltb, ltb→lt, ltb→le, length-append, length-drop, length-reverse,
  reverse,
}
use new_rpc.Serialization.Memory.{
  Result, ok, thrown, undefined, aborted, ◌>>=◌, Cursor, cursor, get_bytes, Endian, little, big,
  of_object_bytes, of_le_bytes, le_bytes, wire_copy, byteswap,
}
use new_rpc.Serialization.Deserialize.{deserialize_fundamental, deserialize_each, check_length}
use new_rpc.Serialization.Bytes.{
  AreBytes, of_le_bytes-lt, length-le_bytes, le_bytes-AreBytes, AreBytes-reverse,
}
use new_rpc.Serialization.Reading.{Reader}

-- What a read that returns has read, and that it leaves the memory as it was.
abbrev pub Gives {ℓ κ} : {A : Type ℓ} → (A → Type κ) → List ℕ → Result (A × Cursor) → Type κ
Gives P m (ok (a, c)) = P a × (c.memory ≡ m)
Gives P m (thrown x) = Unit
Gives P m undefined = Unit
Gives P m aborted = Unit

abbrev pub Yields {ℓ κ} : {A : Type ℓ} → (A → Type κ) → Reader A → Type κ
Yields P r = (m : List ℕ) (p buffer_len : ℕ) → AreBytes m → Gives P m (r buffer_len (cursor m p))

Gives-same {ℓ κ} :
    {A : Type ℓ} (P : A → Type κ) (o : Result (A × Cursor)) (m m' : List ℕ)
    → m' ≡ m
    → Gives P m' o
    → Gives P m o
Gives-same P (ok (a, c)) m m' e g = (g.0, g.1 ∙ e)
Gives-same P (thrown x) m m' e g = tt
Gives-same P undefined m m' e g = tt
Gives-same P aborted m m' e g = tt

then-Gives {ℓ κ μ ν} :
    {A : Type ℓ} {B : Type κ} (P : A → Type μ) (Q : B → Type ν) (o : Result (A × Cursor))
    (s : A → Reader B)
    → ((a : A) → P a → Yields Q (s a))
    → (m : List ℕ) (buffer_len : ℕ) → AreBytes m
    → Gives P m o
    → Gives Q m (o >>= λ (a, c). s a buffer_len c)
then-Gives P Q (ok (a, c)) s h m buffer_len bytes g =
    Gives-same Q (s a buffer_len c) m c.memory g.1
      (h a g.0 c.memory c.pos buffer_len (rw g.1 bytes))
then-Gives P Q (thrown x) s h m buffer_len bytes g = tt
then-Gives P Q undefined s h m buffer_len bytes g = tt
then-Gives P Q aborted s h m buffer_len bytes g = tt

-- Readers compose.
pub >>=-Yields {ℓ κ μ ν} :
    {A : Type ℓ} {B : Type κ} (P : A → Type μ) (Q : B → Type ν) (r : Reader A) (s : A → Reader B)
    → Yields P r
    → ((a : A) → P a → Yields Q (s a))
    → Yields Q (λ buffer_len c. r buffer_len c >>= λ (a, c'). s a buffer_len c')
>>=-Yields P Q r s first second m p buffer_len bytes =
    then-Gives P Q (r buffer_len (cursor m p)) s second m buffer_len bytes
      (first m p buffer_len bytes)

pub ok-Yields {ℓ κ} :
    {A : Type ℓ} (P : A → Type κ) (a : A) → P a → Yields P (λ buffer_len c. ok (a, c))
ok-Yields P a h m p buffer_len bytes = (h, refl)

pub map-Yields {ℓ κ μ ν} :
    {A : Type ℓ} {B : Type κ} (P : A → Type μ) (Q : B → Type ν) (r : Reader A) (f : A → B)
    → Yields P r
    → ((a : A) → P a → Q (f a))
    → Yields Q (λ buffer_len c. r buffer_len c >>= λ (a, c'). ok (f a, c'))
map-Yields P Q r f first good =
    >>=-Yields P Q r (λ a buffer_len c. ok (f a, c)) first (λ a h. ok-Yields Q (f a) (good a h))

pub AreBytes-drop : (n : ℕ) (m : List ℕ) → AreBytes m → AreBytes (drop n m)
AreBytes-drop zero m h = h
AreBytes-drop (suc n) [] h = tt
AreBytes-drop (suc n) (x ∷ m) h = AreBytes-drop n m h.1

pub AreBytes-take : (n : ℕ) (m : List ℕ) → AreBytes m → AreBytes (take n m)
AreBytes-take zero m h = tt
AreBytes-take (suc n) [] h = tt
AreBytes-take (suc n) (x ∷ m) h = (h.0, AreBytes-take n m h.1)

pub length-take_le : (n : ℕ) (m : List ℕ) → n ≤ length m → length (take n m) ≡ n
length-take_le zero m h = refl
length-take_le (suc n) [] h = absurd (omega arith)
length-take_le (suc n) (x ∷ m) h = omega (arith, length-take_le n m (omega arith))

-- `n` bytes.
abbrev pub AreBytesOf : ℕ → List ℕ → Type 0
AreBytesOf n bs = AreBytes bs × (length bs ≡ n)

pub get_bytes-Yields : (n : ℕ) → Yields (AreBytesOf n) (get_bytes n)
unfolding get_bytes
get_bytes-Yields n m p buffer_len bytes = elim (Bool-cases (ltb buffer_len (p + n))) [
  | inl over ↦ rw over tt
  | inr fits ↦ elim (Bool-cases (ltb (length m) (p + n))) [
    | inl past ↦ rw (fits, past) tt
    | inr inside ↦
        rw (fits, inside)
          (
            (
              AreBytes-take n (drop p m) (AreBytes-drop p m bytes),
              length-take_le n (drop p m)
                  (omega (arith, length-drop p m, ltb→le (length m) (p + n) inside)),
            ),
            refl,
          )
  ]
]

number-lt :
    (e : Endian) (n : ℕ) (bs : List ℕ)
    → AreBytesOf n bs
    → wire_copy e n (of_object_bytes e bs) < 256 ^ n
unfolding wire_copy of_object_bytes byteswap
number-lt little n bs h = subst (λ k. of_le_bytes bs < 256 ^ k) h.1 (of_le_bytes-lt bs h.0)
number-lt big n bs h =
    let v = of_le_bytes (reverse bs) in
    subst (λ k. of_le_bytes (reverse (le_bytes n v)) < 256 ^ k)
      (length-reverse (le_bytes n v) ∙ length-le_bytes n v)
      (of_le_bytes-lt (reverse (le_bytes n v))
        (AreBytes-reverse (le_bytes n v) (le_bytes-AreBytes n v)))

pub deserialize_fundamental-Yields :
    (e : Endian) (n : ℕ) → Yields (λ v. v < 256 ^ n) (deserialize_fundamental e n)
unfolding deserialize_fundamental
deserialize_fundamental-Yields e n =
    map-Yields (AreBytesOf n) (λ v. v < 256 ^ n) (get_bytes n)
      (λ bs. wire_copy e n (of_object_bytes e bs)) (get_bytes-Yields n) (number-lt e n)

check_length-Yields : (n : ℕ) → Yields (λ k. k < 2 ^ 63) (λ buffer_len c. check_length n c)
unfolding check_length
check_length-Yields n m p buffer_len bytes = elim (Bool-cases (ltb n (2 ^ 63))) [
  | inl small ↦ rw small (ltb→lt n (2 ^ 63) small, refl)
  | inr big_one ↦ rw big_one tt
]

-- Reading a length, checking it, and going on with it.
pub counted-Yields {ℓ κ} :
    {A : Type ℓ} (Q : A → Type κ) (e : Endian) (s : ℕ → Reader A)
    → ((n : ℕ) → n < 2 ^ 63 → Yields Q (s n))
    → Yields Q (λ buffer_len c. deserialize_fundamental e 8 buffer_len c >>= λ (k, c').
        check_length k c' >>= λ (k', c''). s k' buffer_len c'')
counted-Yields Q e s h =
    >>=-Yields (λ v. v < 256 ^ 8) Q (deserialize_fundamental e 8)
      (λ k buffer_len c. check_length k c >>= λ (k', c'). s k' buffer_len c')
      (deserialize_fundamental-Yields e 8)
      (λ k small.
        >>=-Yields (λ n. n < 2 ^ 63) Q (λ buffer_len c. check_length k c) s (check_length-Yields k)
          h)

All-snoc {ℓ κ} :
    {A : Type ℓ} (P : A → Type κ) (xs : List A) (x : A) → All P xs → P x → All P (xs ++ (x ∷ []))
All-snoc P [] x h k = (k, tt)
All-snoc P (y ∷ xs) x h k = (h.0, All-snoc P xs x h.1 k)

pub Gives-more {ℓ κ μ} :
    {A : Type ℓ} {P : A → Type κ} {Q : A → Type μ} (o : Result (A × Cursor)) (m : List ℕ)
    → ((a : A) → P a → Q a)
    → Gives P m o
    → Gives Q m o
Gives-more (ok (a, c)) m f g = (f a g.0, g.1)
Gives-more (thrown x) m f g = tt
Gives-more undefined m f g = tt
Gives-more aborted m f g = tt

pub deserialize_each-Yields {ℓ κ} :
    {A : Type ℓ} (P : A → Type κ) (r : Reader A)
    → Yields P r
    → (n : ℕ) (out : List A) → All P out
    → Yields (λ xs. (length xs ≡ length out + n) × All P xs) (deserialize_each r n out)
unfolding deserialize_each
deserialize_each-Yields P r h zero out good =
    ok-Yields (λ xs. (length xs ≡ length out + 0) × All P xs) out (omega arith, good)
deserialize_each-Yields P r h (suc n) out good =
    >>=-Yields P (λ xs. (length xs ≡ length out + suc n) × All P xs) r
      (λ x. deserialize_each r n (out ++ (x ∷ []))) h
      (λ x px m p buffer_len bytes.
        Gives-more (deserialize_each r n (out ++ (x ∷ [])) buffer_len (cursor m p)) m
          (λ xs g. (omega (arith, g.0, length-append out (x ∷ [])), g.1))
          (deserialize_each-Yields P r h n (out ++ (x ∷ [])) (All-snoc P out x good px) m p
            buffer_len bytes))
