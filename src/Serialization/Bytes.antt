-- ===== src/Serialization/Bytes.antt =====
-- Laws of the byte representations in `Memory`.
use native.Mathlib.Nat.{pow-suc}
use mathlib.Core.List.{reverse-cons, reverse-reverse}
use new_rpc.Base.{
  ℕ, zero, suc, ◌+◌, ◌*◌, ◌/◌, ◌%◌, ◌^◌, ◌<◌, ◌≡◌, refl, ap, ◌∙◌, List, [], ◌∷◌, ◌++◌, reverse,
  arith, length, All, length-reverse,
}
use new_rpc.Serialization.Memory.{
  Endian, little, big, le_bytes, of_le_bytes, object_bytes, of_object_bytes, byteswap, wire_copy,
}

abbrev pub IsByte : ℕ → Type 0
IsByte b = b < 256

abbrev pub AreBytes : List ℕ → Type 0
AreBytes = All IsByte

pub length-le_bytes : (n v : ℕ) → length (le_bytes n v) ≡ n
unfolding le_bytes
length-le_bytes zero v = refl
length-le_bytes (suc n) v = ap suc (length-le_bytes n (v / 256))

pub le_bytes-AreBytes : (n v : ℕ) → AreBytes (le_bytes n v)
unfolding le_bytes
le_bytes-AreBytes zero v = tt
le_bytes-AreBytes (suc n) v = (omega arith, le_bytes-AreBytes n (v / 256))

pub of_le_bytes-le_bytes : (n v : ℕ) → v < 256 ^ n → of_le_bytes (le_bytes n v) ≡ v
unfolding le_bytes of_le_bytes
of_le_bytes-le_bytes zero v h = omega arith
of_le_bytes-le_bytes (suc n) v h =
    let small : v / 256 < 256 ^ n = omega (arith, pow-suc 256 n) in
    omega (arith, of_le_bytes-le_bytes n (v / 256) small)

le_bytes-of_le_bytes : (bs : List ℕ) → AreBytes bs → le_bytes (length bs) (of_le_bytes bs) ≡ bs
unfolding le_bytes of_le_bytes
le_bytes-of_le_bytes [] h = refl
le_bytes-of_le_bytes (b ∷ bs) h =
    let low : (b + 256 * of_le_bytes bs) % 256 ≡ b = omega arith in
    let high : (b + 256 * of_le_bytes bs) / 256 ≡ of_le_bytes bs = omega arith in
    rw (low, high, le_bytes-of_le_bytes bs h.1)

pub of_le_bytes-lt : (bs : List ℕ) → AreBytes bs → of_le_bytes bs < 256 ^ length bs
unfolding of_le_bytes
of_le_bytes-lt [] h = omega arith
of_le_bytes-lt (b ∷ bs) h = omega (arith, pow-suc 256 (length bs), of_le_bytes-lt bs h.1)

pub AreBytes-append : (xs ys : List ℕ) → AreBytes xs → AreBytes ys → AreBytes (xs ++ ys)
AreBytes-append [] ys h k = k
AreBytes-append (x ∷ xs) ys h k = (h.0, AreBytes-append xs ys h.1 k)

pub AreBytes-reverse : (xs : List ℕ) → AreBytes xs → AreBytes (reverse xs)
AreBytes-reverse [] h = tt
AreBytes-reverse (x ∷ xs) h =
    rw (reverse-cons x xs)
      (AreBytes-append (reverse xs) (x ∷ []) (AreBytes-reverse xs h.1) (h.0, tt))

reversed_number :
    (n v : ℕ) → le_bytes n (of_le_bytes (reverse (le_bytes n v))) ≡ reverse (le_bytes n v)
reversed_number n v =
    let len : length (reverse (le_bytes n v)) ≡ n = length-reverse _ ∙ length-le_bytes n v in
    let same = le_bytes-of_le_bytes _ (AreBytes-reverse _ (le_bytes-AreBytes n v)) in rw len at same

-- On either kind of host the bytes that go out are those of the number, lowest first.
pub object_bytes-wire_copy :
    (e : Endian) (n v : ℕ) → object_bytes e n (wire_copy e n v) ≡ le_bytes n v
unfolding object_bytes wire_copy byteswap
object_bytes-wire_copy little n v = refl
object_bytes-wire_copy big n v = rw (reversed_number n v) (reverse-reverse _)

-- And on either kind of host they are read back.
pub wire_copy-of_object_bytes :
    (e : Endian) (n v : ℕ) → v < 256 ^ n → wire_copy e n (of_object_bytes e (le_bytes n v)) ≡ v
unfolding of_object_bytes wire_copy byteswap
wire_copy-of_object_bytes little n v h = of_le_bytes-le_bytes n v h
wire_copy-of_object_bytes big n v h =
    rw (reversed_number n v, reverse-reverse (le_bytes n v)) (of_le_bytes-le_bytes n v h)
