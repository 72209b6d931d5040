-- ===== src/Serialization/Output.antt =====
-- What `serialize` writes, against the wire format of `Encoding`.
use native.Mathlib.Nat.{mod-eq_of_lt}
use new_rpc.Base.{
  ℕ, suc, ◌++◌, ◌∙◌, ◌+◌, ◌%◌, ◌^◌, ◌≤◌, ◌<◌, ◌≡◌, refl, sym, ap, List, [], ◌∷◌, arith, length, All,
  length-append, none, some,
}
use new_rpc.Serialization.Memory.{Result, ok, undefined, cursor, put_bytes, Endian, le_bytes}
use new_rpc.Serialization.Types.{
  Ty, Members, pointer, enumeration, fundamental, string, range, reflected, error, expected,
  no_members, member, Val, Vals, value, unexpected,
}
use new_rpc.Serialization.Serialize.{
  serialize, serialize_members, serialize_fundamental, serialize_each, size_bits, size_each,
  get_serialize_size, get_serialize_sizes,
}
use new_rpc.Serialization.Signs.{to_int64_lem}
use new_rpc.Serialization.Encoding.{
  int64_bits, encode, encode_members, encode_each, Fits, FitMembers,
}
use new_rpc.Serialization.Bytes.{object_bytes-wire_copy, length-le_bytes}
use new_rpc.Serialization.Writing.{Writer, Writes, written, put_bytes-Writes, ok-Writes, >>=-Writes}

serialize_fundamental-Writes :
    (e : Endian) (n v : ℕ) → Writes (serialize_fundamental e n v) (le_bytes n v)
unfolding serialize_fundamental
serialize_fundamental-Writes e n v =
    rw (object_bytes-wire_copy e n v) (put_bytes-Writes (le_bytes n v))

serialize_size-Writes :
    (e : Endian) (n : ℕ)
    → n < 2 ^ 63
    → Writes (serialize_fundamental e 8 (size_bits n)) (le_bytes 8 n)
serialize_size-Writes e n h =
    let small : n % 2 ^ 64 ≡ n = omega arith in rw small (serialize_fundamental-Writes e 8 n)

serialize_flag-Writes :
    (e : Endian) (b : ℕ) → b < 256 → Writes (serialize_fundamental e 1 b) (b ∷ [])
serialize_flag-Writes e b h =
    let byte : le_bytes 1 b ≡ b ∷ [] = unfold le_bytes in ap (λ x. x ∷ []) (mod-eq_of_lt h) in
    rw byte at (serialize_fundamental-Writes e 1 b)

serialize_each-Writes {ℓ κ} :
    {A : Type ℓ} {P : A → Type κ} (f : A → Writer) (g : A → List ℕ)
    → ((x : A) → P x → Writes (f x) (g x))
    → (xs : List A) → All P xs
    → Writes (serialize_each f xs) (encode_each g xs)
unfolding serialize_each encode_each
serialize_each-Writes f g step [] h = ok-Writes
serialize_each-Writes f g step (x ∷ xs) h =
    >>=-Writes (f x) (serialize_each f xs) (g x) (encode_each g xs) (step x h.0)
      (serialize_each-Writes f g step xs h.1)

mutual
  unfolding serialize encode

  serialize-Writes :
      (e : Endian) (t : Ty) (v : Val t) → Fits t v → Writes (serialize e t v) (encode t v)
  serialize-Writes e (pointer t) none h = serialize_flag-Writes e 1 (omega arith)
  serialize-Writes e (pointer t) (some x) h =
      >>=-Writes (serialize_fundamental e 1 0) (serialize e t x) (0 ∷ []) (encode t x)
        (serialize_flag-Writes e 0 (omega arith)) (serialize-Writes e t x h)
  serialize-Writes e (enumeration signed w) v h =
      rw (to_int64_lem signed w v h.0 h.1).0
        (serialize_fundamental-Writes e 8 (int64_bits signed w v))
  serialize-Writes e (fundamental n) v h = serialize_fundamental-Writes e n v
  serialize-Writes e string s h =
      >>=-Writes (serialize_fundamental e 8 (size_bits (length s))) (put_bytes s)
        (le_bytes 8 (length s)) s (serialize_size-Writes e (length s) h) (put_bytes-Writes s)
  serialize-Writes e (range t) xs h =
      >>=-Writes (serialize_fundamental e 8 (size_bits (length xs)))
        (serialize_each (serialize e t) xs) (le_bytes 8 (length xs)) (encode_each (encode t) xs)
        (serialize_size-Writes e (length xs) h.0)
        (serialize_each-Writes (serialize e t) (encode t) (serialize-Writes e t) xs h.1)
  serialize-Writes e (reflected ms) vs h = serialize_members-Writes e ms vs h
  serialize-Writes e error v h = serialize_fundamental-Writes e 4 v
  serialize-Writes e (expected t) (value x) h =
      >>=-Writes (serialize_fundamental e 1 1) (serialize e t x) (1 ∷ []) (encode t x)
        (serialize_flag-Writes e 1 (omega arith)) (serialize-Writes e t x h)
  serialize-Writes e (expected t) (unexpected v) h =
      >>=-Writes (serialize_fundamental e 1 0) (serialize_fundamental e 4 v) (0 ∷ []) (le_bytes 4 v)
        (serialize_flag-Writes e 0 (omega arith)) (serialize_fundamental-Writes e 4 v)

  serialize_members-Writes :
      (e : Endian) (ms : Members) (vs : Vals ms)
      → FitMembers ms vs
      → Writes (serialize_members e ms vs) (encode_members ms vs)
  serialize_members-Writes e no_members vs h = ok-Writes
  serialize_members-Writes e (member t ms) (v, vs) h =
      >>=-Writes (serialize e t v) (serialize_members e ms vs) (encode t v) (encode_members ms vs)
        (serialize-Writes e t v h.0) (serialize_members-Writes e ms vs h.1)

-- On a host of either byte order `serialize` writes the encoding of the value at `pos`, moves `pos`
-- behind it and touches no other byte; if the encoding does not fit below `buffer_len` it throws
-- `out_of_range`. The value's numbers fit their widths, `pos` is not past `buffer_len`, and
-- `buffer_len` is not past the memory.
pub serialize-encode :
    (e : Endian) (t : Ty) (v : Val t)
    → Fits t v
    → (m : List ℕ) (p buffer_len : ℕ) → p ≤ buffer_len
    → buffer_len ≤ length m
    → serialize e t v buffer_len (cursor m p) ≡ written m p (encode t v) buffer_len
serialize-encode e t v h = serialize-Writes e t v h

-- No `Expected` in its value alternative, whose size has no defined behaviour.
abbrev mutual
  pub IsSized : (t : Ty) → Val t → Type 0
  IsSized (pointer t) none = Unit {0}
  IsSized (pointer t) (some x) = IsSized t x
  IsSized (range t) xs = All (IsSized t) xs
  IsSized (reflected ms) vs = AreSized ms vs
  IsSized (expected t) (value x) = ⊥
  IsSized (expected t) (unexpected v) = Unit {0}
  IsSized (enumeration signed w) v = Unit {0}
  IsSized (fundamental n) v = Unit {0}
  IsSized string s = Unit {0}
  IsSized error v = Unit {0}

  pub AreSized : (ms : Members) → Vals ms → Type 0
  AreSized no_members vs = Unit {0}
  AreSized (member t ms) (v, vs) = IsSized t v × AreSized ms vs

size_each-encode_each {ℓ κ} :
    {A : Type ℓ} {P : A → Type κ} (f : A → Result ℕ) (g : A → List ℕ)
    → ((x : A) → P x → f x ≡ ok (length (g x)))
    → (xs : List A) → All P xs
    → size_each f xs ≡ ok (length (encode_each g xs))
unfolding size_each encode_each
size_each-encode_each f g step [] h = refl
size_each-encode_each f g step (x ∷ xs) h =
    let sum : length (g x ++ encode_each g xs) ≡ length (g x) + length (encode_each g xs) =
      length-append (g x) (encode_each g xs) in
    rw (step x h.0, size_each-encode_each f g step xs h.1, sum)

mutual
  unfolding get_serialize_size encode

  size_exact :
      (t : Ty) (v : Val t) → IsSized t v → get_serialize_size t v ≡ ok (length (encode t v))
  size_exact (pointer t) none h = refl
  size_exact (pointer t) (some x) h =
      let more : 1 + length (encode t x) ≡ suc (length (encode t x)) = omega arith in
      rw (size_exact t x h) (ap ok more)
  size_exact (enumeration signed w) v h = ap ok (sym (length-le_bytes 8 (int64_bits signed w v)))
  size_exact (fundamental n) v h = ap ok (sym (length-le_bytes n v))
  size_exact string s h =
      let sum : 8 + length s ≡ length (le_bytes 8 (length s) ++ s) =
        omega (arith, length-append (le_bytes 8 (length s)) s, length-le_bytes 8 (length s)) in
      ap ok sum
  size_exact (range t) xs h =
      let items = encode_each (encode t) xs in
      let sum : 8 + length items ≡ length (le_bytes 8 (length xs) ++ items) =
        omega
          (arith, length-append (le_bytes 8 (length xs)) items, length-le_bytes 8 (length xs)) in
      rw (size_each-encode_each (get_serialize_size t) (encode t) (size_exact t) xs h) (ap ok sum)
  size_exact (reflected ms) vs h = sizes_exact ms vs h
  size_exact error v h = ap ok (sym (length-le_bytes 4 v))
  size_exact (expected t) (value x) h = absurd h
  size_exact (expected t) (unexpected v) h =
      let sum : 5 ≡ suc (length (le_bytes 4 v)) = omega (arith, length-le_bytes 4 v) in ap ok sum

  sizes_exact :
      (ms : Members) (vs : Vals ms)
      → AreSized ms vs
      → get_serialize_sizes ms vs ≡ ok (length (encode_members ms vs))
  sizes_exact no_members vs h = refl
  sizes_exact (member t ms) (v, vs) h =
      let sum : length (encode t v ++ encode_members ms vs)
          ≡ length (encode t v) + length (encode_members ms vs) =
        length-append (encode t v) (encode_members ms vs) in
      rw (size_exact t v h.0, sizes_exact ms vs h.1, sum)

-- `get_serialize_size` is the number of bytes that `serialize` writes, if no `Expected` in the value
-- holds a value.
pub get_serialize_size-encode :
    (t : Ty) (v : Val t) → IsSized t v → get_serialize_size t v ≡ ok (length (encode t v))
get_serialize_size-encode t v h = size_exact t v h

pub length-sized :
    (t : Ty) (v : Val t) (n : ℕ)
    → IsSized t v
    → get_serialize_size t v ≡ ok n
    → length (encode t v) ≡ n
length-sized t v n h counted =
    let same : ok (length (encode t v)) ≡ ok n = sym (size_exact t v h) ∙ counted in cc

-- The size of an `Expected` that holds a value has no defined behaviour.
get_serialize_size-value :
    (t : Ty) (v : Val t) → get_serialize_size (expected t) (value v) ≡ undefined
unfolding get_serialize_size
get_serialize_size-value t v = refl
