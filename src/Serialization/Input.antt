-- ===== src/Serialization/Input.antt =====
-- What `deserialize` makes of an encoded value.
use native.Mathlib.Nat.{mod-eq_of_lt}
use new_rpc.Base.{
  ℕ, ◌+◌, ◌%◌, ◌^◌, ◌≤◌, ◌<◌, ◌≡◌, refl, ap, List, [], ◌∷◌, ◌++◌, append-nil, append_assoc, arith,
  length, drop, All, none, some, lt→ltb,
}
use new_rpc.Serialization.Memory.{
  ok, ◌>>=◌, cursor, get_bytes, Endian, le_bytes, of_object_bytes, wire_copy,
}
use new_rpc.Serialization.Types.{
  Ty, Members, pointer, enumeration, fundamental, string, range, reflected, error, expected,
  no_members, member, Val, Vals, value, unexpected, default_val, default_vals,
}
use new_rpc.Serialization.Deserialize.{
  deserialize, deserialize_members, deserialize_fundamental, deserialize_each, check_length,
  read_error, read_pointee, read_value, test_bool,
}
use new_rpc.Serialization.Signs.{to_int64_lem}
use new_rpc.Serialization.Encoding.{
  int64_bits, encode, encode_members, encode_each, Fits, FitMembers,
}
use new_rpc.Serialization.Bytes.{wire_copy-of_object_bytes, length-le_bytes}
use new_rpc.Serialization.Reading.{Reader, Reads, get_bytes-Reads, ok-Reads, >>=-Reads, map-Reads}

-- No `Expected` in its error alternative.
abbrev mutual
  pub IsReadable : (t : Ty) → Val t → Type 0
  IsReadable (pointer t) none = Unit {0}
  IsReadable (pointer t) (some x) = IsReadable t x
  IsReadable (range t) xs = All (IsReadable t) xs
  IsReadable (reflected ms) vs = AreReadable ms vs
  IsReadable (expected t) (value x) = IsReadable t x
  IsReadable (expected t) (unexpected v) = ⊥
  IsReadable (enumeration signed w) v = Unit {0}
  IsReadable (fundamental n) v = Unit {0}
  IsReadable string s = Unit {0}
  IsReadable error v = Unit {0}

  pub AreReadable : (ms : Members) → Vals ms → Type 0
  AreReadable no_members vs = Unit {0}
  AreReadable (member t ms) (v, vs) = IsReadable t v × AreReadable ms vs

deserialize_fundamental-Reads :
    (e : Endian) (n v : ℕ) → v < 256 ^ n → Reads (deserialize_fundamental e n) (le_bytes n v) v
unfolding deserialize_fundamental
deserialize_fundamental-Reads e n v h = rw (wire_copy-of_object_bytes e n v h) at (
    map-Reads (get_bytes n) (λ bs. wire_copy e n (of_object_bytes e bs)) (le_bytes n v)
      (le_bytes n v) (get_bytes-Reads n (le_bytes n v) (length-le_bytes n v)))

pub flag-Reads : (e : Endian) (b : ℕ) → b < 256 → Reads (deserialize_fundamental e 1) (b ∷ []) b
flag-Reads e b h =
    let byte : le_bytes 1 b ≡ b ∷ [] = unfold le_bytes in ap (λ x. x ∷ []) (mod-eq_of_lt h) in
    rw byte at (deserialize_fundamental-Reads e 1 b (omega arith))

-- Reading a length, checking it, and going on with it.
counted-Reads {ℓ} :
    {A : Type ℓ} (e : Endian) (s : ℕ → Reader A) (n : ℕ) (cs : List ℕ) (y : A)
    → n < 2 ^ 63
    → Reads (s n) cs y
    → Reads
        (λ buffer_len c. deserialize_fundamental e 8 buffer_len c >>= λ (k, c').
          check_length k c' >>= λ (k', c''). s k' buffer_len c'')
        (le_bytes 8 n ++ cs)
        y
unfolding check_length
counted-Reads e s n cs y h rest =
    >>=-Reads (deserialize_fundamental e 8)
      (λ k buffer_len c. check_length k c >>= λ (k', c'). s k' buffer_len c') (le_bytes 8 n) cs n y
      (deserialize_fundamental-Reads e 8 n (omega arith)) (rw (lt→ltb n (2 ^ 63) h) rest)

deserialize_each-Reads {ℓ κ} :
    {A : Type ℓ} {P : A → Type κ} (r : Reader A) (g : A → List ℕ)
    → ((x : A) → P x → Reads r (g x) x)
    → (xs out : List A) → All P xs
    → Reads (deserialize_each r (length xs) out) (encode_each g xs) (out ++ xs)
unfolding deserialize_each encode_each
deserialize_each-Reads r g step [] out h = rw (append-nil out) (ok-Reads out)
deserialize_each-Reads r g step (x ∷ xs) out h =
    let more = deserialize_each-Reads r g step xs (out ++ (x ∷ [])) h.1 in
    >>=-Reads r (λ y. deserialize_each r (length xs) (out ++ (y ∷ []))) (g x) (encode_each g xs) x
      (out ++ (x ∷ xs)) (step x h.0) (rw (append_assoc out (x ∷ []) xs) at more)

All-zip {ℓ κ κ'} :
    {A : Type ℓ} (P : A → Type κ) (Q : A → Type κ') (xs : List A)
    → All P xs
    → All Q xs
    → All (λ x. P x × Q x) xs
All-zip P Q [] h k = tt
All-zip P Q (x ∷ xs) h k = ((h.0, k.0), All-zip P Q xs h.1 k.1)

mutual
  unfolding deserialize encode default_val read_value read_pointee test_bool

  deserialize-Reads :
      (e : Endian) (t : Ty) (v : Val t)
      → Fits t v
      → IsReadable t v
      → Reads (deserialize e t (default_val t)) (encode t v) v
  deserialize-Reads e (pointer t) none h r =
      >>=-Reads (deserialize_fundamental e 1) (read_pointee (deserialize e t (default_val t)))
        (1 ∷ []) [] 1 none (flag-Reads e 1 (omega arith)) (ok-Reads none)
  deserialize-Reads e (pointer t) (some x) h r =
      >>=-Reads (deserialize_fundamental e 1) (read_pointee (deserialize e t (default_val t)))
        (0 ∷ []) (encode t x) 0 (some x) (flag-Reads e 0 (omega arith))
        (map-Reads (deserialize e t (default_val t)) some (encode t x) x
          (deserialize-Reads e t x h r))
  deserialize-Reads e (enumeration signed w) v h r =
      let (cast, small, narrow) = to_int64_lem signed w v h.0 h.1 in
      rw narrow at (
        map-Reads (deserialize_fundamental e 8) (λ n. n % 256 ^ w)
          (le_bytes 8 (int64_bits signed w v)) (int64_bits signed w v)
          (deserialize_fundamental-Reads e 8 (int64_bits signed w v) small))
  deserialize-Reads e (fundamental n) v h r = deserialize_fundamental-Reads e n v h
  deserialize-Reads e string s h r =
      counted-Reads e get_bytes (length s) s s h (get_bytes-Reads (length s) s refl)
  deserialize-Reads e (range t) xs h r =
      counted-Reads e (λ n. deserialize_each (deserialize e t (default_val t)) n []) (length xs)
        (encode_each (encode t) xs) xs h.0
        (deserialize_each-Reads (deserialize e t (default_val t)) (encode t)
          (λ x (q : Fits t x × IsReadable t x). deserialize-Reads e t x q.0 q.1) xs []
          (All-zip (Fits t) (IsReadable t) xs h.1 r))
  deserialize-Reads e (reflected ms) vs h r = deserialize_members-Reads e ms vs h r
  deserialize-Reads e error v h r = deserialize_fundamental-Reads e 4 v h
  deserialize-Reads e (expected t) (value x) h r =
      >>=-Reads (deserialize_fundamental e 1)
        (λ b buffer_len c.
          test_bool b (read_value (deserialize e t) (value (default_val t)) buffer_len c)
            (read_error e (value (default_val t)) buffer_len c))
        (1 ∷ []) (encode t x) 1 (value x) (flag-Reads e 1 (omega arith))
        (map-Reads (deserialize e t (default_val t)) value (encode t x) x
          (deserialize-Reads e t x h r))
  deserialize-Reads e (expected t) (unexpected v) h r = absurd r

  deserialize_members-Reads :
      (e : Endian) (ms : Members) (vs : Vals ms)
      → FitMembers ms vs
      → AreReadable ms vs
      → Reads (deserialize_members e ms (default_vals ms)) (encode_members ms vs) vs
  deserialize_members-Reads e no_members vs h r = ok-Reads tt
  deserialize_members-Reads e (member t ms) (v, vs) h r =
      >>=-Reads (deserialize e t (default_val t))
        (λ v' buffer_len c. deserialize_members e ms (default_vals ms) buffer_len c >>= λ (vs', c').
          ok ((v', vs'), c'))
        (encode t v) (encode_members ms vs) v (v, vs) (deserialize-Reads e t v h.0 r.0)
        (map-Reads (deserialize_members e ms (default_vals ms)) (λ vs'. (v, vs'))
          (encode_members ms vs) vs (deserialize_members-Reads e ms vs h.1 r.1))

-- Where the encoding of a value stands at `pos`, `deserialize` into a fresh object gives that value
-- and stops behind it, whatever the host's byte order and whatever bytes follow. The numbers fit
-- their widths and no `Expected` in the value holds an error.
pub deserialize-encode :
    (e : Endian) (t : Ty) (v : Val t)
    → Fits t v
    → IsReadable t v
    → (m : List ℕ) (p buffer_len : ℕ) (rest : List ℕ) → drop p m ≡ encode t v ++ rest
    → p + length (encode t v) ≤ buffer_len
    → buffer_len ≤ length m
    → deserialize e t (default_val t) buffer_len (cursor m p)
      ≡ ok (v, cursor m (p + length (encode t v)))
deserialize-encode e t v h r = deserialize-Reads e t v h r
