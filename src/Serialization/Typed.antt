-- ===== src/Serialization/Typed.antt =====
-- What `deserialize` reads is a value of its type: numbers within their widths, lengths that fit.
use mathlib.Core.Path.{subst}
use native.Mathlib.Nat.{mod-lt, mod-le, pow-suc, lt_of_le_of_lt}
use new_rpc.Base.{
  ℕ, Bool, zero, suc, ◌+◌, ◌%◌, ◌^◌, ◌<◌, ◌≤◌, ◌≡◌, refl, inl, inr, List, [], ◌∷◌, arith, length,
  ◌==◌, some, Bool-cases, All,
}
use new_rpc.Serialization.Memory.{ok, ◌>>=◌, Cursor, cursor, get_bytes, Endian, write_bytes}
use new_rpc.Serialization.Types.{
  Ty, Members, pointer, enumeration, fundamental, string, range, reflected, error, expected,
  no_members, member, Val, Vals, value, default_val, default_vals,
}
use new_rpc.Serialization.Serialize.{serialize}
use new_rpc.Serialization.Deserialize.{
  deserialize, deserialize_members, deserialize_fundamental, deserialize_each, deserialize_expected,
  read_pointee, read_value, read_error, test_bool,
}
use new_rpc.Serialization.Encoding.{encode, Fits, FitMembers}
use new_rpc.Serialization.Bytes.{AreBytes}
use new_rpc.Serialization.Reading.{Reader}
use new_rpc.Serialization.Input.{IsReadable, AreReadable}
use new_rpc.Serialization.RoundTrip.{deserialize-serialize}
use new_rpc.Serialization.Yielding.{
  Gives, Yields, >>=-Yields, ok-Yields, map-Yields, get_bytes-Yields, Gives-more,
  deserialize_fundamental-Yields, counted-Yields, deserialize_each-Yields,
}

-- A value of its type, with no `Expected` in it that holds an error.
abbrev pub IsTyped : (t : Ty) → Val t → Type 0
IsTyped t v = Fits t v × IsReadable t v

abbrev pub AreTyped : (ms : Members) → Vals ms → Type 0
AreTyped ms vs = FitMembers ms vs × AreReadable ms vs

split_all :
    (t : Ty) (xs : List (Val t)) → All (IsTyped t) xs → All (Fits t) xs × All (IsReadable t) xs
split_all t [] h = (tt, tt)
split_all t (x ∷ xs) h = ((h.0.0, (split_all t xs h.1).0), (h.0.1, (split_all t xs h.1).1))

pow-pos : (w : ℕ) → 0 < 256 ^ w
pow-pos zero = omega arith
pow-pos (suc w) = omega (arith, pow-suc 256 w, pow-pos w)

enumeration_fits :
    (signed : Bool) (w v : ℕ) → v < 256 ^ 8 → IsTyped (enumeration signed w) (v % 256 ^ w)
enumeration_fits signed w v h = ((mod-lt v (pow-pos w), lt_of_le_of_lt (mod-le v (256 ^ w)) h), tt)

read_pointee-Yields :
    (t : Ty) (r : Reader (Val t))
    → Yields (IsTyped t) r
    → (b : ℕ) → Yields (IsTyped (pointer t)) (read_pointee r b)
unfolding read_pointee test_bool
read_pointee-Yields t r h b m p buffer_len bytes = elim (Bool-cases (b == 0)) [
  | inl there ↦
      rw there
        (map-Yields (IsTyped t) (IsTyped (pointer t)) r some h (λ x k. k) m p buffer_len bytes)
  | inr null ↦ elim (Bool-cases (b == 1)) [
    | inl one ↦ rw (null, one) ((tt, tt), refl)
    | inr neither ↦ rw (null, neither) tt
  ]
]

-- A fresh `Expected` holds a value, so its error alternative is never read.
deserialize_expected-Yields :
    (e : Endian) (t : Ty) (f : Val t → Reader (Val t))
    → Yields (IsTyped t) (f (default_val t))
    → Yields (IsTyped (expected t)) (deserialize_expected e f (value (default_val t)))
unfolding deserialize_expected read_value read_error test_bool
deserialize_expected-Yields e t f h =
    >>=-Yields (λ v. v < 256 ^ 1) (IsTyped (expected t)) (deserialize_fundamental e 1)
      (λ valid buffer_len c.
        test_bool valid (read_value f (value (default_val t)) buffer_len c)
          (read_error e (value (default_val t)) buffer_len c))
      (deserialize_fundamental-Yields e 1)
      (λ valid small m p buffer_len bytes. elim (Bool-cases (valid == 0)) [
        | inl none_there ↦ rw none_there tt
        | inr there ↦ elim (Bool-cases (valid == 1)) [
          | inl one ↦
              rw (there, one)
                (map-Yields (IsTyped t) (IsTyped (expected t)) (f (default_val t)) value h
                  (λ x k. k) m p buffer_len bytes)
          | inr neither ↦ rw (there, neither) tt
        ]
      ])

mutual
  unfolding deserialize default_val

  deserialize-Yields : (e : Endian) (t : Ty) → Yields (IsTyped t) (deserialize e t (default_val t))
  deserialize-Yields e (pointer t) =
      >>=-Yields (λ v. v < 256 ^ 1) (IsTyped (pointer t)) (deserialize_fundamental e 1)
        (read_pointee (deserialize e t (default_val t))) (deserialize_fundamental-Yields e 1)
        (λ b small.
          read_pointee-Yields t (deserialize e t (default_val t)) (deserialize-Yields e t) b)
  deserialize-Yields e (enumeration signed w) =
      map-Yields (λ v. v < 256 ^ 8) (IsTyped (enumeration signed w)) (deserialize_fundamental e 8)
        (λ n. n % 256 ^ w) (deserialize_fundamental-Yields e 8) (enumeration_fits signed w)
  deserialize-Yields e (fundamental n) = λ m p buffer_len bytes.
      Gives-more (deserialize_fundamental e n buffer_len (cursor m p)) m (λ v h. (h, tt))
        (deserialize_fundamental-Yields e n m p buffer_len bytes)
  deserialize-Yields e string =
      counted-Yields (IsTyped string) e get_bytes (λ n small m p buffer_len bytes.
        Gives-more (get_bytes n buffer_len (cursor m p)) m (λ s h. (omega (arith, h.1), tt))
          (get_bytes-Yields n m p buffer_len bytes))
  deserialize-Yields e (range t) =
      counted-Yields (IsTyped (range t)) e
        (λ n. deserialize_each (deserialize e t (default_val t)) n [])
        (λ n small m p buffer_len bytes.
          Gives-more
            (deserialize_each (deserialize e t (default_val t)) n [] buffer_len (cursor m p)) m
            (λ xs h.
              let (fit, readable) = split_all t xs h.1 in ((omega (arith, h.0), fit), readable))
            (deserialize_each-Yields (IsTyped t) (deserialize e t (default_val t))
              (deserialize-Yields e t) n [] tt m p buffer_len bytes))
  deserialize-Yields e (reflected ms) = deserialize_members-Yields e ms
  deserialize-Yields e error = λ m p buffer_len bytes.
      Gives-more (deserialize_fundamental e 4 buffer_len (cursor m p)) m (λ v h. (h, tt))
        (deserialize_fundamental-Yields e 4 m p buffer_len bytes)
  deserialize-Yields e (expected t) =
      deserialize_expected-Yields e t (deserialize e t) (deserialize-Yields e t)

  pub deserialize_members-Yields :
      (e : Endian) (ms : Members)
      → Yields (AreTyped ms) (deserialize_members e ms (default_vals ms))
  deserialize_members-Yields e no_members = ok-Yields (AreTyped no_members) tt (tt, tt)
  deserialize_members-Yields e (member t ms) =
      >>=-Yields (IsTyped t) (AreTyped (member t ms)) (deserialize e t (default_val t))
        (λ v buffer_len c.
          deserialize_members e ms (default_vals ms) buffer_len c >>= λ (vs, c'). ok ((v, vs), c'))
        (deserialize-Yields e t)
        (λ v good.
          map-Yields (AreTyped ms) (AreTyped (member t ms))
            (deserialize_members e ms (default_vals ms)) (λ vs. (v, vs))
            (deserialize_members-Yields e ms) (λ vs h. ((good.0, h.0), (good.1, h.1))))

-- Whatever the bytes are, if `deserialize` returns a value (a flag is 0 or 1, and the bytes are
-- enough), a value that it reads into a fresh object is one of its type: its
-- numbers are within their widths, its lengths below 2 ^ 63, no `Expected` in it holds an error, and
-- the buffer is left as it was. So it can be written again: in any place with room for its encoding,
-- `serialize` neither throws nor is undefined, and what it wrote is read back, on a host of either byte
-- order, as the same value.
pub deserialize-Fits :
    (e e' : Endian) (t : Ty) (m : List ℕ) (p buffer_len : ℕ) (m' : List ℕ) (p' buffer_len' : ℕ)
    {v : Val t} {c : Cursor}
    → AreBytes m
    → deserialize e t (default_val t) buffer_len (cursor m p) ≡ ok (v, c)
    → p' + length (encode t v) ≤ buffer_len'
    → buffer_len' ≤ length m'
    → Fits t v
      × IsReadable t v
      × (c.memory ≡ m)
      × ((serialize e t v buffer_len' (cursor m' p') >>= λ d.
            deserialize e' t (default_val t) buffer_len' (cursor d.memory p'))
          ≡ ok (v, cursor (write_bytes m' p' (encode t v)) (p' + length (encode t v))))
deserialize-Fits e e' t m p buffer_len m' p' buffer_len' {v} {c} bytes read room inside =
    let (typed, same) : IsTyped t v × (c.memory ≡ m) =
      subst (Gives (IsTyped t) m) read (deserialize-Yields e t m p buffer_len bytes) in
    (
      typed.0,
      typed.1,
      same,
      deserialize-serialize e e' t v typed.0 typed.1 m' p' buffer_len' room inside,
    )
