-- ===== src/Serialization/Encoding.antt =====
-- The wire format, stated with no buffer and no host byte order: what `serialize` is to write.
use new_rpc.Base.{
  ℕ, ◌-◌, ◌*◌, ltb, Bool, true, false, if◌then◌else◌, ◌<◌, ◌^◌, List, [], ◌∷◌, ◌++◌, none, some,
  length, All,
}
use new_rpc.Serialization.Memory.{le_bytes}
use new_rpc.Serialization.Types.{
  Ty, Members, pointer, enumeration, fundamental, string, range, reflected, error, expected,
  no_members, member, Val, Vals, value, unexpected,
}

unfoldable pub encode_each {ℓ} : {A : Type ℓ} → (A → List ℕ) → List A → List ℕ
encode_each f [] = []
encode_each f (x ∷ xs) = f x ++ encode_each f xs

-- The bits as an int64_t of the number whose bits are `v` in `w` bytes: in two's complement, with a sign
-- or without.
unfoldable pub int64_bits : (signed : Bool) (w v : ℕ) → ℕ
int64_bits true w v = if ltb (2 * v) (256 ^ w) then v else 256 ^ 8 - (256 ^ w - v)
int64_bits false w v = v

unfoldable mutual
  unfolding encode_each le_bytes int64_bits

  pub encode : (t : Ty) → Val t → List ℕ
  encode (pointer t) none = 1 ∷ []
  encode (pointer t) (some x) = 0 ∷ encode t x
  encode (enumeration signed w) v = le_bytes 8 (int64_bits signed w v)
  encode (fundamental n) v = le_bytes n v
  encode string s = le_bytes 8 (length s) ++ s
  encode (range t) xs = le_bytes 8 (length xs) ++ encode_each (encode t) xs
  encode (reflected ms) vs = encode_members ms vs
  encode error v = le_bytes 4 v
  encode (expected t) (value x) = 1 ∷ encode t x
  encode (expected t) (unexpected v) = 0 ∷ le_bytes 4 v

  pub encode_members : (ms : Members) → Vals ms → List ℕ
  encode_members no_members vs = []
  encode_members (member t ms) (v, vs) = encode t v ++ encode_members ms vs

-- Every number fits its width, every length its 64-bit counter.
abbrev mutual
  pub Fits : (t : Ty) → Val t → Type 0
  Fits (pointer t) none = Unit {0}
  Fits (pointer t) (some x) = Fits t x
  Fits (enumeration signed w) v = (v < 256 ^ w) × (v < 256 ^ 8)
  Fits (fundamental n) v = v < 256 ^ n
  Fits string s = length s < 2 ^ 63
  Fits (range t) xs = (length xs < 2 ^ 63) × All (Fits t) xs
  Fits (reflected ms) vs = FitMembers ms vs
  Fits error v = v < 256 ^ 4
  Fits (expected t) (value x) = Fits t x
  Fits (expected t) (unexpected v) = v < 256 ^ 4

  pub FitMembers : (ms : Members) → Vals ms → Type 0
  FitMembers no_members vs = Unit {0}
  FitMembers (member t ms) (v, vs) = Fits t v × FitMembers ms vs
