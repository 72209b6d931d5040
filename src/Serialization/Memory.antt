-- ===== src/Serialization/Memory.antt =====
-- Bytes in memory: object representations in either byte order, and copies in and out of a buffer.
use new_rpc.Base.{
  ℕ, zero, suc, ◌+◌, ◌*◌, ◌/◌, ◌%◌, List, [], ◌∷◌, reverse, length, Bool, true, false, take, drop,
  ltb, if◌then◌else◌,
}

-- What a call does: it returns, throws, has no defined behaviour, or ends the process by a failed
-- `assert` or `std::abort`.
pub data Exception : Type 0 where
  out_of_range length_error bad_expected_access end_of_file : Exception

pub data Result {ℓ} (A : Type ℓ) : Type ℓ where
  ok : A → Result A
  thrown : Exception → Result A
  undefined : Result A
  aborted : Result A

infixl 5 ◌>>=◌
abbrev pub ◌>>=◌ {ℓ κ} : {A : Type ℓ} {B : Type κ} → Result A → (A → Result B) → Result B
ok a >>= f = f a
thrown e >>= f = thrown e
undefined >>= f = undefined
aborted >>= f = aborted

-- `std::endian::native`.
pub data Endian : Type 0 where
  little big : Endian

-- The bytes of a number, lowest first, and back.
unfoldable pub le_bytes : ℕ → ℕ → List ℕ
le_bytes zero v = []
le_bytes (suc n) v = (v % 256) ∷ le_bytes n (v / 256)

unfoldable pub of_le_bytes : List ℕ → ℕ
of_le_bytes [] = 0
of_le_bytes (b ∷ bs) = b + 256 * of_le_bytes bs

-- The object representation of an n-byte number.
unfoldable pub object_bytes : Endian → ℕ → ℕ → List ℕ
unfolding le_bytes
object_bytes little n v = le_bytes n v
object_bytes big n v = reverse (le_bytes n v)

unfoldable pub of_object_bytes : Endian → List ℕ → ℕ
unfolding of_le_bytes
of_object_bytes little bs = of_le_bytes bs
of_object_bytes big bs = of_le_bytes (reverse bs)

-- `std::byteswap`.
unfoldable pub byteswap : ℕ → ℕ → ℕ
unfolding le_bytes of_le_bytes
byteswap n v = of_le_bytes (reverse (le_bytes n v))

-- The copy that `serialize` makes of a number before `memcpy`, and `deserialize` after it.
unfoldable pub wire_copy : Endian → ℕ → ℕ → ℕ
unfolding byteswap
wire_copy little n v = v
wire_copy big n v = byteswap n v

-- `memcpy(buffer + pos, src, length src)` on a memory that is long enough.
unfoldable pub write_bytes : List ℕ → ℕ → List ℕ → List ℕ
write_bytes [] pos bs = []
write_bytes (x ∷ xs) (suc pos) bs = x ∷ write_bytes xs pos bs
write_bytes (x ∷ xs) zero [] = x ∷ xs
write_bytes (x ∷ xs) zero (b ∷ bs) = b ∷ write_bytes xs zero bs

pub record Cursor : Type 0 where
  pub memory : List ℕ
  pub pos : ℕ

abbrev pub cursor : List ℕ → ℕ → Cursor
cursor m p = record { memory = m; pos = p }

-- The check against `buffer_len`, the copy and the advance of `pos`. A copy past the memory behind
-- the buffer is undefined.
unfoldable pub put_bytes : List ℕ → ℕ → Cursor → Result Cursor
unfolding write_bytes
put_bytes bs buffer_len c =
    if ltb buffer_len (c.pos + length bs)
    then thrown out_of_range
    else if ltb (length c.memory) (c.pos + length bs)
    then undefined
    else ok (cursor (write_bytes c.memory c.pos bs) (c.pos + length bs))

unfoldable pub get_bytes : ℕ → ℕ → Cursor → Result (List ℕ × Cursor)
get_bytes n buffer_len c =
    if ltb buffer_len (c.pos + n)
    then thrown out_of_range
    else if ltb (length c.memory) (c.pos + n)
    then undefined
    else ok (take n (drop c.pos c.memory), cursor c.memory (c.pos + n))

infixl 5 ◌>>◌
abbrev pub ◌>>◌ {ℓ} : {B : Type ℓ} → Result (Unit {0}) → Result B → Result B
m >> k = m >>= λ _. k

-- `assert`.
abbrev pub check : Bool → Result (Unit {0})
check true = ok tt
check false = aborted

-- `new std::byte[n]`; the bytes, which are not initialised, are shown as 0.
unfoldable pub new_bytes : ℕ → List ℕ
new_bytes zero = []
new_bytes (suc n) = 0 ∷ new_bytes n
