-- ===== src/Serialization/Serialize.antt =====
-- `Serializer<T>::serialize` and `get_serialize_size`, one branch for each branch of the source.
use new_rpc.Base.{
  ℕ, ◌*◌, ◌-◌, leb, Bool, ◌&&◌, ◌+◌, ◌%◌, ◌^◌, List, [], ◌∷◌, none, some, length, false,
  if◌then◌else◌,
}
use new_rpc.Serialization.Memory.{
  Result, ok, thrown, undefined, bad_expected_access, ◌>>=◌, Endian, object_bytes, wire_copy,
  Cursor, cursor, put_bytes,
}
use new_rpc.Serialization.Types.{
  Ty, Expected, Members, pointer, enumeration, fundamental, string, range, reflected, error,
  expected, no_members, member, Val, Vals, value, unexpected,
}

-- The branch for fundamental types: the number goes out in the order of its memory, after a
-- `byteswap` where the host is big-endian.
unfoldable pub serialize_fundamental : Endian → ℕ → ℕ → ℕ → Cursor → Result Cursor
unfolding object_bytes wire_copy put_bytes
serialize_fundamental e n v = put_bytes (object_bytes e n (wire_copy e n v))

-- The range loop.
unfoldable pub serialize_each {ℓ} :
    {A : Type ℓ} → (A → ℕ → Cursor → Result Cursor) → List A → ℕ → Cursor → Result Cursor
serialize_each f [] buffer_len c = ok c
serialize_each f (x ∷ xs) buffer_len c = f x buffer_len c >>= serialize_each f xs buffer_len

abbrev pub size_bits : ℕ → ℕ
size_bits n = n % 2 ^ 64

-- `Serializer<Error>::serialize`.
unfoldable pub serialize_error : Endian → ℕ → ℕ → Cursor → Result Cursor
unfolding serialize_fundamental
serialize_error e v = serialize_fundamental e 4 v

-- `Serializer<Expected<T>>::serialize`: a flag, and what the `Expected` holds.
unfoldable pub serialize_expected {ℓ} :
    {A : Type ℓ}
    → Endian
    → (A → ℕ → Cursor → Result Cursor)
    → Expected A
    → ℕ
    → Cursor
    → Result Cursor
unfolding serialize_fundamental serialize_error
serialize_expected e f (value x) buffer_len c =
    serialize_fundamental e 1 1 buffer_len c >>= f x buffer_len
serialize_expected e f (unexpected v) buffer_len c =
    serialize_fundamental e 1 0 buffer_len c >>= serialize_error e v buffer_len

-- `static_cast<int64_t>` of an enumerator of `w` bytes: if its type has a sign, the bits above are copies
-- of the highest.
unfoldable pub to_int64 : (signed : Bool) (w v : ℕ) → ℕ
to_int64 signed w v = if signed && leb (256 ^ w) (2 * v) then v + (256 ^ 8 - 256 ^ w) else v

unfoldable mutual
  unfolding to_int64 serialize_fundamental serialize_each put_bytes serialize_error
      serialize_expected

  pub serialize : (e : Endian) (t : Ty) → Val t → ℕ → Cursor → Result Cursor
  serialize e (pointer t) none buffer_len c = serialize_fundamental e 1 1 buffer_len c
  serialize e (pointer t) (some x) buffer_len c =
      serialize_fundamental e 1 0 buffer_len c >>= serialize e t x buffer_len
  serialize e (enumeration signed w) v buffer_len c =
      serialize_fundamental e 8 (to_int64 signed w v) buffer_len c
  serialize e (fundamental n) v buffer_len c = serialize_fundamental e n v buffer_len c
  serialize e string s buffer_len c =
      serialize_fundamental e 8 (size_bits (length s)) buffer_len c >>= put_bytes s buffer_len
  serialize e (range t) xs buffer_len c =
      serialize_fundamental e 8 (size_bits (length xs)) buffer_len c
      >>= serialize_each (serialize e t) xs buffer_len
  serialize e (reflected ms) vs buffer_len c = serialize_members e ms vs buffer_len c
  serialize e error v buffer_len c = serialize_error e v buffer_len c
  serialize e (expected t) x buffer_len c = serialize_expected e (serialize e t) x buffer_len c

  pub serialize_members : (e : Endian) (ms : Members) → Vals ms → ℕ → Cursor → Result Cursor
  serialize_members e no_members vs buffer_len c = ok c
  serialize_members e (member t ms) (v, vs) buffer_len c =
      serialize e t v buffer_len c >>= serialize_members e ms vs buffer_len

unfoldable pub size_each {ℓ} : {A : Type ℓ} → (A → Result ℕ) → List A → Result ℕ
size_each f [] = ok 0
size_each f (x ∷ xs) = do a ← f x; b ← size_each f xs; ok (a + b)

-- `Serializer<Error>::get_serialize_size`.
unfoldable pub error_size : ℕ
error_size = 4

-- `get_serialize_size(data.value())`: `value()` of an error throws;
unfoldable pub size_of_value {ℓ} : {A : Type ℓ} → (A → Result ℕ) → Expected A → Result ℕ
size_of_value f (value x) = f x
size_of_value f (unexpected v) = thrown bad_expected_access

-- and `get_serialize_size(data.error())`: `error()` of a value is undefined.
unfoldable pub size_of_error {ℓ} : {A : Type ℓ} → Expected A → Result ℕ
unfolding error_size
size_of_error (value x) = undefined
size_of_error (unexpected v) = ok error_size

-- `Serializer<Expected<T>>::get_serialize_size`: the source tests a local flag that is always false,
-- so it asks for the size of the error whatever `data` holds.
unfoldable pub expected_size {ℓ} : {A : Type ℓ} → (A → Result ℕ) → Expected A → Result ℕ
unfolding size_of_value size_of_error
expected_size f x = (if false then size_of_value f x else size_of_error x) >>= λ n. ok (1 + n)

unfoldable mutual
  unfolding size_each error_size expected_size

  pub get_serialize_size : (t : Ty) → Val t → Result ℕ
  get_serialize_size (pointer t) none = ok 1
  get_serialize_size (pointer t) (some x) = get_serialize_size t x >>= λ n. ok (1 + n)
  get_serialize_size (enumeration signed w) v = ok 8
  get_serialize_size (fundamental n) v = ok n
  get_serialize_size string s = ok (8 + length s)
  get_serialize_size (range t) xs = size_each (get_serialize_size t) xs >>= λ n. ok (8 + n)
  get_serialize_size (reflected ms) vs = get_serialize_sizes ms vs
  get_serialize_size error v = ok error_size
  get_serialize_size (expected t) x = expected_size (get_serialize_size t) x

  pub get_serialize_sizes : (ms : Members) → Vals ms → Result ℕ
  get_serialize_sizes no_members vs = ok 0
  get_serialize_sizes (member t ms) (v, vs) = do
    a ← get_serialize_size t v
    b ← get_serialize_sizes ms vs
    ok (a + b)

-- The overload without `pos`, which starts at 0 and drops the position.
unfoldable pub serialize_from_start :
    (e : Endian) (t : Ty) → Val t → (buffer : List ℕ) (buffer_len : ℕ) → Result (List ℕ)
serialize_from_start e t v buffer buffer_len =
    serialize e t v buffer_len (cursor buffer 0) >>= λ c. ok c.memory
