-- ===== src/Serialization/Deserialize.antt =====
-- `Serializer<T>::deserialize`. It takes the value that `data` holds before the call: a range keeps
-- the elements that it has, and an `Expected` is read into the alternative that it holds.
use new_rpc.Base.{
  Option, ℕ, zero, suc, ◌%◌, ◌^◌, List, [], ◌∷◌, ◌++◌, none, some, ltb, ◌==◌, if◌then◌else◌,
}
use new_rpc.Serialization.Memory.{
  Result, ok, thrown, undefined, length_error, bad_expected_access, ◌>>=◌, Endian, of_object_bytes,
  wire_copy, Cursor, cursor, get_bytes,
}
use new_rpc.Serialization.Types.{
  Ty, Members, pointer, enumeration, fundamental, string, range, reflected, error, expected,
  no_members, member, Val, Vals, Expected, value, unexpected, default_val,
}

unfoldable pub deserialize_fundamental : Endian → ℕ → ℕ → Cursor → Result (ℕ × Cursor)
unfolding of_object_bytes wire_copy get_bytes
deserialize_fundamental e n buffer_len c = do
  (bs, c') ← get_bytes n buffer_len c
  ok (wire_copy e n (of_object_bytes e bs), c')

-- `resize` and `reserve` take a `size_t`; a negative length is above every `max_size`.
unfoldable pub check_length : ℕ → Cursor → Result (ℕ × Cursor)
check_length n c = if ltb n (2 ^ 63) then ok (n, c) else thrown length_error

-- `deserialize_init_container` of a vector: `reserve`, which throws on a negative size.
unfoldable pub deserialize_init_container : ℕ → Cursor → Result (ℕ × Cursor)
unfolding check_length
deserialize_init_container size c = check_length size c

-- `deserialize_insert_element_to_container` of a vector.
unfoldable pub deserialize_insert_element {ℓ} : {A : Type ℓ} → List A → A → List A
deserialize_insert_element xs x = xs ++ (x ∷ [])

-- `for (idx = 0; idx < size; ++idx)`, each element read into a fresh one and pushed back.
unfoldable pub deserialize_each {ℓ} :
    {A : Type ℓ}
    → (ℕ → Cursor → Result (A × Cursor))
    → ℕ
    → List A
    → ℕ
    → Cursor
    → Result (List A × Cursor)
unfolding deserialize_insert_element
deserialize_each f zero out buffer_len c = ok (out, c)
deserialize_each f (suc n) out buffer_len c = f buffer_len c >>= λ (x, c').
    deserialize_each f n (deserialize_insert_element out x) buffer_len c'

-- `Serializer<Error>::deserialize`.
unfoldable pub deserialize_error : Endian → ℕ → Cursor → Result (ℕ × Cursor)
unfolding deserialize_fundamental
deserialize_error e buffer_len c = deserialize_fundamental e 4 buffer_len c

-- The error alternative: assigning to `data.error()` is defined only if `data` holds an error.
unfoldable pub read_error {ℓ} :
    {A : Type ℓ} → Endian → Expected A → ℕ → Cursor → Result (Expected A × Cursor)
unfolding deserialize_error
read_error e (value x) buffer_len c = undefined
read_error e (unexpected v) buffer_len c = do
  (v', c') ← deserialize_error e buffer_len c
  ok (unexpected v', c')

-- The value alternative: `data.value()` throws if `data` holds an error.
unfoldable pub read_value {ℓ} :
    {A : Type ℓ}
    → (A → ℕ → Cursor → Result (A × Cursor))
    → Expected A
    → ℕ
    → Cursor
    → Result (Expected A × Cursor)
read_value f (value x) buffer_len c = do (x', c') ← f x buffer_len c; ok (value x', c')
read_value f (unexpected v) buffer_len c = thrown bad_expected_access

-- A test of a `bool` into which a byte was copied: only 0 and 1 are values of a `bool`.
unfoldable pub test_bool {ℓ} : {A : Type ℓ} → ℕ → (if_set if_not : Result A) → Result A
test_bool b if_set if_not = if b == 0 then if_not else if b == 1 then if_set else undefined

-- `Serializer<Expected<T>>::deserialize`.
unfoldable pub deserialize_expected {ℓ} :
    {A : Type ℓ}
    → Endian
    → (A → ℕ → Cursor → Result (A × Cursor))
    → Expected A
    → ℕ
    → Cursor
    → Result (Expected A × Cursor)
unfolding test_bool deserialize_fundamental read_error read_value
deserialize_expected e f x buffer_len c = do
  (valid, c') ← deserialize_fundamental e 1 buffer_len c
  test_bool valid (read_value f x buffer_len c') (read_error e x buffer_len c')

-- The pointee, read into a new object unless the flag says that there is none.
unfoldable pub read_pointee {ℓ} :
    {A : Type ℓ} → (ℕ → Cursor → Result (A × Cursor)) → ℕ → ℕ → Cursor → Result (Option A × Cursor)
unfolding test_bool
read_pointee f is_null buffer_len c =
    test_bool is_null (ok (none, c)) (f buffer_len c >>= λ (y, c'). ok (some y, c'))

unfoldable mutual
  unfolding deserialize_fundamental check_length deserialize_init_container deserialize_each
      read_pointee deserialize_error deserialize_expected get_bytes default_val

  pub deserialize : (e : Endian) (t : Ty) → Val t → ℕ → Cursor → Result (Val t × Cursor)
  deserialize e (pointer t) x buffer_len c = do
    (is_null, c') ← deserialize_fundamental e 1 buffer_len c
    read_pointee (deserialize e t (default_val t)) is_null buffer_len c'
  deserialize e (enumeration signed w) x buffer_len c = do
    (v, c') ← deserialize_fundamental e 8 buffer_len c
    ok (v % 256 ^ w, c')
  deserialize e (fundamental n) x buffer_len c = deserialize_fundamental e n buffer_len c
  deserialize e string s buffer_len c = do
    (n, c') ← deserialize_fundamental e 8 buffer_len c
    (n', c'') ← check_length n c'
    get_bytes n' buffer_len c''
  deserialize e (range t) xs buffer_len c = do
    (n, c') ← deserialize_fundamental e 8 buffer_len c
    (n', c'') ← deserialize_init_container n c'
    deserialize_each (deserialize e t (default_val t)) n' xs buffer_len c''
  deserialize e (reflected ms) vs buffer_len c = deserialize_members e ms vs buffer_len c
  deserialize e error v buffer_len c = deserialize_error e buffer_len c
  deserialize e (expected t) x buffer_len c =
      deserialize_expected e (deserialize e t) x buffer_len c

  pub deserialize_members :
      (e : Endian) (ms : Members) → Vals ms → ℕ → Cursor → Result (Vals ms × Cursor)
  deserialize_members e no_members vs buffer_len c = ok (tt, c)
  deserialize_members e (member t ms) (v, vs) buffer_len c = do
    (v', c') ← deserialize e t v buffer_len c
    (vs', c'') ← deserialize_members e ms vs buffer_len c'
    ok ((v', vs'), c'')

-- The overload without `pos`, which starts at 0 and drops the position.
unfoldable pub deserialize_from_start :
    (e : Endian) (t : Ty) → Val t → (buffer : List ℕ) (buffer_len : ℕ) → Result (Val t)
deserialize_from_start e t v buffer buffer_len =
    deserialize e t v buffer_len (cursor buffer 0) >>= λ (v', c). ok v'
