-- ===== src/Serialization/RoundTrip.antt =====
-- `serialize` followed by `deserialize`, and the alternative of `Expected` that does not survive it.
use new_rpc.Base.{ℕ, ◌+◌, ◌≤◌, ◌≡◌, List, ◌++◌, arith, length, drop, le→ltb}
use new_rpc.Serialization.Memory.{ok, undefined, ◌>>=◌, cursor, Endian, le_bytes, write_bytes}
use new_rpc.Serialization.Types.{Ty, expected, Val, unexpected, default_val}
use new_rpc.Serialization.Serialize.{serialize, get_serialize_size}
use new_rpc.Serialization.Deserialize.{deserialize, read_error, test_bool}
use new_rpc.Serialization.Encoding.{encode, Fits}
use new_rpc.Serialization.Writing.{drop-write_bytes, length-write_bytes, write_bytes-whole}
use new_rpc.Serialization.Output.{serialize-encode, length-sized, IsSized}
use new_rpc.Serialization.Input.{deserialize-encode, flag-Reads, IsReadable}

-- The bytes are written where there is room for them.
pub serialize-room :
    (e : Endian) (t : Ty) (v : Val t)
    → Fits t v
    → (m : List ℕ) (p buffer_len : ℕ) → p + length (encode t v) ≤ buffer_len
    → buffer_len ≤ length m
    → serialize e t v buffer_len (cursor m p)
      ≡ ok (cursor (write_bytes m p (encode t v)) (p + length (encode t v)))
serialize-room e t v h m p buffer_len room fits = rw (
  serialize-encode e t v h m p buffer_len (omega arith) fits,
  le→ltb buffer_len (p + length (encode t v)) room,
)

-- A value that was serialized on one host is deserialized from the same position on another, of
-- either byte order, as the same value, and both calls stop at the same position. The numbers fit
-- their widths, no `Expected` in the value holds an error, and there is room for the bytes.
pub deserialize-serialize :
    (e e' : Endian) (t : Ty) (v : Val t)
    → Fits t v
    → IsReadable t v
    → (m : List ℕ) (p buffer_len : ℕ) → p + length (encode t v) ≤ buffer_len
    → buffer_len ≤ length m
    → (serialize e t v buffer_len (cursor m p) >>= λ c.
        deserialize e' t (default_val t) buffer_len (cursor c.memory p))
      ≡ ok (v, cursor (write_bytes m p (encode t v)) (p + length (encode t v)))
deserialize-serialize e e' t v h r m p buffer_len room fits =
    rw (serialize-room e t v h m p buffer_len room fits) (
      deserialize-encode e' t v h r (write_bytes m p (encode t v)) p buffer_len
        (drop (p + length (encode t v)) m) (drop-write_bytes m p (encode t v) (omega arith)) room
        (omega (arith, length-write_bytes m p (encode t v))))

-- A buffer of `get_serialize_size` bytes, as the callers allocate it, is filled exactly and never
-- found too small, if the size is defined (`IsSized`).
serialize-get_serialize_size :
    (e : Endian) (t : Ty) (v : Val t) (n : ℕ)
    → Fits t v
    → IsSized t v
    → get_serialize_size t v ≡ ok n
    → (m : List ℕ) → length m ≡ n
    → serialize e t v n (cursor m 0) ≡ ok (cursor (encode t v) n)
serialize-get_serialize_size e t v n h s counted m len =
    let size = length-sized t v n s counted in
    let start : 0 + length (encode t v) ≡ n = omega arith in
    rw (
      serialize-room e t v h m 0 n (omega arith) (omega arith),
      start,
      write_bytes-whole m (encode t v) (omega arith),
    )

-- An `Expected` that holds an error is never read back into a default-constructed one: on any bytes
-- that `serialize` writes for it the call has no defined behaviour.
deserialize-unexpected :
    (e : Endian) (t : Ty) (v : ℕ) (m : List ℕ) (p buffer_len : ℕ) (rest : List ℕ)
    → drop p m ≡ encode (expected t) (unexpected v) ++ rest
    → p + 1 ≤ buffer_len
    → buffer_len ≤ length m
    → deserialize e (expected t) (default_val (expected t)) buffer_len (cursor m p) ≡ undefined
unfolding deserialize encode default_val read_error test_bool
deserialize-unexpected e t v m p buffer_len rest here room fits =
    rw (flag-Reads e 0 (omega arith) m p buffer_len (le_bytes 4 v ++ rest) here room fits)
