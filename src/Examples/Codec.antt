-- ===== src/Examples/Codec.antt =====
-- The codec on a small structure and a small buffer.
use new_rpc.Base.{ℕ, ◌≡◌, refl, List, [], ◌∷◌, ◌++◌, arith, length, some, none, true, ◌+◌}
use new_rpc.Serialization.Memory.{
  ok, undefined, ◌>>=◌, cursor, little, big, write_bytes, new_bytes, le_bytes,
}
use new_rpc.Serialization.Types.{
  Ty, enumeration, pointer, fundamental, string, reflected, expected, no_members, member, Val,
  value, default_val,
}
use new_rpc.Serialization.Serialize.{serialize, get_serialize_size}
use new_rpc.Serialization.Deserialize.{deserialize}
use new_rpc.Serialization.Encoding.{encode, Fits}
use new_rpc.Serialization.Writing.{written}
use new_rpc.Serialization.Output.{serialize-encode, get_serialize_size-encode}
use new_rpc.Serialization.Bytes.{AreBytes}
use new_rpc.Serialization.Input.{deserialize-encode, IsReadable}
use new_rpc.Serialization.Typed.{deserialize-Fits}
use new_rpc.Serialization.RoundTrip.{deserialize-serialize}
use new_rpc.Serialization.Safety.{deserialize-InBounds, InBounds}

-- struct { uint32_t number; std::string name; std::unique_ptr<uint16_t> more; }
abbrev record_type : Ty
record_type =
    reflected (member (fundamental 4) (member string (member (pointer (fundamental 2)) no_members)))

abbrev record_value : Val record_type
record_value = (7, ((104 ∷ 105 ∷ []), (some 513, tt)))

abbrev record_bytes : List ℕ
record_bytes = 7 ∷ 0 ∷ 0 ∷ 0 ∷ 2 ∷ 0 ∷ 0 ∷ 0 ∷ 0 ∷ 0 ∷ 0 ∷ 0 ∷ 104 ∷ 105 ∷ 0 ∷ 1 ∷ 2 ∷ []

encode_record : encode record_type record_value ≡ record_bytes
unfolding encode le_bytes
encode_record = refl

serialize_record :
    serialize big record_type record_value 17 (cursor (new_bytes 17) 0)
    ≡ ok (cursor record_bytes 17)
unfolding serialize new_bytes
serialize_record = refl

record-Fits : Fits record_type record_value
record-Fits = (omega arith, (omega arith, (omega arith, tt)))

serialize-encode_example :
    serialize big record_type record_value 18 (cursor (new_bytes 20) 1)
    ≡ written (new_bytes 20) 1 (encode record_type record_value) 18
unfolding new_bytes
serialize-encode_example =
    serialize-encode big record_type record_value record-Fits (new_bytes 20) 1 18 (omega arith)
      (omega arith)

get_serialize_size-encode_example :
    get_serialize_size record_type record_value ≡ ok (length (encode record_type record_value))
get_serialize_size-encode_example =
    get_serialize_size-encode record_type record_value (tt, (tt, (tt, tt)))

expected_sizes :
    (get_serialize_size (expected (fundamental 8)) (value 7) ≡ undefined)
    × (length (encode (expected (fundamental 8)) (value 7)) ≡ 9)
unfolding get_serialize_size encode le_bytes
expected_sizes = (refl, refl)

deserialize-encode_example :
    deserialize big record_type
      (default_val record_type)
      18
      (cursor (9 ∷ record_bytes ++ (3 ∷ [])) 1)
    ≡ ok (
      record_value,
      cursor (9 ∷ record_bytes ++ (3 ∷ [])) (1 + length (encode record_type record_value)),
    )
unfolding encode le_bytes
deserialize-encode_example =
    deserialize-encode big record_type record_value record-Fits (tt, (tt, (tt, tt)))
      (9 ∷ record_bytes ++ (3 ∷ [])) 1 18 (3 ∷ []) refl (omega arith) (omega arith)

deserialize-serialize_example :
    (serialize little record_type record_value 20 (cursor (new_bytes 20) 1) >>= λ c.
    deserialize big record_type (default_val record_type) 20 (cursor c.memory 1))
    ≡ ok (
      record_value,
      cursor
          (write_bytes (new_bytes 20) 1 (encode record_type record_value))
          (1 + length (encode record_type record_value)),
    )
unfolding encode le_bytes new_bytes
deserialize-serialize_example =
    deserialize-serialize little big record_type record_value record-Fits (tt, (tt, (tt, tt)))
      (new_bytes 20) 1 20 (omega arith) (omega arith)

-- A flag that is neither 0 nor 1, and an enumerator -1 of four bytes.
flag_of_two :
    deserialize little (pointer (fundamental 1)) none 2 (cursor (2 ∷ 7 ∷ []) 0) ≡ undefined
unfolding deserialize
flag_of_two = refl

negative_enumerator :
    serialize little (enumeration true 4) 0xffffffff 8 (cursor (new_bytes 8) 0)
    ≡ ok (cursor (255 ∷ 255 ∷ 255 ∷ 255 ∷ 255 ∷ 255 ∷ 255 ∷ 255 ∷ []) 8)
unfolding serialize new_bytes
negative_enumerator = refl

abbrev name_bytes : List ℕ
name_bytes = 2 ∷ 0 ∷ 0 ∷ 0 ∷ 0 ∷ 0 ∷ 0 ∷ 0 ∷ 104 ∷ 105 ∷ 99 ∷ []

name-AreBytes : AreBytes name_bytes
name-AreBytes = omega arith

-- A length that counts more bytes than there are.
deserialize-InBounds_example :
    InBounds
      (255 ∷ 0 ∷ 0 ∷ 0 ∷ 0 ∷ 0 ∷ 0 ∷ 0 ∷ 1 ∷ [])
      0
      9
      (deserialize little string [] 9 (cursor (255 ∷ 0 ∷ 0 ∷ 0 ∷ 0 ∷ 0 ∷ 0 ∷ 0 ∷ 1 ∷ []) 0))
deserialize-InBounds_example =
    deserialize-InBounds little string [] tt (255 ∷ 0 ∷ 0 ∷ 0 ∷ 0 ∷ 0 ∷ 0 ∷ 0 ∷ 1 ∷ []) 0 9
      (omega arith) (omega arith)

-- A name of two bytes, read from a buffer with more behind it.
deserialize-Fits_example :
    Fits string (104 ∷ 105 ∷ [])
    × IsReadable string (104 ∷ 105 ∷ [])
    × (name_bytes ≡ name_bytes)
    × ((serialize little string (104 ∷ 105 ∷ []) 12 (cursor (new_bytes 12) 1) >>= λ d.
          deserialize big string [] 12 (cursor d.memory 1))
        ≡ ok (
          (104 ∷ 105 ∷ []),
          cursor
              (write_bytes (new_bytes 12) 1 (encode string (104 ∷ 105 ∷ [])))
              (1 + length (encode string (104 ∷ 105 ∷ []))),
        ))
unfolding new_bytes encode le_bytes deserialize
deserialize-Fits_example =
    deserialize-Fits little big string name_bytes 0 11 (new_bytes 12) 1 12 name-AreBytes refl
      (omega arith) (omega arith)
