-- ===== src/Net/Delivery.antt =====
-- From the sender's buffer to the receiver's call: requests and responses, however the stream is cut
-- into chunks.
use new_rpc.Base.{
  ℕ, zero, suc, ◌+◌, ◌-◌, ◌≤◌, ◌≡◌, refl, sym, ap, ◌∙◌, inl, inr, true, false, List, [], ◌∷◌, ◌++◌,
  append-nil, arith, length, take, drop, leb, ◌==◌, ==_iff, some, length-append, take-append,
  drop-append, Bool-cases, take-append_le, take-append_ge, drop-append_le, drop-append_ge,
}
use new_rpc.Serialization.Memory.{ok, Cursor, cursor, Endian, new_bytes}
use new_rpc.Serialization.Types.{Members, reflected, Vals, default_val, default_vals}
use new_rpc.Serialization.Serialize.{get_serialize_size}
use new_rpc.Serialization.Deserialize.{deserialize, deserialize_members}
use new_rpc.Serialization.Encoding.{encode, encode_members, FitMembers}
use new_rpc.Serialization.Input.{deserialize-encode, AreReadable}
use new_rpc.Net.EndPoint.{EndPoint, set_port}
use new_rpc.Net.Header.{PackageHeader, empty_header, header_type, header_vals, magic_number}
use new_rpc.Net.Mapper.{
  Function, example_add, example_echo, example_add_point, function_id, args_tuple, function_of_id,
  make_task, committed, commit_function, reflect_commit_function,
}
use new_rpc.Net.Receive.{read_exact, receive_package}
use new_rpc.Net.Wire.{HeaderFits, length-header}

-- The bytes of the chunks, in order.
abbrev pub stream : List (List ℕ) → List ℕ
stream [] = []
stream (chunk ∷ chunks) = chunk ++ stream chunks

-- The read loop takes the first n bytes of the stream and leaves the others, however it is cut.
pub read_exact-stream :
    (n : ℕ) (chunks : List (List ℕ))
    → n ≤ length (stream chunks)
    → (rest : List (List ℕ)) × (read_exact n chunks ≡ ok (take n (stream chunks), rest))
      × (stream rest ≡ drop n (stream chunks))
unfolding read_exact
read_exact-stream zero chunks h = (chunks, refl, refl)
read_exact-stream (suc n) [] h = absurd (omega arith)
read_exact-stream (suc n) (chunk ∷ chunks) h = elim (Bool-cases (leb (length chunk) (suc n))) [
  | inl whole ↦
      let fits : length chunk ≤ suc n = ground arith in
      let (rest, done, left) =
        read_exact-stream (suc n - length chunk) chunks
          (omega (arith, length-append chunk (stream chunks))) in
      (
        rest,
        rw (whole, done, take-append_ge (suc n) chunk (stream chunks) fits),
        left ∙ sym (drop-append_ge (suc n) chunk (stream chunks) fits),
      )
  | inr part ↦
      let long : suc n ≤ length chunk = ground arith in
      (
        drop (suc n) chunk ∷ chunks,
        rw (part, take-append_le (suc n) chunk (stream chunks) long),
        sym (drop-append_le (suc n) chunk (stream chunks) long),
      )
]

-- A prefix of known length.
read_exact-append :
    (chunks : List (List ℕ)) (xs ys : List ℕ)
    → stream chunks ≡ xs ++ ys
    → (rest : List (List ℕ)) × (read_exact (length xs) chunks ≡ ok (xs, rest)) × (stream rest ≡ ys)
read_exact-append chunks xs ys e =
    let (rest, done, left) =
      read_exact-stream (length xs) chunks (rw e (omega (arith, length-append xs ys))) in
    (
      rest,
      done ∙ ap (λ bs. ok (bs, rest)) (ap (take (length xs)) e ∙ take-append xs ys),
      left ∙ ap (drop (length xs)) e ∙ drop-append xs ys,
    )

-- A header's fields are read over, whatever they were.
header_start :
    (e : Endian) (n : ℕ) (c : Cursor)
    → deserialize e header_type (header_vals empty_header) n c
      ≡ deserialize e header_type (default_val header_type) n c
unfolding deserialize default_val
header_start e n c = refl

read_header :
    (e : Endian) (x : PackageHeader)
    → HeaderFits x
    → deserialize e header_type
        (header_vals empty_header)
        32
        (cursor (encode header_type (header_vals x) ++ new_bytes 96) 0)
      ≡ ok (header_vals x, cursor (encode header_type (header_vals x) ++ new_bytes 96) 32)
read_header e x fits =
    let bytes = encode header_type (header_vals x) in
    let size = length-header x in
    let end : 0 + length bytes ≡ 32 = omega arith in
    header_start e 32 (cursor (bytes ++ new_bytes 96) 0)
    ∙ rw end at (
        deserialize-encode e header_type (header_vals x) fits
          (tt, (tt, (tt, (tt, (tt, (tt, (tt, (tt, (tt, tt))))))))) (bytes ++ new_bytes 96) 0 32
          (new_bytes 96) refl (omega arith) (omega (arith, length-append bytes (new_bytes 96))))

-- `receive` takes a header and its payload off the stream, however the bytes arrive and whatever
-- follows them: it returns the header that was sent, the position 32 and the payload. The header
-- has the magic number and counts its payload, and its fields fit their widths.
pub receive_package-stream :
    (e : Endian) (chunks : List (List ℕ)) (x : PackageHeader) (payload rest : List ℕ)
    → stream chunks ≡ encode header_type (header_vals x) ++ (payload ++ rest)
    → HeaderFits x
    → x.checksum ≡ magic_number
    → x.payload_len ≡ length payload
    → receive_package e chunks ≡ ok (x, 32, payload)
unfolding receive_package get_serialize_size
receive_package-stream e chunks x payload rest here fits magic counted =
    let bytes = encode header_type (header_vals x) in
    let (behind, head, left) = read_exact-append chunks bytes (payload ++ rest) here in
    let (closed, body, over) = read_exact-append behind payload rest left in
    let first : read_exact 32 chunks ≡ ok (bytes, behind) = rw (length-header x) at head in
    let sound : (x.checksum == magic_number) ≡ true = (==_iff x.checksum magic_number).1 magic in
    rw (first, read_header e x fits, sound, counted, body)

function_of_id-function_id : (f : Function) → function_of_id (function_id f) ≡ some f
unfolding function_of_id
function_of_id-function_id example_add = refl
function_of_id-function_id example_echo = refl
function_of_id-function_id example_add_point = refl

args_readable : (f : Function) (vs : Vals (args_tuple f)) → AreReadable (args_tuple f) vs
args_readable example_add vs = (tt, (tt, tt))
args_readable example_echo vs = tt
args_readable example_add_point vs = ((tt, (tt, tt)), ((tt, (tt, tt)), tt))

members_read :
    (e : Endian) (ms : Members) (vs : Vals ms)
    → FitMembers ms vs
    → AreReadable ms vs
    → deserialize_members e ms
        (default_vals ms)
        (length (encode_members ms vs))
        (cursor (encode_members ms vs) 0)
      ≡ ok (vs, cursor (encode_members ms vs) (length (encode_members ms vs)))
unfolding deserialize encode default_val
members_read e ms vs h r =
    let start : 0 + length (encode_members ms vs) ≡ length (encode_members ms vs) = omega arith in
    rw start at (
      deserialize-encode e (reflected ms) vs h r (encode_members ms vs) 0
        (length (encode_members ms vs)) [] (sym (append-nil _)) (omega arith) (omega arith))

-- A call of a registered function commits a task of that function with the arguments that were
-- encoded and the caller's address, with the port that the header names, its id and the function's
-- number to answer to, while the scheduler has not been stopped. The arguments' numbers fit their
-- widths.
pub reflect_commit_function-encode :
    (e : Endian) (f : Function) (vs : Vals (args_tuple f)) (x : PackageHeader) (peer : EndPoint)
    → FitMembers (args_tuple f) vs
    → x.rpc_type ≡ function_id f
    → reflect_commit_function e false x peer (encode_members (args_tuple f) vs)
      ≡ ok (
          committed (record {
            function = f;
            args = vs;
            response_info = record {
              response_to_end_point = set_port peer x.server_port;
              response_to_coro_id = x.rpc_id;
              response_rpc_type = x.rpc_type;
            };
          }))
unfolding reflect_commit_function commit_function make_task
reflect_commit_function-encode e f vs x peer fits number =
    let found : function_of_id x.rpc_type ≡ some f =
      ap function_of_id number ∙ function_of_id-function_id f in
    rw (found, reflect_commit_function, members_read e (args_tuple f) vs fits (args_readable f vs))
