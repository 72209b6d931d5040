-- ===== src/Net/Response.antt =====
-- The package that a finished coroutine sends back, and what the waiting call makes of it.
use new_rpc.Base.{
  ℕ, ◌+◌, ◌≡◌, sym, ap, ◌∙◌, [], ◌++◌, append-nil, arith, length, drop, length-append, length-drop,
}
use new_rpc.Serialization.Memory.{ok, cursor, Endian, write_bytes, new_bytes}
use new_rpc.Serialization.Types.{Ty, Val}
use new_rpc.Serialization.Serialize.{get_serialize_size}
use new_rpc.Serialization.Encoding.{encode, Fits}
use new_rpc.Serialization.Writing.{write_bytes-behind, write_bytes-whole}
use new_rpc.Serialization.Output.{get_serialize_size-encode, IsSized}
use new_rpc.Serialization.Input.{deserialize-encode, IsReadable}
use new_rpc.Serialization.RoundTrip.{serialize-room}
use new_rpc.Net.EndPoint.{EndPoint}
use new_rpc.Net.Header.{
  PackageHeader, make_header, set_message_type, header_type, header_vals, magic_number,
}
use new_rpc.Net.Rpc.{RpcBase, accept_result, process_buffer_cb}
use new_rpc.Net.Mapper.{ResponseInfo}
use new_rpc.Net.Receive.{prepare_buffer, response_package}
use new_rpc.Net.Wire.{HeaderFits, length-header, put_header, length-new_bytes}

-- The header of the response to a request.
abbrev pub response_header : ResponseInfo → (listen_port payload_len : ℕ) → PackageHeader
response_header info listen_port payload_len = record {
  version = 1;
  reserved = 0;
  server_port = listen_port;
  flags = 2;
  rpc_id = info.response_to_coro_id;
  process_restart_counter = 1;
  rpc_type = info.response_rpc_type;
  checksum = magic_number;
  payload_len = payload_len;
}

prepare_buffer_lem :
    (e : Endian) (info : ResponseInfo) (port n : ℕ)
    → HeaderFits (response_header info port n)
    → prepare_buffer e info port n
      ≡ ok (
          cursor
            (encode header_type (header_vals (response_header info port n))
              ++ drop 32 (new_bytes (32 + n)))
            32)
unfolding prepare_buffer set_message_type make_header get_serialize_size
prepare_buffer_lem e info port n fits =
    let blank = length-new_bytes (32 + n) in
    rw (
      put_header e (response_header info port n) (new_bytes (32 + n)) (32 + n) fits (omega arith)
        (omega arith))

pub ok-injective {ℓ} : {A : Type ℓ} {a b : A} → ok a ≡ ok b → a ≡ b
ok-injective h = cc

-- A finished coroutine sends the header of a response, addressed by the id and the function number
-- of the request, and behind it the encoding of its result; the buffer is of exactly that size. The
-- result's numbers fit their widths, its size is defined, and the header's fields fit theirs.
pub response_package-encode :
    (e : Endian) (info : ResponseInfo) (port : ℕ) (t : Ty) (v : Val t)
    → Fits t v
    → IsSized t v
    → HeaderFits (response_header info port (length (encode t v)))
    → response_package e info port t v
      ≡ ok (
          encode header_type (header_vals (response_header info port (length (encode t v))))
          ++ encode t v)
unfolding response_package
response_package-encode e info port t v fits sized wide =
    let n = length (encode t v) in
    let head = encode header_type (header_vals (response_header info port n)) in
    let blank = length-new_bytes (32 + n) in
    let size = length-header (response_header info port n) in
    let tail = drop 32 (new_bytes (32 + n)) in
    let room : length tail ≡ n = omega (arith, length-drop 32 (new_bytes (32 + n))) in
    let long : length (head ++ tail) ≡ 32 + n = omega (arith, length-append head tail) in
    let put : write_bytes (head ++ tail) 32 (encode t v) ≡ head ++ encode t v =
      (rw size at (write_bytes-behind head tail (encode t v)))
      ∙ ap (◌++◌ head) (write_bytes-whole tail (encode t v) room) in
    rw (
      get_serialize_size-encode t v sized,
      prepare_buffer_lem e info port n wide,
      long,
      serialize-room e t v fits (head ++ tail) 32 (32 + n) (omega arith) (omega arith),
      put,
    )

pub process_buffer_cb-encode :
    (e : Endian) (r : RpcBase) (peer : EndPoint) (v : Val r.ret)
    → Fits r.ret v
    → IsReadable r.ret v
    → process_buffer_cb e r peer (encode r.ret v) ≡ accept_result r peer v
unfolding process_buffer_cb
process_buffer_cb-encode e r peer v fits readable =
    let done =
      deserialize-encode e r.ret v fits readable (encode r.ret v) 0 (length (encode r.ret v)) []
        (sym (append-nil _)) (omega arith) (omega arith) in
    rw done
