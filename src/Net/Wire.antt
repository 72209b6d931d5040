-- ===== src/Net/Wire.antt =====
-- The packages on the wire: what `with_args` and `await_suspend` send and what `receive` makes of it.
use new_rpc.Base.{
  ℕ, zero, suc, ◌+◌, ◌-◌, ◌%◌, ◌^◌, ◌≤◌, ◌<◌, ◌≡◌, refl, ap, ◌∙◌, true, List, ◌++◌, append-nil,
  arith, length, drop, leb, ◌==◌, ==_iff, drop_all,
}
use new_rpc.Serialization.Memory.{ok, ◌>>=◌, cursor, Endian, write_bytes, new_bytes}
use new_rpc.Serialization.Types.{Members, reflected, Vals}
use new_rpc.Serialization.Serialize.{
  serialize, serialize_members, get_serialize_size, get_serialize_sizes,
}
use new_rpc.Serialization.Encoding.{encode, encode_members, FitMembers}
use new_rpc.Serialization.Writing.{drop-write_bytes, length-write_bytes, write_bytes-front}
use new_rpc.Serialization.Output.{get_serialize_size-encode, length-sized, IsSized, AreSized}
use new_rpc.Serialization.RoundTrip.{serialize-room}
use new_rpc.Net.Header.{
  PackageHeader, make_header, set_message_type, header_members, header_type, header_vals,
  magic_number,
}
use new_rpc.Net.Rpc.{RpcBase, with_args, prepare_request}

pub length-new_bytes : (n : ℕ) → length (new_bytes n) ≡ n
unfolding new_bytes
length-new_bytes zero = refl
length-new_bytes (suc n) = ap suc (length-new_bytes n)

-- Every field of the header fits its width.
abbrev pub HeaderFits : PackageHeader → Type 0
HeaderFits x = FitMembers header_members (header_vals x)

header_sized : (x : PackageHeader) → get_serialize_size header_type (header_vals x) ≡ ok 32
unfolding get_serialize_size
header_sized x = refl

header_IsSized : (x : PackageHeader) → IsSized header_type (header_vals x)
header_IsSized x = (tt, (tt, (tt, (tt, (tt, (tt, (tt, (tt, (tt, tt)))))))))

pub length-header : (x : PackageHeader) → length (encode header_type (header_vals x)) ≡ 32
length-header x = length-sized header_type (header_vals x) 32 (header_IsSized x) (header_sized x)

-- `serialize-room` for a tuple of arguments.
members-room :
    (e : Endian) (ms : Members) (vs : Vals ms)
    → FitMembers ms vs
    → (m : List ℕ) (p buffer_len : ℕ) → p + length (encode_members ms vs) ≤ buffer_len
    → buffer_len ≤ length m
    → serialize_members e ms vs buffer_len (cursor m p)
      ≡ ok (cursor (write_bytes m p (encode_members ms vs)) (p + length (encode_members ms vs)))
unfolding serialize encode
members-room e ms vs h = serialize-room e (reflected ms) vs h

pub members_size :
    (ms : Members) (vs : Vals ms)
    → AreSized ms vs
    → get_serialize_sizes ms vs ≡ ok (length (encode_members ms vs))
unfolding get_serialize_size encode
members_size ms vs h = get_serialize_size-encode (reflected ms) vs h

-- After `with_args` the buffer has 32 bytes for the header, and behind them the arguments.
pub with_args_lem :
    (e : Endian) (r : RpcBase) (ms : Members) (vs : Vals ms)
    → FitMembers ms vs
    → AreSized ms vs
    → 32 + length (encode_members ms vs) ≤ 1024
    → (m : List ℕ) × (length m ≡ 32 + length (encode_members ms vs))
      × (drop 32 m ≡ encode_members ms vs)
      × (with_args e r ms vs
          ≡ ok (record r {
            send_buffer = m;
            total_serialize_size = 32 + length (encode_members ms vs);
          }))
unfolding with_args get_serialize_size
with_args_lem e r ms vs h s room =
    let total = 32 + length (encode_members ms vs) in
    let blank = length-new_bytes total in
    let m = write_bytes (new_bytes total) 32 (encode_members ms vs) in
    let len : length m ≡ total =
      length-write_bytes (new_bytes total) 32 (encode_members ms vs) ∙ blank in
    let small : leb total 1024 ≡ true = ground arith in
    let full : (total == total) ≡ true = (==_iff total total).1 refl in
    (
      m,
      len,
      drop-write_bytes (new_bytes total) 32 (encode_members ms vs) (omega arith)
          ∙ rw (drop_all total (new_bytes total) (omega arith)) (append-nil _),
      rw (
        members_size ms vs s,
        small,
        members-room e ms vs h (new_bytes total) 32 total (omega arith) (omega arith),
        full,
      ),
    )

-- The header of a request, with its type and the length of its payload.
abbrev pub request_header : (func_id coro_id listen_port payload_len : ℕ) → PackageHeader
request_header func_id coro_id listen_port payload_len = record {
  version = 1;
  reserved = 0;
  server_port = listen_port;
  flags = 1;
  rpc_id = coro_id;
  process_restart_counter = 1;
  rpc_type = func_id;
  checksum = magic_number;
  payload_len = payload_len;
}

-- A header at the front of a buffer.
pub put_header :
    (e : Endian) (x : PackageHeader) (m : List ℕ) (buffer_len : ℕ)
    → HeaderFits x
    → 32 ≤ buffer_len
    → buffer_len ≤ length m
    → serialize e header_type (header_vals x) buffer_len (cursor m 0)
      ≡ ok (cursor (encode header_type (header_vals x) ++ drop 32 m) 32)
put_header e x m buffer_len fits room long =
    let size = length-header x in
    let bytes = encode header_type (header_vals x) in
    let end : 0 + length bytes ≡ 32 = omega arith in
    let front : write_bytes m 0 bytes ≡ bytes ++ drop 32 m =
      rw size at (write_bytes-front m bytes (omega arith)) in
    rw (
      serialize-room e header_type (header_vals x) fits m 0 buffer_len (omega arith) long,
      end,
      front,
    )

-- `await_suspend` puts the header in front of the arguments.
pub prepare_request_lem :
    (e : Endian) (r : RpcBase) (coro_id port promise n : ℕ) (args : List ℕ)
    → r.total_serialize_size ≡ 32 + n
    → length r.send_buffer ≡ 32 + n
    → drop 32 r.send_buffer ≡ args
    → n < 2 ^ 64
    → HeaderFits (request_header r.func_id coro_id port n)
    → prepare_request e r coro_id port promise
      ≡ ok (record r {
        send_buffer =
            encode header_type (header_vals (request_header r.func_id coro_id port n)) ++ args;
        coroutine = promise;
      })
unfolding prepare_request set_message_type make_header get_serialize_size
prepare_request_lem e r coro_id port promise n args total len behind small fits =
    let header = request_header r.func_id coro_id port n in
    let payload : (r.total_serialize_size + 2 ^ 64 - 32) % 2 ^ 64 ≡ n = omega arith in
    rw (
      payload,
      put_header e header r.send_buffer (length r.send_buffer) fits (omega arith) (omega arith),
      behind,
    )

-- What `with_args` and then `await_suspend` leave in the send buffer: the header of a request, with
-- the number of the function, the coroutine's id, the port to answer to and the length of the
-- arguments, and behind it the arguments. No `assert` on the way fails. The arguments' numbers fit
-- their widths, their size is defined, header and arguments take at most 1024 bytes, and the
-- header's fields fit their widths.
prepare_request-with_args :
    (e : Endian) (r : RpcBase) (ms : Members) (vs : Vals ms) (coro_id port promise : ℕ)
    → FitMembers ms vs
    → AreSized ms vs
    → 32 + length (encode_members ms vs) ≤ 1024
    → HeaderFits (request_header r.func_id coro_id port (length (encode_members ms vs)))
    → (with_args e r ms vs >>= λ r'. prepare_request e r' coro_id port promise)
      ≡ ok (record r {
        send_buffer =
            encode header_type
              (header_vals (request_header r.func_id coro_id port (length (encode_members ms vs))))
            ++ encode_members ms vs;
        total_serialize_size = 32 + length (encode_members ms vs);
        coroutine = promise;
      })
prepare_request-with_args e r ms vs coro_id port promise h s room fits =
    let (m, len, behind, done) = with_args_lem e r ms vs h s room in
    rw done (
      prepare_request_lem e
        (record r { send_buffer = m; total_serialize_size = 32 + length (encode_members ms vs) })
        coro_id port promise (length (encode_members ms vs)) (encode_members ms vs) refl len behind
        (omega arith) fits)
