-- ===== src/Net/Receive.antt =====
-- `NetService::receive` of net_module/net_service.cpp, up to the package that it has read; and the
-- response package of `prepare_buffer` (task.cpp) and `FinalAwaitable::await_suspend` (task.ipp).
-- The socket is the list of the chunks in which the bytes arrive, up to the end of the stream.
use new_rpc.Base.{
  ℕ, zero, suc, ◌+◌, ◌-◌, List, [], ◌∷◌, ◌++◌, length, take, drop, ◌==◌, leb, if◌then◌else◌,
}
use new_rpc.Serialization.Memory.{
  Result, ok, thrown, end_of_file, ◌>>=◌, ◌>>◌, check, Endian, Cursor, cursor, new_bytes,
}
use new_rpc.Serialization.Types.{Ty, Val}
use new_rpc.Serialization.Serialize.{serialize, get_serialize_size}
use new_rpc.Serialization.Deserialize.{deserialize}
use new_rpc.Net.Header.{
  PackageHeader, empty_header, make_header, set_message_type, response, header_type, header_vals,
  header_of_vals, magic_number,
}
use new_rpc.Net.Mapper.{ResponseInfo}

-- `while (read_idx < n) read_idx += co_await socket.async_read_some(…, n - read_idx)`: a call gives
-- bytes of the next chunk, at most as many as it asked for, and throws at the end of the stream.
unfoldable pub read_exact : ℕ → List (List ℕ) → Result (List ℕ × List (List ℕ))
read_exact zero chunks = ok ([], chunks)
read_exact (suc n) [] = thrown end_of_file
read_exact (suc n) (chunk ∷ chunks) =
    let more = read_exact (suc n - length chunk) chunks >>= λ (bs, rest). ok (chunk ++ bs, rest) in
    if leb (length chunk) (suc n)
    then more
    else ok (take (suc n) chunk, drop (suc n) chunk ∷ chunks)

-- BUFFER_SIZE
abbrev pub buffer_size : ℕ
buffer_size = 128

-- The two reads, with the header between them: the header, the position behind it and the payload. Behind the bytes of the header the local array is
-- not initialised.
unfoldable pub receive_package : Endian → List (List ℕ) → Result (PackageHeader × ℕ × List ℕ)
unfolding read_exact new_bytes empty_header
receive_package e chunks = do
  size ← get_serialize_size header_type (header_vals empty_header)
  (head, rest) ← read_exact size chunks
  (vals, c) ←
      deserialize e header_type (header_vals empty_header) size
        (cursor (head ++ new_bytes (buffer_size - size)) 0)
  let header = header_of_vals vals
  check (header.checksum == magic_number)
  (payload, closed) ← read_exact header.payload_len rest
  ok (header, c.pos, payload)

-- `prepare_buffer`: a buffer for the header and `payload_len` bytes, with the header in it.
unfoldable pub prepare_buffer :
    Endian → ResponseInfo → (listen_port payload_len : ℕ) → Result Cursor
unfolding new_bytes
prepare_buffer e info listen_port payload_len = do
  header ←
      set_message_type
        (make_header 1 info.response_rpc_type info.response_to_coro_id listen_port payload_len)
        response
  size ← get_serialize_size header_type (header_vals header)
  c ←
      serialize e header_type (header_vals header) (size + payload_len)
        (cursor (new_bytes (size + payload_len)) 0)
  check (c.pos == size)
  ok c

-- What a root coroutine with a `ResponseInfo` sends when it is done.
unfoldable pub response_package :
    Endian → ResponseInfo → (listen_port : ℕ) → (t : Ty) → Val t → Result (List ℕ)
unfolding prepare_buffer
response_package e info listen_port t result = do
  size ← get_serialize_size t result
  c ← prepare_buffer e info listen_port size
  c' ← serialize e t result (length c.memory) c
  ok c'.memory
