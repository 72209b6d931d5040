-- ===== src/Text/Buffer.antt =====
-- `std::format_to_n` into the buffer, as the macros of stringification.hpp call it.
use new_rpc.Base.{ℕ, ◌+◌, ◌-◌, List, length, take, ltb, leb, if◌then◌else◌}
use new_rpc.Serialization.Memory.{Result, ok, undefined, ◌>>=◌, Cursor, cursor, write_bytes}

-- `format_to_n(buffer + pos, n, text)`: at most `n` bytes go out; past the memory it is undefined.
unfoldable pub format_to_n : (n : ℕ) → List ℕ → Cursor → Result (List ℕ)
unfolding write_bytes
format_to_n n text c =
    let out = take n text in
    if ltb (length c.memory) (c.pos + length out)
    then undefined
    else ok (write_bytes c.memory c.pos out)

-- `FORMAT_TO` of `value_to_string`: nothing behind the end of the buffer, and `pos` stops there.
unfoldable pub format_to : List ℕ → (buffer_len : ℕ) → Cursor → Result Cursor
unfolding format_to_n
format_to text buffer_len c =
    let end = c.pos + length text in
    let put = format_to_n (buffer_len - c.pos) text c >>= λ m.
    ok (cursor m (if leb end buffer_len then end else buffer_len)) in
    if ltb c.pos buffer_len then put else ok c

-- `FORMAT_TO` of `kv_to_string`: `buffer_len` bytes are allowed from `pos` on, wherever `pos` is, and
-- `pos` moves behind the whole text.
unfoldable pub format_key_to : List ℕ → (buffer_len : ℕ) → Cursor → Result Cursor
unfolding format_to_n
format_key_to text buffer_len c =
    format_to_n buffer_len text c >>= λ m. ok (cursor m (c.pos + length text))
