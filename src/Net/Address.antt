-- ===== src/Net/Address.antt =====
-- The text of an `EndPoint`: `to_asio_endpoint` and `to_string` of net_module/net_define.cpp.
use new_rpc.Base.{
  ℕ, zero, suc, ◌+◌, ◌-◌, ◌≤◌, ◌<◌, ◌≡◌, refl, Bool, true, false, ◌&&◌, List, [], ◌∷◌, ◌++◌, arith,
  length, take, length-append, lt→ltb, le→ltb, take-append, ap, ◌∙◌, drop, ltb, leb, if◌then◌else◌,
}
use new_rpc.Serialization.Memory.{Result, ok, undefined, ◌>>=◌, Cursor, cursor, new_bytes}
use new_rpc.Text.Number.{digits_of}
use new_rpc.Text.Buffer.{format_to_n}
use new_rpc.Text.Truncation.{take_all}
use new_rpc.Serialization.Writing.{write_bytes-front}
use new_rpc.Net.EndPoint.{EndPoint}

-- The text of the bytes, with dots between them.
unfoldable pub dotted : List ℕ → List ℕ
unfolding digits_of
dotted [] = []
dotted (x ∷ []) = digits_of 10 x
dotted (x ∷ y ∷ xs) = digits_of 10 x ++ (b'.' ∷ dotted (y ∷ xs))

-- `to_asio_endpoint`: the text goes into 16 bytes and a null behind it. The text, up to the null, and
-- the port are what boost makes an address of.
unfoldable pub to_asio_endpoint : EndPoint → Result (List ℕ × ℕ)
unfolding dotted format_to_n
to_asio_endpoint x =
    let text = dotted (take 4 x.ip) in
    format_to_n 16 text (cursor (new_bytes 16) 0) >>= λ ip_str.
    if ltb (length (take 16 text)) 16
    then ok (take (length (take 16 text)) ip_str, x.port)
    else undefined

-- `to_string`: `pos` goes behind the bytes that went out.
unfoldable pub endpoint_to_string : EndPoint → (buffer_len : ℕ) → Cursor → Result Cursor
unfolding dotted format_to_n digits_of
endpoint_to_string x buffer_len c =
    let text = dotted (take 4 x.ip) ++ (b':' ∷ digits_of 10 x.port) in
    format_to_n (buffer_len - c.pos) text c >>= λ m.
    ok (cursor m (c.pos + length (take (buffer_len - c.pos) text)))

-- Over a small range, every value is tried.
every : (n : ℕ) → (ℕ → Bool) → Bool
every zero p = true
every (suc n) p = p n && every n p

every_lem : (n : ℕ) (p : ℕ → Bool) (x : ℕ) → every n p ≡ true → x < n → p x ≡ true
unfolding every
every_lem zero p x h small = absurd (omega arith)
every_lem (suc n) p x h small = ground (arith, every_lem n p x)

short_bytes : every 256 (λ x. leb (length (digits_of 10 x)) 3) ≡ true
unfolding every digits_of
short_bytes = refl

length-byte : (x : ℕ) → x < 256 → length (digits_of 10 x) ≤ 3
length-byte x small =
    let short = every_lem 256 (λ y. leb (length (digits_of 10 y)) 3) x short_bytes small in
    ground arith

length-dotted :
    (a b c d : ℕ)
    → a < 256
    → b < 256
    → c < 256
    → d < 256
    → length (dotted (a ∷ b ∷ c ∷ d ∷ [])) ≤ 15
unfolding dotted
length-dotted a b c d ha hb hc hd =
    let third = digits_of 10 c ++ (b'.' ∷ digits_of 10 d) in
    let second = digits_of 10 b ++ (b'.' ∷ third) in
    omega (
      arith,
      length-append (digits_of 10 a) (b'.' ∷ second),
      length-append (digits_of 10 b) (b'.' ∷ third),
      length-append (digits_of 10 c) (b'.' ∷ digits_of 10 d),
      length-byte a ha,
      length-byte b hb,
      length-byte c hc,
      length-byte d hd,
    )

-- The 16 bytes of `to_asio_endpoint` are enough: for every IPV4 of four bytes the text goes out whole,
-- with a byte left for the null behind it, and the call is defined.
pub to_asio_endpoint-dotted :
    (a b c d : ℕ) (rest : List ℕ) (port flags : ℕ)
    → a < 256
    → b < 256
    → c < 256
    → d < 256
    → to_asio_endpoint (record { ip = a ∷ b ∷ c ∷ d ∷ rest; port = port; flags = flags })
      ≡ ok (dotted (a ∷ b ∷ c ∷ d ∷ []), port)
unfolding to_asio_endpoint new_bytes
to_asio_endpoint-dotted a b c d rest port flags ha hb hc hd =
    let text = dotted (a ∷ b ∷ c ∷ d ∷ []) in
    let short = length-dotted a b c d ha hb hc hd in
    let whole : take 16 text ≡ text = take_all 16 text (omega arith) in
    let inside : ltb (length (new_bytes 16)) (0 + length text) ≡ false = le→ltb _ _ (omega arith) in
    let front = write_bytes-front (new_bytes 16) text (omega arith) in
    let room : ltb (length text) 16 ≡ true = lt→ltb _ _ (omega arith) in
    rw (whole, inside, room)
      (ap (λ bs. ok (bs, port))
        (ap (take (length text)) front ∙ take-append text (drop (length text) (new_bytes 16))))
