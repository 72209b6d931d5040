-- ===== src/Text/Dump.antt =====
-- `print_memory_content` of log/logger.h: what it prints, as bytes. Pointers are printed as
-- libstdc++ does.
use new_rpc.Base.{
  ℕ, zero, suc, ◌+◌, ◌-◌, ◌/◌, ◌%◌, ◌^◌, List, [], ◌∷◌, ◌++◌, length, take, drop, ltb, ◌==◌,
  if◌then◌else◌,
}
use new_rpc.Serialization.Memory.{Result, ok, undefined, ◌>>=◌, Endian, of_object_bytes}
use new_rpc.Text.Number.{digits_of, address_text}
use new_rpc.Text.Errors.{codes}

abbrev pub fill : ℕ → List ℕ → List ℕ
fill zero text = text
fill (suc n) text = b'0' ∷ fill n text

-- `std::setfill('0') << std::setw(8)`
abbrev pub padded : List ℕ → List ℕ
padded text = fill (8 - length text) text

abbrev pub pointer_text : ℕ → List ℕ
pointer_text p = if p == 0 then b'0' ∷ [] else address_text p

-- `*p_address`, a word of four bytes at the offset in the memory from `ptr` on.
unfoldable pub read_word : Endian → List ℕ → (offset : ℕ) → Result ℕ
unfolding of_object_bytes
read_word e memory offset =
    if ltb (length memory) (offset + 4)
    then undefined
    else ok (of_object_bytes e (take 4 (drop offset memory)))

-- `int lines`; a negative number is shown as 0, since the loop then makes no round.
unfoldable pub line_count : (len : ℕ) → ℕ
line_count len =
    let lines = ((len + 2 ^ 64 - 1) % 2 ^ 64 / 16 + 1) % 2 ^ 32 in
    if ltb lines (2 ^ 31) then lines else 0

-- The words of a line, at most `left`, and the offset behind them.
unfoldable pub dump_words : Endian → List ℕ → (len left offset : ℕ) → Result (List ℕ × ℕ)
unfolding read_word digits_of
dump_words e memory len zero offset = ok ([], offset)
dump_words e memory len (suc left) offset =
    let printed = read_word e memory offset >>= λ word.
    dump_words e memory len left (offset + 4) >>= λ (text, after).
    ok (codes "\t0x" ++ (padded (digits_of 16 word) ++ text), after) in
    if ltb offset len then printed else ok ([], offset)

unfoldable pub dump_lines : Endian → List ℕ → (ptr len lines offset : ℕ) → Result (List ℕ)
unfolding dump_words address_text
dump_lines e memory ptr len zero offset = ok []
dump_lines e memory ptr len (suc lines) offset = do
  (words, after) ← dump_words e memory len 4 offset
  rest ← dump_lines e memory ptr len lines after
  ok (codes "\n" ++ (padded (pointer_text (ptr + offset)) ++ ((b':' ∷ words) ++ rest)))

unfoldable pub print_memory_content :
    Endian → List ℕ → (ptr len : ℕ) → (function_name : List ℕ) → (line : ℕ) → Result (List ℕ)
unfolding dump_lines line_count digits_of
print_memory_content e memory ptr len function_name line =
    dump_lines e memory ptr len (line_count len) 0 >>= λ lines. ok (
      codes "print at: "
      ++ (function_name
          ++ (codes ":line "
              ++ (digits_of 10 line
                  ++ (codes ", addr:"
                      ++ (pointer_text ptr
                          ++ (codes ", size:" ++ (digits_of 10 len ++ (lines ++ codes "\n")))))))))
