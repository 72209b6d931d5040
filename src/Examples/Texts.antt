-- ===== src/Examples/Texts.antt =====
-- Texts of values and of addresses.
use new_rpc.Base.{ℕ, ◌≡◌, refl, false, true, List, [], ◌∷◌, ◌++◌, ◌+◌, ◌≤◌, length, arith}
use new_rpc.Serialization.Memory.{ok, undefined, cursor, little, write_bytes}
use new_rpc.Text.Number.{ℤ, pos, negsuc}
use new_rpc.Text.Errors.{codes, error_text}
use new_rpc.Text.Log.{argument, no_arguments, info_log}
use new_rpc.Text.Dump.{print_memory_content}
use new_rpc.Text.Shape.{Shape, range, integer, boolean, reflected, field, no_fields}
use new_rpc.Text.ToString.{value_to_string}
use new_rpc.Text.Render.{render}
use new_rpc.Text.Truncation.{cut_off}
use new_rpc.Text.Correct.{value_to_string-render}
use new_rpc.Text.Object.{value_to_string-whole}
use new_rpc.Text.Overrun.{value_to_string-overrun}
use new_rpc.Net.Address.{dotted, to_asio_endpoint, to_asio_endpoint-dotted}

abbrev numbers : List ℤ
numbers = pos 1 ∷ pos 22 ∷ negsuc 2 ∷ []

abbrev ten_bytes : List ℕ
ten_bytes = 0 ∷ 0 ∷ 0 ∷ 0 ∷ 0 ∷ 0 ∷ 0 ∷ 0 ∷ 0 ∷ 0 ∷ []

abbrev twenty_bytes : List ℕ
twenty_bytes = ten_bytes ++ ten_bytes

-- `[1, 22, -3]`, cut off behind `[1, 22`.
value_to_string_test :
    value_to_string (range integer) numbers false 8 (cursor ten_bytes 1)
    ≡ ok (cursor (0 ∷ b'[' ∷ b'1' ∷ b',' ∷ b' ' ∷ b'2' ∷ b'2' ∷ b',' ∷ 0 ∷ 0 ∷ []) 8)
unfolding value_to_string
value_to_string_test = refl

value_to_string-render_example :
    value_to_string (range integer) numbers false 8 (cursor ten_bytes 1)
    ≡ ok (cut_off ten_bytes 1 (render (range integer) numbers false) 8)
value_to_string-render_example =
    value_to_string-render (range integer) numbers false tt ten_bytes 1 8 (omega arith)
      (omega arith)

value_to_string-overrun_example :
    value_to_string
      (reflected (field (b'x' ∷ b'_' ∷ []) integer no_fields))
      (pos 5, tt)
      false
      10
      (cursor ten_bytes 9)
    ≡ undefined
value_to_string-overrun_example =
    value_to_string-overrun (b'x' ∷ b'_' ∷ []) integer no_fields (pos 5) tt ten_bytes 9
      (omega arith) (omega arith)

-- An object with the members x and y.
abbrev two_members : Shape
two_members = reflected (field (b'x' ∷ []) integer (field (b'y' ∷ []) boolean no_fields))

two_members_text : render two_members (pos 5, (true, tt)) true ≡ codes "{x:5, y:true}"
unfolding render
two_members_text = refl

value_to_string-whole_example :
    (r : List ℕ) × (length r ≤ 2)
    × (value_to_string two_members (pos 5, (true, tt)) true 20 (cursor twenty_bytes 1)
        ≡ ok (
            cursor
              (write_bytes twenty_bytes 1 (render two_members (pos 5, (true, tt)) true ++ r))
              (1 + length (render two_members (pos 5, (true, tt)) true))))
unfolding render
value_to_string-whole_example =
    value_to_string-whole two_members (pos 5, (true, tt)) true (tt, (tt, (tt, tt))) twenty_bytes 1
      20 (omega arith) (omega arith)

to_asio_endpoint-dotted_example :
    to_asio_endpoint (record { ip = 255 ∷ 255 ∷ 255 ∷ 255 ∷ []; port = 8888; flags = 1 })
    ≡ ok (dotted (255 ∷ 255 ∷ 255 ∷ 255 ∷ []), 8888)
to_asio_endpoint-dotted_example =
    to_asio_endpoint-dotted 255 255 255 255 [] 8888 1 (omega arith) (omega arith) (omega arith)
      (omega arith)

stopped_text : error_text 0xfffffc16 ≡ codes "error:-1002, message:module has been stopped."
unfolding error_text
stopped_text = refl

-- The arguments of a line of the log share one buffer.
info_log_test :
    info_log (argument integer (pos 12) (argument boolean true no_arguments))
    ≡ ok ((b'1' ∷ b'2' ∷ []) ∷ (b't' ∷ b'r' ∷ b'u' ∷ b'e' ∷ []) ∷ [])
unfolding info_log
info_log_test = refl

-- Five bytes are two words; the second one reads bytes behind the five.
print_memory_content_test :
    print_memory_content little (1 ∷ 0 ∷ 0 ∷ 0 ∷ 255 ∷ 9 ∷ 0 ∷ 0 ∷ []) 16 5 (codes "f") 3
    ≡ ok (codes "print at: f:line 3, addr:0x10, size:5\n00000x10:\t0x00000001\t0x000009ff\n")
unfolding print_memory_content
print_memory_content_test = refl

print_memory_content_short :
    print_memory_content little (1 ∷ 0 ∷ 0 ∷ 0 ∷ 255 ∷ []) 16 5 (codes "f") 3 ≡ undefined
unfolding print_memory_content
print_memory_content_short = refl
