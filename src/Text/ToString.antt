-- ===== src/Text/ToString.antt =====
-- `value_to_string` and `kv_to_string`, one branch for each branch of the source.
use new_rpc.Base.{
  ℕ, zero, suc, ◌-◌, Bool, true, false, not, ◌&&◌, List, [], ◌∷◌, ◌++◌, Option, none, some, length,
  ltb, ◌==◌, if◌then◌else◌,
}
use new_rpc.Serialization.Memory.{Result, ok, ◌>>=◌, Cursor}
use new_rpc.Text.Number.{pos, integer_text, address_text, bool_text, double_text}
use new_rpc.Text.Shape.{
  Shape, Fields, text, void_pointer, enumeration, boolean, integer, character, floating,
  to_string_able, formattable, pointer, range, reflected, no_fields, field, Method, Shown,
  ShownFields,
}
use new_rpc.Text.Buffer.{format_to, format_key_to}

-- MAX_PRINT_SIZE
abbrev pub max_print_size : ℕ
max_print_size = 8

abbrev pub is_empty_list {ℓ} : {A : Type ℓ} → List A → Bool
is_empty_list [] = true
is_empty_list (x ∷ xs) = false

abbrev pub null_text : List ℕ
null_text = b'N' ∷ b'U' ∷ b'L' ∷ b'L' ∷ []

abbrev pub separator : List ℕ
separator = b',' ∷ b' ' ∷ []

-- `..({:d} more)`
unfoldable pub more_text : ℕ → List ℕ
unfolding integer_text
more_text n =
    b'.' ∷ b'.' ∷ b'(' ∷ (integer_text (pos n) ++ (b' ' ∷ b'm' ∷ b'o' ∷ b'r' ∷ b'e' ∷ b')' ∷ []))

-- Braces around what has a key.
unfoldable pub braced : Bool → Method → Method
unfolding format_to
braced true f buffer_len c =
    format_to (b'{' ∷ []) buffer_len c >>= f buffer_len >>= format_to (b'}' ∷ []) buffer_len
braced false f buffer_len c = f buffer_len c

-- The text if the test holds.
unfoldable pub format_if : Bool → List ℕ → Method
unfolding format_to
format_if true t buffer_len c = format_to t buffer_len c
format_if false t buffer_len c = ok c

-- The loop over a range, with `left` elements still to be printed.
unfoldable pub elements_to_string {ℓ} : {A : Type ℓ} → (A → Method) → (left : ℕ) → List A → Method
unfolding format_if
elements_to_string f zero xs buffer_len c = ok c
elements_to_string f (suc left) [] buffer_len c = ok c
elements_to_string f (suc left) (x ∷ xs) buffer_len c =
    f x buffer_len c
    >>= format_if (not (left == 0) && not (is_empty_list xs)) separator buffer_len
    >>= elements_to_string f left xs buffer_len

unfoldable pub range_to_string {ℓ} : {A : Type ℓ} → (A → Method) → List A → Method
unfolding format_to format_if more_text elements_to_string
range_to_string f xs buffer_len c =
    format_to (b'[' ∷ []) buffer_len c
    >>= elements_to_string f max_print_size xs buffer_len
    >>= format_if (ltb max_print_size (length xs)) (more_text (length xs - max_print_size))
        buffer_len
    >>= format_to (b']' ∷ []) buffer_len

unfoldable pub void_pointer_to_string : ℕ → Method
unfolding format_to address_text
void_pointer_to_string p buffer_len c =
    if p == 0 then format_to null_text buffer_len c else format_to (address_text p) buffer_len c

-- `({:#x}):` and what the pointer points to.
unfoldable pub pointer_to_string {ℓ} : {A : Type ℓ} → (A → Method) → Option (ℕ × A) → Method
unfolding format_to address_text
pointer_to_string f none buffer_len c = format_to null_text buffer_len c
pointer_to_string f (some (p, x)) buffer_len c =
    format_to (b'(' ∷ (address_text p ++ (b')' ∷ b':' ∷ []))) buffer_len c >>= f x buffer_len

-- `if (need_back) pos -= 2`
unfoldable pub step_back : Bool → Cursor → Cursor
step_back true c = record c { pos = c.pos - 2 }
step_back false c = c

-- `kv_to_string` of a value, which is written by `f`.
unfoldable pub kv_to_string : (key : List ℕ) → Method → Method
unfolding format_key_to
kv_to_string key f buffer_len c = format_key_to (key ++ (b':' ∷ [])) buffer_len c >>= f buffer_len

unfoldable mutual
  unfolding format_to kv_to_string braced range_to_string void_pointer_to_string pointer_to_string
      step_back integer_text bool_text double_text

  pub value_to_string : (s : Shape) → Shown s → (with_key : Bool) → Method
  value_to_string text v with_key buffer_len c = format_to v buffer_len c
  value_to_string void_pointer p with_key buffer_len c = void_pointer_to_string p buffer_len c
  value_to_string enumeration v with_key buffer_len c = format_to (integer_text v) buffer_len c
  value_to_string boolean v with_key buffer_len c = format_to (bool_text v) buffer_len c
  value_to_string integer v with_key buffer_len c = format_to (integer_text v) buffer_len c
  value_to_string character v with_key buffer_len c =
      format_to (b'\'' ∷ v ∷ b'\'' ∷ []) buffer_len c
  value_to_string floating v with_key buffer_len c = format_to (double_text v) buffer_len c
  value_to_string to_string_able f with_key buffer_len c = braced with_key f buffer_len c
  value_to_string formattable v with_key buffer_len c = braced with_key (format_to v) buffer_len c
  value_to_string (pointer s) v with_key buffer_len c =
      pointer_to_string (λ x. value_to_string s x with_key) v buffer_len c
  value_to_string (range s) v with_key buffer_len c =
      braced with_key (range_to_string (λ x. value_to_string s x true) v) buffer_len c
  value_to_string (reflected fs) v with_key buffer_len c =
      braced with_key
        (λ len c'.
          fields_to_string fs v len c' >>= λ (need_back, c''). ok (step_back need_back c''))
        buffer_len c

  -- `reflect_for_each`: each member with its name and a comma; whether there was one.
  pub fields_to_string : (fs : Fields) → ShownFields fs → ℕ → Cursor → Result (Bool × Cursor)
  fields_to_string no_fields v buffer_len c = ok (false, c)
  fields_to_string (field name s fs) (v, vs) buffer_len c =
      kv_to_string name (value_to_string s v true) buffer_len c
      >>= format_to separator buffer_len
      >>= fields_to_string fs vs buffer_len
      >>= λ (need_back, c'). ok (true, c')
