-- ===== src/Text/Object.antt =====
-- `value_to_string` in a buffer that is large enough, reflected types included.
use new_rpc.Base.{
  ℕ, ◌+◌, ◌-◌, ◌≤◌, ◌≡◌, refl, sym, ap, ◌∙◌, Bool, true, false, List, [], ◌∷◌, ◌++◌, append-nil,
  append_assoc, arith, length, length-append,
}
use new_rpc.Serialization.Memory.{Result, ok, ◌>>=◌, Cursor, cursor, write_bytes}
use new_rpc.Serialization.Writing.{write_bytes-append, length-write_bytes, write_nil}
use new_rpc.Text.Shape.{Shape, Fields, no_fields, field, Shown, ShownFields}
use new_rpc.Text.ToString.{value_to_string, fields_to_string, step_back, separator}
use new_rpc.Text.Render.{render, render_fields}
use new_rpc.Text.Writer.{IsWriter, IsTextual, Each, object_to_string, value_writes}
use new_rpc.Text.Printing.{Prints, >>=-Prints, format_to-Prints, ok-Prints, member-Exact}

-- The members with a comma behind each, and whether there are any.
abbrev trailing : (fs : Fields) → ShownFields fs → List ℕ
trailing no_fields v = []
trailing (field name s fs) (v, vs) =
    ((name ++ (b':' ∷ [])) ++ (render s v true ++ separator)) ++ trailing fs vs

abbrev has_fields : Fields → Bool
has_fields no_fields = false
has_fields (field name s fs) = true

fields_printed :
    (fs : Fields) (vs : ShownFields fs)
    → Each Prints fs vs
    → (m : List ℕ) (p n : ℕ) → p + length (trailing fs vs) ≤ n
    → n ≤ length m
    → fields_to_string fs vs n (cursor m p)
      ≡ ok (has_fields fs, cursor (write_bytes m p (trailing fs vs)) (p + length (trailing fs vs)))
unfolding fields_to_string
fields_printed no_fields vs each m p n h k =
    let end : p + 0 ≡ p = omega arith in rw (write_nil m p, end) refl
fields_printed (field name s fs) (v, vs) each m p n h k =
    let t = (name ++ (b':' ∷ [])) ++ (render s v true ++ separator) in
    let u = trailing fs vs in
    let len = length-append t u in
    let end : p + length t + length u ≡ p + length (t ++ u) = omega arith in
    ap (λ (o : Result Cursor). o >>= fields_to_string fs vs n >>= λ (need_back, c'). ok (true, c'))
      (member-Exact name (value_to_string s v true) (render s v true) each.0 m p n (omega arith) k)
    ∙ ap (λ (o : Result (Bool × Cursor)). o >>= λ (need_back, c'). ok (true, c'))
        (fields_printed fs vs each.1 (write_bytes m p t) (p + length t) n (omega arith)
          (omega (arith, length-write_bytes m p t)))
    ∙ rw (write_bytes-append m p t u, end) refl

-- Without its last comma this is the text of the object.
trailing_lem :
    (name : List ℕ) (s : Shape) (fs : Fields) (v : Shown s) (vs : ShownFields fs)
    → trailing (field name s fs) (v, vs) ≡ render_fields (field name s fs) (v, vs) ++ separator
unfolding render_fields
trailing_lem name s no_fields v vs =
    append-nil ((name ++ (b':' ∷ [])) ++ (render s v true ++ separator))
    ∙ sym (append_assoc (name ++ (b':' ∷ [])) (render s v true) separator)
trailing_lem name s (field name' s' fs) v vs =
    let key = name ++ (b':' ∷ []) in
    let t = render s v true in
    let u = render_fields (field name' s' fs) vs in
    ap (◌++◌ (key ++ (t ++ separator))) (trailing_lem name' s' fs vs.0 vs.1)
    ∙ ap (λ x. x ++ (u ++ separator)) (sym (append_assoc key t separator))
    ∙ append_assoc (key ++ t) separator (u ++ separator)
    ∙ sym (append_assoc (key ++ t) (separator ++ u) separator)

object-Prints :
    (fs : Fields) (vs : ShownFields fs)
    → Each Prints fs vs
    → Prints (object_to_string fs vs) (render_fields fs vs)
unfolding fields_to_string step_back render_fields
object-Prints no_fields vs each m p n h k = ok-Prints m p n h k
object-Prints (field name s fs) (v, vs) each m p n h k =
    let t = render_fields (field name s fs) (v, vs) in
    let same = trailing_lem name s fs v vs in
    let len = length-append t separator in
    let end : p + length (t ++ separator) - 2 ≡ p + length t = omega arith in
    (
      separator,
      omega arith,
      ap (λ (o : Result (Bool × Cursor)). o >>= λ x. ok (step_back x.0 x.1))
            (fields_printed (field name s fs) (v, vs) each m p n (rw same (omega arith)) k)
          ∙ rw (same, end) refl,
    )

Prints-IsWriter : IsWriter (Unit {0}) Prints
Prints-IsWriter = record {
  format = format_to-Prints;
  seq = >>=-Prints;
  done = ok-Prints;
  object = λ u. object-Prints;
}

-- In a buffer with two bytes to spare behind the text of a value, `value_to_string` writes the text at
-- `pos` and moves behind it, reflected types with the names of their members included; no other byte
-- is touched but those two. The value's type has no `to_string` of its own and holds no such type, and
-- the buffer is within the memory.
pub value_to_string-whole :
    (s : Shape) (v : Shown s) (with_key : Bool)
    → IsTextual (Unit {0}) s
    → (m : List ℕ) (p buffer_len : ℕ) → p + length (render s v with_key) + 2 ≤ buffer_len
    → buffer_len ≤ length m
    → (r : List ℕ) × (length r ≤ 2)
      × (value_to_string s v with_key buffer_len (cursor m p)
          ≡ ok (
              cursor
                (write_bytes m p (render s v with_key ++ r))
                (p + length (render s v with_key))))
value_to_string-whole s v with_key h = value_writes (Unit {0}) Prints Prints-IsWriter s v with_key h
