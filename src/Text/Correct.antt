-- ===== src/Text/Correct.antt =====
-- `value_to_string` against the text of a value.
use new_rpc.Base.{ℕ, ◌≤◌, ◌≡◌, Bool, length, List}
use new_rpc.Serialization.Memory.{ok, cursor}
use new_rpc.Text.Shape.{
  Shape, text, void_pointer, enumeration, boolean, integer, character, floating, to_string_able,
  formattable, pointer, range, reflected, Shown,
}
use new_rpc.Text.ToString.{value_to_string}
use new_rpc.Text.Render.{render, IsRendered}
use new_rpc.Text.Truncation.{Shows, cut_off, format_to-Shows, >>=-Shows, ok-Shows}
use new_rpc.Text.Writer.{IsWriter, IsTextual, value_writes}

Shows-IsWriter : IsWriter ⊥ Shows
Shows-IsWriter = record {
  format = format_to-Shows;
  seq = >>=-Shows;
  done = ok-Shows;
  object = λ h. absurd h;
}

IsRendered-IsTextual : (s : Shape) → IsRendered s → IsTextual ⊥ s
IsRendered-IsTextual text h = tt
IsRendered-IsTextual void_pointer h = tt
IsRendered-IsTextual enumeration h = tt
IsRendered-IsTextual boolean h = tt
IsRendered-IsTextual integer h = tt
IsRendered-IsTextual character h = tt
IsRendered-IsTextual floating h = tt
IsRendered-IsTextual to_string_able h = absurd h
IsRendered-IsTextual formattable h = tt
IsRendered-IsTextual (pointer s) h = IsRendered-IsTextual s h
IsRendered-IsTextual (range s) h = IsRendered-IsTextual s h
IsRendered-IsTextual (reflected fs) h = absurd h

-- `value_to_string` writes the text of the value at `pos`, as much of it as stands below `buffer_len`,
-- and touches no other byte; `pos` goes behind the text, or to `buffer_len` if the text is cut off. Of
-- a range the first eight elements are shown, and the number of the others. The value's type is not
-- reflected, has no `to_string` of its own, and holds no such type; `pos` is not past `buffer_len`, nor
-- `buffer_len` past the memory.
pub value_to_string-render :
    (s : Shape) (v : Shown s) (with_key : Bool)
    → IsRendered s
    → (m : List ℕ) (p buffer_len : ℕ) → p ≤ buffer_len
    → buffer_len ≤ length m
    → value_to_string s v with_key buffer_len (cursor m p)
      ≡ ok (cut_off m p (render s v with_key) buffer_len)
value_to_string-render s v with_key h =
    value_writes ⊥ Shows Shows-IsWriter s v with_key (IsRendered-IsTextual s h)
