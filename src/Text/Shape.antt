-- ===== src/Text/Shape.antt =====
-- The types that `value_to_string` tells apart, and their values.
use new_rpc.Base.{ℕ, Bool, List, Option}
use new_rpc.Serialization.Memory.{Result, Cursor}
use new_rpc.Text.Number.{ℤ, Double}

-- `text` is for `char *`, `const char *`, `std::string` and `std::string_view`; a `void_pointer` cannot
-- be dereferenced; `to_string_able` is for types with a `to_string` of their own and `formattable` for
-- those with a `std::formatter`; a field of a reflected type has a name.
mutual
  pub data Shape : Type 0 where
    text void_pointer enumeration boolean integer character floating : Shape
    to_string_able formattable : Shape
    pointer range : Shape → Shape
    reflected : Fields → Shape

  pub data Fields : Type 0 where
    no_fields : Fields
    field : (name : List ℕ) → Shape → Fields → Fields

-- A `to_string` method, applied to its object: it takes `buffer_len`, the memory and `pos`.
abbrev pub Method : Type 0
Method = ℕ → Cursor → Result Cursor

-- A pointer is null, or an address and what stands there. A formattable object is the text that its
-- formatter gives.
abbrev mutual
  pub Shown : Shape → Type 0
  Shown text = List ℕ
  Shown void_pointer = ℕ
  Shown enumeration = ℤ
  Shown boolean = Bool
  Shown integer = ℤ
  Shown character = ℕ
  Shown floating = Double
  Shown to_string_able = Method
  Shown formattable = List ℕ
  Shown (pointer s) = Option (ℕ × Shown s)
  Shown (range s) = List (Shown s)
  Shown (reflected fs) = ShownFields fs

  pub ShownFields : Fields → Type 0
  ShownFields no_fields = Unit {0}
  ShownFields (field name s fs) = Shown s × ShownFields fs
