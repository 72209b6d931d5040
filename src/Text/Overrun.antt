-- ===== src/Text/Overrun.antt =====
-- `kv_to_string` allows `buffer_len` bytes from `pos` on, not those that are left.
use new_rpc.Base.{
  ℕ, ◌+◌, ◌≤◌, ◌<◌, ◌≡◌, true, false, List, [], ◌∷◌, ◌++◌, arith, length, take, ltb, length-append,
  lt→ltb,
}
use new_rpc.Serialization.Memory.{undefined, cursor}
use new_rpc.Text.Shape.{Shape, Fields, reflected, field, Shown, ShownFields}
use new_rpc.Text.ToString.{value_to_string}
use new_rpc.Text.Truncation.{take_all}

-- A member's name that fits the buffer's length but not what is left of it is written past the end: in
-- a buffer that is all of the memory, `value_to_string` of a reflected object has then no defined
-- behaviour, at its first member.
pub value_to_string-overrun :
    (name : List ℕ) (s : Shape) (fs : Fields) (v : Shown s) (vs : ShownFields fs) (m : List ℕ)
    (p : ℕ)
    → length name < length m
    → length m ≤ p + length name
    → value_to_string (reflected (field name s fs)) (v, vs) false (length m) (cursor m p)
      ≡ undefined
unfolding value_to_string
value_to_string-overrun name s fs v vs m p small over =
    let size : length (name ++ (b':' ∷ [])) ≡ length name + 1 =
      omega (arith, length-append name (b':' ∷ [])) in
    let whole : take (length m) (name ++ (b':' ∷ [])) ≡ name ++ (b':' ∷ []) =
      take_all (length m) (name ++ (b':' ∷ [])) (omega arith) in
    let past : ltb (length m) (p + length (name ++ (b':' ∷ []))) ≡ true =
      lt→ltb _ _ (omega arith) in
    rw (whole, past)
