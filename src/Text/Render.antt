-- ===== src/Text/Render.antt =====
-- What a value looks like, with no buffer.
use new_rpc.Base.{
  ℕ, zero, suc, ◌-◌, Bool, true, List, [], ◌∷◌, ◌++◌, none, some, length, ltb, ◌==◌, if◌then◌else◌,
}
use new_rpc.Text.Number.{integer_text, address_text, bool_text, double_text}
use new_rpc.Text.Shape.{
  Shape, Fields, no_fields, field, text, void_pointer, enumeration, boolean, integer, character,
  floating, to_string_able, formattable, pointer, range, reflected, Shown, ShownFields,
}
use new_rpc.Text.ToString.{null_text, separator, more_text}

abbrev pub in_braces : Bool → List ℕ → List ℕ
in_braces with_key t = if with_key then (b'{' ∷ []) ++ (t ++ (b'}' ∷ [])) else t

-- The texts of the first `n` elements, with commas between them.
unfoldable pub render_list {ℓ} : {A : Type ℓ} → (A → List ℕ) → (n : ℕ) → List A → List ℕ
render_list f zero xs = []
render_list f (suc n) [] = []
render_list f (suc n) (x ∷ []) = f x
render_list f (suc zero) (x ∷ y ∷ xs) = f x
render_list f (suc (suc n)) (x ∷ y ∷ xs) = f x ++ (separator ++ render_list f (suc n) (y ∷ xs))

unfoldable pub render_range {ℓ} : {A : Type ℓ} → (A → List ℕ) → List A → List ℕ
unfolding render_list more_text
render_range f xs =
    (b'[' ∷ [])
    ++ (render_list f 8 xs
        ++ ((if ltb 8 (length xs) then more_text (length xs - 8) else []) ++ (b']' ∷ [])))

-- A type's own `to_string` has no text here. The members of an object have their names in front.
unfoldable mutual
  unfolding render_range integer_text address_text bool_text double_text

  pub render : (s : Shape) → Shown s → (with_key : Bool) → List ℕ
  render text v with_key = v
  render void_pointer p with_key = if p == 0 then null_text else address_text p
  render enumeration v with_key = integer_text v
  render boolean v with_key = bool_text v
  render integer v with_key = integer_text v
  render character v with_key = b'\'' ∷ v ∷ b'\'' ∷ []
  render floating v with_key = double_text v
  render to_string_able f with_key = []
  render formattable v with_key = in_braces with_key v
  render (pointer s) none with_key = null_text
  render (pointer s) (some (p, x)) with_key =
      (b'(' ∷ (address_text p ++ (b')' ∷ b':' ∷ []))) ++ render s x with_key
  render (range s) xs with_key = in_braces with_key (render_range (λ x. render s x true) xs)
  render (reflected fs) vs with_key = in_braces with_key (render_fields fs vs)

  pub render_fields : (fs : Fields) → ShownFields fs → List ℕ
  render_fields no_fields v = []
  render_fields (field name s no_fields) (v, vs) = (name ++ (b':' ∷ [])) ++ render s v true
  render_fields (field name s (field name' s' fs)) (v, vs) =
      ((name ++ (b':' ∷ [])) ++ render s v true)
      ++ (separator ++ render_fields (field name' s' fs) vs)

-- No reflected type and no `to_string` of its own.
abbrev pub IsRendered : Shape → Type 0
IsRendered (pointer s) = IsRendered s
IsRendered (range s) = IsRendered s
IsRendered (reflected fs) = ⊥
IsRendered to_string_able = ⊥
IsRendered text = Unit {0}
IsRendered void_pointer = Unit {0}
IsRendered enumeration = Unit {0}
IsRendered boolean = Unit {0}
IsRendered integer = Unit {0}
IsRendered character = Unit {0}
IsRendered floating = Unit {0}
IsRendered formattable = Unit {0}
