-- ===== src/Text/Writer.antt =====
-- Whatever relates methods with the texts that they write, and is kept by `format_to` and by calls one
-- after the other, relates `value_to_string` with the text of a value.
use mathlib.Core.Path.{subst}
use new_rpc.Base.{
  ℕ, zero, suc, ◌-◌, ◌≡◌, refl, sym, Bool, true, false, not, ◌&&◌, List, [], ◌∷◌, ◌++◌, append-nil,
  append_assoc, none, some, arith, length, ltb, ◌==◌, if◌then◌else◌,
}
use new_rpc.Serialization.Memory.{ok, ◌>>=◌}
use new_rpc.Text.Number.{integer_text, address_text, bool_text, double_text}
use new_rpc.Text.Shape.{
  Shape, text, void_pointer, enumeration, boolean, integer, character, floating, to_string_able,
  formattable, pointer, range, reflected, Method, Shown, Fields, no_fields, field, ShownFields,
}
use new_rpc.Text.Buffer.{format_to}
use new_rpc.Text.ToString.{
  value_to_string, fields_to_string, step_back, braced, format_if, elements_to_string,
  range_to_string, void_pointer_to_string, is_empty_list, null_text, separator, more_text,
}
use new_rpc.Text.Render.{in_braces, render_list, render_range, render, render_fields}

-- All members of an object are related with their texts.
abbrev pub Each : (Method → List ℕ → Type 0) → (fs : Fields) → ShownFields fs → Type 0
Each W no_fields v = Unit {0}
Each W (field name s fs) (v, vs) = W (value_to_string s v true) (render s v true) × Each W fs vs

-- The text of an object without its braces.
abbrev pub object_to_string : (fs : Fields) → ShownFields fs → Method
object_to_string fs vs buffer_len c =
    fields_to_string fs vs buffer_len c >>= λ (need_back, c'). ok (step_back need_back c')

-- `Objects` says whether objects are related too.
pub record IsWriter (Objects : Type 0) (W : Method → List ℕ → Type 0) : Type 0 where
  pub format : (t : List ℕ) → W (format_to t) t
  pub seq :
      (w w' : Method) (t u : List ℕ)
      → W w t
      → W w' u
      → W (λ buffer_len c. w buffer_len c >>= w' buffer_len) (t ++ u)
  pub done : W (λ buffer_len c. ok c) []
  pub object :
      Objects
      → (fs : Fields) (vs : ShownFields fs) → Each W fs vs
      → W (object_to_string fs vs) (render_fields fs vs)

-- The types with no `to_string` of their own; and with no reflected type, but for `Objects`.
abbrev mutual
  pub IsTextual : Type 0 → Shape → Type 0
  IsTextual o (pointer s) = IsTextual o s
  IsTextual o (range s) = IsTextual o s
  IsTextual o (reflected fs) = o × AreTextual o fs
  IsTextual o to_string_able = ⊥
  IsTextual o text = Unit {0}
  IsTextual o void_pointer = Unit {0}
  IsTextual o enumeration = Unit {0}
  IsTextual o boolean = Unit {0}
  IsTextual o integer = Unit {0}
  IsTextual o character = Unit {0}
  IsTextual o floating = Unit {0}
  IsTextual o formattable = Unit {0}

  pub AreTextual : Type 0 → Fields → Type 0
  AreTextual o no_fields = Unit {0}
  AreTextual o (field name s fs) = IsTextual o s × AreTextual o fs

module _ (Objects : Type 0) (W : Method → List ℕ → Type 0) (l : IsWriter Objects W) where
  same_writes : (w : Method) (t u : List ℕ) → t ≡ u → W w t → W w u
  same_writes w t u e s = subst (W w) e s

  braced_writes : (b : Bool) (w : Method) (t : List ℕ) → W w t → W (braced b w) (in_braces b t)
  unfolding braced
  braced_writes false w t s = s
  braced_writes true w t s =
      same_writes (braced true w) (((b'{' ∷ []) ++ t) ++ (b'}' ∷ [])) (in_braces true t)
        (append_assoc (b'{' ∷ []) t (b'}' ∷ []))
        (l.seq (λ n c. format_to (b'{' ∷ []) n c >>= w n) (format_to (b'}' ∷ [])) ((b'{' ∷ []) ++ t)
          (b'}' ∷ []) (l.seq (format_to (b'{' ∷ [])) w (b'{' ∷ []) t (l.format (b'{' ∷ [])) s)
          (l.format (b'}' ∷ [])))

  format_if_writes : (b : Bool) (t : List ℕ) → W (format_if b t) (if b then t else [])
  unfolding format_if
  format_if_writes true t = l.format t
  format_if_writes false t = l.done

  module _ {ℓ} {A : Type ℓ} (f : A → Method) (g : A → List ℕ) (each : (x : A) → W (f x) (g x)) where
    -- One element, the comma if the test holds, and the others.
    element_writes :
        (b : Bool) (left : ℕ) (x : A) (xs : List A) (t : List ℕ)
        → (not (left == 0) && not (is_empty_list xs)) ≡ b
        → W (elements_to_string f left xs) t
        → W (elements_to_string f (suc left) (x ∷ xs)) (g x ++ ((if b then separator else []) ++ t))
    unfolding elements_to_string
    element_writes b left x xs t e rest =
        subst
          (λ (comma : Bool).
            W (λ n c. f x n c >>= format_if comma separator n >>= elements_to_string f left xs n)
              (g x ++ ((if b then separator else []) ++ t)))
          (sym e)
          (same_writes
            (λ n c. f x n c >>= format_if b separator n >>= elements_to_string f left xs n)
            ((g x ++ (if b then separator else [])) ++ t)
            (g x ++ ((if b then separator else []) ++ t))
            (append_assoc (g x) (if b then separator else []) t)
            (l.seq (λ n c. f x n c >>= format_if b separator n) (elements_to_string f left xs)
              (g x ++ (if b then separator else [])) t
              (l.seq (f x) (format_if b separator) (g x) (if b then separator else []) (each x)
                (format_if_writes b separator))
              rest))

    elements_writes : (n : ℕ) (xs : List A) → W (elements_to_string f n xs) (render_list g n xs)
    unfolding elements_to_string render_list
    elements_writes zero xs = l.done
    elements_writes (suc n) [] = l.done
    elements_writes (suc zero) (x ∷ []) =
        same_writes (elements_to_string f 1 (x ∷ [])) (g x ++ []) (g x) (append-nil (g x))
          (element_writes false 0 x [] [] refl l.done)
    elements_writes (suc (suc n)) (x ∷ []) =
        same_writes (elements_to_string f (suc (suc n)) (x ∷ [])) (g x ++ []) (g x)
          (append-nil (g x)) (element_writes false (suc n) x [] [] (ground arith) l.done)
    elements_writes (suc zero) (x ∷ y ∷ xs) =
        same_writes (elements_to_string f 1 (x ∷ y ∷ xs)) (g x ++ []) (g x) (append-nil (g x))
          (element_writes false 0 x (y ∷ xs) [] refl l.done)
    elements_writes (suc (suc n)) (x ∷ y ∷ xs) =
        element_writes true (suc n) x (y ∷ xs) (render_list g (suc n) (y ∷ xs)) (ground arith)
          (elements_writes (suc n) (y ∷ xs))

    range_writes : (xs : List A) → W (range_to_string f xs) (render_range g xs)
    unfolding range_to_string render_range
    range_writes xs =
        let b = ltb 8 (length xs) in
        let more = more_text (length xs - 8) in
        let list = render_list g 8 xs in
        same_writes (range_to_string f xs)
          ((((b'[' ∷ []) ++ list) ++ (if b then more else [])) ++ (b']' ∷ [])) (render_range g xs)
          (append_assoc ((b'[' ∷ []) ++ list) (if b then more else []) (b']' ∷ []))
          (l.seq
            (λ n c.
              format_to (b'[' ∷ []) n c >>= elements_to_string f 8 xs n >>= format_if b more n)
            (format_to (b']' ∷ [])) (((b'[' ∷ []) ++ list) ++ (if b then more else [])) (b']' ∷ [])
            (l.seq (λ n c. format_to (b'[' ∷ []) n c >>= elements_to_string f 8 xs n)
              (format_if b more) ((b'[' ∷ []) ++ list) (if b then more else [])
              (l.seq (format_to (b'[' ∷ [])) (elements_to_string f 8 xs) (b'[' ∷ []) list
                (l.format (b'[' ∷ [])) (elements_writes 8 xs))
              (format_if_writes b more))
            (l.format (b']' ∷ [])))

  void_pointer_writes :
      (p : ℕ) → W (void_pointer_to_string p) (if p == 0 then null_text else address_text p)
  unfolding void_pointer_to_string
  void_pointer_writes p =
      elim (p == 0)
        as (λ b.
          W (λ n c. if b then format_to null_text n c else format_to (address_text p) n c)
            (if b then null_text else address_text p)) [
              | true ↦ l.format null_text
              | false ↦ l.format (address_text p)
            ]

  mutual
    unfolding value_to_string render

    pub value_writes :
        (s : Shape) (v : Shown s) (with_key : Bool)
        → IsTextual Objects s
        → W (value_to_string s v with_key) (render s v with_key)
    value_writes text v b h = l.format v
    value_writes void_pointer p b h = void_pointer_writes p
    value_writes enumeration v b h = l.format (integer_text v)
    value_writes boolean v b h = l.format (bool_text v)
    value_writes integer v b h = l.format (integer_text v)
    value_writes character v b h = l.format (b'\'' ∷ v ∷ b'\'' ∷ [])
    value_writes floating v b h = l.format (double_text v)
    value_writes to_string_able f b h = absurd h
    value_writes formattable v b h = braced_writes b (format_to v) v (l.format v)
    value_writes (pointer s) none b h = l.format null_text
    value_writes (pointer s) (some (p, x)) b h =
        let head = b'(' ∷ (address_text p ++ (b')' ∷ b':' ∷ [])) in
        l.seq (format_to head) (value_to_string s x b) head (render s x b) (l.format head)
          (value_writes s x b h)
    value_writes (range s) xs b h =
        braced_writes b (range_to_string (λ x. value_to_string s x true) xs)
          (render_range (λ x. render s x true) xs)
          (range_writes (λ x. value_to_string s x true) (λ x. render s x true)
            (λ x. value_writes s x true h) xs)
    value_writes (reflected fs) vs b h =
        braced_writes b (object_to_string fs vs) (render_fields fs vs)
          (l.object h.0 fs vs (fields_write fs vs h.1))

    fields_write : (fs : Fields) (vs : ShownFields fs) → AreTextual Objects fs → Each W fs vs
    fields_write no_fields vs h = tt
    fields_write (field name s fs) (v, vs) h = (value_writes s v true h.0, fields_write fs vs h.1)
