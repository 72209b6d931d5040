-- ===== src/Text/Truncation.antt =====
-- `value_to_string` writes the text of a value, cut off where the buffer ends.
use new_rpc.Base.{
  ℕ, zero, suc, ◌+◌, ◌-◌, ◌≤◌, ◌≡◌, refl, sym, ap, ◌∙◌, inl, inr, true, false, Bool-cases, List, [],
  ◌∷◌, ◌++◌, arith, length, take, ltb, leb, if◌then◌else◌, length-append, take-append_le,
  take-append_ge, le→ltb, ltb→le, ltb→lt,
}
use new_rpc.Serialization.Memory.{ok, ◌>>=◌, Cursor, cursor, write_bytes}
use new_rpc.Serialization.Writing.{write_bytes-append, length-write_bytes, write_nil}
use new_rpc.Text.Shape.{Method}
use new_rpc.Text.Buffer.{format_to}

-- The text at `p`, as much of it as stands below `buffer_len`, and `pos` behind that.
abbrev pub cut_off : List ℕ → ℕ → List ℕ → ℕ → Cursor
cut_off m p t buffer_len =
    cursor (write_bytes m p (take (buffer_len - p) t))
      (if leb (p + length t) buffer_len then p + length t else buffer_len)

abbrev pub Shows : Method → List ℕ → Type 0
Shows w t =
    (m : List ℕ) (p buffer_len : ℕ)
    → p ≤ buffer_len
    → buffer_len ≤ length m
    → w buffer_len (cursor m p) ≡ ok (cut_off m p t buffer_len)

length-take : (n : ℕ) (t : List ℕ) → length (take n t) ≤ n
length-take zero t = omega arith
length-take (suc n) [] = omega arith
length-take (suc n) (x ∷ t) = omega (arith, length-take n t)

pub take_all : (n : ℕ) (t : List ℕ) → length t ≤ n → take n t ≡ t
take_all zero [] h = refl
take_all zero (x ∷ t) h = absurd (omega arith)
take_all (suc n) [] h = refl
take_all (suc n) (x ∷ t) h = ap (◌∷◌ x) (take_all n t (omega arith))

-- A text that fits goes out whole,
pub cut_off-whole :
    (m : List ℕ) (p : ℕ) (t : List ℕ) (buffer_len : ℕ)
    → p + length t ≤ buffer_len
    → cut_off m p t buffer_len ≡ cursor (write_bytes m p t) (p + length t)
cut_off-whole m p t buffer_len h =
    let all : take (buffer_len - p) t ≡ t = take_all (buffer_len - p) t (omega arith) in
    let fits : leb (p + length t) buffer_len ≡ true = ground arith in rw (all, fits)

-- and of one that does not, `pos` stops at the end.
cut_off-part :
    (m : List ℕ) (p : ℕ) (t : List ℕ) (buffer_len : ℕ)
    → buffer_len ≤ p + length t
    → cut_off m p t buffer_len ≡ cursor (write_bytes m p (take (buffer_len - p) t)) buffer_len
cut_off-part m p t buffer_len h =
    let end : (if leb (p + length t) buffer_len then p + length t else buffer_len) ≡ buffer_len =
      ground arith in
    rw end

pub format_to-Shows : (t : List ℕ) → Shows (format_to t) t
unfolding format_to
format_to-Shows t m p buffer_len h k = elim (Bool-cases (ltb p buffer_len)) [
  | inl room ↦
      let inside : ltb (length m) (p + length (take (buffer_len - p) t)) ≡ false =
        le→ltb _ _ (omega (arith, length-take (buffer_len - p) t, ltb→lt _ _ room)) in
      rw (room, inside)
  | inr full ↦
      let none_left : buffer_len - p ≡ 0 = omega (arith, ltb→le _ _ full) in
      let here : buffer_len ≡ p = omega (arith, ltb→le _ _ full) in
      rw full (
        ap (λ m'. ok (cursor m' p)) (sym (write_nil m p))
        ∙ ap (λ n. ok (cursor (write_bytes m p (take n t)) p)) (sym none_left)
        ∙ ap (λ n. ok (cursor (write_bytes m p (take (buffer_len - p) t)) n)) (sym here)
        ∙ ap ok (sym (cut_off-part m p t buffer_len (omega arith))))
]

pub >>=-Shows :
    (w w' : Method) (t u : List ℕ)
    → Shows w t
    → Shows w' u
    → Shows (λ buffer_len c. w buffer_len c >>= w' buffer_len) (t ++ u)
>>=-Shows w w' t u f g m p buffer_len h k = elim (Bool-cases (leb (p + length t) buffer_len)) [
  | inl room ↦
      let fits : p + length t ≤ buffer_len = ground arith in
      let next = write_bytes m p t in
      let split : take (buffer_len - p) (t ++ u) ≡ t ++ take (buffer_len - (p + length t)) u =
        take-append_ge (buffer_len - p) t u (omega arith) ∙ ap (λ n. t ++ take n u) (omega arith) in
      let end : p + length t + length u ≡ p + length (t ++ u) = omega (arith, length-append t u) in
      rw (f m p buffer_len h k, cut_off-whole m p t buffer_len fits)
        (g next (p + length t) buffer_len fits (omega (arith, length-write_bytes m p t))
          ∙ rw (write_bytes-append m p t (take (buffer_len - (p + length t)) u), end, split) refl)
  | inr full ↦
      let over : buffer_len ≤ p + length t = ground arith in
      let next = write_bytes m p (take (buffer_len - p) t) in
      let same : take (buffer_len - p) (t ++ u) ≡ take (buffer_len - p) t =
        take-append_le (buffer_len - p) t u (omega arith) in
      let none_left : buffer_len - buffer_len ≡ 0 = omega arith in
      rw (f m p buffer_len h k, cut_off-part m p t buffer_len over)
        (g next buffer_len buffer_len (omega arith)
            (omega (arith, length-write_bytes m p (take (buffer_len - p) t)))
          ∙ ap ok (cut_off-part next buffer_len u buffer_len (omega arith))
          ∙ rw (none_left, write_nil next buffer_len)
              (ap (λ s. ok (cursor (write_bytes m p s) buffer_len)) (sym same)
                ∙ ap ok (
                    sym (cut_off-part m p (t ++ u) buffer_len (omega (arith, length-append t u))))))
]

pub ok-Shows : Shows (λ buffer_len c. ok c) []
ok-Shows m p buffer_len h k =
    ap (λ m'. ok (cursor m' p)) (sym (write_nil m p))
    ∙ ap (λ n. ok (cursor (write_bytes m p []) n)) (omega arith)
    ∙ ap ok (sym (cut_off-whole m p [] buffer_len (omega arith)))
