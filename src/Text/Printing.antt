-- ===== src/Text/Printing.antt =====
-- Methods that write a text into a buffer that is large enough.
use new_rpc.Base.{
  ℕ, zero, suc, ◌+◌, ◌≤◌, ◌≡◌, refl, sym, ap, ◌∙◌, false, List, [], ◌∷◌, ◌++◌, append-nil,
  append_assoc, arith, length, take, drop, length-append, length-drop, drop_all, ltb, le→ltb,
}
use new_rpc.Serialization.Memory.{
  Result, ok, thrown, undefined, aborted, ◌>>=◌, cursor, write_bytes,
}
use new_rpc.Serialization.Writing.{write_bytes-append, length-write_bytes, write_nil}
use new_rpc.Text.Shape.{Method}
use new_rpc.Text.Buffer.{format_to, format_key_to}
use new_rpc.Text.ToString.{kv_to_string, separator}
use new_rpc.Text.Truncation.{take_all, cut_off-whole, format_to-Shows}

-- The method writes the text at `pos` and moves behind it; up to two bytes behind it may be written too.
abbrev pub Prints : Method → List ℕ → Type 0
Prints w t =
    (m : List ℕ) (p n : ℕ)
    → p + length t + 2 ≤ n
    → n ≤ length m
    → (r : List ℕ) × (length r ≤ 2)
      × (w n (cursor m p) ≡ ok (cursor (write_bytes m p (t ++ r)) (p + length t)))

-- The method writes the text and nothing else.
abbrev pub Exact : Method → List ℕ → Type 0
Exact w t =
    (m : List ℕ) (p n : ℕ)
    → p + length t ≤ n
    → n ≤ length m
    → w n (cursor m p) ≡ ok (cursor (write_bytes m p t) (p + length t))

format_to-Exact : (t : List ℕ) → Exact (format_to t) t
format_to-Exact t m p n h k =
    format_to-Shows t m p n (omega arith) k ∙ ap ok (cut_off-whole m p t n h)

format_key_to-Exact : (t : List ℕ) → Exact (format_key_to t) t
unfolding format_key_to
format_key_to-Exact t m p n h k =
    let whole : take n t ≡ t = take_all n t (omega arith) in
    let inside : ltb (length m) (p + length t) ≡ false = le→ltb _ _ (omega arith) in
    rw (whole, inside) refl

>>=-Exact :
    (w w' : Method) (t u : List ℕ) → Exact w t → Exact w' u → Exact (λ n c. w n c >>= w' n) (t ++ u)
>>=-Exact w w' t u f g m p n h k =
    let len = length-append t u in
    let end : p + length t + length u ≡ p + length (t ++ u) = omega arith in
    rw (f m p n (omega arith) k) (
      g (write_bytes m p t) (p + length t) n (omega arith) (omega (arith, length-write_bytes m p t))
      ∙ rw (write_bytes-append m p t u, end) refl)

-- What is written over `r` hides the front of it.
overwrite :
    (m : List ℕ) (q : ℕ) (r s : List ℕ)
    → write_bytes (write_bytes m q r) q s ≡ write_bytes m q (s ++ drop (length s) r)
unfolding write_bytes
overwrite [] q r s = refl
overwrite (x ∷ m) (suc q) r s = ap (◌∷◌ x) (overwrite m q r s)
overwrite (x ∷ m) zero [] [] = refl
overwrite (x ∷ m) zero (b ∷ r) [] = refl
overwrite (x ∷ m) zero [] (a ∷ s) = rw (append-nil s) refl
overwrite (x ∷ m) zero (b ∷ r) (a ∷ s) = ap (◌∷◌ a) (overwrite m zero r s)

over_rest :
    (m : List ℕ) (p : ℕ) (t r s : List ℕ)
    → write_bytes (write_bytes m p (t ++ r)) (p + length t) s
      ≡ write_bytes m p (t ++ (s ++ drop (length s) r))
over_rest m p t r s =
    ap (λ x. write_bytes x (p + length t) s) (sym (write_bytes-append m p t r))
    ∙ overwrite (write_bytes m p t) (p + length t) r s
    ∙ write_bytes-append m p t (s ++ drop (length s) r)

pub >>=-Prints :
    (w w' : Method) (t u : List ℕ)
    → Prints w t
    → Prints w' u
    → Prints (λ n c. w n c >>= w' n) (t ++ u)
>>=-Prints w w' t u f g m p n h k =
    let len = length-append t u in
    let (r, short, first) = f m p n (omega arith) k in
    let m1 = write_bytes m p (t ++ r) in
    let (r', short', second) =
      g m1 (p + length t) n (omega arith) (omega (arith, length-write_bytes m p (t ++ r))) in
    let rest = drop (length (u ++ r')) r in
    let end : p + length t + length u ≡ p + length (t ++ u) = omega arith in
    let same : t ++ ((u ++ r') ++ rest) ≡ (t ++ u) ++ (r' ++ rest) =
      ap (◌++◌ t) (append_assoc u r' rest) ∙ sym (append_assoc t u (r' ++ rest)) in
    (
      r' ++ rest,
      omega (arith, length-append r' rest, length-drop (length (u ++ r')) r, length-append u r'),
      rw first (second ∙ rw (over_rest m p t r (u ++ r'), same, end) refl),
    )

pub format_to-Prints : (t : List ℕ) → Prints (format_to t) t
format_to-Prints t m p n h k =
    ([], omega arith, rw (append-nil t) (format_to-Exact t m p n (omega arith) k))

pub ok-Prints : Prints (λ n c. ok c) []
ok-Prints m p n h k =
    let end : p + 0 ≡ p = omega arith in ([], omega arith, rw (write_nil m p, end) refl)

-- The comma behind a member hides what the member left behind its text.
separated-Exact :
    (w : Method) (t : List ℕ)
    → Prints w t
    → Exact (λ n c. w n c >>= format_to separator n) (t ++ separator)
separated-Exact w t f m p n h k =
    let len = length-append t separator in
    let (r, short, first) = f m p n (omega arith) k in
    let m1 = write_bytes m p (t ++ r) in
    let hidden : drop 2 r ≡ [] = drop_all 2 r short in
    let end : p + length t + 2 ≡ p + length (t ++ separator) = omega arith in
    rw first (
      format_to-Exact separator m1 (p + length t) n (omega arith)
        (omega (arith, length-write_bytes m p (t ++ r)))
      ∙ rw (over_rest m p t r separator, hidden, end) refl)

>>=_assoc {ℓ κ μ} :
    {A : Type ℓ} {B : Type κ} {C : Type μ} (o : Result A) (f : A → Result B) (g : B → Result C)
    → (o >>= f >>= g) ≡ (o >>= λ x. f x >>= g)
>>=_assoc (ok a) f g = refl
>>=_assoc (thrown x) f g = refl
>>=_assoc undefined f g = refl
>>=_assoc aborted f g = refl

pub member-Exact :
    (name : List ℕ) (w : Method) (t : List ℕ)
    → Prints w t
    → Exact
        (λ n c. kv_to_string name w n c >>= format_to separator n)
        ((name ++ (b':' ∷ [])) ++ (t ++ separator))
unfolding kv_to_string
member-Exact name w t f m p n h k =
    >>=_assoc (format_key_to (name ++ (b':' ∷ [])) n (cursor m p)) (w n) (format_to separator n)
    ∙ >>=-Exact (format_key_to (name ++ (b':' ∷ []))) (λ n' c. w n' c >>= format_to separator n')
        (name ++ (b':' ∷ [])) (t ++ separator) (format_key_to-Exact (name ++ (b':' ∷ [])))
        (separated-Exact w t f) m p n h k
