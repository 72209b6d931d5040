-- ===== src/Serialization/Reading.antt =====
-- What a reader takes from a buffer, and how readers compose.
use new_rpc.Base.{
  ℕ, ◌+◌, ◌≤◌, ◌≡◌, sym, ap, ◌∙◌, List, [], ◌++◌, append_assoc, arith, length, take, drop,
  length-append, take-append, drop-append, drop-add, le→ltb,
}
use new_rpc.Serialization.Memory.{Result, ok, ◌>>=◌, Cursor, cursor, get_bytes}

abbrev pub Reader {ℓ} : Type ℓ → Type ℓ
Reader A = ℕ → Cursor → Result (A × Cursor)

-- Where `bs` stands at `p`, whatever follows it, the reader returns `v` and stops behind `bs`.
abbrev pub Reads {ℓ} : {A : Type ℓ} → Reader A → List ℕ → A → Type ℓ
Reads r bs v =
    (m : List ℕ) (p buffer_len : ℕ) (rest : List ℕ)
    → drop p m ≡ bs ++ rest
    → p + length bs ≤ buffer_len
    → buffer_len ≤ length m
    → r buffer_len (cursor m p) ≡ ok (v, cursor m (p + length bs))

pub get_bytes-Reads : (n : ℕ) (bs : List ℕ) → length bs ≡ n → Reads (get_bytes n) bs bs
unfolding get_bytes
get_bytes-Reads n bs len m p buffer_len rest here room fits =
    let taken : take n (bs ++ rest) ≡ bs =
      ap (λ k. take k (bs ++ rest)) (sym len) ∙ take-append bs rest in
    let e : p + n ≡ p + length bs = omega arith in
    rw (
      le→ltb buffer_len (p + n) (omega arith),
      le→ltb (length m) (p + n) (omega arith),
      here,
      taken,
      e,
    )

pub ok-Reads {ℓ} : {A : Type ℓ} (v : A) → Reads (λ buffer_len c. ok (v, c)) [] v
ok-Reads v m p buffer_len rest here room fits = let e : p + 0 ≡ p = omega arith in rw e

pub >>=-Reads {ℓ κ} :
    {A : Type ℓ} {B : Type κ} (r : Reader A) (s : A → Reader B) (bs cs : List ℕ) (x : A) (y : B)
    → Reads r bs x
    → Reads (s x) cs y
    → Reads (λ buffer_len c. r buffer_len c >>= λ (a, c'). s a buffer_len c') (bs ++ cs) y
>>=-Reads r s bs cs x y first second m p buffer_len rest here room fits =
    let split : drop p m ≡ bs ++ (cs ++ rest) = here ∙ append_assoc bs cs rest in
    let behind : drop (p + length bs) m ≡ cs ++ rest =
      drop-add p (length bs) m ∙ ap (drop (length bs)) split ∙ drop-append bs (cs ++ rest) in
    let e : p + length bs + length cs ≡ p + length (bs ++ cs) =
      omega (arith, length-append bs cs) in
    rw (
      first m p buffer_len (cs ++ rest) split (omega arith) fits,
      second m (p + length bs) buffer_len rest behind (omega arith) fits,
      e,
    )

-- A reader that ends by wrapping its value.
pub map-Reads {ℓ κ} :
    {A : Type ℓ} {B : Type κ} (r : Reader A) (f : A → B) (bs : List ℕ) (x : A)
    → Reads r bs x
    → Reads (λ buffer_len c. r buffer_len c >>= λ (a, c'). ok (f a, c')) bs (f x)
map-Reads r f bs x reads m p buffer_len rest here room fits =
    rw (reads m p buffer_len rest here room fits)
