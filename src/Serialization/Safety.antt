-- ===== src/Serialization/Safety.antt =====
-- Hostile input: whatever the bytes are, `deserialize` stays inside the buffer.
use new_rpc.Base.{ℕ, zero, suc, ◌%◌, ◌^◌, ◌≤◌, ◌≡◌, refl, ◌∙◌, List, [], ◌∷◌, ◌++◌, arith, length}
use new_rpc.Serialization.Memory.{
  Result, ok, thrown, undefined, aborted, ◌>>=◌, Cursor, cursor, get_bytes, Endian, of_object_bytes,
  wire_copy,
}
use new_rpc.Serialization.Types.{
  Ty, Members, pointer, enumeration, fundamental, string, range, reflected, error, expected,
  no_members, member, Val, Vals, default_val,
}
use new_rpc.Serialization.Deserialize.{
  deserialize, deserialize_members, deserialize_fundamental, deserialize_each, check_length,
}
use new_rpc.Serialization.Reading.{Reader}

-- Every type but those with an `Expected` or a pointer in them, of which a flag is read.
abbrev mutual
  pub IsPlain : Ty → Type 0
  IsPlain (pointer t) = ⊥
  IsPlain (range t) = IsPlain t
  IsPlain (reflected ms) = ArePlain ms
  IsPlain (expected t) = ⊥
  IsPlain (enumeration signed w) = Unit {0}
  IsPlain (fundamental n) = Unit {0}
  IsPlain string = Unit {0}
  IsPlain error = Unit {0}

  pub ArePlain : Members → Type 0
  ArePlain no_members = Unit {0}
  ArePlain (member t ms) = IsPlain t × ArePlain ms

-- The outcome of a read that started at `p`: a value, with the memory as it was and the position
-- between `p` and `buffer_len`, or an exception; never undefined behaviour.
abbrev pub InBounds {ℓ} : {A : Type ℓ} → List ℕ → ℕ → ℕ → Result (A × Cursor) → Type 0
InBounds m p buffer_len (ok (a, c)) = (c.memory ≡ m) × (p ≤ c.pos) × (c.pos ≤ buffer_len)
InBounds m p buffer_len (thrown x) = Unit {0}
InBounds m p buffer_len undefined = ⊥
InBounds m p buffer_len aborted = ⊥

abbrev pub StaysIn {ℓ} : {A : Type ℓ} → Reader A → Type 0
StaysIn r =
    (m : List ℕ) (p buffer_len : ℕ)
    → p ≤ buffer_len
    → buffer_len ≤ length m
    → InBounds m p buffer_len (r buffer_len (cursor m p))

get_bytes-StaysIn : (n : ℕ) → StaysIn (get_bytes n)
unfolding get_bytes
get_bytes-StaysIn n m p buffer_len h k = ground arith

ok-StaysIn {ℓ} : {A : Type ℓ} (a : A) → StaysIn (λ buffer_len c. ok (a, c))
ok-StaysIn a m p buffer_len h k = (refl, omega arith, h)

InBounds-widen {ℓ} :
    {A : Type ℓ} (o : Result (A × Cursor)) (m m' : List ℕ) (p p' buffer_len : ℕ)
    → m' ≡ m
    → p ≤ p'
    → InBounds m' p' buffer_len o
    → InBounds m p buffer_len o
InBounds-widen (ok (a, c)) m m' p p' buffer_len e h b = (b.0 ∙ e, omega arith, b.2)
InBounds-widen (thrown x) m m' p p' buffer_len e h b = tt
InBounds-widen undefined m m' p p' buffer_len e h b = b
InBounds-widen aborted m m' p p' buffer_len e h b = b

then-InBounds {ℓ κ} :
    {A : Type ℓ} {B : Type κ} (o : Result (A × Cursor)) (s : A → Reader B)
    → ((a : A) → StaysIn (s a))
    → (m : List ℕ) (p buffer_len : ℕ) → buffer_len ≤ length m
    → InBounds m p buffer_len o
    → InBounds m p buffer_len (o >>= λ (a, c). s a buffer_len c)
then-InBounds (ok (a, c)) s h m p buffer_len k b =
    InBounds-widen (s a buffer_len c) m c.memory p c.pos buffer_len b.0 b.1
      (h a c.memory c.pos buffer_len b.2 (rw b.0 k))
then-InBounds (thrown x) s h m p buffer_len k b = tt
then-InBounds undefined s h m p buffer_len k b = b
then-InBounds aborted s h m p buffer_len k b = b

-- Readers that stay inside compose.
>>=-StaysIn {ℓ κ} :
    {A : Type ℓ} {B : Type κ} (r : Reader A) (s : A → Reader B)
    → StaysIn r
    → ((a : A) → StaysIn (s a))
    → StaysIn (λ buffer_len c. r buffer_len c >>= λ (a, c'). s a buffer_len c')
>>=-StaysIn r s first second m p buffer_len h k =
    then-InBounds (r buffer_len (cursor m p)) s second m p buffer_len k (first m p buffer_len h k)

deserialize_fundamental-StaysIn : (e : Endian) (n : ℕ) → StaysIn (deserialize_fundamental e n)
unfolding deserialize_fundamental
deserialize_fundamental-StaysIn e n =
    >>=-StaysIn (get_bytes n) (λ bs buffer_len c. ok (wire_copy e n (of_object_bytes e bs), c))
      (get_bytes-StaysIn n) (λ bs. ok-StaysIn (wire_copy e n (of_object_bytes e bs)))

check_length-StaysIn : (n : ℕ) → StaysIn (λ buffer_len c. check_length n c)
unfolding check_length
check_length-StaysIn n m p buffer_len h k = ground arith

counted-StaysIn {ℓ} :
    {A : Type ℓ} (e : Endian) (s : ℕ → Reader A)
    → ((n : ℕ) → StaysIn (s n))
    → StaysIn (λ buffer_len c. deserialize_fundamental e 8 buffer_len c >>= λ (k, c').
        check_length k c' >>= λ (k', c''). s k' buffer_len c'')
counted-StaysIn e s h =
    >>=-StaysIn (deserialize_fundamental e 8)
      (λ k buffer_len c. check_length k c >>= λ (k', c'). s k' buffer_len c')
      (deserialize_fundamental-StaysIn e 8)
      (λ k. >>=-StaysIn (λ buffer_len c. check_length k c) s (check_length-StaysIn k) h)

deserialize_each-StaysIn {ℓ} :
    {A : Type ℓ} (r : Reader A)
    → StaysIn r
    → (n : ℕ) (out : List A) → StaysIn (deserialize_each r n out)
unfolding deserialize_each
deserialize_each-StaysIn r h zero out = ok-StaysIn out
deserialize_each-StaysIn r h (suc n) out =
    >>=-StaysIn r (λ x. deserialize_each r n (out ++ (x ∷ []))) h
      (λ x. deserialize_each-StaysIn r h n (out ++ (x ∷ [])))

map-StaysIn {ℓ κ} :
    {A : Type ℓ} {B : Type κ} (r : Reader A) (f : A → B)
    → StaysIn r
    → StaysIn (λ buffer_len c. r buffer_len c >>= λ (a, c'). ok (f a, c'))
map-StaysIn r f h = >>=-StaysIn r (λ a buffer_len c. ok (f a, c)) h (λ a. ok-StaysIn (f a))

mutual
  unfolding deserialize

  deserialize_stays : (e : Endian) (t : Ty) (v : Val t) → IsPlain t → StaysIn (deserialize e t v)
  deserialize_stays e (pointer t) v h = absurd h
  deserialize_stays e (enumeration signed w) v h =
      map-StaysIn (deserialize_fundamental e 8) (λ n. n % 256 ^ w)
        (deserialize_fundamental-StaysIn e 8)
  deserialize_stays e (fundamental n) v h = deserialize_fundamental-StaysIn e n
  deserialize_stays e string v h = counted-StaysIn e get_bytes get_bytes-StaysIn
  deserialize_stays e (range t) xs h =
      counted-StaysIn e (λ n. deserialize_each (deserialize e t (default_val t)) n xs)
        (λ n.
          deserialize_each-StaysIn (deserialize e t (default_val t))
            (deserialize_stays e t (default_val t) h) n xs)
  deserialize_stays e (reflected ms) vs h = deserialize_members_stay e ms vs h
  deserialize_stays e error v h = deserialize_fundamental-StaysIn e 4
  deserialize_stays e (expected t) v h = absurd h

  pub deserialize_members_stay :
      (e : Endian) (ms : Members) (vs : Vals ms)
      → ArePlain ms
      → StaysIn (deserialize_members e ms vs)
  deserialize_members_stay e no_members vs h = ok-StaysIn {0} {A = Unit {0}} tt
  deserialize_members_stay e (member t ms) (v, vs) h =
      >>=-StaysIn (deserialize e t v)
        (λ v' buffer_len c.
          deserialize_members e ms vs buffer_len c >>= λ (vs', c'). ok ((v', vs'), c'))
        (deserialize_stays e t v h.0)
        (λ v'.
          map-StaysIn (deserialize_members e ms vs) (λ vs'. (v', vs'))
            (deserialize_members_stay e ms vs h.1))

-- On any bytes, `deserialize` of a type with no `Expected` and no pointer in it, which are those of
-- which a flag is read into a `bool`, either throws or returns with the buffer as it was and `pos`
-- between where it stood and `buffer_len`; it never touches memory outside the buffer. `pos` is not past `buffer_len`, nor `buffer_len` past the memory.
pub deserialize-InBounds :
    (e : Endian) (t : Ty) (v : Val t)
    → IsPlain t
    → (m : List ℕ) (p buffer_len : ℕ) → p ≤ buffer_len
    → buffer_len ≤ length m
    → InBounds m p buffer_len (deserialize e t v buffer_len (cursor m p))
deserialize-InBounds e t v h = deserialize_stays e t v h
