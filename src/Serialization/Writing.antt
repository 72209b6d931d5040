-- ===== src/Serialization/Writing.antt =====
-- What a writer does to a buffer, and how writers compose.
use new_rpc.Base.{
  ℕ, zero, suc, ◌+◌, ◌≤◌, ◌≡◌, refl, ap, inl, inr, List, [], ◌∷◌, ◌++◌, arith, length, take, drop,
  ltb, if◌then◌else◌, length-append, Bool-cases, ltb→lt, ltb→le, lt→ltb,
}
use new_rpc.Serialization.Memory.{
  Result, ok, thrown, out_of_range, ◌>>=◌, Cursor, cursor, write_bytes, put_bytes,
}

pub length-write_bytes : (m : List ℕ) (p : ℕ) (bs : List ℕ) → length (write_bytes m p bs) ≡ length m
unfolding write_bytes
length-write_bytes [] p bs = refl
length-write_bytes (x ∷ m) (suc p) bs = ap suc (length-write_bytes m p bs)
length-write_bytes (x ∷ m) zero [] = refl
length-write_bytes (x ∷ m) zero (b ∷ bs) = ap suc (length-write_bytes m zero bs)

-- Two copies, one behind the other, are one copy.
pub write_bytes-append :
    (m : List ℕ) (p : ℕ) (bs cs : List ℕ)
    → write_bytes (write_bytes m p bs) (p + length bs) cs ≡ write_bytes m p (bs ++ cs)
unfolding write_bytes
write_bytes-append [] p bs cs = refl
write_bytes-append (x ∷ m) (suc p) bs cs =
    let e : suc p + length bs ≡ suc (p + length bs) = omega arith in
    rw e (ap (◌∷◌ x) (write_bytes-append m p bs cs))
write_bytes-append (x ∷ m) zero [] cs = refl
write_bytes-append (x ∷ m) zero (b ∷ bs) cs =
    let e : 0 + length (b ∷ bs) ≡ suc (0 + length bs) = omega arith in
    rw e (ap (◌∷◌ b) (write_bytes-append m zero bs cs))

-- What was written is there,
pub drop-write_bytes :
    (m : List ℕ) (p : ℕ) (bs : List ℕ)
    → p + length bs ≤ length m
    → drop p (write_bytes m p bs) ≡ bs ++ drop (p + length bs) m
unfolding write_bytes
drop-write_bytes [] zero [] h = refl
drop-write_bytes [] zero (b ∷ bs) h = absurd (omega arith)
drop-write_bytes [] (suc p) bs h = absurd (omega arith)
drop-write_bytes (x ∷ m) (suc p) bs h =
    let e : suc p + length bs ≡ suc (p + length bs) = omega arith in
    rw e (drop-write_bytes m p bs (omega arith))
drop-write_bytes (x ∷ m) zero [] h = refl
drop-write_bytes (x ∷ m) zero (b ∷ bs) h =
    let e : 0 + length (b ∷ bs) ≡ suc (0 + length bs) = omega arith in
    rw e (ap (◌∷◌ b) (drop-write_bytes m zero bs (omega arith)))

-- and what stood before it is unchanged.
pub take-write_bytes : (m : List ℕ) (p : ℕ) (bs : List ℕ) → take p (write_bytes m p bs) ≡ take p m
unfolding write_bytes
take-write_bytes [] p bs = refl
take-write_bytes (x ∷ m) (suc p) bs = ap (◌∷◌ x) (take-write_bytes m p bs)
take-write_bytes (x ∷ m) zero bs = refl

abbrev pub Writer : Type 0
Writer = ℕ → Cursor → Result Cursor

-- The bytes `bs` go to the position `p`, or there is no room below `buffer_len` and the call throws.
abbrev pub written : List ℕ → ℕ → List ℕ → ℕ → Result Cursor
written m p bs buffer_len =
    if ltb buffer_len (p + length bs)
    then thrown out_of_range
    else ok (cursor (write_bytes m p bs) (p + length bs))

abbrev pub Writes : Writer → List ℕ → Type 0
Writes w bs =
    (m : List ℕ) (p buffer_len : ℕ)
    → p ≤ buffer_len
    → buffer_len ≤ length m
    → w buffer_len (cursor m p) ≡ written m p bs buffer_len

pub put_bytes-Writes : (bs : List ℕ) → Writes (put_bytes bs) bs
unfolding put_bytes
put_bytes-Writes bs m p buffer_len h k = ground arith

pub write_nil : (m : List ℕ) (p : ℕ) → write_bytes m p [] ≡ m
unfolding write_bytes
write_nil [] p = refl
write_nil (x ∷ m) (suc p) = ap (◌∷◌ x) (write_nil m p)
write_nil (x ∷ m) zero = refl

pub ok-Writes : Writes (λ buffer_len c. ok c) []
ok-Writes m p buffer_len h k = ground (arith, write_nil m p)

pub >>=-Writes :
    (w w' : Writer) (bs cs : List ℕ)
    → Writes w bs
    → Writes w' cs
    → Writes (λ buffer_len c. w buffer_len c >>= w' buffer_len) (bs ++ cs)
>>=-Writes w w' bs cs first second m p buffer_len h k =
    elim (Bool-cases (ltb buffer_len (p + length bs))) [
      | inl full ↦ rw (
        first m p buffer_len h k,
        full,
        lt→ltb buffer_len (p + length (bs ++ cs))
            (omega (arith, length-append bs cs, ltb→lt _ _ full)),
      )
      | inr room ↦
          let e : (p + length bs) + length cs ≡ p + length (bs ++ cs) =
            omega (arith, length-append bs cs) in
          rw (
            first m p buffer_len h k,
            room,
            second (write_bytes m p bs) (p + length bs) buffer_len (ltb→le _ _ room)
                (omega (arith, length-write_bytes m p bs)),
            e,
            write_bytes-append m p bs cs,
          )
    ]

-- A copy that covers the memory is the memory.
pub write_bytes-whole : (m bs : List ℕ) → length m ≡ length bs → write_bytes m 0 bs ≡ bs
unfolding write_bytes
write_bytes-whole [] [] h = refl
write_bytes-whole [] (b ∷ bs) h = absurd (omega arith)
write_bytes-whole (x ∷ m) [] h = absurd (omega arith)
write_bytes-whole (x ∷ m) (b ∷ bs) h = ap (◌∷◌ b) (write_bytes-whole m bs (omega arith))

pub write_bytes-front :
    (m bs : List ℕ) → length bs ≤ length m → write_bytes m 0 bs ≡ bs ++ drop (length bs) m
unfolding write_bytes
write_bytes-front [] [] h = refl
write_bytes-front [] (b ∷ bs) h = absurd (omega arith)
write_bytes-front (x ∷ m) [] h = refl
write_bytes-front (x ∷ m) (b ∷ bs) h = ap (◌∷◌ b) (write_bytes-front m bs (omega arith))

pub write_bytes-behind :
    (xs ys bs : List ℕ) → write_bytes (xs ++ ys) (length xs) bs ≡ xs ++ write_bytes ys 0 bs
unfolding write_bytes
write_bytes-behind [] ys bs = refl
write_bytes-behind (x ∷ xs) ys bs = ap (◌∷◌ x) (write_bytes-behind xs ys bs)
