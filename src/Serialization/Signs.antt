-- ===== src/Serialization/Signs.antt =====
-- Enumerators as numbers of 64 bits: the cast keeps the number, and cutting it down again gives it back.
use native.Mathlib.Nat.{
  mod-eq_of_lt, pow-le-pow_right, pow-suc, mul_assoc, mul-suc, mul-zero, add-mul-mod_self_left,
}
use new_rpc.Base.{
  ℕ, zero, suc, ◌+◌, ◌-◌, ◌*◌, ◌%◌, ◌^◌, ◌<◌, ◌≤◌, ◌≡◌, refl, sym, ap, ◌∙◌, inl, inr, Bool, true,
  false, leb, ltb, Bool-cases, arith,
}
use new_rpc.Serialization.Serialize.{to_int64}
use new_rpc.Serialization.Encoding.{int64_bits}

-- A number below 256 ^ 8 that is in the upper half for its width has a width of at most eight bytes.
narrow_width : (w v : ℕ) → v < 256 ^ 8 → 256 ^ w ≤ 2 * v → w ≤ 8
narrow_width w v small upper = elim (Bool-cases (leb w 8)) [
  | inl few ↦ ground arith
  | inr many ↦
      let wide : 256 ^ 9 ≤ 256 ^ w =
        pow-le-pow_right (omega arith) {i = 9} {j = w} (ground arith) in
      absurd (omega arith)
]

-- A power of 256 is a multiple of the ones below it.
pow-multiple : (w d : ℕ) → (k : ℕ) × (256 ^ (d + w) ≡ 256 ^ w * k)
pow-multiple w zero =
    let index : 0 + w ≡ w = omega arith in (1, ap (λ n. 256 ^ n) index ∙ omega arith)
pow-multiple w (suc d) =
    let (k, here) = pow-multiple w d in
    let index : suc d + w ≡ suc (d + w) = omega arith in
    (
      k * 256,
      ap (λ n. 256 ^ n) index
          ∙ pow-suc 256 (d + w)
          ∙ ap (λ x. x * 256) here
          ∙ mul_assoc (256 ^ w) k 256,
    )

-- The upper numbers of `w` bytes, moved to the top of eight bytes.
top_lem :
    (w v k : ℕ) → v < 256 ^ w → 256 ^ 8 ≡ 256 ^ w * k → (256 ^ 8 - (256 ^ w - v)) % 256 ^ w ≡ v
top_lem w v zero fits whole = absurd (omega (arith, whole ∙ mul-zero (256 ^ w)))
top_lem w v (suc j) fits whole =
    let split : 256 ^ 8 ≡ 256 ^ w * j + 256 ^ w = whole ∙ mul-suc (256 ^ w) j in
    let moved : 256 ^ 8 - (256 ^ w - v) ≡ v + 256 ^ w * j = omega (arith, split) in
    ap (λ x. x % 256 ^ w) moved ∙ add-mul-mod_self_left v (256 ^ w) j ∙ mod-eq_of_lt fits

pub to_int64_lem :
    (signed : Bool) (w v : ℕ)
    → v < 256 ^ w
    → v < 256 ^ 8
    → (to_int64 signed w v ≡ int64_bits signed w v)
      × (int64_bits signed w v < 256 ^ 8)
      × (int64_bits signed w v % 256 ^ w ≡ v)
unfolding to_int64 int64_bits
to_int64_lem false w v fits small = (refl, small, mod-eq_of_lt fits)
to_int64_lem true w v fits small = elim (Bool-cases (ltb (2 * v) (256 ^ w))) [
  | inl lower ↦
      let off : leb (256 ^ w) (2 * v) ≡ false = ground arith in
      rw (lower, off) (refl, small, mod-eq_of_lt fits)
  | inr upper ↦
      let on : leb (256 ^ w) (2 * v) ≡ true = ground arith in
      let few = narrow_width w v small (ground arith) in
      let below : 256 ^ w ≤ 256 ^ 8 = pow-le-pow_right (omega arith) few in
      let (k, whole) = pow-multiple w (8 - w) in
      let index : 8 - w + w ≡ 8 = omega arith in
      let moved : v + (256 ^ 8 - 256 ^ w) ≡ 256 ^ 8 - (256 ^ w - v) = omega arith in
      let room : 256 ^ 8 - (256 ^ w - v) < 256 ^ 8 = omega arith in
      rw (upper, on) (moved, room, top_lem w v k fits (ap (λ n. 256 ^ n) (sym index) ∙ whole))
]
