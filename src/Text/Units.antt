-- ===== src/Text/Units.antt =====
-- literal.h: the units of sizes and times, and the text of a time.
use new_rpc.Base.{ℕ, zero, suc, ◌*◌, ◌/◌, ◌%◌, ◌^◌, false, List, [], ◌∷◌, ◌++◌, ltb, if◌then◌else◌}
use new_rpc.Text.Number.{Double, scaled_up, scaled_down, round_half_even, double_text}

-- The user-defined literals, on a uint64_t.
unfoldable pub lit_b : ℕ → ℕ
lit_b val = val

unfoldable pub lit_kib : ℕ → ℕ
unfolding lit_b
lit_kib val = val * lit_b 1024 % 2 ^ 64

unfoldable pub lit_mib : ℕ → ℕ
unfolding lit_kib
lit_mib val = val * lit_kib 1024 % 2 ^ 64

unfoldable pub lit_gib : ℕ → ℕ
unfolding lit_mib
lit_gib val = val * lit_mib 1024 % 2 ^ 64

unfoldable pub lit_tib : ℕ → ℕ
unfolding lit_gib
lit_tib val = val * lit_gib 1024 % 2 ^ 64

unfoldable pub lit_ns : ℕ → ℕ
lit_ns val = val

unfoldable pub lit_us : ℕ → ℕ
unfolding lit_ns
lit_us val = val * lit_ns 1000 % 2 ^ 64

unfoldable pub lit_ms : ℕ → ℕ
unfolding lit_us
lit_ms val = val * lit_us 1000 % 2 ^ 64

unfoldable pub lit_s : ℕ → ℕ
unfolding lit_ms
lit_s val = val * lit_ms 1000 % 2 ^ 64

unfoldable pub lit_min : ℕ → ℕ
unfolding lit_s
lit_min val = val * lit_s 60 % 2 ^ 64

unfoldable pub lit_hour : ℕ → ℕ
unfolding lit_min
lit_hour val = val * lit_min 60 % 2 ^ 64

unfoldable pub lit_day : ℕ → ℕ
unfolding lit_hour
lit_day val = val * lit_hour 24 % 2 ^ 64

-- The number of low bits that a double of `num / den` cannot hold. The fuel is enough for numbers
-- below 2 ^ 117.
unfoldable pub lost_bits : (fuel num den : ℕ) → ℕ
lost_bits zero num den = 0
lost_bits (suc fuel) num den =
    let more = suc (lost_bits fuel num (den * 2)) in if ltb (num / den) (2 ^ 53) then 0 else more

-- The number of bits behind the point that it holds. The fuel is enough for quotients from 1 on.
unfoldable pub kept_bits : (fuel num den : ℕ) → ℕ
kept_bits zero num den = 0
kept_bits (suc fuel) num den =
    let more = suc (kept_bits fuel (num * 2) den) in
    if ltb (num * 2 / den) (2 ^ 53) then more else 0

-- The double that is nearest to a uint64_t, as a number.
unfoldable pub to_double : ℕ → ℕ
unfolding lost_bits round_half_even
to_double n = let j = lost_bits 64 n 1 in round_half_even n (2 ^ j) * 2 ^ j

-- The double that is nearest to the quotient of two such numbers.
unfoldable pub quotient : (num den : ℕ) → Double
unfolding lost_bits kept_bits round_half_even
quotient num den =
    let j = lost_bits 64 num den in
    let k = kept_bits 64 num den in
    if ltb (num / den) (2 ^ 53)
    then scaled_down false (round_half_even (num * 2 ^ k) den) k
    else scaled_up false (round_half_even num (den * 2 ^ j)) j

-- `TS`, with its `ts_`.
pub record Ts : Type 0 where
  pub ts : ℕ

-- One case of the formatter: `val.ts_ * 1.0 / unit` with two decimals, and the unit's name.
unfoldable pub ts_case : (ts unit : ℕ) → (literal : List ℕ) → List ℕ
unfolding to_double quotient double_text
ts_case ts unit literal = double_text (quotient (to_double ts) (to_double unit)) ++ literal

-- `std::formatter<ToE::TS>::format`.
unfoldable pub ts_text : Ts → List ℕ
unfolding ts_case lit_hour lit_min lit_s lit_ms lit_us lit_ns
ts_text val =
    if ltb (lit_hour 1) val.ts
    then ts_case val.ts (lit_hour 1) (b'h' ∷ b'o' ∷ b'u' ∷ b'r' ∷ [])
    else if ltb (lit_min 1) val.ts
    then ts_case val.ts (lit_min 1) (b'm' ∷ b'i' ∷ b'n' ∷ [])
    else if ltb (lit_s 1) val.ts
    then ts_case val.ts (lit_s 1) (b's' ∷ [])
    else if ltb (lit_ms 1) val.ts
    then ts_case val.ts (lit_ms 1) (b'm' ∷ b's' ∷ [])
    else if ltb (lit_us 1) val.ts
    then ts_case val.ts (lit_us 1) (b'u' ∷ b's' ∷ [])
    else if ltb (lit_ns 1) val.ts
    then ts_case val.ts (lit_ns 1) (b'n' ∷ b's' ∷ [])
    else double_text (scaled_up false 0 0)
