-- ===== src/Text/Number.antt =====
-- The texts that `std::format` gives for numbers, as bytes: `{:d}`, `{:#x}` and `{:.2f}`.
use new_rpc.Base.{
  ℕ, zero, suc, ◌+◌, ◌-◌, ◌*◌, ◌/◌, ◌%◌, ◌^◌, Bool, true, false, List, [], ◌∷◌, ◌++◌, ltb,
  if◌then◌else◌,
}

-- An integer: `pos n` is n and `negsuc n` is -(n + 1).
pub data ℤ : Type 0 where
  pos negsuc : ℕ → ℤ

-- The digit of a number below 16.
abbrev pub digit : ℕ → ℕ
digit d = if ltb d 10 then b'0' + d else b'a' + (d - 10)

-- The digits of `n` to a base, in front of `out`, with fuel for as many digits as the number has.
unfoldable pub digits_before : (base fuel n : ℕ) → List ℕ → List ℕ
digits_before base zero n out = out
digits_before base (suc fuel) n out =
    let rest = digits_before base fuel (n / base) (digit (n % base) ∷ out) in
    if ltb n base then digit n ∷ out else rest

unfoldable pub digits_of : (base n : ℕ) → List ℕ
unfolding digits_before
digits_of base n = digits_before base (suc n) n []

-- `{:d}`
unfoldable pub integer_text : ℤ → List ℕ
unfolding digits_of
integer_text (pos n) = digits_of 10 n
integer_text (negsuc n) = b'-' ∷ digits_of 10 (suc n)

-- `{:#x}` of an address
unfoldable pub address_text : ℕ → List ℕ
unfolding digits_of
address_text n = b'0' ∷ b'x' ∷ digits_of 16 n

-- `{}` of a bool
unfoldable pub bool_text : Bool → List ℕ
bool_text true = b't' ∷ b'r' ∷ b'u' ∷ b'e' ∷ []
bool_text false = b'f' ∷ b'a' ∷ b'l' ∷ b's' ∷ b'e' ∷ []

-- A double: `mantissa * 2 ^ k` or `mantissa / 2 ^ k` with a sign, an infinity, or no number.
pub data Double : Type 0 where
  scaled_up scaled_down : (negative : Bool) (mantissa k : ℕ) → Double
  infinite not_a_number : (negative : Bool) → Double

-- `a / b` to the nearest number, and to the even one of two that are as near.
unfoldable pub round_half_even : (a b : ℕ) → ℕ
round_half_even a b =
    let q = a / b in
    let r = 2 * (a % b) in if ltb r b then q else if ltb b r then q + 1 else q + q % 2

-- A number of hundredths.
unfoldable pub hundredths_text : ℕ → List ℕ
unfolding digits_of
hundredths_text n = digits_of 10 (n / 100) ++ (b'.' ∷ digit (n / 10 % 10) ∷ digit (n % 10) ∷ [])

abbrev pub signed : Bool → List ℕ → List ℕ
signed negative text = if negative then b'-' ∷ text else text

-- `{:.2f}`
unfoldable pub double_text : Double → List ℕ
unfolding round_half_even hundredths_text
double_text (scaled_up negative mantissa k) =
    signed negative (hundredths_text (mantissa * 100 * 2 ^ k))
double_text (scaled_down negative mantissa k) =
    signed negative (hundredths_text (round_half_even (mantissa * 100) (2 ^ k)))
double_text (infinite negative) = signed negative (b'i' ∷ b'n' ∷ b'f' ∷ [])
double_text (not_a_number negative) = signed negative (b'n' ∷ b'a' ∷ b'n' ∷ [])
