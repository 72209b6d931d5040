-- ===== src/Time/Mask.antt =====
-- `& (BUCKET_NUM - 1)` is the remainder by BUCKET_NUM.
use Prim.Native.Nat.{min, digits, bit_and, bit_and-bitwise}
use new_rpc.Base.{ℕ, zero, suc, ◌+◌, ◌-◌, ◌*◌, ◌/◌, ◌%◌, ◌≤◌, ◌<◌, ◌≡◌, refl, sym, arith, ◌∙◌}
use new_rpc.Time.Wheel.{bucket_num, real_bucket_idx, calculated_bucket_idx}

-- The digits of `a` under a mask, with `n` for the number of digits.
abbrev masked : ℕ → ℕ → ℕ → ℕ
masked n a b = digits (λ d. zero) min n a b

-- Under the mask `m` a number is its remainder by `k`.
abbrev IsMask : ℕ → ℕ → Type 0
IsMask m k = (n a : ℕ) → a ≤ n → masked n a m ≡ a % k

IsMask-zero : IsMask 0 1
IsMask-zero zero zero h = refl
IsMask-zero zero (suc a) h = absurd (omega arith)
IsMask-zero (suc n) zero h = refl
IsMask-zero (suc n) (suc a) h = omega (arith, IsMask-zero n (suc a / 2) (omega arith))

-- One more digit. The arithmetic is that of the numbers at hand.
IsMask-digit :
    (m k m' k' : ℕ)
    → m' / 2 ≡ m
    → m' % 2 ≡ 1
    → 0 % k' ≡ 0
    → ((x : ℕ) → x / 2 % k * 2 + x % 2 ≡ x % k')
    → IsMask m k
    → IsMask m' k'
IsMask-digit m k m' k' half odd null step mask zero zero h = sym null
IsMask-digit m k m' k' half odd null step mask zero (suc a) h = absurd (omega arith)
IsMask-digit m k m' k' half odd null step mask (suc n) zero h = sym null
IsMask-digit m k m' k' half odd null step mask (suc n) (suc a) h =
    let low : min (suc a % 2) 1 ≡ suc a % 2 = omega arith in
    rw (half, odd, mask n (suc a / 2) (omega arith), low) (step (suc a))

IsMask-63 : IsMask 63 64
IsMask-63 =
    IsMask-digit 31 32 63 64 refl refl refl (λ x. omega arith)
      (IsMask-digit 15 16 31 32 refl refl refl (λ x. omega arith)
        (IsMask-digit 7 8 15 16 refl refl refl (λ x. omega arith)
          (IsMask-digit 3 4 7 8 refl refl refl (λ x. omega arith)
            (IsMask-digit 1 2 3 4 refl refl refl (λ x. omega arith)
              (IsMask-digit 0 1 1 2 refl refl refl (λ x. omega arith) IsMask-zero)))))

IsMask-4095 : IsMask 4095 4096
IsMask-4095 =
    IsMask-digit 2047 2048 4095 4096 refl refl refl (λ x. omega arith)
      (IsMask-digit 1023 1024 2047 2048 refl refl refl (λ x. omega arith)
        (IsMask-digit 511 512 1023 1024 refl refl refl (λ x. omega arith)
          (IsMask-digit 255 256 511 512 refl refl refl (λ x. omega arith)
            (IsMask-digit 127 128 255 256 refl refl refl (λ x. omega arith)
              (IsMask-digit 63 64 127 128 refl refl refl (λ x. omega arith) IsMask-63)))))

pub bucket_mask : (x : ℕ) → bit_and x (bucket_num - 1) ≡ x % 4096
bucket_mask x = bit_and-bitwise x 4095 ∙ IsMask-4095 x x (omega arith)

-- The bucket of a wake-up time is its calculated number's remainder by 4096, and so below 4096, the
-- number of buckets.
pub real_bucket_idx-mod :
    (precision start wake : ℕ)
    → (real_bucket_idx precision start wake ≡ calculated_bucket_idx precision start wake % 4096)
      × (real_bucket_idx precision start wake < 4096)
unfolding real_bucket_idx
real_bucket_idx-mod precision start wake =
    let idx = calculated_bucket_idx precision start wake in
    let remainder : real_bucket_idx precision start wake ≡ idx % 4096 = bucket_mask idx in
    (remainder, omega (arith, remainder))
