-- ===== src/Base/Bits.antt =====
-- Facts on the native `bit_and` and `bit_or`.
use Prim.Native.Nat.{
  ℕ, zero, suc, ◌+◌, ◌-◌, ◌*◌, ◌/◌, ◌%◌, ◌≤◌, min, max, bit_and, bit_or, digits, bit_and-bitwise,
  bit_or-bitwise,
}
use mathlib.Core.Path.{◌≡◌, refl, ap, ◌∙◌}
use native.Mathlib.Omega.{arith}

module _ (z : ℕ → ℕ) (f : ℕ → ℕ → ℕ) (base : (b : ℕ) → z b ≡ z (b / 2) * 2 + f 0 (b % 2)) where
  -- One round more than there are digits changes nothing.
  more_rounds : (n a b : ℕ) → a ≤ n → digits z f (suc n) a b ≡ digits z f n a b
  more_rounds zero zero b le = refl
  more_rounds zero (suc a) b le = absurd (omega arith)
  more_rounds (suc n) zero b le = refl
  more_rounds (suc n) (suc a) b le =
      ap (λ t. t * 2 + f (suc a % 2) (b % 2)) (more_rounds n (suc a / 2) (b / 2) (omega arith))

  enough_rounds : (k a b : ℕ) → digits z f (k + a) a b ≡ digits z f a a b
  enough_rounds zero a b = ap (λ n. digits z f n a b) (omega arith)
  enough_rounds (suc k) a b =
      let count : suc k + a ≡ suc (k + a) = omega arith in
      ap (λ n. digits z f n a b) count ∙ more_rounds (k + a) a b (omega arith) ∙ enough_rounds k a b

  lowest_digit :
      (a b : ℕ) → digits z f a a b ≡ digits z f (a / 2) (a / 2) (b / 2) * 2 + f (a % 2) (b % 2)
  lowest_digit zero b = base b
  lowest_digit (suc a) b =
      let h = suc a / 2 in
      let count : a ≡ (a - h) + h = omega arith in
      ap (λ t. t * 2 + f (suc a % 2) (b % 2))
        (ap (λ n. digits z f n h (b / 2)) count ∙ enough_rounds (a - h) h (b / 2))

pub bit_and-lowest : (a b : ℕ) → bit_and a b ≡ bit_and (a / 2) (b / 2) * 2 + min (a % 2) (b % 2)
bit_and-lowest a b = omega (
  arith,
  bit_and-bitwise a b,
  bit_and-bitwise (a / 2) (b / 2),
  lowest_digit (λ b. zero) min (λ b. omega arith) a b,
)

pub bit_or-lowest : (a b : ℕ) → bit_or a b ≡ bit_or (a / 2) (b / 2) * 2 + max (a % 2) (b % 2)
bit_or-lowest a b = omega (
  arith,
  bit_or-bitwise a b,
  bit_or-bitwise (a / 2) (b / 2),
  lowest_digit (λ b. b) max (λ b. omega arith) a b,
)

-- Both together have the digits of both.
or_and_rounds : (n a b : ℕ) → a ≤ n → bit_or a b + bit_and a b ≡ a + b
or_and_rounds n zero b le = omega (arith, bit_or-bitwise 0 b, bit_and-bitwise 0 b)
or_and_rounds zero (suc a) b le = absurd (omega arith)
or_and_rounds (suc n) (suc a) b le = omega (
  arith,
  bit_or-lowest (suc a) b,
  bit_and-lowest (suc a) b,
  or_and_rounds n (suc a / 2) (b / 2) (omega arith),
)

pub bit_or-bit_and : (a b : ℕ) → bit_or a b + bit_and a b ≡ a + b
bit_or-bit_and a b = or_and_rounds a a b (omega arith)

and_zero_rounds : (n a : ℕ) → a ≤ n → bit_and a 0 ≡ 0
and_zero_rounds n zero le = omega (arith, bit_and-bitwise 0 0)
and_zero_rounds zero (suc a) le = absurd (omega arith)
and_zero_rounds (suc n) (suc a) le =
    omega (arith, bit_and-lowest (suc a) 0, and_zero_rounds n (suc a / 2) (omega arith))

pub bit_and-zero : (a : ℕ) → bit_and a 0 ≡ 0
bit_and-zero a = and_zero_rounds a a (omega arith)

-- A lowest digit that the mask leaves out.
skip_digit : (a m : ℕ) → bit_and a (m * 2) ≡ bit_and (a / 2) m * 2
skip_digit a m =
    let half : m * 2 / 2 ≡ m = omega arith in
    let even : m * 2 % 2 ≡ 0 = omega arith in
    let lowest = rw (half, even) at (bit_and-lowest a (m * 2)) in omega (arith, lowest)

abbrev halves : ℕ → ℕ → ℕ
halves zero a = a
halves (suc n) a = halves n (a / 2)

abbrev doubles : ℕ → ℕ → ℕ
doubles zero m = m
doubles (suc n) m = doubles n m * 2

-- Several digits that a mask leaves out.
skip : (n a m : ℕ) → bit_and a (doubles n m) ≡ doubles n (bit_and (halves n a) m)
skip zero a m = refl
skip (suc n) a m = skip_digit a (doubles n m) ∙ ap (λ x. x * 2) (skip n (a / 2) m)

one_digit : (a : ℕ) → bit_and a 1 ≡ a % 2
one_digit a = omega (arith, bit_and-lowest a 1, bit_and-zero (a / 2))

four_ones : (a : ℕ) → bit_and a 15 ≡ a % 16
four_ones a = omega (
  arith,
  bit_and-lowest a 15,
  bit_and-lowest (a / 2) 7,
  bit_and-lowest (a / 2 / 2) 3,
  bit_and-lowest (a / 2 / 2 / 2) 1,
  bit_and-zero (a / 2 / 2 / 2 / 2),
)

-- S_IFMT, S_IFDIR and S_IFREG.
pub bit_and-s_ifmt : (a : ℕ) → bit_and a 0o170000 ≡ a / 4096 % 16 * 4096
bit_and-s_ifmt a = omega (arith, skip 12 a 15, four_ones (halves 12 a))

pub bit_and-s_ifdir : (a : ℕ) → bit_and a 0o40000 ≡ a / 16384 % 2 * 16384
bit_and-s_ifdir a = omega (arith, skip 14 a 1, one_digit (halves 14 a))

pub bit_and-s_ifreg : (a : ℕ) → bit_and a 0o100000 ≡ a / 32768 % 2 * 32768
bit_and-s_ifreg a = omega (arith, skip 15 a 1, one_digit (halves 15 a))

-- The permission bits.
pub bit_and-permissions : (a : ℕ) → bit_and a 0o777 ≡ a % 512
bit_and-permissions a = omega (
  arith,
  bit_and-lowest a 511,
  bit_and-lowest (a / 2) 255,
  bit_and-lowest (a / 2 / 2) 127,
  bit_and-lowest (a / 2 / 2 / 2) 63,
  bit_and-lowest (a / 2 / 2 / 2 / 2) 31,
  four_ones (a / 2 / 2 / 2 / 2 / 2),
)

-- A mode without permission bits.
pub bit_and_none_550 : (a : ℕ) → a % 512 ≡ 0 → bit_and a 0o550 ≡ 0
bit_and_none_550 a h = omega (
  arith,
  h,
  bit_and-lowest a 360,
  bit_and-lowest (a / 2) 180,
  bit_and-lowest (a / 2 / 2) 90,
  bit_and-lowest (a / 2 / 2 / 2) 45,
  bit_and-lowest (a / 2 / 2 / 2 / 2) 22,
  bit_and-lowest (a / 2 / 2 / 2 / 2 / 2) 11,
  bit_and-lowest (a / 2 / 2 / 2 / 2 / 2 / 2) 5,
  bit_and-lowest (a / 2 / 2 / 2 / 2 / 2 / 2 / 2) 2,
  bit_and-lowest (a / 2 / 2 / 2 / 2 / 2 / 2 / 2 / 2) 1,
  bit_and-zero (a / 2 / 2 / 2 / 2 / 2 / 2 / 2 / 2 / 2),
)

bit_and_none_nine : (x : ℕ) → x % 16 ≡ 0 → bit_and x 9 ≡ 0
bit_and_none_nine x h = omega (
  arith,
  h,
  bit_and-lowest x 9,
  bit_and-lowest (x / 2) 4,
  bit_and-lowest (x / 2 / 2) 2,
  bit_and-lowest (x / 2 / 2 / 2) 1,
  bit_and-zero (x / 2 / 2 / 2 / 2),
)

-- A mode without permission bits.
pub bit_and_none_440 : (a : ℕ) → a % 512 ≡ 0 → bit_and a 0o440 ≡ 0
bit_and_none_440 a h = omega (arith, skip 5 a 9, bit_and_none_nine (halves 5 a) (omega (arith, h)))
