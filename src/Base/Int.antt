-- ===== src/Base/Int.antt =====
-- Signed integers over the native numbers, under the library's names, and C's casts between widths.
use Prim.Native.Nat.{ℕ, zero, suc, ◌-◌, ◌%◌, ◌^◌}
use s3ro.Base.Tests.{ltb, if◌then◌else◌}

-- `negsuc n` is -(n + 1).
pub data ℤ : Type 0 where
  pos : ℕ → ℤ
  negsuc : ℕ → ℤ

-- -n.
abbrev pub negate : ℕ → ℤ
negate zero = pos 0
negate (suc n) = negsuc n

-- The value modulo 2^w, as a cast to an unsigned type of w bits gives it.
abbrev pub to_unsigned : ℕ → ℤ → ℕ
to_unsigned w (pos n) = n % 2 ^ w
to_unsigned w (negsuc n) = 2 ^ w - 1 - n % 2 ^ w

-- The cast to a signed type of `suc w` bits.
abbrev pub to_signed : ℕ → ℤ → ℤ
to_signed w z =
    let u = to_unsigned (suc w) z in if ltb u (2 ^ w) then pos u else negsuc (2 ^ (suc w) - 1 - u)
