-- ===== src/Meta/Mode.antt =====
-- About `derive_mode`: the mode in plain arithmetic, and its bits.
use s3ro.Base.{ℕ, ◌+◌, ◌/◌, ◌%◌, ◌^◌, ◌<◌, Bool, true, false, ◌==◌, if◌then◌else◌, ◌≡◌, ◌≢◌, arith}
use s3ro.Base.Bits.{
  bit_or-bit_and, bit_and-s_ifmt, bit_and-s_ifdir, bit_and-s_ifreg, bit_and-permissions,
  bit_and_none_550, bit_and_none_440,
}
use s3ro.Base.Int.{ℤ, pos, negsuc, to_unsigned}
use s3ro.Meta.{RemoteMeta, with_type, with_permissions, derive_mode}

-- The file type, and the permissions, of a mode.
abbrev pub type_of : ℕ → ℕ
type_of mode = mode / 4096 % 16

abbrev pub permissions_of : ℕ → ℕ
permissions_of mode = mode % 512

with_type-eq :
    (is_dir : Bool) (u : ℕ)
    → with_type is_dir u
      ≡ (if type_of u == 0 then u + (if is_dir then 0o040000 else 0o100000) else u)
unfolding with_type
with_type-eq true u = ground (arith, bit_and-s_ifmt u, bit_or-bit_and u 0o040000, bit_and-s_ifdir u)
with_type-eq false u =
    ground (arith, bit_and-s_ifmt u, bit_or-bit_and u 0o100000, bit_and-s_ifreg u)

with_permissions-eq :
    (is_dir : Bool) (u : ℕ)
    → with_permissions is_dir u
      ≡ (if permissions_of u == 0 then u + (if is_dir then 0o550 else 0o440) else u)
unfolding with_permissions
with_permissions-eq true u =
    ground (arith, bit_and-permissions u, bit_or-bit_and u 0o550, bit_and_none_550 u)
with_permissions-eq false u =
    ground (arith, bit_and-permissions u, bit_or-bit_and u 0o440, bit_and_none_440 u)

to_unsigned-lt : (z : ℤ) → to_unsigned 32 z < 2 ^ 32
to_unsigned-lt (pos n) = omega arith
to_unsigned-lt (negsuc n) = omega arith

-- What the mode is to be, given the 32 bits that the daemon sent.
pub record IsDerived (is_dir : Bool) (u : ℕ) (mode : ℕ) : Type 0 where
  pub fits : mode < 2 ^ 32
  pub type_kept : type_of u ≢ 0 → type_of mode ≡ type_of u
  pub type_given : type_of u ≡ 0 → type_of mode ≡ (if is_dir then 4 else 8)
  pub permissions_kept : permissions_of u ≢ 0 → permissions_of mode ≡ permissions_of u
  pub permissions_given :
      permissions_of u ≡ 0 → permissions_of mode ≡ (if is_dir then 0o550 else 0o440)
  pub rest_kept : mode / 512 % 8 ≡ u / 512 % 8
  pub high_kept : mode / 65536 ≡ u / 65536

-- The mode with the type that it lacks, and then with the permissions.
abbrev typed : Bool → ℕ → ℕ
typed is_dir u = if type_of u == 0 then u + (if is_dir then 0o040000 else 0o100000) else u

abbrev permitted : Bool → ℕ → ℕ
permitted is_dir u = if permissions_of u == 0 then u + (if is_dir then 0o550 else 0o440) else u

permitted-typed-IsDerived :
    (is_dir : Bool) (u : ℕ) → u < 2 ^ 32 → IsDerived is_dir u (permitted is_dir (typed is_dir u))
permitted-typed-IsDerived is_dir u h = record {
  fits = ground arith;
  type_kept = λ t. ground arith;
  type_given = λ t. ground arith;
  permissions_kept = λ p. ground arith;
  permissions_given = λ p. ground arith;
  rest_kept = ground arith;
  high_kept = ground arith;
}

-- Whatever mode the daemon sends, derive_mode gives 32 bits: the file type and the permissions of
-- the mode where it has them, and else a directory or regular file as is_dir says, and 0550 or
-- 0440; the bits in between and above the type are kept.
pub derive_mode-IsDerived :
    (m : RemoteMeta) → IsDerived m.is_dir (to_unsigned 32 m.mode) (derive_mode m)
unfolding derive_mode
derive_mode-IsDerived m =
    let u = to_unsigned 32 m.mode in
    rw (with_type-eq m.is_dir u, with_permissions-eq m.is_dir (typed m.is_dir u))
      (permitted-typed-IsDerived m.is_dir u (to_unsigned-lt m.mode))
