-- ===== src/Hash.antt =====
-- `hash_path` of shim/ldpreload/remotefs_shim.c: the 64-bit FNV-1a hash of a path.
use Prim.Native.Nat.{bit_xor}
use s3ro.Base.{ℕ, ◌*◌, ◌%◌, ◌^◌, Option, none, some, [], ◌∷◌, Bytes}

-- `hash ^= c; hash *= 1099511628211ULL;`
pub hash_byte : ℕ → ℕ → ℕ
hash_byte hash c = bit_xor hash c * 1099511628211 % 2 ^ 64

pub hash_loop : ℕ → Bytes → ℕ
unfolding hash_byte
hash_loop hash [] = hash
hash_loop hash (c ∷ path) = hash_loop (hash_byte hash c) path

unfoldable pub hash_path : Option Bytes → ℕ
unfolding hash_loop
hash_path none = 1469598103934665603
hash_path (some path) = hash_loop 1469598103934665603 path
