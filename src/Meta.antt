-- ===== src/Meta.antt =====
-- Remote metadata and what the shim reports of it: `derive_mode`, `hydrate_stat`, `hydrate_stat64`
-- and `hydrate_statx` of shim/ldpreload/remotefs_shim.c. The file types are those of Linux.
pub mod Mode
pub mod Agreement
use Prim.Native.Nat.{bit_and, bit_or}
use s3ro.Base.{
  ℕ, ◌+◌, ◌-◌, ◌/◌, ◌%◌, ◌^◌, Bool, true, false, Option, none, some, Bytes, ◌==◌, if◌then◌else◌,
}
use s3ro.Base.Int.{ℤ, pos, negsuc, negate, to_unsigned}
use s3ro.Hash.{hash_path}

-- `size` and `mode` are long long, `uid` and `gid` are int.
pub record RemoteMeta : Type 0 where
  pub path : Bytes
  pub size : ℤ
  pub mode : ℤ
  pub uid : ℤ
  pub gid : ℤ
  pub is_dir : Bool

abbrev pub s_ifmt : ℕ
s_ifmt = 0o170000

abbrev pub s_ifdir : ℕ
s_ifdir = 0o040000

abbrev pub s_ifreg : ℕ
s_ifreg = 0o100000

-- `(mode & S_IFMT) == 0` and what is done then, on the 32 bits of a mode_t.
pub with_type : Bool → ℕ → ℕ
with_type is_dir mode =
    if bit_and mode s_ifmt == 0 then bit_or mode (if is_dir then s_ifdir else s_ifreg) else mode

pub with_permissions : Bool → ℕ → ℕ
with_permissions is_dir mode =
    if bit_and mode 0o777 == 0 then bit_or mode (if is_dir then 0o550 else 0o440) else mode

unfoldable pub derive_mode : RemoteMeta → ℕ
unfolding with_type with_permissions
derive_mode m = with_permissions m.is_dir (with_type m.is_dir (to_unsigned 32 m.mode))

-- `S_ISDIR(mode)`.
unfoldable pub s_isdir : ℕ → Bool
s_isdir mode = bit_and mode s_ifmt == s_ifdir

pub record Timespec : Type 0 where
  pub sec : ℕ
  pub nsec : ℕ

-- struct stat; struct stat64 has the same fields.
pub record Stat : Type 0 where
  pub mode : ℕ
  pub uid : ℕ
  pub gid : ℕ
  pub nlink : ℕ
  pub size : ℤ
  pub blksize : ℕ
  pub blocks : ℤ
  pub dev : ℕ
  pub ino : ℕ
  pub atim : Timespec
  pub mtim : Timespec
  pub ctim : Timespec

-- `(size + 511) / 512` in signed arithmetic, which rounds towards 0. Sizes above 2^63 - 512 overflow
-- in the C code.
pub blocks_of : ℤ → ℤ
blocks_of (pos n) = pos ((n + 511) / 512)
blocks_of (negsuc n) = negate ((n + 1 - 511) / 512)

-- `now` is what clock_gettime gives.
unfoldable pub hydrate_stat : Timespec → Bytes → RemoteMeta → Stat
unfolding derive_mode blocks_of hash_path
hydrate_stat now abs_path meta = record {
  mode = derive_mode meta;
  uid = to_unsigned 32 meta.uid;
  gid = to_unsigned 32 meta.gid;
  nlink = if meta.is_dir then 2 else 1;
  size = meta.size;
  blksize = 4096;
  blocks = blocks_of meta.size;
  dev = 0;
  ino = hash_path (some abs_path);
  atim = now;
  mtim = now;
  ctim = now;
}

unfoldable pub hydrate_stat64 : Timespec → Bytes → RemoteMeta → Stat
unfolding derive_mode blocks_of hash_path
hydrate_stat64 now abs_path meta = record {
  mode = derive_mode meta;
  uid = to_unsigned 32 meta.uid;
  gid = to_unsigned 32 meta.gid;
  nlink = if meta.is_dir then 2 else 1;
  size = meta.size;
  blksize = 4096;
  blocks = blocks_of meta.size;
  dev = 0;
  ino = hash_path (some abs_path);
  atim = now;
  mtim = now;
  ctim = now;
}

-- struct statx, without the fields that stay 0.
pub record Statx : Type 0 where
  pub mask : ℕ
  pub mode : ℕ
  pub uid : ℕ
  pub gid : ℕ
  pub nlink : ℕ
  pub size : ℕ
  pub blocks : ℕ
  pub blksize : ℕ
  pub ino : ℕ
  pub attributes : ℕ
  pub attributes_mask : ℕ
  pub dev_major : ℕ
  pub dev_minor : ℕ
  pub rdev_major : ℕ
  pub rdev_minor : ℕ
  pub atime : Timespec
  pub mtime : Timespec
  pub ctime : Timespec

pub fill_statx_timestamp : Timespec → Timespec
fill_statx_timestamp now = record { sec = now.sec; nsec = now.nsec % 2 ^ 32 }

-- `present` is `stx != NULL`, and `none` is the failure with EFAULT. The clock is read for each time.
unfoldable pub hydrate_statx : (ℕ → Timespec) → Bytes → RemoteMeta → Bool → Option Statx
unfolding derive_mode blocks_of hash_path fill_statx_timestamp
hydrate_statx clock abs_path meta false = none
hydrate_statx clock abs_path meta true = some (record {
  mask = 0x7ff;
  mode = derive_mode meta % 2 ^ 16;
  uid = to_unsigned 32 meta.uid;
  gid = to_unsigned 32 meta.gid;
  nlink = if meta.is_dir then 2 else 1;
  size = to_unsigned 64 meta.size;
  blocks = to_unsigned 64 (blocks_of meta.size);
  blksize = 4096;
  ino = hash_path (some abs_path);
  attributes = 0;
  attributes_mask = 0;
  dev_major = 0;
  dev_minor = 0;
  rdev_major = 0;
  rdev_minor = 0;
  atime = fill_statx_timestamp (clock 0);
  mtime = fill_statx_timestamp (clock 1);
  ctime = fill_statx_timestamp (clock 2);
})
