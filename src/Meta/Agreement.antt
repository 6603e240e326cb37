-- ===== src/Meta/Agreement.antt =====
-- About what stat and statx report of the same metadata.
use s3ro.Base.{ℕ, ◌+◌, ◌/◌, ◌%◌, ◌^◌, ◌<◌, true, some, Bytes, ◌≡◌, refl, sym, ap, arith}
use s3ro.Base.Int.{ℤ, pos, to_unsigned}
use s3ro.Meta.{
  RemoteMeta, Timespec, Stat, Statx, hydrate_stat, hydrate_statx, derive_mode, fill_statx_timestamp,
  blocks_of,
}
use s3ro.Meta.Mode.{derive_mode-IsDerived}

-- The same values in the fields of both.
pub record Agrees (st : Stat) (stx : Statx) : Type 0 where
  pub mode : st.mode ≡ stx.mode
  pub uid : st.uid ≡ stx.uid
  pub gid : st.gid ≡ stx.gid
  pub nlink : st.nlink ≡ stx.nlink
  pub size : st.size ≡ pos stx.size
  pub blocks : st.blocks ≡ pos stx.blocks
  pub blksize : st.blksize ≡ stx.blksize
  pub ino : st.ino ≡ stx.ino
  pub atime : st.atim ≡ stx.atime
  pub mtime : st.mtim ≡ stx.mtime
  pub ctime : st.ctim ≡ stx.ctime

small_mode :
    (m : RemoteMeta) → to_unsigned 32 m.mode < 2 ^ 16 → derive_mode m % 2 ^ 16 ≡ derive_mode m
small_mode m h = omega (arith, h, (derive_mode-IsDerived m).high_kept)

small_size : (z : ℤ) {n : ℕ} → z ≡ pos n → n < 2 ^ 63 → z ≡ pos (to_unsigned 64 z)
small_size z {n} e h = let fits : n % 2 ^ 64 ≡ n = omega arith in rw e (ap pos (sym fits))

small_blocks :
    (z : ℤ) {n : ℕ}
    → z ≡ pos n
    → n + 511 < 2 ^ 63
    → blocks_of z ≡ pos (to_unsigned 64 (blocks_of z))
unfolding blocks_of
small_blocks z {n} e h =
    let fits : (n + 511) / 512 % 2 ^ 64 ≡ (n + 511) / 512 = omega arith in rw e (ap pos (sym fits))

fill_same : (now : Timespec) → now.nsec < 2 ^ 32 → fill_statx_timestamp now ≡ now
unfolding fill_statx_timestamp
fill_same now h = ground arith

-- If the mode fits 16 bits, the size is not negative and so small that size + 511 is below 2^63,
-- and the clock gives fewer than 2^32 nanoseconds, statx reports in each field that both have
-- what stat reports of the same metadata at the same time.
pub hydrate_statx-hydrate_stat :
    (now : Timespec) (abs_path : Bytes) (m : RemoteMeta) {n : ℕ}
    → to_unsigned 32 m.mode < 2 ^ 16
    → m.size ≡ pos n
    → n + 511 < 2 ^ 63
    → now.nsec < 2 ^ 32
    → (stx : Statx) × (hydrate_statx (λ _. now) abs_path m true ≡ some stx)
      × Agrees (hydrate_stat now abs_path m) stx
unfolding hydrate_stat hydrate_statx
hydrate_statx-hydrate_stat now abs_path m small size below nanos = (
  _,
  refl,
  record {
    mode = sym (small_mode m small);
    uid = refl;
    gid = refl;
    nlink = refl;
    size = small_size m.size size (omega arith);
    blocks = small_blocks m.size size below;
    blksize = refl;
    ino = refl;
    atime = sym (fill_same now nanos);
    mtime = sym (fill_same now nanos);
    ctime = sym (fill_same now nanos);
  },
)
