-- ===== src/Config.antt =====
-- The settings in shim/ldpreload/remotefs_shim.c: the root, the socket and the cache directory that
-- `shim_init_once` takes from the environment. `none` is an unset variable.
pub mod Root
pub mod Symbols
pub mod Once
pub mod Within
pub mod Life
pub mod Started
use s3ro.Base.{
  ℕ, ◌-◌, Bool, true, false, ◌&&◌, Option, none, some, [], ◌∷◌, ◌++◌, Bytes, codes, ltb, ◌==◌,
  if◌then◌else◌, length, take,
}
use s3ro.Path.{path_max, clip, canonicalize_path}
use s3ro.Run.{Run, ok, refuse, overrun, stuck, stray}

-- `v = getenv(...); if (v == NULL || v[0] == '\0') v = fallback;`
pub env_or : Option Bytes → Bytes → Bytes
env_or none fallback = fallback
env_or (some []) fallback = fallback
env_or (some (c ∷ v)) fallback = c ∷ v

-- `s[strlen(s) - 1] == '/'`, of a string that is not empty.
pub ends_slash : Bytes → Bool
ends_slash [] = false
ends_slash (c ∷ []) = c == b'/'
ends_slash (_ ∷ d ∷ s) = ends_slash (d ∷ s)

-- The '/' at the end of a root that has more than one byte.
pub trim_slash : Bytes → Bytes
unfolding ends_slash
trim_slash root =
    if ltb 1 (length root) && ends_slash root then take (length root - 1) root else root

-- With the answer of `canonicalize_path`.
pub root_or_default : Run Bytes → Run Bytes
unfolding trim_slash
root_or_default (ok root) = ok (trim_slash root)
root_or_default refuse = ok (trim_slash (clip path_max (codes "/remote")))
root_or_default overrun = overrun
root_or_default stuck = stuck
root_or_default stray = stray

unfoldable pub configured_root : Option Bytes → Option Bytes → Run Bytes
unfolding env_or root_or_default
configured_root cwd root =
    root_or_default (canonicalize_path cwd (some (env_or root (codes "/remote"))) path_max)

unfoldable pub configured_socket : Option Bytes → Bytes
unfolding env_or
configured_socket sock = clip path_max (env_or sock (codes "/tmp/remotefs.sock"))

-- REMOTEFS_SHIM_CACHE, or a directory in TMPDIR.
unfoldable pub configured_cache : Option Bytes → Option Bytes → Bytes
unfolding env_or
configured_cache cache tmpdir = elim (env_or cache []) [
  | [] ↦ clip path_max (env_or tmpdir (codes "/tmp") ++ codes "/remotefs-shim")
  | c ∷ dir ↦ clip path_max (c ∷ dir)
]
