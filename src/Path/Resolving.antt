-- ===== src/Path/Resolving.antt =====
-- resolve_absolute in front of path_within_root, as the functions with a directory descriptor use them.
use s3ro.Base.{true, Option, some, ◌≡◌, refl, ◌⊎◌, inl, inr, Bytes, codes, starts_with, Bool-cases}
use s3ro.Run.{Run, ok, refuse, overrun, stuck, stray, ◌>>=◌}
use s3ro.Path.{
  path_max, Process, DirFd, at_fdcwd, descriptor, canonicalize_path, resolve_at, resolve_absolute,
  path_within_root,
}
use s3ro.Path.Canonical.{IsCwd}
use s3ro.Path.Absolute.{canonicalize_path_idem}

resolve_absolute-canonicalize_path :
    (p : Process) (fd : DirFd) (path : Bytes)
    → (fd ≡ at_fdcwd) ⊎ (starts_with (codes "/") path ≡ true)
    → resolve_absolute p fd (some path) path_max ≡ canonicalize_path p.cwd (some path) path_max
unfolding resolve_absolute resolve_at
resolve_absolute-canonicalize_path p at_fdcwd path h =
    elim (Bool-cases (starts_with (codes "/") path)) [
      | inl absolute ↦ rw absolute refl
      | inr relative ↦ rw relative refl
    ]
resolve_absolute-canonicalize_path p (descriptor fd) path (inl e) = cc
resolve_absolute-canonicalize_path p (descriptor fd) path (inr e) = rw e refl

-- Canonicalizing once more does not change where a path lies.
within_twice :
    (p : Process) (path : Option Bytes) (r : Run Bytes)
    → IsCwd p.cwd
    → canonicalize_path p.cwd path path_max ≡ r
    → (r >>= λ abs. path_within_root p (some abs)) ≡ path_within_root p path
unfolding path_within_root
within_twice p path (ok abs) w e = rw (e, canonicalize_path_idem p.cwd p.cwd path path_max w e) refl
within_twice p path refuse w e = rw e refl
within_twice p path overrun w e = rw e refl
within_twice p path stuck w e = rw e refl
within_twice p path stray w e = rw e refl

pub resolve_absolute-path_within_root :
    (p : Process) (fd : DirFd) (path : Bytes)
    → IsCwd p.cwd
    → (fd ≡ at_fdcwd) ⊎ (starts_with (codes "/") path ≡ true)
    → (resolve_absolute p fd (some path) path_max >>= λ abs. path_within_root p (some abs))
      ≡ path_within_root p (some path)
resolve_absolute-path_within_root p fd path w h =
    rw (resolve_absolute-canonicalize_path p fd path h)
      (within_twice p (some path) (canonicalize_path p.cwd (some path) path_max) w refl)
