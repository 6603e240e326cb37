-- ===== src/Handlers/Depth.antt =====
-- About the depth of the shim's own `open` inside `remote_open_file`.
use s3ro.Base.{ℕ, suc, Option, none, some, Bytes, List, ◌≡◌, refl, ap}
use s3ro.Handlers.{
  Handler, answer, route, at_root, handle_open_common, reopen, open_file, open64, openat,
  at_root_from, fall_back_or_enosys, delegated_open, mode_argument, open64_fallback,
}
use s3ro.Path.{DirFd}
use s3ro.Remote.{remote_open_file}
use s3ro.Remote.Reopening.{remote_open_file-reopen}
use s3ro.World.{World, System, Event, Symbol, sym_open, sym_openat}

-- The cache directory does not lie below REMOTEFS_ROOT.
abbrev pub CachesOutside : System → Type 0
CachesOutside sys =
    (trace : List Event) (template : Bytes) (fd : ℕ) (name : Bytes)
    → sys.mkstemp trace template ≡ some (fd, name)
    → at_root sys (some name) ≡ none

reopen_outside :
    (sys : System) (fuel : ℕ) (path : Bytes) (flags : ℕ) (w : World)
    → at_root sys (some path) ≡ none
    → reopen sys (suc fuel) path flags w ≡ reopen sys 1 path flags w
unfolding reopen handle_open_common
reopen_outside sys fuel path flags w outside = rw outside refl

remote_open_file_depth :
    (sys : System) (fuel : ℕ) (place : Option Bytes) (flags : ℕ) (outside : Handler ℕ) (w : World)
    → CachesOutside sys
    → route place outside
        (λ abs_path. remote_open_file sys (reopen sys (suc fuel)) abs_path flags)
        w
      ≡ route place outside (λ abs_path. remote_open_file sys (reopen sys 1) abs_path flags) w
remote_open_file_depth sys fuel none flags outside w caches = refl
remote_open_file_depth sys fuel (some abs_path) flags outside w caches = ap answer (
    remote_open_file-reopen sys (reopen sys (suc fuel)) (reopen sys 1) abs_path flags w
      (λ trace template fd name v e.
        reopen_outside sys fuel name 0 v (caches trace template fd name e)))

-- If no name that mkstemp gives lies below the root, the shim's open inside remote_open_file goes
-- to the real one: a depth of one gives what any greater depth does.
pub open_file_depth :
    (sys : System) (fuel : ℕ) (fd : DirFd) (path : Option Bytes) (flags mode : ℕ) (w : World)
    → CachesOutside sys
    → (open_file sys (suc fuel) path flags mode w ≡ open_file sys 1 path flags mode w)
      × (open64 sys (suc fuel) path flags mode w ≡ open64 sys 1 path flags mode w)
      × (openat sys (suc fuel) fd path flags mode w ≡ openat sys 1 fd path flags mode w)
unfolding open_file open64 openat handle_open_common
open_file_depth sys fuel fd path flags mode w caches =
    let handed : Symbol → Handler ℕ =
      λ sym. fall_back_or_enosys sys sym (delegated_open sym flags (mode_argument flags mode)) in
    (
      remote_open_file_depth sys fuel (at_root sys path) flags (handed sym_open) w caches,
      remote_open_file_depth sys fuel (at_root sys path) flags (handed (open64_fallback sys)) w
          caches,
      remote_open_file_depth sys fuel (at_root_from sys fd path) flags (handed sym_openat) w caches,
    )
