-- ===== src/Handlers.antt =====
-- The functions that shim/ldpreload/remotefs_shim.c puts in front of libc's: paths. A call outside
-- REMOTEFS_ROOT is handed to the real function with the caller's arguments.
pub mod Directories
pub mod Routing
pub mod StatNames
pub mod Depth
pub mod Contents
pub mod Progress
pub mod Temporary
use Prim.Native.Nat.{bit_and}
use s3ro.Base.{
  ℕ, zero, suc, Bool, true, false, not, Option, none, some, ◌∷◌, Bytes, ◌==◌, if◌then◌else◌,
}
use s3ro.Meta.{Stat, Statx, RemoteMeta, hydrate_statx}
use s3ro.Path.{path_max, DirFd, at_fdcwd, descriptor, Located, resolve_absolute, path_within_root}
use s3ro.Remote.{fetch_remote_meta, remote_stat_path, remote_stat64_path, remote_open_file, o_creat}
use s3ro.Run
use s3ro.Run.{Run, ok}
use s3ro.World.{
  World, System, Symbol, sym_stat, sym_stat64, sym_fstatat, sym_open, sym_open64, sym_openat,
  sym_access, sym_faccessat, sym_statx, opened, erofs, enosys, efault, Reply, done, failed, crashed,
  M, after,
}

-- What a function in front of libc's does: it answers, or returns what the real function returns.
-- `with_mode` is the third argument of open, where there is one.
pub data Answer (A : Type 0) : Type 0 where
  answered : Reply A → Answer A
  delegated : Symbol → Answer A
  delegated_open : Symbol → (flags : ℕ) → (with_mode : Option ℕ) → Answer A

abbrev pub Handler : Type 0 → Type 0
Handler A = World → Answer A × World

abbrev pub answer : {A : Type 0} → Reply A × World → Answer A × World
answer (r, w) = (answered r, w)

-- `true` of `path_within_root`.
abbrev pub located : Run Located → Option Bytes
located (ok l) = some l.abs
located _ = none

abbrev pub at_root : System → Option Bytes → Option Bytes
at_root sys path = located (path_within_root sys.process path)

-- `resolve_absolute(...) && path_within_root(abs_path, abs_path, ...)`.
abbrev pub at_root_from : System → DirFd → Option Bytes → Option Bytes
at_root_from sys fd path = located (
    Run.◌>>=◌ (resolve_absolute sys.process fd path path_max)
      (λ abs. path_within_root sys.process (some abs)))

-- `return real_fn ? real_fn(...) : -1;`
abbrev pub fall_back : {A : Type 0} → System → Symbol → Handler A
fall_back sys sym w = (if sys.resolved sym then delegated sym else answered failed, w)

-- `if (real_fn) return real_fn(...); errno = ENOSYS; return -1;`
abbrev pub fall_back_or_enosys : {A : Type 0} → System → Symbol → Answer A → Handler A
fall_back_or_enosys sys sym call w =
    if sys.resolved sym then (call, w) else (answered failed, record w { errno = enosys })

-- A path below REMOTEFS_ROOT goes to `remote`, any other to `outside`.
abbrev pub route : {A : Type 0} → Option Bytes → Handler A → (Bytes → M A) → Handler A
route place outside remote w = elim place [
  | none ↦ outside w
  | some abs_path ↦ answer (remote abs_path w)
]

unfoldable pub handle_stat : System → Option Bytes → Handler Stat
handle_stat sys path = route (at_root sys path) (fall_back sys sym_stat) (remote_stat_path sys)

unfoldable pub handle_lstat : System → Option Bytes → Handler Stat
unfolding handle_stat
handle_lstat sys path = handle_stat sys path

unfoldable pub handle_stat64 : System → Option Bytes → Handler Stat
handle_stat64 sys path =
    route (at_root sys path) (fall_back sys sym_stat64) (remote_stat64_path sys)

unfoldable pub fstatat : System → DirFd → Option Bytes → Handler Stat
fstatat sys fd path =
    route (at_root_from sys fd path) (fall_back sys sym_fstatat) (remote_stat_path sys)

-- `present` is `stx != NULL`.
pub remote_statx : System → Bool → Bytes → M Statx
remote_statx sys present abs_path w = after (fetch_remote_meta sys abs_path w) λ meta w'.
    elim (hydrate_statx (sys.clock w'.trace) abs_path meta present) [
      | none ↦ (failed, record w' { errno = efault })
      | some stx ↦ (done stx, w')
    ]

unfoldable pub statx : System → DirFd → Option Bytes → Bool → Handler Statx
unfolding remote_statx
statx sys fd path present =
    route (at_root_from sys fd path) (fall_back_or_enosys sys sym_statx (delegated sym_statx))
      (remote_statx sys present)

-- The mode argument is read if O_CREAT is set.
abbrev pub mode_argument : ℕ → ℕ → Option ℕ
mode_argument flags mode = if bit_and flags o_creat == 0 then none else some mode

-- `reopen` is what `remote_open_file` calls `open`.
pub handle_open_common :
    System → (Bytes → ℕ → M ℕ) → Symbol → Option Bytes → ℕ → Option ℕ → Handler ℕ
handle_open_common sys reopen fallback path flags with_mode =
    route (at_root sys path)
      (fall_back_or_enosys sys fallback (delegated_open fallback flags with_mode))
      (λ abs_path. remote_open_file sys reopen abs_path flags)

-- The real open of libc, as the shim's own `open` reaches it.
abbrev pub run_real : System → Bytes → ℕ → Answer ℕ × World → Reply ℕ × World
run_real sys path flags (answered r, w) = (r, w)
run_real sys path flags (_, w) = elim (sys.real_open w.trace path flags) [
  | none ↦ (failed, w)
  | some fd ↦ (done fd, record w { trace = opened path flags ∷ w.trace })
]

-- `open(template_path, O_RDONLY)` in `remote_open_file` is the shim's `open` again. `none` fuel left
-- is a process that goes on opening temporary files; it crashes when its stack ends.
pub reopen : System → ℕ → Bytes → ℕ → M ℕ
unfolding handle_open_common
reopen sys zero path flags w = (crashed, w)
reopen sys (suc fuel) path flags w =
    run_real sys path flags
      (handle_open_common sys (reopen sys fuel) sym_open (some path) flags none w)

unfoldable pub open_file : System → ℕ → Option Bytes → ℕ → ℕ → Handler ℕ
unfolding handle_open_common reopen
open_file sys fuel path flags mode =
    handle_open_common sys (reopen sys fuel) sym_open path flags (mode_argument flags mode)

-- `real_open64_fn ? real_open64_fn : real_open_fn`.
abbrev pub open64_fallback : System → Symbol
open64_fallback sys = if sys.resolved sym_open64 then sym_open64 else sym_open

unfoldable pub open64 : System → ℕ → Option Bytes → ℕ → ℕ → Handler ℕ
unfolding handle_open_common reopen
open64 sys fuel path flags mode =
    handle_open_common sys (reopen sys fuel) (open64_fallback sys) path flags
      (mode_argument flags mode)

unfoldable pub openat : System → ℕ → DirFd → Option Bytes → ℕ → ℕ → Handler ℕ
unfolding reopen
openat sys fuel fd path flags mode =
    route (at_root_from sys fd path)
      (fall_back_or_enosys sys sym_openat
        (delegated_open sym_openat flags (mode_argument flags mode)))
      (λ abs_path. remote_open_file sys (reopen sys fuel) abs_path flags)

-- W_OK.
abbrev pub w_ok : ℕ
w_ok = 2

-- The check of a path below REMOTEFS_ROOT that access and faccessat share.
pub remote_access : System → ℕ → Bytes → M (Unit {0})
remote_access sys mode abs_path w =
    if bit_and mode w_ok == 0
    then after (remote_stat_path sys abs_path w) (λ _ w'. (done tt, w'))
    else (failed, record w { errno = erofs })

unfoldable pub access : System → Option Bytes → ℕ → Handler (Unit {0})
unfolding remote_access
access sys path mode = route (at_root sys path) (fall_back sys sym_access) (remote_access sys mode)

unfoldable pub faccessat : System → DirFd → Option Bytes → ℕ → Handler (Unit {0})
unfolding remote_access
faccessat sys fd path mode =
    route (at_root_from sys fd path) (fall_back sys sym_faccessat) (remote_access sys mode)
