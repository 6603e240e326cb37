-- ===== src/Handlers/Temporary.antt =====
-- About open, open64 and openat, and the temporary files of `remote_open_file`.
use s3ro.Base.{
  ℕ, zero, suc, Option, none, some, Bytes, ◌≡◌, refl, inl, inr, Option-cases, Bool-cases,
}
use s3ro.Handlers.{
  Answer, answered, delegated_open, answer, route, at_root, fall_back_or_enosys, handle_open_common,
  run_real, reopen, open_file, open64, openat, mode_argument, open64_fallback, at_root_from,
}
use s3ro.Path.{DirFd}
use s3ro.Remote.{remote_open_file}
use s3ro.Remote.Temporary.{remote_open_file-TidyReturn}
use s3ro.World.{World, System, Symbol, sym_open, sym_openat, Reply, M}
use s3ro.World.Temporary.{temp_files, TidyReturn}

run_real-answer :
    (sys : System) (path : Bytes) (flags : ℕ) (r : Reply ℕ × World)
    → run_real sys path flags (answer r) ≡ r
run_real-answer sys path flags r = refl

outside-TidyReturn :
    (sys : System) (path : Bytes) (flags : ℕ) (w : World)
    → TidyReturn w (
        run_real sys path flags
          (fall_back_or_enosys sys sym_open (delegated_open sym_open flags none) w))
outside-TidyReturn sys path flags w = elim (Bool-cases (sys.resolved sym_open)) [
  | inr missing ↦ rw missing refl
  | inl found ↦ elim (Option-cases (sys.real_open w.trace path flags)) [
    | inl e ↦ rw (found, e) refl
    | inr (fd, e) ↦ rw (found, e) refl
  ]
]

reopen-TidyReturn :
    (sys : System) (fuel : ℕ) (path : Bytes) (flags : ℕ) (w : World)
    → TidyReturn w (reopen sys fuel path flags w)
unfolding reopen handle_open_common
reopen-TidyReturn sys zero path flags w = tt
reopen-TidyReturn sys (suc fuel) path flags w = elim (Option-cases (at_root sys (some path))) [
  | inl outside ↦ rw outside (outside-TidyReturn sys path flags w)
  | inr (abs_path, inside) ↦ rw inside (
      remote_open_file-TidyReturn sys (reopen sys fuel) abs_path flags w
        (reopen-TidyReturn sys fuel))
]

-- A call that is handed on has done nothing yet.
abbrev pub TidyAnswer : {A : Type 0} → World → Answer A × World → Type 0
TidyAnswer w (answered r, w') = TidyReturn w (r, w')
TidyAnswer w (_, w') = temp_files w'.trace ≡ temp_files w.trace

route-TidyAnswer :
    {A : Type 0} (sys : System) (sym : Symbol) (call : Answer A) (place : Option Bytes)
    (remote : Bytes → M A) (w : World)
    → TidyAnswer w (call, w)
    → ((abs_path : Bytes) → TidyReturn w (remote abs_path w))
    → TidyAnswer w (route place (fall_back_or_enosys sys sym call) remote w)
route-TidyAnswer sys sym call (some abs_path) remote w handed tidy = tidy abs_path
route-TidyAnswer sys sym call none remote w handed tidy = elim (Bool-cases (sys.resolved sym)) [
  | inl found ↦ rw found handed
  | inr missing ↦ rw missing refl
]

-- Unless the process crashes, open, open64 and openat leave the temporary files as they were:
-- each that remote_open_file makes is unlinked again, on success and on every failure behind
-- mkstemp.
pub open_file-TidyAnswer :
    (sys : System) (fuel : ℕ) (fd : DirFd) (path : Option Bytes) (flags mode : ℕ) (w : World)
    → TidyAnswer w (open_file sys fuel path flags mode w)
      × TidyAnswer w (open64 sys fuel path flags mode w)
      × TidyAnswer w (openat sys fuel fd path flags mode w)
unfolding open_file open64 openat handle_open_common
open_file-TidyAnswer sys fuel fd path flags mode w =
    let remote : Bytes → M ℕ = λ abs_path. remote_open_file sys (reopen sys fuel) abs_path flags in
    let opens : (abs_path : Bytes)
        → TidyReturn w (remote_open_file sys (reopen sys fuel) abs_path flags w) =
      λ abs_path.
        remote_open_file-TidyReturn sys (reopen sys fuel) abs_path flags w
          (reopen-TidyReturn sys fuel) in
    let with_mode = mode_argument flags mode in
    (
      route-TidyAnswer sys sym_open (delegated_open sym_open flags with_mode) (at_root sys path)
          remote w refl opens,
      route-TidyAnswer sys (open64_fallback sys)
          (delegated_open (open64_fallback sys) flags with_mode) (at_root sys path) remote w refl
          opens,
      route-TidyAnswer sys sym_openat (delegated_open sym_openat flags with_mode)
          (at_root_from sys fd path) remote w refl opens,
    )
