-- ===== src/World.antt =====
-- What the shim runs in: the errno and the record of what it did to the outside, the outcome of a
-- C function, and the parameters that stand for the kernel, libc, libcurl and jsmn.
pub mod Views
pub mod Temporary
use s3ro.Base.{◌⊎◌, inl, inr, ◌≡◌, refl, ℕ, Bool, Option, List, ◌∷◌, Bytes}
use s3ro.Json.{Tokenizer}
use s3ro.Meta.{Timespec}
use s3ro.Path.{Process}
use s3ro.Registry.{Dirs}

pub data Errno : Type 0 where
  unset eio enoent enomem erofs eisdir enosys efault enotsup : Errno

-- What other programs can see of the shim.
pub data Event : Type 0 where
  request : Bytes → Event
  made_temp : Bytes → Event
  wrote : ℕ → Bytes → Event
  rewound : ℕ → Event
  closed : ℕ → Event
  opened : Bytes → ℕ → Event
  unlinked : Bytes → Event

-- The latest event comes first.
pub record World : Type 0 where
  pub errno : Errno
  pub trace : List Event
  pub dirs : Dirs

-- A result, a failure reported by -1 or NULL, or the end of the process at a NULL pointer.
pub data Reply (A : Type 0) : Type 0 where
  done : A → Reply A
  failed : Reply A
  crashed : Reply A

abbrev pub M : Type 0 → Type 0
M A = World → Reply A × World

-- What stands behind a call that succeeds.
abbrev pub after : {A B : Type 0} → Reply A × World → (A → M B) → Reply B × World
after (done a, w) f = f a w
after (failed, w) f = (failed, w)
after (crashed, w) f = (crashed, w)

infixl 5 ◌>>=◌ ◌>>◌
abbrev pub ◌>>=◌ : {A B : Type 0} → M A → (A → M B) → M B
◌>>=◌ m f w = after (m w) f

abbrev pub ◌>>◌ : {B : Type 0} → M (Unit {0}) → M B → M B
m >> k = m >>= λ _. k

abbrev pub pure : {A : Type 0} → A → M A
pure a w = (done a, w)

-- `errno = e; return -1;`
abbrev pub fail : {A : Type 0} → Errno → M A
fail e w = (failed, record w { errno = e })

-- `return -1;` with the errno of the call before.
abbrev pub give_up : {A : Type 0} → M A
give_up w = (failed, w)

abbrev pub log : Event → M (Unit {0})
log e w = (done tt, record w { trace = e ∷ w.trace })

-- What libcurl does in one GET: the pieces of the body that it hands to the write callback, and the
-- HTTP status, or `none` for an error of its own.
pub record Transfer : Type 0 where
  pub pieces : List Bytes
  pub status : Option ℕ

-- The functions of libc that the shim asks dlsym for, `real_..._fn` in the source. The names with an
-- x are those with underscores there: `sym_xstat` is `real___xstat_fn`.
pub data Symbol : Type 0 where
  sym_lstat sym_lstat64 sym_xstat sym_lxstat sym_xstat64 sym_lxstat64 sym_fxstatat : Symbol
  sym_stat sym_stat64 sym_fstatat sym_open sym_open64 sym_openat sym_opendir : Symbol
  sym_readdir sym_readdir64 sym_readdir_r sym_readdir64_r sym_closedir sym_rewinddir : Symbol
  sym_telldir sym_seekdir sym_dirfd sym_access sym_faccessat sym_statx : Symbol

-- What the shim does not implement. A function of a `List Event` may answer differently each time.
pub record System : Type 0 where
  pub process : Process
  pub g_uid : ℕ
  pub g_gid : ℕ
  pub cache_dir : Bytes
  pub allocates : ℕ → Bool
  pub curl_init : List Event → Bool
  pub transfer : List Event → Bytes → Transfer
  pub jsmn : Tokenizer
  pub clock : List Event → ℕ → Timespec
  pub mkstemp : List Event → Bytes → Option (ℕ × Bytes)
  pub write : List Event → ℕ → Bytes → ℕ
  pub lseek : List Event → ℕ → Bool
  pub fresh : Dirs → ℕ
  pub resolved : Symbol → Bool
  pub real_open : List Event → Bytes → ℕ → Option ℕ

-- Inversion of a chain that succeeds.
pub after-done :
    {A B : Type 0} (r : Reply A × World) (f : A → M B) {b : B} {w' : World}
    → after r f ≡ (done b, w')
    → (a : A) × (w : World) × (r ≡ (done a, w)) × (f a w ≡ (done b, w'))
after-done (done a, w) f h = (a, w, refl, h)
after-done (failed, w) f h = cc
after-done (crashed, w) f h = cc

-- The same of a chain that fails.
pub after-failed :
    {A B : Type 0} (r : Reply A × World) (f : A → M B) {w' : World}
    → after r f ≡ (failed, w')
    → (r ≡ (failed, w')) ⊎ ((a : A) × (w : World) × (r ≡ (done a, w)) × (f a w ≡ (failed, w')))
after-failed (done a, w) f h = inr (a, w, refl, h)
after-failed (failed, w) f h = inl (cc)
after-failed (crashed, w) f h = cc

-- The same of a chain that crashes.
pub after-crashed :
    {A B : Type 0} (r : Reply A × World) (f : A → M B) {w' : World}
    → after r f ≡ (crashed, w')
    → (r ≡ (crashed, w')) ⊎ ((a : A) × (w : World) × (r ≡ (done a, w)) × (f a w ≡ (crashed, w')))
after-crashed (done a, w) f h = inr (a, w, refl, h)
after-crashed (failed, w) f h = cc
after-crashed (crashed, w) f h = inl (cc)
