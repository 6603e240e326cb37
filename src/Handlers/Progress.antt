-- ===== src/Handlers/Progress.antt =====
-- About open and open64 when nothing they need fails.
use s3ro.Base.{ℕ, suc, true, Option, none, some, List, ◌∷◌, Bytes, ◌≡◌, refl}
use s3ro.Handlers.{answered, at_root, handle_open_common, reopen, open_file, open64}
use s3ro.Handlers.Depth.{CachesOutside}
use s3ro.Remote.Progress.{Opens, remote_open_file_total}
use s3ro.World.{World, System, Event, sym_open, opened, done}

-- libc's open is there, and opens each file that mkstemp makes.
pub record HasOpen (sys : System) : Type 0 where
  pub found : sys.resolved sym_open ≡ true
  pub gives :
      (before trace : List Event) (template : Bytes) (temp : ℕ) (name : Bytes)
      → sys.mkstemp before template ≡ some (temp, name)
      → (fd : ℕ) × (sys.real_open trace name 0 ≡ some fd)

reopen_total :
    (sys : System) (fuel : ℕ) (name : Bytes) (v : World) {fd : ℕ}
    → sys.resolved sym_open ≡ true
    → sys.real_open v.trace name 0 ≡ some fd
    → at_root sys (some name) ≡ none
    → reopen sys (suc fuel) name 0 v ≡ (done fd, record v { trace = opened name 0 ∷ v.trace })
unfolding reopen handle_open_common
reopen_total sys fuel name v found e outside = rw (outside, found, e) refl

-- If the path lies below the root, the flags ask for no write, stat succeeds and says that it is
-- no directory, mkstemp gives a file outside the root, curl starts, there is memory for the URL,
-- the daemon answers /cat with status 200, write(2) always takes a byte at least, lseek succeeds,
-- and the real open is there and opens each file that mkstemp makes, then open and open64 answer
-- with a descriptor.
pub open_file_total :
    (sys : System) (fuel : ℕ) (path : Option Bytes) (flags mode : ℕ) (w : World) {abs_path : Bytes}
    → CachesOutside sys
    → HasOpen sys
    → at_root sys path ≡ some abs_path
    → Opens sys abs_path flags w
    → (fd : ℕ) × (w' : World) × (open_file sys (suc fuel) path flags mode w
        ≡ (answered (done fd), w'))
      × (open64 sys (suc fuel) path flags mode w ≡ (answered (done fd), w'))
unfolding open_file open64 handle_open_common
open_file_total sys fuel path flags mode w {abs_path} caches has inside h =
    let outside = caches h.w1.trace _ h.temp h.name h.made in
    let (fd, w', e) = remote_open_file_total sys (reopen sys (suc fuel)) abs_path flags w h (λ v.
      let (fd, real) = has.gives h.w1.trace v.trace _ h.temp h.name h.made in
      (
        fd,
        record v { trace = opened h.name 0 ∷ v.trace },
        reopen_total sys fuel h.name v has.found real outside,
      )) in
    (fd, w', rw (inside, e) refl, rw (inside, e) refl)
