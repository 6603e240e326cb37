-- ===== src/Config/Life.antt =====
-- The life of a process with the shim: which calls start it, and with what the others work.
-- `ensure_initialized` stands at the head of the functions that take a path, and nowhere else.
use s3ro.Base.{Bool, true, false, Option, List, [], Bytes, ◌≡◌, ◌⊎◌}
use s3ro.Config.Once.{
  Environment, Globals, Startup, blank_globals, shim_init_once, entered, system_of,
}
use s3ro.Handlers.{Answer, answered, Handler}
use s3ro.Handlers.Directories.{
  ebadf, opendir, readdir, readdir64, readdir_r, readdir64_r, closedir, rewinddir, telldir, seekdir,
  dirfd,
}
use s3ro.Handlers.Directories.Observed.{Op, opens, perform}
use s3ro.Registry.{Ptr}
use s3ro.Base.Int.{ℤ}
use s3ro.Run.{ok}
use s3ro.World.{World, System, done, failed}

-- The static variables, what the start has called, and the world with the list of directories.
pub record Machine : Type 0 where
  pub globals : Globals
  pub events : List Startup
  pub world : World

abbrev pub takes_handle : Op → Bool
takes_handle (opens _) = false
takes_handle _ = true

-- One call. `on_path` is any other function that takes a path, as handle_stat, open_file or access,
-- none of which touches the list of directories.
pub data CallStep (sys : System) : Machine → Machine → Type 1 where
  on_opendir :
      {m : Machine} {r : Answer Ptr × World} {g : Globals} {events : List Startup}
      (env : Environment) (path : Option Bytes)
      → entered sys env (m.globals, m.events) (λ s. opendir s path) m.world ≡ ok (r, (g, events))
      → CallStep sys m (record { globals = g; events = events; world = r.1 })
  on_path :
      {A : Type 0} {m : Machine} {r : Answer A × World} {g : Globals} {events : List Startup}
      (env : Environment) (handler : System → Handler A)
      → entered sys env (m.globals, m.events) handler m.world ≡ ok (r, (g, events))
      → r.1.dirs ≡ m.world.dirs
      → CallStep sys m (record { globals = g; events = events; world = r.1 })
  on_handle_call :
      {m : Machine} (op : Op)
      → takes_handle op ≡ true
      → CallStep sys m (record m { world = (perform (system_of sys m.globals) op m.world).1 })
  on_dirfd :
      {m : Machine} (p : Ptr)
      → CallStep sys m (record m { world = (dirfd (system_of sys m.globals) p m.world).1 })

-- From the moment the library is loaded.
pub data Life (sys : System) : Machine → Type 1 where
  loaded :
      (w : World)
      → w.dirs ≡ []
      → Life sys (record { globals = blank_globals; events = []; world = w })
  then_step : {m n : Machine} → Life sys m → CallStep sys m n → Life sys n

-- Nothing has happened yet, or the process was started by one environment.
abbrev pub IsStarted : Machine → Type 0
IsStarted m = (env : Environment) × (shim_init_once env ≡ ok (m.globals, m.events))

abbrev pub IsBlank : Machine → Type 0
IsBlank m = (m.globals ≡ blank_globals) × (m.events ≡ []) × (m.world.dirs ≡ [])

-- The state of a process between two calls.
abbrev pub IsOnce : Machine → Type 0
IsOnce m = IsBlank m ⊎ IsStarted m

-- No directory function on a handle does anything but fail.
pub record FailsAll (sys : System) (p : Ptr) (w : World) : Type 0 where
  pub on_readdir : readdir sys p w ≡ (answered failed, w)
  pub on_readdir64 : readdir64 sys p w ≡ (answered failed, w)
  pub on_readdir_r : readdir_r sys p w ≡ (answered (done ebadf), w)
  pub on_readdir64_r : readdir64_r sys p w ≡ (answered (done ebadf), w)
  pub on_closedir : closedir sys p w ≡ (answered failed, w)
  pub on_rewinddir : rewinddir sys p w ≡ (answered failed, w)
  pub on_telldir : telldir sys p w ≡ (answered failed, w)
  pub on_seekdir : (loc : ℤ) → seekdir sys p loc w ≡ (answered failed, w)
  pub on_dirfd : dirfd sys p w ≡ (answered failed, w)
