-- ===== src/Config/Once.antt =====
-- The start of the shim in shim/ldpreload/remotefs_shim.c: its static variables, `shim_init_once` and
-- `ensure_initialized`. What libcurl's start does is not modelled; that it is called is an event.
use s3ro.Base.{ℕ, Bool, true, false, Option, List, [], ◌∷◌, ◌++◌, Bytes, if◌then◌else◌}
use s3ro.Config.{configured_root, configured_socket, configured_cache}
use s3ro.Config.Symbols.{init_real_symbols}
use s3ro.Run.{Run, ok, ◌>>=◌}
use s3ro.Handlers.{Handler, Answer}
use s3ro.World.{World, System, Symbol}

-- What the process finds at a call: its environment, its working directory, its user, and whether
-- dlsym knows a name.
pub record Environment : Type 0 where
  pub cwd : Option Bytes
  pub root : Option Bytes
  pub socket : Option Bytes
  pub cache : Option Bytes
  pub tmpdir : Option Bytes
  pub euid : ℕ
  pub egid : ℕ
  pub dlsym : Bytes → Bool

-- struct shim_config; `root_len` is the length of the root.
pub record ShimConfig : Type 0 where
  pub root : Bytes
  pub socket_path : Bytes
  pub cache_dir : Bytes

-- The static variables but for the list of directories; `ready` is g_init_once after its call, and
-- `resolved` whether a real_..._fn is not NULL.
pub record Globals : Type 0 where
  pub cfg : ShimConfig
  pub uid : ℕ
  pub gid : ℕ
  pub ready : Bool
  pub resolved : Symbol → Bool

-- What a loaded library has in them.
abbrev pub blank_globals : Globals
blank_globals = record {
  cfg = record { root = []; socket_path = []; cache_dir = [] };
  uid = 0;
  gid = 0;
  ready = false;
  resolved = λ _. false;
}

-- The calls of libraries on the way.
pub data Startup : Type 0 where
  made_dir : Bytes → (mode : ℕ) → Startup
  started_curl ends_with_cleanup : Startup

-- From the root on.
abbrev pub start_with : Environment → Bytes → Globals × List Startup
start_with env root = (
  record {
    cfg = record {
      root = root;
      socket_path = configured_socket env.socket;
      cache_dir = configured_cache env.cache env.tmpdir;
    };
    uid = env.euid;
    gid = env.egid;
    ready = true;
    resolved = init_real_symbols env.dlsym;
  },
  made_dir (configured_cache env.cache env.tmpdir) 0o700 ∷ started_curl ∷ ends_with_cleanup ∷ [],
)

unfoldable pub shim_init_once : Environment → Run (Globals × List Startup)
shim_init_once env = configured_root env.cwd env.root >>= λ root. ok (start_with env root)

-- pthread_once.
unfoldable pub ensure_initialized :
    Environment → Globals × List Startup → Run (Globals × List Startup)
unfolding shim_init_once
ensure_initialized env (g, events) =
    if g.ready then ok (g, events) else shim_init_once env >>= λ (g', more). ok (g', events ++ more)

-- The system that a handler works with.
abbrev pub system_of : System → Globals → System
system_of sys g = record sys {
  process = record sys.process { root = g.cfg.root };
  g_uid = g.uid;
  g_gid = g.gid;
  cache_dir = g.cfg.cache_dir;
  resolved = g.resolved;
}

-- A function that takes a path: `ensure_initialized();`, and the rest with the settings.
unfoldable pub entered :
    {A : Type 0}
    → System
    → Environment
    → Globals × List Startup
    → (System → Handler A)
    → World
    → Run ((Answer A × World) × (Globals × List Startup))
unfolding ensure_initialized
entered sys env before rest w =
    ensure_initialized env before >>= λ (g, events). ok (rest (system_of sys g) w, (g, events))
