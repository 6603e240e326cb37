-- ===== src/Tests/Lives.antt =====
-- Processes that start.
use s3ro.Base.{◌≡◌, refl, true, none, some, List, [], Bytes, codes}
use s3ro.Config.{configured_root}
use s3ro.Config.Life.{Machine, loaded, FailsAll}
use s3ro.Config.Once.{
  Environment, Globals, Startup, start_with, blank_globals, shim_init_once, ensure_initialized,
  system_of,
}
use s3ro.Config.Started.{Life-blank}
use s3ro.Config.Within.{IsDecided, shim_init_once-IsDecided}
use s3ro.Path.{canonicalize_path}
use s3ro.Path.Names.{ArePlain, render}
use s3ro.Run.{ok}
use s3ro.Tests.Fixtures.{tester, start_world}

abbrev environment : Environment
environment = record {
  cwd = some (codes "/home/x");
  root = some (codes "/data//virtual/");
  socket = none;
  cache = none;
  tmpdir = some (codes "/var/tmp");
  euid = 1000;
  egid = 100;
  dlsym = λ name. true;
}

abbrev cold : Machine
cold = record { globals = blank_globals; events = []; world = start_world }

abbrev warm : Machine
warm = record {
  globals = (start_with environment (codes "/data/virtual")).0;
  events = (start_with environment (codes "/data/virtual")).1;
  world = start_world;
}

starts : ensure_initialized environment (blank_globals, []) ≡ ok (warm.globals, warm.events)
unfolding ensure_initialized shim_init_once configured_root canonicalize_path
starts = refl

Life-blank_example : FailsAll (system_of tester blank_globals) 7 start_world × (cold.events ≡ [])
Life-blank_example = Life-blank tester 7 {m = cold} (loaded start_world refl) refl

shim_init_once-IsDecided_example :
    (g : Globals) × (events : List Startup) × (root : List Bytes) × (shim_init_once environment
      ≡ ok (g, events))
    × ArePlain root
    × (g.cfg.root ≡ render root)
    × IsDecided (system_of tester g) root (some (codes "docs/../a"))
shim_init_once-IsDecided_example =
    shim_init_once-IsDecided environment tester (some (codes "docs/../a")) refl refl
