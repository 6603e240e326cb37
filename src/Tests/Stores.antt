-- ===== src/Tests/Stores.antt =====
-- A store with one object, as the daemon and the shim see it.
use s3ro.Base.{
  ◌<◌, ◌≡◌, refl, ap, none, some, List, [], ◌∷◌, Bytes, codes, length, ltb, lt→ltb, str_eq,
  if◌then◌else◌, arith,
}
use s3ro.Daemon.Agreement.{Cleans, spell-relative, sanitize-path_within_root}
use s3ro.Daemon.Coherence.{IsSameDirectory, stat_path-read_dir}
use s3ro.Daemon.Files.{
  TextTools, ObjectStore, FileSystem, found, missing, sanitize, below_local, clean_relative,
  head_or_list, stat_relative, stat_path, children_of, read_dir, requested, serve_stat,
}
use s3ro.Daemon.Serving.{Delivers, stat_found, handle_stat-serve_stat}
use s3ro.Handlers.{handle_stat}
use s3ro.Path.{path_max, path_within_root, canonicalize_path}
use s3ro.Path.Below.{relative}
use s3ro.Path.Names.{render, ArePlain, double-le-spell}
use s3ro.Run.{ok}
use s3ro.Tests.Fixtures.{process, start_world}
use s3ro.Tests.Served.{
  server, printed_at, text_file, text_path, text_inside, text_ServesEntry, stat_system,
}

-- A store in which one object lies, seen through a function for Clean that leaves clean text alone.
abbrev pub plain_tools : TextTools
plain_tools = record { trim_space = λ s. s; clean = λ s. if ltb 0 (length s) then s else codes "." }

abbrev small_store : ObjectStore
small_store = record {
  head = λ key. if str_eq key (codes "docs/b.txt") then found text_file else missing;
  list = λ key. if str_eq key (codes "docs") then found (text_file ∷ []) else missing;
}

abbrev pub small_files : FileSystem
small_files = record {
  tools = plain_tools;
  store = small_store;
  local_root = codes "/data/virtual";
  meta = none;
}

stat_path_run : stat_path small_files text_path ≡ found text_file
unfolding stat_path stat_relative head_or_list sanitize below_local clean_relative
stat_path_run = refl

read_dir_run : read_dir small_files (codes "/data/virtual/docs") ≡ found (text_file ∷ [])
unfolding read_dir children_of sanitize below_local clean_relative
read_dir_run = refl

text_Delivers :
    Delivers stat_system text_path start_world (serve_stat server small_files printed_at text_path)
unfolding serve_stat stat_path stat_relative head_or_list sanitize below_local clean_relative
text_Delivers = text_ServesEntry

handle_stat-serve_stat_example :
    handle_stat stat_system (some text_path) start_world
    ≡ stat_found stat_system server text_path start_world
        (stat_path small_files (requested small_files text_path))
handle_stat-serve_stat_example =
    handle_stat-serve_stat stat_system (some text_path) start_world server printed_at small_files
      text_inside text_Delivers

docs_sanitize :
    sanitize small_files.tools small_files.local_root (codes "/data/virtual/docs")
    ≡ some (codes "docs")
unfolding sanitize below_local clean_relative
docs_sanitize = refl

stat_path-read_dir_example :
    IsSameDirectory
      (codes "docs")
      (stat_path small_files (codes "/data/virtual/docs"))
      (read_dir small_files (codes "/data/virtual/docs"))
stat_path-read_dir_example =
    stat_path-read_dir small_files (codes "/data/virtual/docs") docs_sanitize refl refl

plain_tools-some : (s : Bytes) → 0 < length s → plain_tools.clean s ≡ s
plain_tools-some s h = rw (lt→ltb 0 (length s) h) refl

length-render : (dir : List Bytes) → ArePlain dir → 0 < length (render dir)
length-render [] plain = omega arith
length-render (name ∷ dir) plain = omega (arith, double-le-spell (name ∷ dir) plain)

length-relative :
    (name : Bytes) (dir : List Bytes) → ArePlain (name ∷ dir) → 0 < length (relative (name ∷ dir))
length-relative name dir plain =
    omega (arith, double-le-spell (name ∷ dir) plain, ap length (spell-relative name dir plain))

plain_tools-Cleans : Cleans plain_tools
plain_tools-Cleans = record {
  absolute = λ dir plain. plain_tools-some (render dir) (length-render dir plain);
  inner =
      λ name dir plain. plain_tools-some (relative (name ∷ dir)) (length-relative name dir plain);
  empty = refl;
}

canonicalize_text : canonicalize_path process.cwd (some text_path) path_max ≡ ok text_path
unfolding canonicalize_path
canonicalize_text = refl

text_within :
    path_within_root process (some text_path)
    ≡ ok (record { abs = text_path; rel = codes "docs/b.txt" })
unfolding path_within_root canonicalize_path
text_within = refl

sanitize-path_within_root_example :
    sanitize plain_tools process.root text_path ≡ some (codes "docs/b.txt")
sanitize-path_within_root_example =
    sanitize-path_within_root process (some text_path) (codes "virtual") (codes "data" ∷ [])
      (codes "b.txt" ∷ codes "docs" ∷ codes "virtual" ∷ codes "data" ∷ []) (refl, (refl, tt)) refl
      (refl, (refl, (refl, (refl, tt)))) (omega arith) canonicalize_text plain_tools
      plain_tools-Cleans text_within refl
