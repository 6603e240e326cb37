-- ===== src/Tests/Paths.antt =====
-- Paths.
use s3ro.Base.{◌≡◌, ◌≢◌, refl, none, some, List, [], ◌∷◌, ◌++◌, arith, Bytes, codes, replicate}
use s3ro.Run.{ok, refuse, overrun, stuck}
use s3ro.Config.{configured_root, configured_cache}
use s3ro.Path.Absolute.{canonicalize_path_idem}
use s3ro.Path.{path_max, Process, Located, scratch, canonicalize_path, path_within_root}
use s3ro.Path.Names.{names_of, resolve, enter}
use s3ro.Path.Canonical.{
  canonicalize_path-render, canonicalize_path-safe, canonicalize_path_clipped,
}
use s3ro.Path.Below.{relative}
use s3ro.Path.Within.{path_within_root_complete, path_within_root_sound}

abbrev untidy : Bytes
untidy = codes "/data//virtual/./a/../b/"

abbrev tidy : Bytes
tidy = codes "/data/virtual/b"

abbrev process : Process
process = record {
  cwd = some (codes "/home/me");
  readlink_fd = λ fd. none;
  root = codes "/data/virtual";
}

canonicalize_untidy : canonicalize_path none (some untidy) path_max ≡ ok tidy
unfolding canonicalize_path
canonicalize_untidy = refl

canonicalize_here : canonicalize_path process.cwd (some untidy) path_max ≡ ok tidy
unfolding canonicalize_path
canonicalize_here = refl

canonicalize_relative :
    canonicalize_path process.cwd (some (codes "../x")) path_max ≡ ok (codes "/home/x")
unfolding canonicalize_path
canonicalize_relative = refl

canonicalize_small : canonicalize_path none (some untidy) 15 ≡ refuse
unfolding canonicalize_path
canonicalize_small = refl

within_untidy : path_within_root process (some untidy) ≡ ok (record { abs = tidy; rel = codes "b" })
unfolding path_within_root canonicalize_path
within_untidy = refl

within_sibling : path_within_root process (some (codes "/data/virtual2/b")) ≡ refuse
unfolding path_within_root canonicalize_path
within_sibling = refl

canonicalize_path-render_example : canonicalize_path none (some untidy) path_max ≡ ok tidy
unfolding scratch names_of resolve enter
canonicalize_path-render_example =
    canonicalize_path-render none untidy path_max tt (omega arith) refl

canonicalize_path-safe_example :
    (canonicalize_path process.cwd (some untidy) 15 ≢ overrun)
    × (canonicalize_path process.cwd (some untidy) 15 ≢ stuck)
canonicalize_path-safe_example = canonicalize_path-safe process.cwd (some untidy) 15 refl

abbrev long_path : Bytes
long_path = b'/' ∷ replicate 4094 b'a'

canonicalize_path_clipped_example :
    canonicalize_path none (some (long_path ++ codes "/../../etc/passwd")) path_max
    ≡ canonicalize_path none (some long_path) path_max
canonicalize_path_clipped_example =
    canonicalize_path_clipped none long_path (codes "/../../etc/passwd") path_max refl refl

path_within_root_complete_example :
    path_within_root process (some untidy) ≡ ok (record { abs = tidy; rel = codes "b" })
path_within_root_complete_example =
    path_within_root_complete process (some untidy) (codes "virtual" ∷ codes "data" ∷ [])
      (codes "b" ∷ codes "virtual" ∷ codes "data" ∷ []) (refl, (refl, tt)) refl
      (refl, (refl, (refl, tt))) (omega arith) canonicalize_here (codes "b" ∷ []) refl

path_within_root_sound_example :
    (inner : List Bytes) × (codes "b" ∷ codes "virtual" ∷ codes "data" ∷ []
      ≡ inner ++ (codes "virtual" ∷ codes "data" ∷ []))
    × (◌≡◌ {A = Located}
        (record { abs = tidy; rel = codes "b" })
        (record { abs = tidy; rel = relative inner }))
path_within_root_sound_example =
    path_within_root_sound process (some untidy) (codes "virtual" ∷ codes "data" ∷ [])
      (codes "b" ∷ codes "virtual" ∷ codes "data" ∷ []) (refl, (refl, tt)) refl
      (refl, (refl, (refl, tt))) (omega arith) canonicalize_here within_untidy

configured_root_untidy :
    configured_root none (some (codes "/data//virtual/")) ≡ ok (codes "/data/virtual")
unfolding configured_root canonicalize_path
configured_root_untidy = refl

configured_cache_default : configured_cache (some []) none ≡ codes "/tmp/remotefs-shim"
unfolding configured_cache
configured_cache_default = refl

canonicalize_path_idem_example : canonicalize_path process.cwd (some tidy) path_max ≡ ok tidy
canonicalize_path_idem_example =
    canonicalize_path_idem none process.cwd (some untidy) path_max tt canonicalize_untidy
