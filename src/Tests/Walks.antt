-- ===== src/Tests/Walks.antt =====
-- A store with a directory and a file in it, and the walk of it.
use s3ro.Base.{
  ◌≡◌, ◌≢◌, refl, sym, false, none, some, [], ◌∷◌, codes, str_eq, str_eq→eq, if◌then◌else◌, arith,
  inl, inr, Bool-cases,
}
use s3ro.Daemon.{FileMeta}
use s3ro.Daemon.Covering.{Lists, inside, here}
use s3ro.Daemon.Covering.Reaching.{found-injective}
use s3ro.Daemon.Files.{
  ObjectStore, FileSystem, found, missing, sanitize, below_local, clean_relative, directory_at,
  stat_path,
}
use s3ro.Daemon.Walking.{Bounded, populate_metadata-ends}
use s3ro.Daemon.Warming.{Metas, put_meta, unfinished, populate_metadata, visit, warm_metadata_cache}
use s3ro.Daemon.Warmth.{Known, warm_metadata_cache-stat_path}
use s3ro.Tests.Served.{text_file, text_path}
use s3ro.Tests.Stores.{small_files}

abbrev docs : FileMeta
docs = directory_at (codes "docs")

abbrev tree : ObjectStore
tree = record {
  head = λ key. missing;
  list = λ key.
      if str_eq key []
      then found (docs ∷ [])
      else if str_eq key (codes "docs")
      then found (text_file ∷ [])
      else missing;
}

abbrev tree_files : FileSystem
tree_files = record small_files { store = tree }

abbrev tree_metas : Metas
tree_metas = put_meta (put_meta (put_meta (λ k. none) (directory_at [])) docs) text_file

warm_run :
    warm_metadata_cache 21 (λ rel. false) tree_files
    ≡ some (record tree_files { meta = some tree_metas })
unfolding warm_metadata_cache populate_metadata visit
warm_run = refl

text_Lists : Lists tree [] text_file
text_Lists = record {
  directory = codes "docs";
  items = text_file ∷ [];
  reached = inside (docs ∷ []) docs refl (inl refl) refl here;
  listed = refl;
  member = inl refl;
}

text_sanitize :
    sanitize tree_files.tools tree_files.local_root text_path ≡ some (codes "docs/b.txt")
unfolding sanitize below_local clean_relative
text_sanitize = refl

warm_metadata_cache-stat_path_example :
    (m : FileMeta) × (stat_path
        (record tree_files {
          meta = some tree_metas;
          store = record { head = λ k. missing; list = λ k. missing };
        })
        text_path
      ≡ found m)
    × Known tree (codes "docs/b.txt") m
warm_metadata_cache-stat_path_example =
    warm_metadata_cache-stat_path 21 (λ rel. false) tree_files text_file text_path
      (record { head = λ k. missing; list = λ k. missing }) warm_run text_Lists text_sanitize

tree-Bounded : Bounded 20 tree
tree-Bounded rel items e = elim (Bool-cases (str_eq rel [])) [
  | inl top ↦
      let same : docs ∷ [] ≡ items = found-injective (rw top at e) in
      let is_root = str_eq→eq rel [] top in
      rw (sym same, is_root) ((λ _. (omega arith, omega arith)), tt)
  | inr other ↦ elim (Bool-cases (str_eq rel (codes "docs"))) [
    | inl in_docs ↦
        let same : text_file ∷ [] ≡ items = found-injective (rw (other, in_docs) at e) in
        rw (sym same) ((λ is_dir. absurd (cc)), tt)
    | inr none_there ↦ absurd (cc (rw (other, none_there) at e))
  ]
]

populate_metadata-ends_example :
    populate_metadata 21 (λ rel. false) tree [] (λ k. none) ≢ unfinished
populate_metadata-ends_example =
    populate_metadata-ends (λ rel. false) tree 20 tree-Bounded 21 [] (λ k. none) (omega arith)
      (omega arith)
