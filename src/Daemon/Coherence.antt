-- ===== src/Daemon/Coherence.antt =====
-- About `Stat` and `ReadDir` of the same directory.
use s3ro.Base.{ℕ, none, some, List, [], ◌∷◌, Bytes, ◌≡◌, ◌↔◌, refl}
use s3ro.Daemon.{FileMeta}
use s3ro.Daemon.Files.{
  Found, found, missing, broken, FileSystem, sanitize, directory_at, cached_meta, head_or_list,
  listed_as, stat_relative, stat_path, children_of, read_dir,
}

-- A directory is one for both, and where the store fails, ReadDir has no error of its own.
abbrev pub IsSameDirectory :
    Bytes → (of_stat : Found FileMeta) → (of_read_dir : Found (List FileMeta)) → Type 0
IsSameDirectory rel of_stat of_read_dir =
    ((of_stat ≡ found (directory_at rel)) ↔ ((items : List FileMeta) × (of_read_dir ≡ found items)))
    × (of_stat ≡ broken → of_read_dir ≡ missing)

listed_as-children_of :
    (c : ℕ) (rel : Bytes) (reply : Found (List FileMeta))
    → IsSameDirectory (c ∷ rel) (listed_as (c ∷ rel) reply) (children_of (c ∷ rel) reply)
unfolding listed_as children_of
listed_as-children_of c rel (found []) = (((λ h. absurd (cc)), (λ h. absurd (cc))), λ h. refl)
listed_as-children_of c rel (found (item ∷ items)) =
    (((λ h. (item ∷ items, refl)), (λ h. refl)), λ h. absurd (cc))
listed_as-children_of c rel missing = (((λ h. absurd (cc)), (λ h. absurd (cc))), λ h. refl)
listed_as-children_of c rel broken = (((λ h. absurd (cc)), (λ h. absurd (cc))), λ h. refl)

module _ (fs : FileSystem) (local : Bytes) {c : ℕ} {rel : Bytes}
    (cleans : sanitize fs.tools fs.local_root local ≡ some (c ∷ rel)) where
  stat_path-listed_as :
      cached_meta fs (c ∷ rel) ≡ none
      → fs.store.head (c ∷ rel) ≡ missing
      → stat_path fs local ≡ listed_as (c ∷ rel) (fs.store.list (c ∷ rel))
  unfolding stat_path stat_relative head_or_list
  stat_path-listed_as uncached headless =
      rw (cleans, stat_path) (rw (uncached, headless, stat_relative, head_or_list) refl)

  read_dir-children_of : read_dir fs local ≡ children_of (c ∷ rel) (fs.store.list (c ∷ rel))
  unfolding read_dir
  read_dir-children_of = rw (cleans, read_dir) refl

  -- Of a path other than the root that is in no metadata cache and that the store does not know
  -- as an object, Stat says that it is a directory exactly if ReadDir lists it; but where Stat
  -- gives an error other than not found, ReadDir says that it is not found.
  pub stat_path-read_dir :
      cached_meta fs (c ∷ rel) ≡ none
      → fs.store.head (c ∷ rel) ≡ missing
      → IsSameDirectory (c ∷ rel) (stat_path fs local) (read_dir fs local)
  stat_path-read_dir uncached headless =
      rw (stat_path-listed_as uncached headless, read_dir-children_of)
        (listed_as-children_of c rel (fs.store.list (c ∷ rel)))
