-- ===== src/Daemon/Covering.antt =====
-- What the walk of the store leaves in the metadata cache, by the listings of the store.
pub mod Visiting
pub mod Reaching
use s3ro.Base.{
  ℕ, zero, suc, Bool, true, false, Option, none, some, List, [], ◌∷◌, Bytes, str_eq, str_eq→eq,
  str_eq_self, ◌≡◌, refl, sym, ap, ◌∙◌, arith, ◌⊎◌, inl, inr, Bool-cases,
}
use s3ro.Daemon.{FileMeta}
use s3ro.Daemon.Files.{Found, found, missing, broken, ObjectStore, FileSystem, directory_at}
use s3ro.Daemon.Warming.{Metas}

abbrev pub Member : FileMeta → List FileMeta → Type 0
Member item [] = ⊥
Member item (x ∷ xs) = (item ≡ x) ⊎ Member item xs

-- The directories that listings lead to from one on.
pub data Reached (store : ObjectStore) : Bytes → Bytes → Type 0 where
  here : {rel : Bytes} → Reached store rel rel
  inside :
      {rel r : Bytes} (items : List FileMeta) (item : FileMeta)
      → store.list rel ≡ found items
      → Member item items
      → item.is_dir ≡ true
      → Reached store item.path r
      → Reached store rel r

-- A listing of a directory that is reached has this item.
pub record Lists (store : ObjectStore) (rel : Bytes) (item : FileMeta) : Type 0 where
  pub directory : Bytes
  pub items : List FileMeta
  pub reached : Reached store rel directory
  pub listed : store.list directory ≡ found items
  pub member : Member item items

abbrev pub Holds : Option FileMeta → Type 0
Holds o = (m : FileMeta) × (o ≡ some m)

pub record Covered (store : ObjectStore) (rel : Bytes) (dst d : Metas) : Type 0 where
  pub keeps : (k : Bytes) → Holds (dst k) → Holds (d k)
  pub covers : (item : FileMeta) → Lists store rel item → Holds (d item.path)
  pub from_list :
      (k : Bytes) (m : FileMeta)
      → d k ≡ some m
      → (dst k ≡ some m) ⊎ ((m.path ≡ k) × Lists store rel m)
