-- ===== src/Daemon/Files.antt =====
-- The daemon's view of the store: `FileSystem` of pkg/remotefs/fs.go with New, LocalRoot, sanitize,
-- Stat and ReadDir, and `handleStat` and `handleList` of pkg/remotefs/ipc.go. Where a path is part of
-- the text of an error only, it is left out.
use s3ro.Base.{
  ℕ, true, Option, none, some, List, [], ◌∷◌, ◌++◌, Bytes, codes, map, ltb, ◌==◌, if◌then◌else◌,
  length, drop, str_eq, starts_with,
}
use s3ro.Daemon.{FileMeta, PosixEntry, IpcServer, entry_from_meta}

-- strings.TrimSpace, and path.Clean, which filepath.Clean is where '/' separates names.
pub record TextTools : Type 0 where
  pub trim_space : Bytes → Bytes
  pub clean : Bytes → Bytes

-- A result, an error for which IsNotFound holds, or another.
pub data Found {ℓ} (A : Type ℓ) : Type ℓ where
  found : A → Found A
  missing broken : Found A

pub record ObjectStore : Type 0 where
  pub head : Bytes → Found FileMeta
  pub list : Bytes → Found (List FileMeta)

pub record FileSystem : Type 0 where
  pub tools : TextTools
  pub store : ObjectStore
  pub local_root : Bytes
  pub meta : Option (Bytes → Option FileMeta)

-- What New makes of Config.LocalRoot.
unfoldable pub normalize_root : TextTools → Bytes → Bytes
normalize_root tools local_root =
    let root = tools.trim_space local_root in
    if ltb 0 (length root)
    then (if str_eq (tools.clean root) (codes ".") then [] else tools.clean root)
    else root

-- LocalRoot.
abbrev pub shown_root : FileSystem → Bytes
shown_root fs = if ltb 0 (length fs.local_root) then fs.local_root else codes "/"

-- strings.TrimLeft of '/'.
unfoldable pub trim_left : Bytes → Bytes
trim_left [] = []
trim_left (c ∷ s) = let rest = trim_left s in if c == b'/' then rest else c ∷ s

-- strings.TrimPrefix.
abbrev pub trim_prefix : Bytes → Bytes → Bytes
trim_prefix prefix s = if starts_with prefix s then drop (length prefix) s else s

-- What stands behind the root; `none` is an error.
unfoldable pub below_local : (local_root : Bytes) → Bytes → Option Bytes
unfolding trim_left
below_local root target =
    if ltb 0 (length root)
    then (if str_eq target root
        then some []
        else if starts_with (root ++ codes "/") target
        then some (trim_prefix (root ++ codes "/") target)
        else none)
    else some (trim_left target)

unfoldable pub clean_relative : TextTools → Bytes → Bytes
clean_relative tools target =
    let rel = trim_prefix (codes "/") (tools.clean target) in
    if str_eq rel (codes ".") then [] else rel

unfoldable pub sanitize : TextTools → (local_root : Bytes) → Bytes → Option Bytes
unfolding below_local clean_relative
sanitize tools root local =
    let trimmed = tools.trim_space local in
    if ltb 0 (length trimmed)
    then (elim (below_local root (tools.clean trimmed)) [
      | none ↦ none
      | some target ↦ some (clean_relative tools target)
    ])
    else none

abbrev pub directory_at : Bytes → FileMeta
directory_at rel = record { path = rel; size = 0; etag = []; last_modified = none; is_dir = true }

abbrev pub cached_meta : FileSystem → Bytes → Option FileMeta
cached_meta fs rel = elim fs.meta [ none ↦ none | some entries ↦ entries rel ]

-- Behind Head: what is no object is a directory where there are objects below it.
unfoldable pub listed_as : Bytes → Found (List FileMeta) → Found FileMeta
listed_as rel (found []) = missing
listed_as rel (found (_ ∷ _)) = found (directory_at rel)
listed_as rel missing = missing
listed_as rel broken = broken

unfoldable pub head_or_list : FileSystem → Bytes → Found FileMeta → Found FileMeta
head_or_list fs rel (found meta) = found meta
head_or_list fs rel missing = listed_as rel (fs.store.list rel)
head_or_list fs rel broken = broken

-- Behind sanitize.
unfoldable pub stat_relative : FileSystem → Bytes → Found FileMeta
unfolding head_or_list listed_as
stat_relative fs [] = found (directory_at [])
stat_relative fs (c ∷ rel) = elim (cached_meta fs (c ∷ rel)) [
  | some meta ↦ found meta
  | none ↦ head_or_list fs (c ∷ rel) (fs.store.head (c ∷ rel))
]

-- Stat.
unfoldable pub stat_path : FileSystem → Bytes → Found FileMeta
unfolding stat_relative
stat_path fs local = elim (sanitize fs.tools fs.local_root local) [
  | none ↦ broken
  | some rel ↦ stat_relative fs rel
]

unfoldable pub children_of : Bytes → Found (List FileMeta) → Found (List FileMeta)
children_of [] (found items) = found items
children_of (_ ∷ _) (found []) = missing
children_of (_ ∷ _) (found (item ∷ items)) = found (item ∷ items)
children_of rel missing = missing
children_of [] broken = broken
children_of (_ ∷ _) broken = missing

-- ReadDir.
unfoldable pub read_dir : FileSystem → Bytes → Found (List FileMeta)
unfolding children_of
read_dir fs local = elim (sanitize fs.tools fs.local_root local) [
  | none ↦ broken
  | some rel ↦ children_of rel (fs.store.list rel)
]

-- A response with status 200 and one entry or an array of them, or with another status.
pub data Response : Type 0 where
  one_entry : PosixEntry → Response
  entries : List PosixEntry → Response
  http_error : (status : ℕ) → Response

-- The path of a request, or the root where it has none.
abbrev pub requested : FileSystem → Bytes → Bytes
requested fs path = if ltb 0 (length path) then path else shown_root fs

-- writeErrorFor and writeJSON.
abbrev pub respond {ℓ} : {A : Type ℓ} → (A → Response) → Found A → Response
respond print (found x) = print x
respond print missing = http_error 404
respond print broken = http_error 500

unfoldable pub serve_stat : IpcServer → FileSystem → (now : Bytes) → Bytes → Response
unfolding entry_from_meta
serve_stat server fs now path =
    respond (λ meta. one_entry (entry_from_meta server now meta)) (stat_path fs (requested fs path))

unfoldable pub serve_list : IpcServer → FileSystem → (now : Bytes) → Bytes → Response
unfolding entry_from_meta
serve_list server fs now path =
    respond (λ items. entries (map (entry_from_meta server now) items))
      (read_dir fs (requested fs path))
