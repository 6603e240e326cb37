-- ===== src/Daemon/Warming.antt =====
-- The walk of the daemon at its start: WarmMetadataCache and `populateMetadata` of
-- pkg/remotefs/fs.go.
use s3ro.Base.{ℕ, zero, suc, Bool, Option, none, some, List, [], ◌∷◌, Bytes, str_eq, if◌then◌else◌}
use s3ro.Daemon.{FileMeta}
use s3ro.Daemon.Files.{Found, found, missing, broken, ObjectStore, FileSystem, directory_at}

-- The map `dst`.
abbrev pub Metas : Type 0
Metas = Bytes → Option FileMeta

abbrev pub put_meta : Metas → FileMeta → Metas
put_meta dst item k = if str_eq item.path k then some item else dst k

-- The map at the end, an error, or no end within the rounds.
pub data Walk : Type 0 where
  walked : Metas → Walk
  stopped unfinished : Walk

abbrev pub and_then : Walk → (Metas → Walk) → Walk
and_then (walked dst) next = next dst
and_then stopped next = stopped
and_then unfinished next = unfinished

abbrev pub enter_item : (Bytes → Metas → Walk) → FileMeta → Metas → Walk
enter_item walk item dst = if item.is_dir then walk item.path dst else walked dst

-- The loop over the items of a directory.
unfoldable pub visit : (Bytes → Metas → Walk) → List FileMeta → Metas → Walk
visit walk [] dst = walked dst
visit walk (item ∷ items) dst =
    and_then (enter_item walk item (put_meta dst item)) (visit walk items)

abbrev pub visit_found : (Bytes → Metas → Walk) → Found (List FileMeta) → Metas → Walk
visit_found walk (found items) dst = visit walk items dst
visit_found walk missing dst = walked dst
visit_found walk broken dst = stopped

-- `cancelled` is whether the context is done when the walk comes to a directory.
unfoldable pub populate_metadata :
    (rounds : ℕ) → (cancelled : Bytes → Bool) → ObjectStore → Bytes → Metas → Walk
unfolding visit
populate_metadata zero cancelled store rel dst = unfinished
populate_metadata (suc rounds) cancelled store rel dst =
    let below = populate_metadata rounds cancelled store in
    if cancelled rel then stopped else visit_found below (store.list rel) dst

abbrev pub warmed : FileSystem → Walk → Option FileSystem
warmed fs (walked entries) = some (record fs { meta = some entries })
warmed fs stopped = none
warmed fs unfinished = none

-- `none` is an error, and no end within the rounds.
unfoldable pub warm_metadata_cache :
    (rounds : ℕ) → (cancelled : Bytes → Bool) → FileSystem → Option FileSystem
unfolding populate_metadata
warm_metadata_cache rounds cancelled fs =
    warmed fs
      (populate_metadata rounds cancelled fs.store [] (put_meta (λ k. none) (directory_at [])))
