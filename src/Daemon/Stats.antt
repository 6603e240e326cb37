-- ===== src/Daemon/Stats.antt =====
-- About stat on a path that the daemon describes: `handleStat` of pkg/remotefs/ipc.go prints one
-- entry.
use s3ro.Base.{
  ◌+◌, ◌/◌, ◌%◌, ◌^◌, ◌<◌, Bool, true, false, Option, some, List, [], ◌∷◌, Bytes, ltb→lt, length,
  if◌then◌else◌, ◌≡◌, refl, ap, ◌∙◌, arith,
}
use s3ro.Base.Int.{pos}
use s3ro.Daemon.{FileMeta, PosixEntry, IpcServer, entry_from_meta, default_mode, fields_of}
use s3ro.Handlers.{answered, at_root, handle_stat}
use s3ro.Hash.{hash_path}
use s3ro.Http.Writing.{joined}
use s3ro.Json.{Token, object, blank_meta}
use s3ro.Path.Names.{All}
use s3ro.Json.Entry.{Field, fits, put_all, ShowsAll}
use s3ro.Json.Fields.{parse_object_at-put_all}
use s3ro.Meta.{RemoteMeta, Stat, Timespec, derive_mode, hydrate_stat}
use s3ro.Remote.Answering.{Describes, asked, remote_stat_path_total}
use s3ro.World.{World, System, done}

-- What stat should report of a file that the daemon serves.
abbrev pub stat_of : IpcServer → Timespec → (abs_path : Bytes) → FileMeta → Stat
stat_of server now abs_path file = record {
  mode = if file.is_dir then 0o040550 else 0o100440;
  uid = server.uid;
  gid = server.gid;
  nlink = if file.is_dir then 2 else 1;
  size = pos file.size;
  blksize = 4096;
  blocks = pos ((file.size + 511) / 512);
  dev = 0;
  ino = hash_path (some abs_path);
  atim = now;
  mtim = now;
  ctim = now;
}

-- The daemon's answer is an entry, printed.
pub record ServesEntry (sys : System) (abs_path : Bytes) (w : World) (entry : PosixEntry)
    : Type 0 where
  pub describes : Describes sys abs_path w
  pub head : Token
  pub tokens : List Token
  pub begins : describes.tokens ≡ head ∷ tokens
  pub is_object : head.type ≡ object
  pub size : head.size ≡ length (fields_of entry)
  pub shows : ShowsAll (joined (describes.piece ∷ describes.pieces)) (fields_of entry) tokens

-- The object reads as this.
abbrev meta_from : IpcServer → FileMeta → RemoteMeta
meta_from server file = record {
  path = file.path;
  size = pos file.size;
  mode = pos (default_mode file.is_dir);
  uid = pos server.uid;
  gid = pos server.gid;
  is_dir = file.is_dir;
}

put_all-fields_of :
    (server : IpcServer) (printed_at : Bytes) (file : FileMeta) (tmp : RemoteMeta)
    → put_all (fields_of (entry_from_meta server printed_at file)) tmp ≡ meta_from server file
unfolding entry_from_meta
put_all-fields_of server printed_at file tmp = refl

derive_mode-default_mode :
    (meta : RemoteMeta) (is_dir : Bool)
    → meta.is_dir ≡ is_dir
    → meta.mode ≡ pos (default_mode is_dir)
    → derive_mode meta ≡ (if is_dir then 0o040550 else 0o100440)
unfolding derive_mode default_mode
derive_mode-default_mode meta true kind mode = rw (kind, mode) refl
derive_mode-default_mode meta false kind mode = rw (kind, mode) refl

hydrate_stat-meta_from :
    (server : IpcServer) (now : Timespec) (abs_path : Bytes) (file : FileMeta)
    → server.uid < 2 ^ 31
    → server.gid < 2 ^ 31
    → hydrate_stat now abs_path (meta_from server file) ≡ stat_of server now abs_path file
unfolding hydrate_stat
hydrate_stat-meta_from server now abs_path file small_uid small_gid =
    let owner : server.uid % 2 ^ 32 ≡ server.uid = omega (arith, small_uid) in
    let group : server.gid % 2 ^ 32 ≡ server.gid = omega (arith, small_gid) in
    rw (derive_mode-default_mode (meta_from server file) file.is_dir refl refl, owner, group) refl

-- What is shown has room.
ShowsAll-fits :
    (json : Bytes) (fields : List Field) (tokens : List Token)
    → ShowsAll json fields tokens
    → All (λ field. fits field ≡ true) fields
ShowsAll-fits json [] tokens shows = tt
ShowsAll-fits json (field ∷ fields) [] shows = absurd shows
ShowsAll-fits json (field ∷ fields) (_ ∷ []) shows = absurd shows
ShowsAll-fits json (field ∷ fields) (key ∷ val ∷ tokens) shows =
    (shows.0.fitting, ShowsAll-fits json fields tokens shows.1)

owners_fit :
    (server : IpcServer) (printed_at json : Bytes) (file : FileMeta) (tokens : List Token)
    → ShowsAll json (fields_of (entry_from_meta server printed_at file)) tokens
    → (server.uid < 2 ^ 31) × (server.gid < 2 ^ 31)
unfolding entry_from_meta
owners_fit server printed_at json file tokens shows =
    let all =
      ShowsAll-fits json (fields_of (entry_from_meta server printed_at file)) tokens shows in
    let owners = all.1.1.1.1.1.1 in
    (ltb→lt server.uid (2 ^ 31) owners.0, ltb→lt server.gid (2 ^ 31) (owners.1.0))

pub handle_stat-stat_of :
    (sys : System) (path : Option Bytes) (w : World) (server : IpcServer) (printed_at : Bytes)
    (file : FileMeta) {abs_path : Bytes}
    → at_root sys path ≡ some abs_path
    → ServesEntry sys abs_path w (entry_from_meta server printed_at file)
    → handle_stat sys path w ≡ (
      answered (done (stat_of server (sys.clock (asked abs_path w).trace 0) abs_path file)),
      asked abs_path w,
    )
unfolding handle_stat
handle_stat-stat_of sys path w server printed_at file {abs_path} inside h =
    let entry = entry_from_meta server printed_at file in
    let json = joined (h.describes.piece ∷ h.describes.pieces) in
    let tmp = blank_meta sys.g_uid sys.g_gid in
    let reads =
      parse_object_at-put_all sys.g_uid sys.g_gid json (fields_of entry) h.describes.tokens 0
        h.begins h.is_object h.size h.shows in
    let (small_uid, small_gid) = owners_fit server printed_at json file h.tokens h.shows in
    let now = sys.clock (asked abs_path w).trace 0 in
    let same : hydrate_stat now abs_path (put_all (fields_of entry) tmp)
        ≡ stat_of server now abs_path file =
      ap (hydrate_stat now abs_path) (put_all-fields_of server printed_at file tmp)
      ∙ hydrate_stat-meta_from server now abs_path file small_uid small_gid in
    rw (inside, remote_stat_path_total sys abs_path w h.describes reads, same) refl
