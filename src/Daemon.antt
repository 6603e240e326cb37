-- ===== src/Daemon.antt =====
-- What the daemon says of a file: `entryFromMeta` and `defaultMode` of pkg/remotefs/ipc.go, and the
-- fields of a POSIXEntry as encoding/json prints them.
use Prim.Native.Nat.{bit_or}
use s3ro.Base.{ℕ, Bool, true, false, Option, none, some, List, [], ◌∷◌, Bytes, codes, if◌then◌else◌}
use s3ro.Json.Entry.{Field, has_path, has_size, has_mode, has_uid, has_gid, has_dir, has_other}
pub mod Children
pub mod Listing
pub mod Stats
pub mod Files
pub mod Agreement
pub mod Serving
pub mod Coherence
pub mod Warming
pub mod Walking
pub mod Covering
pub mod Warmth

-- objectstore.FileMeta. A time is its text; `none` is the zero time.
pub record FileMeta : Type 0 where
  pub path : Bytes
  pub size : ℕ
  pub etag : Bytes
  pub last_modified : Option Bytes
  pub is_dir : Bool

pub record PosixEntry : Type 0 where
  pub path : Bytes
  pub size : ℕ
  pub etag : Bytes
  pub last_modified : Bytes
  pub is_dir : Bool
  pub mode : ℕ
  pub uid : ℕ
  pub gid : ℕ
  pub user : Bytes
  pub group : Bytes

-- The daemon's own user and group.
pub record IpcServer : Type 0 where
  pub uid : ℕ
  pub gid : ℕ
  pub user : Bytes
  pub group : Bytes

unfoldable pub default_mode : Bool → ℕ
default_mode is_dir = if is_dir then bit_or 0o040000 0o550 else bit_or 0o100000 0o440

-- `if entry.LastModified.IsZero() { entry.LastModified = time.Now() }`
abbrev pub time_or : Option Bytes → Bytes → Bytes
time_or none now = now
time_or (some t) now = t

unfoldable pub entry_from_meta : IpcServer → (now : Bytes) → FileMeta → PosixEntry
unfolding default_mode
entry_from_meta s now meta = record {
  path = meta.path;
  size = meta.size;
  etag = meta.etag;
  last_modified = time_or meta.last_modified now;
  is_dir = meta.is_dir;
  mode = default_mode meta.is_dir;
  uid = s.uid;
  gid = s.gid;
  user = s.user;
  group = s.group;
}

-- The fields in the order of the struct, under the names of their tags.
abbrev pub fields_of : PosixEntry → List Field
fields_of e =
    has_path e.path
    ∷ has_size e.size
    ∷ has_other (codes "ETag") e.etag
    ∷ has_other (codes "LastModified") e.last_modified
    ∷ has_dir e.is_dir
    ∷ has_mode e.mode
    ∷ has_uid e.uid
    ∷ has_gid e.gid
    ∷ has_other (codes "User") e.user
    ∷ has_other (codes "Group") e.group
    ∷ []
