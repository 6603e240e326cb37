-- ===== src/Tests/Reports.antt =====
-- Metadata, failures, and paths outside the root.
use s3ro.Base.{◌≡◌, refl, true, false, none, some, [], ◌∷◌, Bytes, codes, arith}
use s3ro.Base.Int.{pos, negsuc}
use s3ro.Handlers.{at_root, at_root_from}
use s3ro.Http.{fetch_json}
use s3ro.Json.{parse_json_document, parse_object_at}
use s3ro.Meta.Mode.{IsDerived, derive_mode-IsDerived}
use s3ro.Meta.{RemoteMeta, Stat, Statx, Timespec, hydrate_stat, hydrate_statx, derive_mode}
use s3ro.Meta.Agreement.{Agrees, hydrate_statx-hydrate_stat}
use s3ro.Path.{at_fdcwd, path_within_root, canonicalize_path, resolve_absolute}
use s3ro.Remote.{remote_stat_path, fetch_remote_meta}
use s3ro.Url.{url_encode, request_url}
use s3ro.World.{World, System, request, done, enoent}
use s3ro.Tests.Fixtures.{tester, start_world, file_system, file_path}

abbrev elsewhere : Bytes
elsewhere = codes "/etc/passwd"

is_elsewhere : at_root tester (some elsewhere) ≡ none
unfolding path_within_root canonicalize_path
is_elsewhere = refl

is_elsewhere_at : at_root_from tester at_fdcwd (some elsewhere) ≡ none
unfolding path_within_root canonicalize_path resolve_absolute
is_elsewhere_at = refl

abbrev folder : RemoteMeta
folder = record {
  path = codes "docs";
  size = pos 0;
  mode = pos 0;
  uid = pos 0;
  gid = pos 0;
  is_dir = true;
}

abbrev file : RemoteMeta
file = record {
  path = codes "docs/a";
  size = pos 1000;
  mode = pos 0o100600;
  uid = negsuc 0;
  gid = pos 7;
  is_dir = false;
}

folder_mode : derive_mode folder ≡ 0o040550
unfolding derive_mode
folder_mode = refl

abbrev now : Timespec
now = record { sec = 1700000000; nsec = 999999999 }

hydrate_statx-hydrate_stat_example :
    (stx : Statx) × (hydrate_statx (λ _. now) (codes "/r/docs/a") file true ≡ some stx)
    × Agrees (hydrate_stat now (codes "/r/docs/a") file) stx
hydrate_statx-hydrate_stat_example =
    hydrate_statx-hydrate_stat now (codes "/r/docs/a") file {n = 1000} (omega arith) refl
      (omega arith) (omega arith)

abbrev file_url : Bytes
file_url = codes "http://unix/stat?path=/data/virtual/a"

abbrev pub asked_world : World
asked_world = record start_world { trace = request file_url ∷ [] }

abbrev pub lost_system : System
lost_system = record tester { transfer = λ trace url. record { pieces = []; status = some 404 } }

abbrev lost_world : World
lost_world = record asked_world { errno = enoent }

abbrev pub file_meta : RemoteMeta
file_meta = record {
  path = codes "a";
  size = pos 5;
  mode = pos 0;
  uid = pos 1000;
  gid = pos 1000;
  is_dir = false;
}

abbrev pub file_stat : Stat
file_stat = hydrate_stat (record { sec = 1; nsec = 0 }) file_path file_meta

pub reports : remote_stat_path file_system file_path start_world ≡ (done file_stat, asked_world)
unfolding remote_stat_path fetch_remote_meta fetch_json url_encode parse_json_document
    parse_object_at request_url
reports = refl

derive_mode-IsDerived_example : IsDerived true 0 (derive_mode folder)
derive_mode-IsDerived_example = derive_mode-IsDerived folder
