-- ===== src/Tests/Openings.antt =====
-- A remote file that is opened.
use s3ro.Base.{◌≡◌, refl, inl, some, ℕ, arith}
use s3ro.Handlers.{answered, open_file, open64, at_root}
use s3ro.Handlers.Contents.{OpenedBelow, open_file-OpenedBelow}
use s3ro.Handlers.Progress.{HasOpen, open_file_total}
use s3ro.Http.{fetch_json, perform_http_request, file_write}
use s3ro.Http.Writing.{Progresses}
use s3ro.Json.{parse_json_document, parse_object_at}
use s3ro.Meta.{s_isdir, hydrate_stat}
use s3ro.Path.{path_within_root, canonicalize_path}
use s3ro.Remote.{
  remote_open_file, remote_stat_path, fetch_remote_meta, download_into_temp, allow_open_flags,
  reads_only,
}
use s3ro.Remote.Progress.{Opens}
use s3ro.Url.{url_encode}
use s3ro.World.{World, done}
use s3ro.Tests.Fixtures.{start_world, file_system, file_path, temp_name}
use s3ro.Tests.Reports.{file_stat, asked_world, reports}
use s3ro.Tests.Requests.{file_system_caches}

abbrev finished : World
finished = (open_file file_system 1 (some file_path) 0 0 start_world).1

opens : open_file file_system 1 (some file_path) 0 0 start_world ≡ (answered (done 10), finished)
unfolding open_file path_within_root canonicalize_path remote_open_file remote_stat_path
    fetch_remote_meta fetch_json url_encode parse_json_document parse_object_at s_isdir
    download_into_temp perform_http_request file_write hydrate_stat allow_open_flags
opens = refl

open_file-OpenedBelow_example : OpenedBelow file_system 1 (some file_path) 0 start_world 10 finished
open_file-OpenedBelow_example =
    open_file-OpenedBelow file_system 1 (some file_path) 0 0 start_world file_system_caches
      (inl opens)

writes_four : Progresses file_system
writes_four trace fd c s = ground arith

has_open : HasOpen file_system
has_open = record { found = refl; gives = λ before trace template temp name e. (10, refl) }

inside : at_root file_system (some file_path) ≡ some file_path
unfolding path_within_root canonicalize_path
inside = refl

all_there : Opens file_system file_path 0 start_world
unfolding reads_only s_isdir hydrate_stat
all_there = record {
  reads = refl;
  st = file_stat;
  w1 = asked_world;
  stats = reports;
  is_file = refl;
  temp = 9;
  name = temp_name;
  made = refl;
  serves = record {
    curl = refl;
    room = refl;
    answers = refl;
    writes = writes_four;
    seeks = λ trace. refl;
  };
}

open_file_total_example :
    (fd : ℕ) × (w' : World) × (open_file file_system 1 (some file_path) 0 0 start_world
      ≡ (answered (done fd), w'))
    × (open64 file_system 1 (some file_path) 0 0 start_world ≡ (answered (done fd), w'))
open_file_total_example =
    open_file_total file_system 0 (some file_path) 0 0 start_world file_system_caches has_open
      inside all_there
