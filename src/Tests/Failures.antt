-- ===== src/Tests/Failures.antt =====
-- Directories and files that cannot be opened.
use s3ro.Base.{◌≡◌, refl, some, [], ◌∷◌}
use s3ro.Handlers.{answered, reopen}
use s3ro.Handlers.Directories.{opendir}
use s3ro.Http.{fetch_json, perform_http_request, file_write}
use s3ro.Json.{parse_json_document, parse_object_at}
use s3ro.Meta.{s_isdir, hydrate_stat}
use s3ro.Path.{path_within_root, canonicalize_path}
use s3ro.Remote.{
  remote_open_file, remote_stat_path, fetch_remote_meta, download_into_temp, allow_open_flags,
}
use s3ro.Remote.Failing.{OpenFailure, remote_open_file-failed}
use s3ro.Url.{url_encode}
use s3ro.World.{World, System, failed}
use s3ro.Tests.Fixtures.{start_world, file_system, file_path, file_text}
use s3ro.Tests.Reports.{lost_system}

abbrev after_refusal : World
after_refusal = (opendir lost_system (some file_path) start_world).1

loses_directory :
    opendir lost_system (some file_path) start_world ≡ (answered failed, after_refusal)
unfolding opendir path_within_root canonicalize_path fetch_json url_encode
loses_directory = refl

-- The daemon answers with an empty body.
abbrev empty_system : System
empty_system = record file_system {
  transfer = λ trace url. record { pieces = []; status = some 200 };
}

abbrev after_crash : World
after_crash = (opendir empty_system (some file_path) start_world).1

-- The first request is answered, any later one is not.
abbrev stat_only : System
stat_only = record file_system {
  transfer = λ trace url. elim trace [
    | [] ↦ record { pieces = file_text ∷ []; status = some 200 }
    | _ ∷ _ ↦ record { pieces = []; status = some 404 }
  ];
}

abbrev after_download : World
after_download = (remote_open_file stat_only (reopen stat_only 1) file_path 0 start_world).1

loses_file :
    remote_open_file stat_only (reopen stat_only 1) file_path 0 start_world
    ≡ (failed, after_download)
unfolding remote_open_file remote_stat_path fetch_remote_meta fetch_json url_encode
    parse_json_document parse_object_at s_isdir download_into_temp perform_http_request file_write
    hydrate_stat allow_open_flags
loses_file = refl

remote_open_file-failed_example :
    OpenFailure stat_only (reopen stat_only 1) file_path 0 start_world after_download
remote_open_file-failed_example =
    remote_open_file-failed stat_only (reopen stat_only 1) file_path 0 start_world loses_file
