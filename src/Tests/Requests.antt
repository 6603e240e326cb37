-- ===== src/Tests/Requests.antt =====
-- Requests, documents, downloads, and the functions on paths.
use s3ro.Base.{
  [], none, ℕ, ◌<◌, ◌≡◌, refl, true, some, List, ◌∷◌, ◌++◌, Bytes, codes, inr, arith, le→leb,
  lt→leb-false,
}
use s3ro.Http.Writing.{written, joined, send-written}
use s3ro.Handlers.{answered, open_file, open64, openat, access, faccessat, at_root}
use s3ro.Handlers.Routing.{writes-erofs, refused}
use s3ro.Http.{send, perform_http_request, fetch_json, file_write}
use s3ro.Json.{parse_object_at, parse_json_document}
use s3ro.Json.Document.{Tokenizes, parse_json_document-limit}
use s3ro.Path.{at_fdcwd, descriptor, path_within_root, canonicalize_path}
use s3ro.Meta.{s_isdir, hydrate_stat}
use s3ro.Remote.{
  remote_open_file, remote_stat_path, fetch_remote_meta, download_into_temp, allow_open_flags,
  reads_only,
}
use s3ro.Url.{url_encode, encode_loop, request_url}
use s3ro.Url.Decode.{query_value, decode}
use s3ro.Url.RoundTrip.{request_url-decode}
use s3ro.Handlers.Depth.{CachesOutside}
use s3ro.Handlers.Temporary.{TidyAnswer, open_file-TidyAnswer}
use s3ro.World.{done, Event}
use s3ro.Tests.Fixtures.{
  first_piece, second_piece, temp_name, file_system, file_path, listing, listing_head, listing_tail,
  tokenize, tester, start_world,
}

abbrev odd_path : Bytes
odd_path = codes "/a &"

request_url-decode_example :
    (value : Bytes) × (request_url (codes "/cat") (encode_loop odd_path)
      ≡ codes "http://unix" ++ (codes "/cat" ++ (codes "?path=" ++ value)))
    × (query_value value ≡ value)
    × (decode (query_value value) ≡ some odd_path)
request_url-decode_example =
    request_url-decode (codes "/cat") odd_path
      (omega arith, (omega arith, (omega arith, (omega arith, tt)))) (omega arith)

tokens-tokenize : Tokenizes tokenize listing (listing_head ∷ listing_tail)
tokens-tokenize = record {
  enough = λ cap fits. rw (le→leb 11 cap fits) refl;
  short = λ cap small. rw (lt→leb-false cap 11 small) refl;
}

parse_json_document-limit_example :
    parse_json_document (λ n. true) tokenize listing ≡ some (11, listing_head ∷ listing_tail)
parse_json_document-limit_example =
    parse_json_document-limit (λ n. true) tokenize listing (listing_head ∷ listing_tail) (λ n. refl)
      tokens-tokenize

tester_progresses : (trace : List Event) (fd c : ℕ) (s : Bytes) → 0 < tester.write trace fd (c ∷ s)
tester_progresses trace fd c s = ground arith

abbrev inner : Bytes
inner = codes "/data/virtual/docs"

inner_inside : at_root tester (some inner) ≡ some inner
unfolding path_within_root canonicalize_path
inner_inside = refl

writes-erofs_example :
    (open_file tester 1 (some inner) 0o101 0o644 start_world ≡ refused start_world)
    × (open64 tester 1 (some inner) 0o101 0o644 start_world ≡ refused start_world)
    × (openat tester 1 (descriptor 3) (some inner) 0o101 0o644 start_world ≡ refused start_world)
    × (access tester (some inner) 6 start_world ≡ refused start_world)
    × (faccessat tester (descriptor 3) (some inner) 6 start_world ≡ refused start_world)
unfolding reads_only
writes-erofs_example =
    writes-erofs tester 1 (descriptor 3) inner 0o101 0o644 6 start_world refl (inr refl)
      inner_inside refl refl

open_file-TidyAnswer_example :
    TidyAnswer start_world (open_file file_system 1 (some file_path) 0 0 start_world)
    × TidyAnswer start_world (open64 file_system 1 (some file_path) 0 0 start_world)
    × TidyAnswer start_world (openat file_system 1 at_fdcwd (some file_path) 0 0 start_world)
open_file-TidyAnswer_example =
    open_file-TidyAnswer file_system 1 at_fdcwd (some file_path) 0 0 start_world

opens_file : (open_file file_system 1 (some file_path) 0 0 start_world).0 ≡ answered (done 10)
unfolding open_file path_within_root canonicalize_path remote_open_file remote_stat_path
    fetch_remote_meta fetch_json url_encode parse_json_document parse_object_at s_isdir
    download_into_temp perform_http_request file_write hydrate_stat allow_open_flags
opens_file = refl

temp_name_outside : at_root file_system (some temp_name) ≡ none
unfolding path_within_root canonicalize_path
temp_name_outside = refl

pub file_system_caches : CachesOutside file_system
file_system_caches trace template fd name e =
    let same : temp_name ≡ name = cc in rw (← same) temp_name_outside

send-written_example :
    written 9
      (send tester (codes "http://unix/cat?path=/a") (file_write tester) 9 start_world).1.trace
    ≡ [] ++ joined (first_piece ∷ second_piece ∷ [])
unfolding send file_write
send-written_example =
    send-written tester (codes "http://unix/cat?path=/a") 9 start_world {status = 200} refl
