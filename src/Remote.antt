-- ===== src/Remote.antt =====
-- Remote files in shim/ldpreload/remotefs_shim.c: `fetch_remote_meta`, `remote_stat_path`,
-- `allow_open_flags`, `download_into_temp` and `remote_open_file`.
pub mod Views
pub mod Temporary
pub mod Reopening
pub mod Inodes
pub mod Contents
pub mod Progress
pub mod Opened
pub mod Undelivered
pub mod Failing
pub mod Parsing
pub mod Answering
pub mod Outcomes
pub mod Ending
use Prim.Native.Nat.{bit_and, bit_or}
use s3ro.Base.{
  ℕ, Bool, ◌&&◌, Option, none, some, List, [], ◌∷◌, ◌++◌, Bytes, codes, ltb, ◌==◌, if◌then◌else◌,
}
use s3ro.Http.{Buffer, content_bytes, perform_http_request, fetch_json, file_write}
use s3ro.Json.{Token, parse_json_document, parse_object_at}
use s3ro.Meta.{RemoteMeta, Stat, hydrate_stat, hydrate_stat64, s_isdir}
use s3ro.Path.{path_max, clip}
use s3ro.Run.{Run, ok, refuse}
use s3ro.World.{
  World, System, made_temp, rewound, closed, unlinked, eio, enoent, erofs, eisdir, Reply, done,
  failed, crashed, M, ◌>>=◌, ◌>>◌, pure, fail, log, after,
}

-- `parse_json_document(...) < 1` is a failure.
abbrev pub parsed_reply : Option (ℕ × List Token) → M (ℕ × List Token)
parsed_reply none w = (failed, record w { errno = eio })
parsed_reply (some (count, tokens)) w =
    if ltb count 1 then (failed, record w { errno = eio }) else (done (count, tokens), w)

-- The document in a buffer; strlen(NULL) crashes on one that was never written.
abbrev pub parse_content : System → Option Bytes → M (ℕ × List Token)
parse_content sys none w = (crashed, w)
parse_content sys (some json) w = parsed_reply (parse_json_document sys.allocates sys.jsmn json) w

pub parse_buffer : System → Buffer → M (ℕ × List Token)
parse_buffer sys buf w = parse_content sys buf.content w

abbrev pub buffer_text : Buffer → Bytes
buffer_text buf = content_bytes buf.content

-- `parse_object_at(...) != 0` is a failure; a token that is not set is not read without a crash.
abbrev pub meta_reply : Run (RemoteMeta × ℕ) → M RemoteMeta
meta_reply refuse w = (failed, record w { errno = eio })
meta_reply (ok (meta, _)) w = (done meta, w)
meta_reply _ w = (crashed, w)

pub parse_meta : System → Buffer → List Token → M RemoteMeta
parse_meta sys buf tokens w =
    meta_reply (parse_object_at sys.g_uid sys.g_gid (buffer_text buf) tokens 0) w

-- The status checks that `/stat`, `/ls` and `/cat` share.
abbrev pub check_status : ℕ → M (Unit {0})
check_status status =
    if status == 404 then fail enoent else if status == 200 then pure tt else fail eio

unfoldable pub fetch_remote_meta : System → Bytes → M RemoteMeta
unfolding parse_buffer parse_meta
fetch_remote_meta sys abs_path = do
  (status, buf) ← fetch_json sys (codes "/stat") abs_path
  check_status status
  (_, tokens) ← parse_buffer sys buf
  parse_meta sys buf tokens

unfoldable pub remote_stat_path : System → Bytes → M Stat
remote_stat_path sys abs_path w =
    after (fetch_remote_meta sys abs_path w)
      (λ meta w'. (done (hydrate_stat (sys.clock w'.trace 0) abs_path meta), w'))

unfoldable pub remote_stat64_path : System → Bytes → M Stat
remote_stat64_path sys abs_path w =
    after (fetch_remote_meta sys abs_path w)
      (λ meta w'. (done (hydrate_stat64 (sys.clock w'.trace 0) abs_path meta), w'))

-- The flags of fcntl.h on Linux x86-64; O_TMPFILE has the bit of O_DIRECTORY in it.
abbrev pub o_wronly : ℕ
o_wronly = 0o1

abbrev pub o_rdwr : ℕ
o_rdwr = 0o2

abbrev pub o_creat : ℕ
o_creat = 0o100

abbrev pub o_trunc : ℕ
o_trunc = 0o1000

abbrev pub o_append : ℕ
o_append = 0o2000

abbrev pub o_directory : ℕ
o_directory = 0o200000

abbrev pub o_tmpfile : ℕ
o_tmpfile = 0o20200000

abbrev pub write_flags : ℕ
write_flags = bit_or o_wronly (bit_or o_rdwr (bit_or o_creat (bit_or o_trunc o_append)))

-- Whether no flag that writes is set.
unfoldable pub reads_only : ℕ → Bool
reads_only flags = bit_and flags write_flags == 0 && bit_and flags o_tmpfile == 0

unfoldable pub allow_open_flags : ℕ → M (Unit {0})
unfolding reads_only
allow_open_flags flags = if reads_only flags then pure tt else fail erofs

-- lseek to the start, whose own errno stays.
pub rewind : System → ℕ → M (Unit {0})
rewind sys fd w = if sys.lseek w.trace fd then log (rewound fd) w else (failed, w)

abbrev pub status_of : (Option ℕ × ℕ) × World → Reply ℕ × World
status_of ((none, fd), w) = (failed, w)
status_of ((some status, fd), w) = (done status, w)

unfoldable pub download_into_temp : System → Bytes → ℕ → M (Unit {0})
unfolding rewind
download_into_temp sys abs_path fd = do
  status ← λ w. status_of (perform_http_request sys (codes "/cat") abs_path (file_write sys) fd w)
  check_status status
  rewind sys fd

pub make_temp : System → Bytes → M (ℕ × Bytes)
make_temp sys template w = elim (sys.mkstemp w.trace template) [
  | none ↦ (failed, w)
  | some (fd, name) ↦ (done (fd, name), record w { trace = made_temp name ∷ w.trace })
]

-- Behind a failure of the download.
abbrev pub discard : ℕ → Bytes → Reply (Unit {0}) × World → Reply (Unit {0}) × World
discard fd name (done u, w) = (done u, w)
discard fd name (failed, w) = (failed, record w { trace = unlinked name ∷ closed fd ∷ w.trace })
discard fd name (crashed, w) = (crashed, w)

-- `int fd = open(template_path, O_RDONLY); unlink(template_path); return fd;`
abbrev pub unlink_after : Bytes → Reply ℕ × World → Reply ℕ × World
unlink_after name (crashed, w) = (crashed, w)
unlink_after name (r, w) = (r, record w { trace = unlinked name ∷ w.trace })

-- `reopen` is `open`, which inside this library is the shim's own.
unfoldable pub remote_open_file : System → (Bytes → ℕ → M ℕ) → Bytes → ℕ → M ℕ
unfolding make_temp allow_open_flags
remote_open_file sys reopen abs_path flags = do
  allow_open_flags flags
  st ← remote_stat_path sys abs_path
  (if s_isdir st.mode then fail eisdir else pure tt)
  (fd, name) ← make_temp sys (clip path_max (sys.cache_dir ++ codes "/cache-XXXXXX"))
  λ w. discard fd name (download_into_temp sys abs_path fd w)
  log (closed fd)
  λ w. unlink_after name (reopen name 0 w)
