-- ===== src/Daemon/Serving.antt =====
-- About stat of the shim in front of `handleStat` of the daemon.
use s3ro.Base.{ℕ, Option, true, some, List, ◌∷◌, Bytes, codes, ◌≡◌, refl}
use s3ro.Daemon.{FileMeta, IpcServer, entry_from_meta}
use s3ro.Daemon.Files.{
  Found, found, missing, broken, FileSystem, Response, one_entry, entries, http_error, stat_path,
  requested, respond, serve_stat,
}
use s3ro.Daemon.Stats.{stat_of, ServesEntry, handle_stat-stat_of}
use s3ro.Handlers.{Answer, answered, at_root, handle_stat}
use s3ro.Http.Gathering.{fetch_json_total}
use s3ro.Meta.{Stat}
use s3ro.Remote.{fetch_remote_meta, remote_stat_path, check_status}
use s3ro.Remote.Answering.{stat_reply, asked}
use s3ro.World.{World, System, done, failed, enoent, eio}

-- A response with an error status, and a text that the shim does not read.
pub record ServesError (sys : System) (abs_path : Bytes) (w : World) (status : ℕ) : Type 0 where
  pub curl : sys.curl_init w.trace ≡ true
  pub memory : (size : ℕ) → sys.allocates size ≡ true
  pub answers : (stat_reply sys abs_path w).status ≡ some status
  pub piece : Bytes
  pub pieces : List Bytes
  pub body : (stat_reply sys abs_path w).pieces ≡ piece ∷ pieces

-- The answer to the request for the metadata of a path is this response.
abbrev pub Delivers : System → (abs_path : Bytes) → World → Response → Type 0
Delivers sys abs_path w (one_entry e) = ServesEntry sys abs_path w e
Delivers sys abs_path w (entries es) = ⊥
Delivers sys abs_path w (http_error status) = ServesError sys abs_path w status

-- What stat should give for what the daemon found.
abbrev pub stat_found :
    System → IpcServer → (abs_path : Bytes) → World → Found FileMeta → Answer Stat × World
stat_found sys server abs_path w (found file) = (
  answered (done (stat_of server (sys.clock (asked abs_path w).trace 0) abs_path file)),
  asked abs_path w,
)
stat_found sys server abs_path w missing =
    (answered failed, record (asked abs_path w) { errno = enoent })
stat_found sys server abs_path w broken =
    (answered failed, record (asked abs_path w) { errno = eio })

remote_stat_path-ServesError :
    (sys : System) (abs_path : Bytes) (w w' : World) (status : ℕ)
    → check_status status (asked abs_path w) ≡ (failed, w')
    → ServesError sys abs_path w status
    → remote_stat_path sys abs_path w ≡ (failed, w')
unfolding remote_stat_path fetch_remote_meta
remote_stat_path-ServesError sys abs_path w w' status fails h =
    let (buf, e, content) =
      fetch_json_total sys h.memory (codes "/stat") abs_path w h.piece h.pieces h.curl h.body
        h.answers in
    rw (e, fails) refl

handle_stat-found :
    (sys : System) (path : Option Bytes) (w : World) (server : IpcServer) (printed_at : Bytes)
    (result : Found FileMeta) {abs_path : Bytes}
    → at_root sys path ≡ some abs_path
    → Delivers sys abs_path w
        (respond (λ file. one_entry (entry_from_meta server printed_at file)) result)
    → handle_stat sys path w ≡ stat_found sys server abs_path w result
unfolding handle_stat
handle_stat-found sys path w server printed_at (found file) inside h =
    handle_stat-stat_of sys path w server printed_at file inside h
handle_stat-found sys path w server printed_at missing {abs_path} inside h =
    rw (inside, remote_stat_path-ServesError sys abs_path w _ 404 refl h) refl
handle_stat-found sys path w server printed_at broken {abs_path} inside h =
    rw (inside, remote_stat_path-ServesError sys abs_path w _ 500 refl h) refl

-- If the path lies below the root, curl starts, there is memory, and the daemon's handler answers
-- the request for the path, an entry with status 200 as a body that parses to it, each value with
-- a token whose text is the value itself, so that no string has an escape, with a path shorter
-- than PATH_MAX, owners below 2^31 and a size and a mode below 2^63, and an error as its status
-- with some body, then stat of the shim reports what Stat of the daemon's file system finds: the
-- file, with mode 0550 of a directory or 0440 of a regular file, the daemon's user and group, the
-- size and its blocks, and the hash of the path as inode; ENOENT where it is missing; EIO on any
-- other error; and it does one request and nothing else.
pub handle_stat-serve_stat :
    (sys : System) (path : Option Bytes) (w : World) (server : IpcServer) (printed_at : Bytes)
    (fs : FileSystem) {abs_path : Bytes}
    → at_root sys path ≡ some abs_path
    → Delivers sys abs_path w (serve_stat server fs printed_at abs_path)
    → handle_stat sys path w
      ≡ stat_found sys server abs_path w (stat_path fs (requested fs abs_path))
unfolding serve_stat
handle_stat-serve_stat sys path w server printed_at fs {abs_path} inside h =
    handle_stat-found sys path w server printed_at (stat_path fs (requested fs abs_path)) inside h
