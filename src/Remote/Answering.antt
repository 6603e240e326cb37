-- ===== src/Remote/Answering.antt =====
-- About `remote_stat_path` when the daemon answers with an object that can be read.
use s3ro.Run.{ok}
use s3ro.Base.{ℕ, true, false, some, List, ◌∷◌, Bytes, codes, ltb, ◌≡◌, refl, ap}
use s3ro.Http.{Buffer, content_bytes}
use s3ro.Http.Gathering.{fetch_json_total}
use s3ro.Http.Writing.{joined}
use s3ro.Json.{Token, parse_json_document, parse_object_at}
use s3ro.Meta.{RemoteMeta, hydrate_stat}
use s3ro.Remote.{parse_buffer, parse_meta, buffer_text, fetch_remote_meta, remote_stat_path}
use s3ro.Remote.Outcomes.{url_of}
use s3ro.World.{World, System, Transfer, request, done}

-- The response to the request for the metadata of a path.
abbrev pub stat_reply : System → Bytes → World → Transfer
stat_reply sys abs_path w = sys.transfer w.trace (url_of (codes "/stat") abs_path)

abbrev pub asked : Bytes → World → World
asked abs_path w = record w { trace = request (url_of (codes "/stat") abs_path) ∷ w.trace }

-- The daemon answers with an object.
pub record Describes (sys : System) (abs_path : Bytes) (w : World) : Type 0 where
  pub curl : sys.curl_init w.trace ≡ true
  pub memory : (size : ℕ) → sys.allocates size ≡ true
  pub status : (stat_reply sys abs_path w).status ≡ some 200
  pub piece : Bytes
  pub pieces : List Bytes
  pub body : (stat_reply sys abs_path w).pieces ≡ piece ∷ pieces
  pub count : ℕ
  pub tokens : List Token
  pub parses :
      parse_json_document sys.allocates sys.jsmn (joined (piece ∷ pieces)) ≡ some (count, tokens)
  pub counts : ltb count 1 ≡ false

parse_buffer_total :
    (sys : System) (buf : Buffer) (w : World) {json : Bytes} {count : ℕ} {tokens : List Token}
    → buf.content ≡ some json
    → parse_json_document sys.allocates sys.jsmn json ≡ some (count, tokens)
    → ltb count 1 ≡ false
    → parse_buffer sys buf w ≡ (done (count, tokens), w)
unfolding parse_buffer
parse_buffer_total sys buf w content parses counts = rw (content, parses, counts) refl

parse_meta_total :
    (sys : System) (buf : Buffer) (tokens : List Token) (w : World) {json : Bytes}
    {meta : RemoteMeta} {next : ℕ}
    → buf.content ≡ some json
    → parse_object_at sys.g_uid sys.g_gid json tokens 0 ≡ ok (meta, next)
    → parse_meta sys buf tokens w ≡ (done meta, w)
unfolding parse_meta
parse_meta_total sys buf tokens w content reads =
    let text : buffer_text buf ≡ _ = ap content_bytes content in rw (text, reads) refl

pub remote_stat_path_total :
    (sys : System) (abs_path : Bytes) (w : World) {meta : RemoteMeta} {next : ℕ}
    → (h : Describes sys abs_path w)
    → parse_object_at sys.g_uid sys.g_gid (joined (h.piece ∷ h.pieces)) h.tokens 0 ≡ ok (meta, next)
    → remote_stat_path sys abs_path w
      ≡ (done (hydrate_stat (sys.clock (asked abs_path w).trace 0) abs_path meta), asked abs_path w)
unfolding remote_stat_path fetch_remote_meta
remote_stat_path_total sys abs_path w h reads =
    let (buf, e, content) =
      fetch_json_total sys h.memory (codes "/stat") abs_path w h.piece h.pieces h.curl h.body
        h.status in
    rw
      (
        e,
        parse_buffer_total sys buf (asked abs_path w) content h.parses h.counts,
        parse_meta_total sys buf h.tokens (asked abs_path w) content reads,
      )
      refl
