-- ===== src/Remote/Outcomes.antt =====
-- About `remote_stat_path`: what its answers come from, and the errno of each failure.
use s3ro.Run.{ok}
use s3ro.Base.{
  ℕ, some, List, ◌∷◌, Bytes, codes, ◌==◌, ==→eq, ◌≡◌, sym, ap, ◌∙◌, ◌⊎◌, inl, inr, Bool-cases,
}
use s3ro.Http.{Buffer, content_bytes, fetch_json}
use s3ro.Http.Bodies.{Fetched, fetch_json-Fetched, fetch_json-failed}
use s3ro.Http.Writing.{joined}
use s3ro.Json.{Token, parse_json_document, parse_object_at}
use s3ro.Meta.{RemoteMeta, Stat, hydrate_stat}
use s3ro.Remote.{
  parse_buffer, parse_meta, check_status, buffer_text, fetch_remote_meta, remote_stat_path,
}
use s3ro.Url.{request_url, encode_loop}
use s3ro.World.{request, World, System, eio, enoent, enomem, done, failed, after-done, after-failed}
use s3ro.Remote.Parsing.{
  parse_buffer-failed, parse_meta-failed, parse_content-done, meta_reply-done,
}

-- The response of the daemon to a request for a path.
abbrev pub url_of : Bytes → Bytes → Bytes
url_of endpoint abs_path = request_url endpoint (encode_loop abs_path)

pub check_status-done :
    (status : ℕ) (w : World) {u : Unit {0}} {w' : World}
    → check_status status w ≡ (done u, w')
    → (status ≡ 200) × (w' ≡ w)
check_status-done status w h = elim (Bool-cases (status == 404)) [
  | inl lost ↦ absurd (cc (rw lost at h))
  | inr there ↦ elim (Bool-cases (status == 200)) [
    | inl fine ↦ (==→eq status 200 fine, ap (λ t. t.1) (sym (rw (there, fine) at h)))
    | inr other ↦ absurd (cc (rw (there, other) at h))
  ]
]

pub check_status-failed :
    (status : ℕ) (w : World) {w' : World}
    → check_status status w ≡ (failed, w')
    → (w'.errno ≡ eio) ⊎ ((w'.errno ≡ enoent) × (status ≡ 404))
check_status-failed status w h = elim (Bool-cases (status == 404)) [
  | inl lost ↦ inr (ap (λ t. t.1.errno) (sym (rw lost at h)), ==→eq status 404 lost)
  | inr there ↦ elim (Bool-cases (status == 200)) [
    | inl fine ↦ absurd (cc (rw (there, fine) at h))
    | inr other ↦ inl (ap (λ t. t.1.errno) (sym (rw (there, other) at h)))
  ]
]

-- The errno of a request that failed, and the status that it had if that is ENOENT.
abbrev pub IsFailure : System → (endpoint abs_path : Bytes) → World → World → Type 0
IsFailure sys endpoint abs_path w w' =
    (w'.errno ≡ eio)
    ⊎ (w'.errno ≡ enomem)
    ⊎ ((w'.errno ≡ enoent) × ((sys.transfer w.trace (url_of endpoint abs_path)).status ≡ some 404))

-- No answer, or one with a status that is refused.
pub fetch_json-IsFailure :
    (sys : System) (endpoint abs_path : Bytes) (w : World) {w' : World}
    → fetch_json sys endpoint abs_path w ≡ (failed, w')
    → IsFailure sys endpoint abs_path w w'
fetch_json-IsFailure sys endpoint abs_path w h =
    elim (fetch_json-failed sys endpoint abs_path w h) [
      | inl io ↦ inl io
      | inr memory ↦ inr (inl memory)
    ]

pub check_status-IsFailure :
    (sys : System) (endpoint abs_path : Bytes) (w : World) {status : ℕ} {buf : Buffer}
    {w1 w' : World}
    → Fetched sys endpoint abs_path w status buf w1
    → check_status status w1 ≡ (failed, w')
    → IsFailure sys endpoint abs_path w w'
check_status-IsFailure sys endpoint abs_path w {status} {w1 = w1} fetched h =
    elim (check_status-failed status w1 h) [
      | inl io ↦ inl io
      | inr (lost, is_404) ↦ inr (inr (lost, rw (fetched.asks, is_404) at fetched.answers))
    ]

fetch_remote_meta-failed :
    (sys : System) (abs_path : Bytes) (w : World) {w' : World}
    → fetch_remote_meta sys abs_path w ≡ (failed, w')
    → IsFailure sys (codes "/stat") abs_path w w'
unfolding fetch_remote_meta
fetch_remote_meta-failed sys abs_path w h =
    elim (after-failed (fetch_json sys (codes "/stat") abs_path w) _ h) [
      | inl e ↦ fetch_json-IsFailure sys (codes "/stat") abs_path w e
      | inr ((status, buf), w1, e, h1) ↦
          let fetched = fetch_json-Fetched sys (codes "/stat") abs_path w e in
          elim (after-failed (check_status status w1) _ h1) [
            | inl f ↦ check_status-IsFailure sys (codes "/stat") abs_path w fetched f
            | inr (_, w2, f, h2) ↦ elim (after-failed (parse_buffer sys buf w2) _ h2) [
              | inl g ↦ inl (parse_buffer-failed sys buf w2 g)
              | inr ((_, tokens), w3, g, h3) ↦ inl (parse_meta-failed sys buf tokens w3 h3)
            ]
          ]
    ]

-- The errno of a failure.
pub remote_stat_path-failed :
    (sys : System) (abs_path : Bytes) (w : World) {w' : World}
    → remote_stat_path sys abs_path w ≡ (failed, w')
    → IsFailure sys (codes "/stat") abs_path w w'
unfolding remote_stat_path
remote_stat_path-failed sys abs_path w h =
    elim (after-failed (fetch_remote_meta sys abs_path w) _ h) [
      | inl e ↦ fetch_remote_meta-failed sys abs_path w e
      | inr (meta, v, _, h') ↦ absurd (cc)
    ]

-- What the daemon said of a path.
pub record Reported (sys : System) (abs_path : Bytes) (w : World) (meta : RemoteMeta) : Type 0 where
  pub status : (sys.transfer w.trace (url_of (codes "/stat") abs_path)).status ≡ some 200
  pub json : Bytes
  pub body : json ≡ joined (sys.transfer w.trace (url_of (codes "/stat") abs_path)).pieces
  pub count : ℕ
  pub tokens : List Token
  pub parses : parse_json_document sys.allocates sys.jsmn json ≡ some (count, tokens)
  pub next : ℕ
  pub reads : parse_object_at sys.g_uid sys.g_gid json tokens 0 ≡ ok (meta, next)

fetch_remote_meta-Reported :
    (sys : System) (abs_path : Bytes) (w : World) {meta : RemoteMeta} {w' : World}
    → fetch_remote_meta sys abs_path w ≡ (done meta, w')
    → Reported sys abs_path w meta
      × (w' ≡ record w { trace = request (url_of (codes "/stat") abs_path) ∷ w.trace })
unfolding fetch_remote_meta parse_buffer parse_meta
fetch_remote_meta-Reported sys abs_path w h =
    let ((status, buf), w1, e, h1) = after-done (fetch_json sys (codes "/stat") abs_path w) _ h in
    let (_, w2, f, h2) = after-done (check_status status w1) _ h1 in
    let ((count, tokens), w3, g, h3) = after-done (parse_buffer sys buf w2) _ h2 in
    let fetched = fetch_json-Fetched sys (codes "/stat") abs_path w e in
    let (fine, same2) = check_status-done status w1 f in
    let (content, parses, same3) = parse_content-done sys buf.content w2 g in
    let (next, reads, same4) =
      meta_reply-done (parse_object_at sys.g_uid sys.g_gid (buffer_text buf) tokens 0) w3 h3 in
    (
      record {
        status = rw (fetched.asks, fine) at fetched.answers;
        json = content_bytes buf.content;
        body = rw fetched.asks at fetched.body;
        count = count;
        tokens = tokens;
        parses = parses;
        next = next;
        reads = reads;
      },
      same4 ∙ same3 ∙ same2 ∙ rw fetched.asks at fetched.after,
    )

-- What stands behind a success.
pub remote_stat_path-Reported :
    (sys : System) (abs_path : Bytes) (w : World) {st : Stat} {w' : World}
    → remote_stat_path sys abs_path w ≡ (done st, w')
    → (meta : RemoteMeta) × Reported sys abs_path w meta
      × (st ≡ hydrate_stat (sys.clock w'.trace 0) abs_path meta)
      × (w' ≡ record w { trace = request (url_of (codes "/stat") abs_path) ∷ w.trace })
unfolding remote_stat_path
remote_stat_path-Reported sys abs_path w {st} {w'} h =
    let (meta, v, e, h') = after-done (fetch_remote_meta sys abs_path w) _ h in
    let (reported, alone) = fetch_remote_meta-Reported sys abs_path w e in
    let same : v ≡ w' = ap (λ t. t.1) h' in
    let shown : World → Stat = λ u. hydrate_stat (sys.clock u.trace 0) abs_path meta in
    let is_st : shown v ≡ st = cc (h') in
    (meta, reported, sym is_st ∙ ap shown same, sym same ∙ alone)
