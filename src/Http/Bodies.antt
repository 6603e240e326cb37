-- ===== src/Http/Bodies.antt =====
-- About `fetch_json`: the body and the status that it returns, and when it fails.
use s3ro.Base.{
  ℕ, ◌+◌, ◌*◌, Bool, true, false, Option, none, some, List, [], ◌∷◌, ◌++◌, Bytes, ◌==◌, length, ◌≡◌,
  refl, sym, ap, ◌∙◌, arith, ◌⊎◌, inl, inr, Bool-cases, append-nil, append_assoc, length-append,
  ==_self,
}
use s3ro.Http.{
  Buffer, content_bytes, empty_buffer, buffer_write, deliver, conclude, send, perform_http_request,
  fetched, fetch_json,
}
use s3ro.Http.Writing.{joined}
use s3ro.Url.{url_encode, request_url, encode_loop}
use s3ro.World.{World, System, request, eio, enomem, done, failed, crashed}

-- The length that the buffer keeps is that of its content.
abbrev pub Counts : Buffer → Type 0
Counts buf = buf.len ≡ length (content_bytes buf.content)

-- What the delivery of the pieces leaves behind.
pub record Collected (pieces : List Bytes) (buf : Buffer) (w : World) (r : (Bool × Buffer) × World)
    : Type 0 where
  pub quiet : r.1 ≡ w
  pub bytes :
      r.0.0 ≡ true → content_bytes r.0.1.content ≡ content_bytes buf.content ++ joined pieces
  pub counts : Counts r.0.1

-- The buffer behind a piece that it had room for.
abbrev pub more : Buffer → Bytes → Buffer
more buf piece = record {
  content = some (content_bytes buf.content ++ piece);
  len = buf.len + length piece;
}

pub buffer_write-room :
    (allocates : ℕ → Bool) (piece : Bytes) (buf : Buffer) (w : World)
    → allocates (buf.len + length piece + 1) ≡ true
    → buffer_write allocates piece buf w ≡ ((length piece, more buf piece), w)
unfolding buffer_write
buffer_write-room allocates piece buf w room = rw room refl

buffer_write-full :
    (allocates : ℕ → Bool) (piece : Bytes) (buf : Buffer) (w : World)
    → allocates (buf.len + length piece + 1) ≡ false
    → buffer_write allocates piece buf w ≡ ((0, buf), w)
unfolding buffer_write
buffer_write-full allocates piece buf w full = rw full refl

no_bytes : (s : Bytes) → (0 == length s) ≡ true → s ≡ []
no_bytes [] h = refl
no_bytes (c ∷ s) h = absurd (ground arith)

deliver-Collected :
    (allocates : ℕ → Bool) (pieces : List Bytes) (buf : Buffer) (w : World)
    → Counts buf
    → Collected pieces buf w (deliver (buffer_write allocates) pieces buf w)
unfolding deliver
deliver-Collected allocates [] buf w h = record {
  quiet = refl;
  bytes = λ _. rw append-nil refl;
  counts = h;
}
deliver-Collected allocates (piece ∷ pieces) buf w h =
    elim (Bool-cases (allocates (buf.len + length piece + 1))) [
      | inl room ↦
          let counts : Counts (more buf piece) =
            omega (arith, h, length-append (content_bytes buf.content) piece) in
          let later = deliver-Collected allocates pieces (more buf piece) w counts in
          rw (buffer_write-room allocates piece buf w room, ==_self (length piece))
            (record {
              quiet = later.quiet;
              bytes = λ all.
                  later.bytes all ∙ append_assoc (content_bytes buf.content) piece (joined pieces);
              counts = later.counts;
            })
      | inr full ↦ elim (Bool-cases (0 == length piece)) [
        | inl empty ↦
            let later = deliver-Collected allocates pieces buf w h in
            rw (buffer_write-full allocates piece buf w full, empty)
              (record {
                quiet = later.quiet;
                bytes = λ all.
                    later.bytes all
                    ∙ ap (λ (s : Bytes). content_bytes buf.content ++ (s ++ joined pieces))
                        (sym (no_bytes piece empty));
                counts = later.counts;
              })
        | inr some_left ↦
            rw (buffer_write-full allocates piece buf w full, some_left)
              (record { quiet = refl; bytes = λ all. cc; counts = h })
      ]
    ]

fetched-conclude_done :
    (status : Option ℕ) (r : (Bool × Buffer) × World) {s : ℕ} {buf : Buffer} {w' : World}
    → fetched (conclude status r) ≡ (done (s, buf), w')
    → (status ≡ some s) × (r ≡ ((true, buf), w'))
unfolding fetched conclude
fetched-conclude_done none ((true, b), v) h = cc
fetched-conclude_done none ((false, b), v) h = cc
fetched-conclude_done (some t) ((false, b), v) h = cc
fetched-conclude_done (some t) ((true, b), v) h = (cc, cc)

fetched-conclude_failed :
    (status : Option ℕ) (r : (Bool × Buffer) × World) {w' : World}
    → fetched (conclude status r) ≡ (failed, w')
    → w'.errno ≡ eio
unfolding fetched conclude
fetched-conclude_failed none ((true, b), v) h = ap (λ t. t.1.errno) (sym h)
fetched-conclude_failed none ((false, b), v) h = ap (λ t. t.1.errno) (sym h)
fetched-conclude_failed (some t) ((false, b), v) h = ap (λ t. t.1.errno) (sym h)
fetched-conclude_failed (some t) ((true, b), v) h = cc

-- What stands behind a response that fetch_json returns.
pub record Fetched (sys : System) (endpoint abs_path : Bytes) (w : World) (status : ℕ)
    (buf : Buffer) (w' : World) : Type 0 where
  pub url : Bytes
  pub asks : url ≡ request_url endpoint (encode_loop abs_path)
  pub answers : (sys.transfer w.trace url).status ≡ some status
  pub body : content_bytes buf.content ≡ joined (sys.transfer w.trace url).pieces
  pub counts : Counts buf
  pub after : w' ≡ record w { trace = request url ∷ w.trace }

send-Fetched :
    (sys : System) (endpoint abs_path : Bytes) (w : World) {status : ℕ} {buf : Buffer} {w' : World}
    → fetched (
        send sys
          (request_url endpoint (encode_loop abs_path))
          (buffer_write sys.allocates)
          empty_buffer
          w)
      ≡ (done (status, buf), w')
    → Fetched sys endpoint abs_path w status buf w'
unfolding send
send-Fetched sys endpoint abs_path w {status} {buf} {w'} h =
    let url = request_url endpoint (encode_loop abs_path) in
    let answer = sys.transfer w.trace url in
    let sent = record w { trace = request url ∷ w.trace } in
    let r = deliver (buffer_write sys.allocates) answer.pieces empty_buffer sent in
    let (is_status, is_r) = fetched-conclude_done answer.status r h in
    let c = deliver-Collected sys.allocates answer.pieces empty_buffer sent refl in
    record {
      url = url;
      asks = refl;
      answers = is_status;
      body = ap (λ t. content_bytes t.0.1.content) (sym is_r) ∙ c.bytes (ap (λ t. t.0.0) is_r);
      counts = rw is_r at c.counts;
      after = ap (λ t. t.1) (sym is_r) ∙ c.quiet;
    }

-- If fetch_json returns a status and a buffer, it has asked for the URL of the endpoint and the
-- path once and done nothing else, the status is that of the answer, and the buffer holds the
-- whole body and its length.
pub fetch_json-Fetched :
    (sys : System) (endpoint abs_path : Bytes) (w : World) {status : ℕ} {buf : Buffer} {w' : World}
    → fetch_json sys endpoint abs_path w ≡ (done (status, buf), w')
    → Fetched sys endpoint abs_path w status buf w'
unfolding fetch_json perform_http_request fetched url_encode
fetch_json-Fetched sys endpoint abs_path w h = elim (Bool-cases (sys.curl_init w.trace)) [
  | inr no_curl ↦ absurd (cc (rw no_curl at h))
  | inl curl ↦ elim (Bool-cases (sys.allocates (length abs_path * 3 + 1))) [
    | inr full ↦ absurd (cc (rw (curl, full) at h))
    | inl room ↦ send-Fetched sys endpoint abs_path w (rw (curl, room) at h)
  ]
]

pub fetch_json-failed :
    (sys : System) (endpoint abs_path : Bytes) (w : World) {w' : World}
    → fetch_json sys endpoint abs_path w ≡ (failed, w')
    → (w'.errno ≡ eio) ⊎ (w'.errno ≡ enomem)
unfolding fetch_json perform_http_request fetched url_encode send
fetch_json-failed sys endpoint abs_path w h = elim (Bool-cases (sys.curl_init w.trace)) [
  | inr no_curl ↦ inl (ap (λ t. t.1.errno) (sym (rw no_curl at h)))
  | inl curl ↦ elim (Bool-cases (sys.allocates (length abs_path * 3 + 1))) [
    | inr full ↦ inr (ap (λ t. t.1.errno) (sym (rw (curl, full) at h)))
    | inl room ↦ inl (fetched-conclude_failed _ _ (rw (curl, room) at h))
  ]
]

fetched-crashed : (r : (Option ℕ × Buffer) × World) {w' : World} → fetched r ≡ (crashed, w') → ⊥
unfolding fetched
fetched-crashed ((none, buf), w) h = cc
fetched-crashed ((some status, buf), w) h = cc

pub fetch_json-crashed :
    (sys : System) (endpoint abs_path : Bytes) (w : World) {w' : World}
    → fetch_json sys endpoint abs_path w ≡ (crashed, w')
    → ⊥
unfolding fetch_json
fetch_json-crashed sys endpoint abs_path w h =
    fetched-crashed
      (perform_http_request sys endpoint abs_path (buffer_write sys.allocates) empty_buffer w) h
