-- ===== src/Remote/Parsing.antt =====
-- About `parse_json_document` and `parse_object_at` as `fetch_remote_meta` calls them.
use s3ro.Base.{ℕ, Option, none, some, List, Bytes, ltb, ◌≡◌, refl, sym, ap, inl, inr, Bool-cases}
use s3ro.Http.{Buffer, content_bytes}
use s3ro.Json.{Token, parse_json_document, parse_object_at}
use s3ro.Meta.{RemoteMeta}
use s3ro.Remote.{parsed_reply, parse_content, meta_reply, parse_buffer, parse_meta, buffer_text}
use s3ro.Run.{Run, ok, refuse, overrun, stuck, stray}
use s3ro.World.{World, System, eio, done, failed}

pub parsed_reply-failed :
    (r : Option (ℕ × List Token)) (w : World) {w' : World}
    → parsed_reply r w ≡ (failed, w')
    → w'.errno ≡ eio
parsed_reply-failed none w h = ap (λ t. t.1.errno) (sym h)
parsed_reply-failed (some (count, tokens)) w h = elim (Bool-cases (ltb count 1)) [
  | inl empty ↦ ap (λ t. t.1.errno) (sym (rw empty at h))
  | inr full ↦ absurd (cc (rw full at h))
]

pub parse_content-failed :
    (sys : System) (content : Option Bytes) (w : World) {w' : World}
    → parse_content sys content w ≡ (failed, w')
    → w'.errno ≡ eio
parse_content-failed sys none w h = cc
parse_content-failed sys (some json) w h =
    parsed_reply-failed (parse_json_document sys.allocates sys.jsmn json) w h

pub parse_buffer-failed :
    (sys : System) (buf : Buffer) (w : World) {w' : World}
    → parse_buffer sys buf w ≡ (failed, w')
    → w'.errno ≡ eio
unfolding parse_buffer
parse_buffer-failed sys buf w h = parse_content-failed sys buf.content w h

pub meta_reply-failed :
    (r : Run (RemoteMeta × ℕ)) (w : World) {w' : World}
    → meta_reply r w ≡ (failed, w')
    → w'.errno ≡ eio
meta_reply-failed refuse w h = ap (λ t. t.1.errno) (sym h)
meta_reply-failed (ok (meta, next)) w h = cc
meta_reply-failed overrun w h = cc
meta_reply-failed stuck w h = cc
meta_reply-failed stray w h = cc

pub parse_meta-failed :
    (sys : System) (buf : Buffer) (tokens : List Token) (w : World) {w' : World}
    → parse_meta sys buf tokens w ≡ (failed, w')
    → w'.errno ≡ eio
unfolding parse_meta
parse_meta-failed sys buf tokens w h =
    meta_reply-failed (parse_object_at sys.g_uid sys.g_gid (buffer_text buf) tokens 0) w h

pub parsed_reply-done :
    (r : Option (ℕ × List Token)) (w : World) {count : ℕ} {tokens : List Token} {w' : World}
    → parsed_reply r w ≡ (done (count, tokens), w')
    → (r ≡ some (count, tokens)) × (w' ≡ w)
parsed_reply-done none w h = cc
parsed_reply-done (some (n, ts)) w h = elim (Bool-cases (ltb n 1)) [
  | inl empty ↦ absurd (cc (rw empty at h))
  | inr full ↦ let got = rw full at h in (cc (got), ap (λ t. t.1) (sym got))
]

-- A buffer that could be parsed was written.
pub parse_content-done :
    (sys : System) (content : Option Bytes) (w : World) {count : ℕ} {tokens : List Token}
    {w' : World}
    → parse_content sys content w ≡ (done (count, tokens), w')
    → (content ≡ some (content_bytes content))
      × (parse_json_document sys.allocates sys.jsmn (content_bytes content) ≡ some (count, tokens))
      × (w' ≡ w)
parse_content-done sys none w h = cc
parse_content-done sys (some json) w h =
    let (parses, same) = parsed_reply-done (parse_json_document sys.allocates sys.jsmn json) w h in
    (refl, parses, same)

pub meta_reply-done :
    (r : Run (RemoteMeta × ℕ)) (w : World) {meta : RemoteMeta} {w' : World}
    → meta_reply r w ≡ (done meta, w')
    → (next : ℕ) × (r ≡ ok (meta, next)) × (w' ≡ w)
meta_reply-done refuse w h = cc
meta_reply-done overrun w h = cc
meta_reply-done stuck w h = cc
meta_reply-done stray w h = cc
meta_reply-done (ok (m, next)) w h = (next, cc, ap (λ t. t.1) (sym h))
