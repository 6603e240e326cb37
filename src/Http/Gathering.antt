-- ===== src/Http/Gathering.antt =====
-- Requests whose body fits into memory.
use s3ro.Base.{
  ℕ, true, some, List, [], ◌∷◌, ◌++◌, Bytes, length, ◌≡◌, refl, ◌∙◌, ==_self, append-nil,
  append_assoc,
}
use s3ro.Http.{
  Buffer, buffer_write, deliver, conclude, empty_buffer, send, perform_http_request, fetched,
  fetch_json,
}
use s3ro.Http.Bodies.{more, buffer_write-room}
use s3ro.Http.Writing.{joined}
use s3ro.Url.{url_encode, request_url, encode_loop}
use s3ro.World.{World, System, request, done}

module _ (sys : System) (memory : (size : ℕ) → sys.allocates size ≡ true) where
  deliver_gathers :
      (pieces : List Bytes) (buf : Buffer) (w : World) {s : Bytes}
      → buf.content ≡ some s
      → (buf' : Buffer) × (deliver (buffer_write sys.allocates) pieces buf w ≡ ((true, buf'), w))
        × (buf'.content ≡ some (s ++ joined pieces))
  unfolding deliver
  deliver_gathers [] buf w {s} e = (buf, refl, e ∙ rw append-nil refl)
  deliver_gathers (piece ∷ pieces) buf w {s} e =
      let room = buffer_write-room sys.allocates piece buf w (memory _) in
      let (buf', all, gathered) = deliver_gathers pieces (more buf piece) w refl in
      (
        buf',
        rw (room, ==_self (length piece)) all,
        gathered ∙ rw (e, append_assoc s piece (joined pieces)) refl,
      )

  send_gathers :
      (url : Bytes) (w : World) (piece : Bytes) (pieces : List Bytes) {status : ℕ}
      → (sys.transfer w.trace url).pieces ≡ piece ∷ pieces
      → (sys.transfer w.trace url).status ≡ some status
      → (buf : Buffer) × (send sys url (buffer_write sys.allocates) empty_buffer w
          ≡ ((some status, buf), record w { trace = request url ∷ w.trace }))
        × (buf.content ≡ some (joined (piece ∷ pieces)))
  unfolding send conclude deliver
  send_gathers url w piece pieces body answers =
      let sent = record w { trace = request url ∷ w.trace } in
      let room = buffer_write-room sys.allocates piece empty_buffer sent (memory _) in
      let (buf, all, gathered) = deliver_gathers pieces (more empty_buffer piece) sent refl in
      (buf, rw (body, answers, room, ==_self (length piece), all) refl, gathered)

  pub fetch_json_total :
      (endpoint abs_path : Bytes) (w : World) (piece : Bytes) (pieces : List Bytes) {status : ℕ}
      → sys.curl_init w.trace ≡ true
      → (sys.transfer w.trace (request_url endpoint (encode_loop abs_path))).pieces ≡ piece ∷ pieces
      → (sys.transfer w.trace (request_url endpoint (encode_loop abs_path))).status ≡ some status
      → (buf : Buffer) × (fetch_json sys endpoint abs_path w ≡ (
        done (status, buf),
        record w { trace = request (request_url endpoint (encode_loop abs_path)) ∷ w.trace },
      ))
        × (buf.content ≡ some (joined (piece ∷ pieces)))
  unfolding fetch_json perform_http_request fetched url_encode
  fetch_json_total endpoint abs_path w piece pieces curl body answers =
      let (buf, e, gathered) =
        send_gathers (request_url endpoint (encode_loop abs_path)) w piece pieces body answers in
      (buf, rw (curl, memory _, e) refl, gathered)
