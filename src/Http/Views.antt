-- ===== src/Http/Views.antt =====
-- About `perform_http_request` and `fetch_json`, and what they leave as it was.
use s3ro.Base.{
  ℕ, zero, suc, Bool, true, false, Option, none, some, List, [], ◌∷◌, Bytes, ◌==◌, length, take,
  drop, arith, refl, ◌∙◌, inl, inr, Bool-cases, Option-cases,
}
use s3ro.Http.{
  Callback, Buffer, buffer_write, write_loop, file_write, deliver, conclude, send,
  perform_http_request, fetched, fetch_json, empty_buffer,
}
use s3ro.Url.{url_encode, request_url}
use s3ro.World.{World, System, request, wrote, eio, enomem}
use s3ro.World.Views.{IsQuiet, Keeps}

module _ {X : Type 0} (view : World → X) (quiet : IsQuiet view) where
  -- A callback that does not, either.
  abbrev pub IsKeeping : {S : Type 0} → Callback S → Type 0
  IsKeeping {S} cb = (piece : Bytes) (s : S) (w : World) → Keeps view w (cb piece s w)

  buffer_write-IsKeeping : (allocates : ℕ → Bool) → IsKeeping (buffer_write allocates)
  unfolding buffer_write
  buffer_write-IsKeeping allocates ptr buf w = ground arith

  write_loop-Keeps :
      (sys : System) (fd fuel : ℕ) (s : Bytes) (w : World)
      → Keeps view w (write_loop sys fd fuel s w)
  unfolding write_loop
  write_loop-Keeps sys fd fuel [] w = refl
  write_loop-Keeps sys fd zero (c ∷ s) w = refl
  write_loop-Keeps sys fd (suc fuel) (c ∷ s) w =
      let n = sys.write w.trace fd (c ∷ s) in
      elim (Bool-cases (n == 0)) [
        | inl stuck ↦ rw stuck refl
        | inr goes_on ↦ rw goes_on (
            write_loop-Keeps sys fd fuel (drop n (c ∷ s))
              (record w { trace = wrote fd (take n (c ∷ s)) ∷ w.trace })
            ∙ quiet.on_wrote fd (take n (c ∷ s)) w)
      ]

  pub file_write-IsKeeping : (sys : System) → IsKeeping (file_write sys)
  unfolding file_write
  file_write-IsKeeping sys ptr fd w = write_loop-Keeps sys fd (length ptr) ptr w

  deliver-Keeps :
      {S : Type 0} (cb : Callback S) (pieces : List Bytes) (s : S) (w : World)
      → IsKeeping cb
      → Keeps view w (deliver cb pieces s w)
  unfolding deliver
  deliver-Keeps cb [] s w keeps = refl
  deliver-Keeps cb (piece ∷ pieces) s w keeps =
      let (r, v) = cb piece s w in
      elim (Bool-cases (r.0 == length piece)) [
        | inl taken ↦ rw taken (deliver-Keeps cb pieces r.1 v keeps ∙ keeps piece s w)
        | inr cut ↦ rw cut (keeps piece s w)
      ]

  conclude-Keeps :
      {S : Type 0} (status : Option ℕ) (w : World) (r : (Bool × S) × World)
      → Keeps view w r
      → Keeps view w (conclude status r)
  unfolding conclude
  conclude-Keeps status w ((false, s), v) h = quiet.on_errno eio v ∙ h
  conclude-Keeps none w ((true, s), v) h = quiet.on_errno eio v ∙ h
  conclude-Keeps (some _) w ((true, s), v) h = h

  send-Keeps :
      {S : Type 0} (sys : System) (url : Bytes) (cb : Callback S) (s : S) (w : World)
      → IsKeeping cb
      → Keeps view w (send sys url cb s w)
  unfolding send
  send-Keeps sys url cb s w keeps =
      let answer = sys.transfer w.trace url in
      let sent = record w { trace = request url ∷ w.trace } in
      conclude-Keeps answer.status w (deliver cb answer.pieces s sent)
        (deliver-Keeps cb answer.pieces s sent keeps ∙ quiet.on_request url w)

  pub perform_http_request-Keeps :
      {S : Type 0} (sys : System) (endpoint abs_path : Bytes) (cb : Callback S) (s : S) (w : World)
      → IsKeeping cb
      → Keeps view w (perform_http_request sys endpoint abs_path cb s w)
  unfolding perform_http_request
  perform_http_request-Keeps sys endpoint abs_path cb s w keeps =
      elim (Bool-cases (sys.curl_init w.trace)) [
        | inr no_curl ↦ rw no_curl (quiet.on_errno eio w)
        | inl curl ↦ elim (Option-cases (url_encode sys.allocates abs_path)) [
          | inl full ↦ rw (curl, full) (quiet.on_errno enomem w)
          | inr (encoded, e) ↦
              rw (curl, e) (send-Keeps sys (request_url endpoint encoded) cb s w keeps)
        ]
      ]

  fetched-Keeps :
      (w : World) (r : (Option ℕ × Buffer) × World) → Keeps view w r → Keeps view w (fetched r)
  unfolding fetched
  fetched-Keeps w ((none, buf), v) h = h
  fetched-Keeps w ((some status, buf), v) h = h

  pub fetch_json-Keeps :
      (sys : System) (endpoint abs_path : Bytes) (w : World)
      → Keeps view w (fetch_json sys endpoint abs_path w)
  unfolding fetch_json
  fetch_json-Keeps sys endpoint abs_path w =
      let cb = buffer_write sys.allocates in
      fetched-Keeps w (perform_http_request sys endpoint abs_path cb empty_buffer w) (
        perform_http_request-Keeps sys endpoint abs_path cb empty_buffer w
          (buffer_write-IsKeeping sys.allocates))
