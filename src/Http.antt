-- ===== src/Http.antt =====
-- The HTTP client of shim/ldpreload/remotefs_shim.c: `buffer_write`, `file_write`,
-- `perform_http_request` and `fetch_json`.
pub mod Writing
pub mod Views
pub mod Bodies
pub mod Progress
pub mod Gathering
use s3ro.Base.{
  ℕ, zero, suc, ◌+◌, Bool, true, false, Option, none, some, List, [], ◌∷◌, ◌++◌, Bytes, codes, ◌==◌,
  if◌then◌else◌, length, take, drop,
}
use s3ro.Url.{url_encode, request_url}
use s3ro.World.{
  World, System, Transfer, Event, request, wrote, eio, enomem, Reply, done, failed, crashed, M,
  ◌>>=◌, ◌>>◌, pure, fail, log, after,
}

-- A write callback of curl: the piece and the user data; the number of bytes taken, and the new data.
abbrev pub Callback : Type 0 → Type 0
Callback S = Bytes → S → World → (ℕ × S) × World

-- struct buffer, whose `data` is NULL before the first write.
pub record Buffer : Type 0 where
  pub content : Option Bytes
  pub len : ℕ

abbrev pub content_bytes : Option Bytes → Bytes
content_bytes none = []
content_bytes (some s) = s

unfoldable pub buffer_write : (ℕ → Bool) → Callback Buffer
buffer_write allocates ptr buf w =
    if allocates (buf.len + length ptr + 1)
    then (
      (
        length ptr,
        record { content = some (content_bytes buf.content ++ ptr); len = buf.len + length ptr },
      ),
      w,
    )
    else ((0, buf), w)

-- `while (written < total)` on what is left; the result is whether all was written. Each round that
-- goes on writes a byte at least, so a round for each byte is enough.
pub write_loop : System → ℕ → ℕ → Bytes → World → Bool × World
write_loop sys fd fuel [] w = (true, w)
write_loop sys fd zero (c ∷ rest) w = (false, w)
write_loop sys fd (suc fuel) (c ∷ rest) w =
    let n = sys.write w.trace fd (c ∷ rest) in
    let later =
      write_loop sys fd fuel (drop n (c ∷ rest))
        (record w { trace = wrote fd (take n (c ∷ rest)) ∷ w.trace }) in
    if n == 0 then (false, w) else later

unfoldable pub file_write : System → Callback ℕ
unfolding write_loop
file_write sys ptr fd w =
    let (whole, w') = write_loop sys fd (length ptr) ptr w in
    ((if whole then length ptr else 0, fd), w')

-- curl hands over piece after piece, and stops at a callback that does not take all of its piece.
pub deliver : {S : Type 0} → Callback S → List Bytes → S → World → (Bool × S) × World
deliver cb [] s w = ((true, s), w)
deliver cb (piece ∷ pieces) s w =
    let ((taken, s'), w') = cb piece s w in
    let later = deliver cb pieces s' w' in
    if taken == length piece then later else ((false, s'), w')

-- `errno = EIO; return -1;` unless curl reports success.
pub conclude : {S : Type 0} → Option ℕ → (Bool × S) × World → (Option ℕ × S) × World
conclude status ((false, s), w) = ((none, s), record w { errno = eio })
conclude none ((true, s), w) = ((none, s), record w { errno = eio })
conclude (some status) ((true, s), w) = ((some status, s), w)

-- From the URL on.
unfoldable pub send :
    {S : Type 0} → System → Bytes → Callback S → S → World → (Option ℕ × S) × World
unfolding deliver conclude
send sys url cb s w =
    let answer = sys.transfer w.trace url in
    conclude answer.status (deliver cb answer.pieces s (record w { trace = request url ∷ w.trace }))

-- The HTTP status, or `none` for -1, with the callback's data.
unfoldable pub perform_http_request :
    {S : Type 0} → System → Bytes → Bytes → Callback S → S → World → (Option ℕ × S) × World
unfolding send
perform_http_request sys endpoint abs_path cb s w =
    if sys.curl_init w.trace
    then (elim (url_encode sys.allocates abs_path) [
      | none ↦ ((none, s), record w { errno = enomem })
      | some encoded ↦ send sys (request_url endpoint encoded) cb s w
    ])
    else ((none, s), record w { errno = eio })

abbrev pub empty_buffer : Buffer
empty_buffer = record { content = none; len = 0 }

-- The status and the body; `none` is -1, with the buffer freed.
pub fetched : (Option ℕ × Buffer) × World → Reply (ℕ × Buffer) × World
fetched ((none, buf), w) = (failed, w)
fetched ((some status, buf), w) = (done (status, buf), w)

unfoldable pub fetch_json : System → Bytes → Bytes → M (ℕ × Buffer)
unfolding perform_http_request buffer_write fetched
fetch_json sys endpoint abs_path w =
    fetched (perform_http_request sys endpoint abs_path (buffer_write sys.allocates) empty_buffer w)
