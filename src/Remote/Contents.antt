-- ===== src/Remote/Contents.antt =====
-- About the bytes of a file that `remote_open_file` opens.
use s3ro.Base.{
  ℕ, Option, none, some, ◌++◌, Bytes, codes, length, ◌*◌, ◌+◌, ◌≡◌, sym, ap, ◌∙◌, inl, inr,
  Bool-cases,
}
use s3ro.Http.{perform_http_request, send, file_write}
use s3ro.Http.Writing.{written, joined, send-written, send-status}
use s3ro.Remote.{status_of, rewind, check_status, download_into_temp}
use s3ro.Remote.Outcomes.{url_of, check_status-done}
use s3ro.Url.{url_encode}
use s3ro.World.{World, System, done, after-done}

-- The answer with status 200 that a file was filled from; `w` is the world before the request and
-- `w'` the one with the file rewound.
pub record Downloaded (sys : System) (abs_path : Bytes) (fd : ℕ) (w w' : World) : Type 0 where
  pub status : (sys.transfer w.trace (url_of (codes "/cat") abs_path)).status ≡ some 200
  pub body :
      written fd w'.trace
      ≡ written fd w.trace ++ joined (sys.transfer w.trace (url_of (codes "/cat") abs_path)).pieces

status_of-done :
    (r : (Option ℕ × ℕ) × World) {status : ℕ} {w' : World}
    → status_of r ≡ (done status, w')
    → (r.0.0 ≡ some status) × (r.1 ≡ w')
status_of-done ((none, fd), w) h = cc
status_of-done ((some status, fd), w) h = (cc, ap (λ t. t.1) h)

rewind-written :
    (sys : System) (fd : ℕ) (w : World) {u : Unit {0}} {w' : World}
    → rewind sys fd w ≡ (done u, w')
    → written fd w'.trace ≡ written fd w.trace
unfolding rewind
rewind-written sys fd w h = elim (Bool-cases (sys.lseek w.trace fd)) [
  | inl fine ↦ sym (ap (λ t. written fd t.1.trace) (rw fine at h))
  | inr lost ↦ absurd (cc (rw lost at h))
]

pub request-written :
    (sys : System) (abs_path : Bytes) (fd : ℕ) (w : World) {status : ℕ} {w' : World}
    → status_of (perform_http_request sys (codes "/cat") abs_path (file_write sys) fd w)
      ≡ (done status, w')
    → ((sys.transfer w.trace (url_of (codes "/cat") abs_path)).status ≡ some status)
      × (written fd w'.trace
          ≡ written fd w.trace
            ++ joined (sys.transfer w.trace (url_of (codes "/cat") abs_path)).pieces)
unfolding perform_http_request url_encode
request-written sys abs_path fd w h = elim (Bool-cases (sys.curl_init w.trace)) [
  | inr no_curl ↦ absurd (cc (rw no_curl at h))
  | inl curl ↦ elim (Bool-cases (sys.allocates (length abs_path * 3 + 1))) [
    | inr full ↦ absurd (cc (rw (curl, full) at h))
    | inl room ↦
        let url = url_of (codes "/cat") abs_path in
        let (status, same) =
          status_of-done (send sys url (file_write sys) fd w) (rw (curl, room) at h) in
        (
          send-status sys url (file_write sys) fd w status,
          ap (λ v. written fd v.trace) (sym same) ∙ send-written sys url fd w status,
        )
  ]
]

pub download_into_temp-Downloaded :
    (sys : System) (abs_path : Bytes) (fd : ℕ) (w : World) {u : Unit {0}} {w' : World}
    → download_into_temp sys abs_path fd w ≡ (done u, w')
    → Downloaded sys abs_path fd w w'
unfolding download_into_temp
download_into_temp-Downloaded sys abs_path fd w h =
    let r = perform_http_request sys (codes "/cat") abs_path (file_write sys) fd w in
    let (status, w1, e, h1) = after-done (status_of r) _ h in
    let (_, w2, f, h2) = after-done (check_status status w1) _ h1 in
    let (fine, same) = check_status-done status w1 f in
    let (answers, body) = request-written sys abs_path fd w e in
    record {
      status = rw (← fine) answers;
      body = rewind-written sys fd w2 h2 ∙ ap (λ v. written fd v.trace) same ∙ body;
    }
