-- ===== src/Remote/Undelivered.antt =====
-- About a download that fails.
use s3ro.Base.{
  ℕ, false, Option, none, some, ◌+◌, ◌*◌, Bytes, codes, length, ◌≡◌, refl, sym, ap, ◌∙◌, ◌⊎◌, inl,
  inr, Bool-cases,
}
use s3ro.Http.Writing.{send-failed}
use s3ro.Http.{send, perform_http_request, file_write}
use s3ro.Remote.{status_of, check_status, rewind, download_into_temp}
use s3ro.Remote.Contents.{request-written}
use s3ro.Remote.Outcomes.{IsFailure, url_of, check_status-failed}
use s3ro.Url.{url_encode}
use s3ro.World.{World, System, failed, eio, enomem, after-failed}

status_of-failed :
    (r : (Option ℕ × ℕ) × World) {w' : World}
    → status_of r ≡ (failed, w')
    → (r.0.0 ≡ none) × (r.1 ≡ w')
status_of-failed ((none, fd), w) h = (refl, ap (λ t. t.1) h)
status_of-failed ((some status, fd), w) h = cc

request-failed :
    (sys : System) (abs_path : Bytes) (fd : ℕ) (w : World) {w' : World}
    → status_of (perform_http_request sys (codes "/cat") abs_path (file_write sys) fd w)
      ≡ (failed, w')
    → (w'.errno ≡ eio) ⊎ (w'.errno ≡ enomem)
unfolding perform_http_request url_encode
request-failed sys abs_path fd w h = elim (Bool-cases (sys.curl_init w.trace)) [
  | inr no_curl ↦ inl (ap (λ t. t.1.errno) (sym (rw no_curl at h)))
  | inl curl ↦ elim (Bool-cases (sys.allocates (length abs_path * 3 + 1))) [
    | inr full ↦ inr (ap (λ t. t.1.errno) (sym (rw (curl, full) at h)))
    | inl room ↦
        let url = url_of (codes "/cat") abs_path in
        let (ends, same) =
          status_of-failed (send sys url (file_write sys) fd w) (rw (curl, room) at h) in
        inl (sym (ap (λ v. v.errno) same) ∙ send-failed sys url (file_write sys) fd w ends)
  ]
]

-- Why a download failed: no answer, one with another status, or a lseek that fails and whose errno
-- stays.
abbrev pub DownloadFailure : System → (abs_path : Bytes) → (fd : ℕ) → World → World → Type 0
DownloadFailure sys abs_path fd w w' =
    IsFailure sys (codes "/cat") abs_path w w' ⊎ (sys.lseek w'.trace fd ≡ false)

rewind-failed :
    (sys : System) (fd : ℕ) (w : World) {w' : World}
    → rewind sys fd w ≡ (failed, w')
    → sys.lseek w'.trace fd ≡ false
unfolding rewind
rewind-failed sys fd w h = elim (Bool-cases (sys.lseek w.trace fd)) [
  | inl fine ↦ absurd (cc (rw fine at h))
  | inr lost ↦ let same = ap (λ t. t.1) (rw lost at h) in rw (← same) lost
]

pub download_into_temp-failed :
    (sys : System) (abs_path : Bytes) (fd : ℕ) (w : World) {w' : World}
    → download_into_temp sys abs_path fd w ≡ (failed, w')
    → DownloadFailure sys abs_path fd w w'
unfolding download_into_temp
download_into_temp-failed sys abs_path fd w h =
    let r = perform_http_request sys (codes "/cat") abs_path (file_write sys) fd w in
    elim (after-failed (status_of r) _ h) [
      | inl e ↦ elim (request-failed sys abs_path fd w e) [
        | inl io ↦ inl (inl io)
        | inr memory ↦ inl (inr (inl memory))
      ]
      | inr (status, w1, e, h1) ↦ elim (after-failed (check_status status w1) _ h1) [
        | inl f ↦ elim (check_status-failed status w1 f) [
          | inl io ↦ inl (inl io)
          | inr (lost, is_404) ↦
              inl (inr (inr (lost, rw is_404 at ((request-written sys abs_path fd w e).0))))
        ]
        | inr (_, w2, _, h2) ↦ inr (rewind-failed sys fd w2 h2)
      ]
    ]
