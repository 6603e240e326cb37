-- ===== src/Remote/Progress.antt =====
-- About opening a remote file when nothing it needs fails.
use s3ro.Base.{ℕ, true, false, some, List, ◌∷◌, ◌++◌, ◌+◌, ◌*◌, Bytes, codes, length, ◌≡◌, refl}
use s3ro.Http.{perform_http_request, file_write}
use s3ro.Http.Progress.{send_total}
use s3ro.Http.Writing.{Progresses}
use s3ro.Meta.{Stat, s_isdir}
use s3ro.Path.{clip, path_max}
use s3ro.Remote.{
  reads_only, allow_open_flags, remote_stat_path, rewind, status_of, download_into_temp,
  remote_open_file,
}
use s3ro.Remote.Outcomes.{url_of}
use s3ro.Remote.Temporary.{make_temp-some}
use s3ro.Url.{url_encode}
use s3ro.World.{World, System, Event, made_temp, closed, rewound, unlinked, done, M}

-- What the system gives a download to a descriptor.
pub record Serves (sys : System) (abs_path : Bytes) (fd : ℕ) (w : World) : Type 0 where
  pub curl : sys.curl_init w.trace ≡ true
  pub room : sys.allocates (length abs_path * 3 + 1) ≡ true
  pub answers : (sys.transfer w.trace (url_of (codes "/cat") abs_path)).status ≡ some 200
  pub writes : Progresses sys
  pub seeks : (trace : List Event) → sys.lseek trace fd ≡ true

request_total :
    (sys : System) (abs_path : Bytes) (fd : ℕ) (w : World)
    → Serves sys abs_path fd w
    → (w' : World) × (status_of
          (perform_http_request sys (codes "/cat") abs_path (file_write sys) fd w)
        ≡ (done 200, w'))
unfolding perform_http_request url_encode
request_total sys abs_path fd w h =
    let (s, w', e) = send_total sys (url_of (codes "/cat") abs_path) fd w h.writes h.answers in
    (w', rw (h.curl, h.room, e) refl)

download_into_temp_total :
    (sys : System) (abs_path : Bytes) (fd : ℕ) (w : World)
    → Serves sys abs_path fd w
    → (w' : World) × (download_into_temp sys abs_path fd w ≡ (done tt, w'))
unfolding download_into_temp rewind
download_into_temp_total sys abs_path fd w h =
    let (w', e) = request_total sys abs_path fd w h in
    (record w' { trace = rewound fd ∷ w'.trace }, rw (e, h.seeks w'.trace) refl)

-- The file is there, and all that opening it takes.
pub record Opens (sys : System) (abs_path : Bytes) (flags : ℕ) (w : World) : Type 0 where
  pub reads : reads_only flags ≡ true
  pub st : Stat
  pub w1 : World
  pub stats : remote_stat_path sys abs_path w ≡ (done st, w1)
  pub is_file : s_isdir st.mode ≡ false
  pub temp : ℕ
  pub name : Bytes
  pub made :
      sys.mkstemp w1.trace (clip path_max (sys.cache_dir ++ codes "/cache-XXXXXX"))
      ≡ some (temp, name)
  pub serves : Serves sys abs_path temp (record w1 { trace = made_temp name ∷ w1.trace })

pub remote_open_file_total :
    (sys : System) (reopen : Bytes → ℕ → M ℕ) (abs_path : Bytes) (flags : ℕ) (w : World)
    → (h : Opens sys abs_path flags w)
    → ((v : World) → (fd : ℕ) × (v' : World) × (reopen h.name 0 v ≡ (done fd, v')))
    → (fd : ℕ) × (w' : World) × (remote_open_file sys reopen abs_path flags w ≡ (done fd, w'))
unfolding remote_open_file allow_open_flags
remote_open_file_total sys reopen abs_path flags w h reopens =
    let v = record h.w1 { trace = made_temp h.name ∷ h.w1.trace } in
    let (w2, e) = download_into_temp_total sys abs_path h.temp v h.serves in
    let (fd, w3, f) = reopens (record w2 { trace = closed h.temp ∷ w2.trace }) in
    (
      fd,
      record w3 { trace = unlinked h.name ∷ w3.trace },
      rw (h.reads, h.stats, h.is_file, make_temp-some sys _ h.w1 h.made, e, f) refl,
    )
