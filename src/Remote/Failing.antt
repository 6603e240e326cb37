-- ===== src/Remote/Failing.antt =====
-- About `remote_open_file` that gives -1: why, and its errno.
use s3ro.Base.{
  ℕ, Bool, true, false, none, some, ◌∷◌, ◌++◌, Bytes, codes, if◌then◌else◌, ◌≡◌, refl, sym, ap, ◌∙◌,
  inl, inr, Bool-cases, Option-cases,
}
use s3ro.Meta.{Stat, s_isdir}
use s3ro.Path.{clip, path_max}
use s3ro.Remote.{
  reads_only, allow_open_flags, remote_stat_path, make_temp, discard, unlink_after,
  download_into_temp, remote_open_file,
}
use s3ro.Remote.Opened.{allow_open_flags-done, refuse_dir-done, make_temp-done}
use s3ro.Remote.Outcomes.{IsFailure, remote_stat_path-failed}
use s3ro.Remote.Temporary.{make_temp-none, make_temp-some}
use mathlib.Core.Path.{subst}
use s3ro.World.{
  after, log, ◌>>=◌, World, System, Reply, done, failed, crashed, M, made_temp, closed, unlinked,
  erofs, eisdir, fail, pure, after-failed,
}
use s3ro.Remote.Undelivered.{DownloadFailure, download_into_temp-failed}

allow_open_flags-failed :
    (flags : ℕ) (w : World) {w' : World}
    → allow_open_flags flags w ≡ (failed, w')
    → (reads_only flags ≡ false) × (w'.errno ≡ erofs)
unfolding allow_open_flags
allow_open_flags-failed flags w h = elim (Bool-cases (reads_only flags)) [
  | inl fine ↦ absurd (cc (rw fine at h))
  | inr writes ↦ (writes, ap (λ t. t.1.errno) (sym (rw writes at h)))
]

refuse_dir-failed :
    (is_dir : Bool) (w : World) {w' : World}
    → (if is_dir then fail {A = Unit {0}} eisdir else pure tt) w ≡ (failed, w')
    → (is_dir ≡ true) × (w'.errno ≡ eisdir)
refuse_dir-failed true w h = (refl, ap (λ t. t.1.errno) (sym h))
refuse_dir-failed false w h = cc

make_temp-failed :
    (sys : System) (template : Bytes) (w : World) {w' : World}
    → make_temp sys template w ≡ (failed, w')
    → (sys.mkstemp w.trace template ≡ none) × (w' ≡ w)
make_temp-failed sys template w h = elim (Option-cases (sys.mkstemp w.trace template)) [
  | inl full ↦ (full, ap (λ t. t.1) (sym h ∙ make_temp-none sys template w full))
  | inr ((fd, name), e) ↦ absurd (cc (make_temp-some sys template w e))
]

discard-failed :
    (fd : ℕ) (name : Bytes) (r : Reply (Unit {0}) × World) {w' : World}
    → discard fd name r ≡ (failed, w')
    → (v : World) × (r ≡ (failed, v))
      × (w' ≡ record v { trace = unlinked name ∷ closed fd ∷ v.trace })
discard-failed fd name (done u, v) h = cc
discard-failed fd name (failed, v) h = (v, refl, sym (ap (λ t. t.1) h))
discard-failed fd name (crashed, v) h = cc

unlink_after-failed :
    (name : Bytes) (r : Reply ℕ × World) {w' : World}
    → unlink_after name r ≡ (failed, w')
    → (v : World) × (r ≡ (failed, v)) × (w' ≡ record v { trace = unlinked name ∷ v.trace })
unlink_after-failed name (done fd, v) h = cc
unlink_after-failed name (failed, v) h = (v, refl, sym (ap (λ t. t.1) h))
unlink_after-failed name (crashed, v) h = cc

-- Why a remote file was not opened. What mkstemp and open set errno to is theirs.
pub data OpenFailure (sys : System) (reopen : Bytes → ℕ → M ℕ) (abs_path : Bytes) (flags : ℕ)
    (w w' : World) : Type 0 where
  asks_to_write :
      reads_only flags ≡ false → w'.errno ≡ erofs → OpenFailure sys reopen abs_path flags w w'
  no_stat :
      remote_stat_path sys abs_path w ≡ (failed, w')
      → IsFailure sys (codes "/stat") abs_path w w'
      → OpenFailure sys reopen abs_path flags w w'
  is_directory :
      (st : Stat) (w1 : World)
      → remote_stat_path sys abs_path w ≡ (done st, w1)
      → s_isdir st.mode ≡ true
      → w'.errno ≡ eisdir
      → OpenFailure sys reopen abs_path flags w w'
  no_temp :
      (st : Stat) (w1 : World)
      → remote_stat_path sys abs_path w ≡ (done st, w1)
      → sys.mkstemp w1.trace (clip path_max (sys.cache_dir ++ codes "/cache-XXXXXX")) ≡ none
      → w' ≡ w1
      → OpenFailure sys reopen abs_path flags w w'
  no_download :
      (st : Stat) (temp : ℕ) (name : Bytes) (w1 v : World)
      → remote_stat_path sys abs_path w ≡ (done st, w1)
      → sys.mkstemp w1.trace (clip path_max (sys.cache_dir ++ codes "/cache-XXXXXX"))
        ≡ some (temp, name)
      → DownloadFailure sys abs_path temp (record w1 { trace = made_temp name ∷ w1.trace }) v
      → w' ≡ record v { trace = unlinked name ∷ closed temp ∷ v.trace }
      → OpenFailure sys reopen abs_path flags w w'
  no_reopen :
      (st : Stat) (temp : ℕ) (name : Bytes) (w1 v u : World)
      → remote_stat_path sys abs_path w ≡ (done st, w1)
      → sys.mkstemp w1.trace (clip path_max (sys.cache_dir ++ codes "/cache-XXXXXX"))
        ≡ some (temp, name)
      → discard temp name
          (download_into_temp sys abs_path temp (record w1 { trace = made_temp name ∷ w1.trace }))
        ≡ (done tt, v)
      → reopen name 0 (record v { trace = closed temp ∷ v.trace }) ≡ (failed, u)
      → w' ≡ record u { trace = unlinked name ∷ u.trace }
      → OpenFailure sys reopen abs_path flags w w'

module _ (sys : System) (reopen : Bytes → ℕ → M ℕ) (abs_path : Bytes) (flags : ℕ) (w : World) where
  -- From the download on.
  file_failing :
      (st : Stat) (temp : ℕ) (name : Bytes) (w1 : World) {w' : World}
      → remote_stat_path sys abs_path w ≡ (done st, w1)
      → sys.mkstemp w1.trace (clip path_max (sys.cache_dir ++ codes "/cache-XXXXXX"))
        ≡ some (temp, name)
      → after
          (discard temp name (
            download_into_temp sys abs_path temp (record w1 { trace = made_temp name ∷ w1.trace })))
          (λ _. log (closed temp) >>= λ _ v. unlink_after name (reopen name 0 v))
        ≡ (failed, w')
      → OpenFailure sys reopen abs_path flags w w'
  file_failing st temp name w1 stats made h =
      let v = record w1 { trace = made_temp name ∷ w1.trace } in
      elim (after-failed (discard temp name (download_into_temp sys abs_path temp v)) _ h) [
        | inl e ↦
            let (u, f, same) =
              discard-failed temp name (download_into_temp sys abs_path temp v) e in
            no_download st temp name w1 u stats made
              (download_into_temp-failed sys abs_path temp v f) same
        | inr (_, u, fetched, h1) ↦
            let u' = record u { trace = closed temp ∷ u.trace } in
            let (t, f, same) = unlink_after-failed name (reopen name 0 u') h1 in
            no_reopen st temp name w1 u t stats made fetched f same
      ]

-- If remote_open_file fails, then one of these holds: the flags ask for a write and errno is
-- EROFS; remote_stat_path fails on the path, with that errno; it succeeds and says that the file
-- is a directory, and errno is EISDIR; mkstemp fails behind it; the download into the file that
-- mkstemp made behind it fails, with the errno of a failed request for /cat or because lseek
-- fails, and that file is closed and unlinked; or the open of that file by its name, behind the
-- download and the close, fails, and it is unlinked.
pub remote_open_file-failed :
    (sys : System) (reopen : Bytes → ℕ → M ℕ) (abs_path : Bytes) (flags : ℕ) (w : World)
    {w' : World}
    → remote_open_file sys reopen abs_path flags w ≡ (failed, w')
    → OpenFailure sys reopen abs_path flags w w'
unfolding remote_open_file
remote_open_file-failed sys reopen abs_path flags w {w'} h =
    elim (after-failed (allow_open_flags flags w) _ h) [
      | inl e ↦
          let (writes, errno) = allow_open_flags-failed flags w e in asks_to_write writes errno
      | inr (_, w0, e0, h0) ↦
          let (_, same0) = allow_open_flags-done flags w e0 in
          elim (after-failed (remote_stat_path sys abs_path w0) _ h0) [
            | inl e ↦
                let fails = ap (remote_stat_path sys abs_path) (sym same0) ∙ e in
                no_stat fails (remote_stat_path-failed sys abs_path w fails)
            | inr (st, w1, e1, h1) ↦
                let stats = ap (remote_stat_path sys abs_path) (sym same0) ∙ e1 in
                elim (after-failed
                  ((if s_isdir st.mode then fail {A = Unit {0}} eisdir else pure tt) w1) _ h1) [
                    | inl e ↦
                        let (is_dir, errno) = refuse_dir-failed (s_isdir st.mode) w1 e in
                        is_directory st w1 stats is_dir errno
                    | inr (_, w2, e2, h2) ↦
                        let (_, same2) = refuse_dir-done (s_isdir st.mode) w1 e2 in
                        let stats' = stats ∙ ap (λ v. (done st, v)) (sym same2) in
                        elim (after-failed
                          (make_temp sys (clip path_max (sys.cache_dir ++ codes "/cache-XXXXXX"))
                            w2)
                          _ h2) [
                            | inl e ↦
                                let (full, same) = make_temp-failed sys _ w2 e in
                                no_temp st w2 stats' full same
                            | inr ((temp, name), w3, e3, h3) ↦
                                let (made, same3) = make_temp-done sys _ w2 e3 in
                                file_failing sys reopen abs_path flags w st temp name w2 stats' made
                                  (subst
                                    (λ v.
                                      after
                                        (discard temp name (download_into_temp sys abs_path temp v))
                                        (λ _. log (closed temp) >>= λ _ v'.
                                          unlink_after name (reopen name 0 v'))
                                      ≡ (failed, w'))
                                    same3 h3)
                          ]
                  ]
          ]
    ]
