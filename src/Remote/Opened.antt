-- ===== src/Remote/Opened.antt =====
-- About what stands behind a descriptor that `remote_open_file` returns.
use s3ro.Base.{
  ℕ, Bool, true, false, some, ◌∷◌, ◌++◌, Bytes, codes, if◌then◌else◌, ◌≡◌, refl, sym, ap, ◌∙◌, inl,
  inr, Bool-cases, Option-cases,
}
use s3ro.Meta.{Stat, s_isdir}
use s3ro.Path.{clip, path_max}
use s3ro.Remote.{
  reads_only, allow_open_flags, remote_stat_path, make_temp, discard, unlink_after,
  download_into_temp, remote_open_file,
}
use s3ro.Remote.Contents.{Downloaded, download_into_temp-Downloaded}
use s3ro.Remote.Temporary.{make_temp-none, make_temp-some}
use mathlib.Core.Path.{subst}
use s3ro.World.{
  World, System, Reply, done, failed, crashed, M, made_temp, closed, unlinked, eisdir, fail, pure,
  after-done,
}

-- The way from the flags to the descriptor: `temp` is that of mkstemp, `name` the file's name, and
-- `fd` what opening that name again gives.
pub record Opened (sys : System) (reopen : Bytes → ℕ → M ℕ) (abs_path : Bytes) (flags : ℕ)
    (w : World) (fd : ℕ) (w' : World) : Type 0 where
  pub reads : reads_only flags ≡ true
  pub st : Stat
  pub w1 : World
  pub stats : remote_stat_path sys abs_path w ≡ (done st, w1)
  pub is_file : s_isdir st.mode ≡ false
  pub temp : ℕ
  pub name : Bytes
  pub made :
      sys.mkstemp w1.trace (clip path_max (sys.cache_dir ++ codes "/cache-XXXXXX"))
      ≡ some (temp, name)
  pub w2 : World
  pub filled : Downloaded sys abs_path temp (record w1 { trace = made_temp name ∷ w1.trace }) w2
  pub w3 : World
  pub reopens : reopen name 0 (record w2 { trace = closed temp ∷ w2.trace }) ≡ (done fd, w3)
  pub ends : w' ≡ record w3 { trace = unlinked name ∷ w3.trace }

pub allow_open_flags-done :
    (flags : ℕ) (w : World) {u : Unit {0}} {w' : World}
    → allow_open_flags flags w ≡ (done u, w')
    → (reads_only flags ≡ true) × (w' ≡ w)
unfolding allow_open_flags
allow_open_flags-done flags w h = elim (Bool-cases (reads_only flags)) [
  | inl fine ↦ (fine, sym (ap (λ t. t.1) (rw fine at h)))
  | inr writes ↦ absurd (cc (rw writes at h))
]

pub refuse_dir-done :
    (is_dir : Bool) (w : World) {u : Unit {0}} {w' : World}
    → (if is_dir then fail {A = Unit {0}} eisdir else pure tt) w ≡ (done u, w')
    → (is_dir ≡ false) × (w' ≡ w)
refuse_dir-done true w h = cc
refuse_dir-done false w h = (refl, sym (ap (λ t. t.1) h))

pub make_temp-done :
    (sys : System) (template : Bytes) (w : World) {fd : ℕ} {name : Bytes} {w' : World}
    → make_temp sys template w ≡ (done (fd, name), w')
    → (sys.mkstemp w.trace template ≡ some (fd, name))
      × (w' ≡ record w { trace = made_temp name ∷ w.trace })
make_temp-done sys template w {fd} {name} {w'} h =
    elim (Option-cases (sys.mkstemp w.trace template)) [
      | inl full ↦ absurd (cc (make_temp-none sys template w full))
      | inr ((fd', name'), e) ↦
          let got = sym h ∙ make_temp-some sys template w e in
          let same : (fd, name) ≡ (fd', name') = cc (got) in
          let same_name : name ≡ name' = ap (λ p. p.1) same in
          (e ∙ ap some (sym same), rw same_name (ap (λ t. t.1) got))
    ]

discard-done :
    (fd : ℕ) (name : Bytes) (r : Reply (Unit {0}) × World) {u : Unit {0}} {w' : World}
    → discard fd name r ≡ (done u, w')
    → r ≡ (done u, w')
discard-done fd name (done u, w) h = h
discard-done fd name (failed, w) h = cc
discard-done fd name (crashed, w) h = cc

unlink_after-done :
    (name : Bytes) (r : Reply ℕ × World) {fd : ℕ} {w' : World}
    → unlink_after name r ≡ (done fd, w')
    → (w : World) × (r ≡ (done fd, w)) × (w' ≡ record w { trace = unlinked name ∷ w.trace })
unlink_after-done name (done fd, w) h = (w, cc, sym (ap (λ t. t.1) h))
unlink_after-done name (failed, w) h = cc
unlink_after-done name (crashed, w) h = cc

-- The whole way behind a descriptor that was returned.
pub remote_open_file-Opened :
    (sys : System) (reopen : Bytes → ℕ → M ℕ) (abs_path : Bytes) (flags : ℕ) (w : World) {fd : ℕ}
    {w' : World}
    → remote_open_file sys reopen abs_path flags w ≡ (done fd, w')
    → Opened sys reopen abs_path flags w fd w'
unfolding remote_open_file
remote_open_file-Opened sys reopen abs_path flags w h =
    let template = clip path_max (sys.cache_dir ++ codes "/cache-XXXXXX") in
    let (_, w0, e0, h0) = after-done (allow_open_flags flags w) _ h in
    let (reads, same0) = allow_open_flags-done flags w e0 in
    let (st, w1, e1, h1) = after-done (remote_stat_path sys abs_path w0) _ h0 in
    let (_, w2, e2, h2) =
      after-done ((if s_isdir st.mode then fail {A = Unit {0}} eisdir else pure tt) w1) _ h1 in
    let (is_file, same2) = refuse_dir-done (s_isdir st.mode) w1 e2 in
    let ((temp, name), w3, e3, h3) = after-done (make_temp sys template w2) _ h2 in
    let (made, same3) = make_temp-done sys template w2 e3 in
    let (_, w4, e4, h4) =
      after-done (discard temp name (download_into_temp sys abs_path temp w3)) _ h3 in
    let filled =
      download_into_temp-Downloaded sys abs_path temp w3
        (discard-done temp name (download_into_temp sys abs_path temp w3) e4) in
    let (w5, reopens, ends) =
      unlink_after-done name (reopen name 0 (record w4 { trace = closed temp ∷ w4.trace })) h4 in
    record {
      reads = reads;
      st = st;
      w1 = w2;
      stats =
          ap (remote_stat_path sys abs_path) (sym same0) ∙ e1 ∙ ap (λ v. (done st, v)) (sym same2);
      is_file = is_file;
      temp = temp;
      name = name;
      made = made;
      w2 = w4;
      filled = subst (λ v. Downloaded sys abs_path temp v w4) same3 filled;
      w3 = w5;
      reopens = reopens;
      ends = ends;
    }
