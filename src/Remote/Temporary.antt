-- ===== src/Remote/Temporary.antt =====
-- What opening a remote file does to the temporary files.
use s3ro.Base.{
  ℕ, Bool, none, some, List, ◌∷◌, ◌++◌, Bytes, codes, if◌then◌else◌, str_eq_self, arith, ◌≡◌, refl,
  ◌∙◌, inl, inr, Option-cases,
}
use s3ro.Remote.Views.{remote_stat_path-Keeps, download_into_temp-Keeps}
use s3ro.Meta.{s_isdir}
use s3ro.Path.{clip, path_max}
use s3ro.Remote.{
  remote_stat_path, allow_open_flags, download_into_temp, make_temp, discard, unlink_after,
  remote_open_file,
}
use s3ro.World.{
  World, System, Reply, done, failed, crashed, M, closed, made_temp, after, ◌>>=◌, log, fail, pure,
  eisdir,
}
use s3ro.World.Temporary.{
  temp_view, temp_view-IsQuiet, temp_files, remove, Tidy, TidyReturn, after-TidyReturn,
}

allow_open_flags-Tidy : (flags : ℕ) (w : World) → Tidy w (allow_open_flags flags w)
unfolding allow_open_flags
allow_open_flags-Tidy flags w = ground arith

remove_first : (name : Bytes) (names : List Bytes) → remove name (name ∷ names) ≡ names
remove_first name names = rw (str_eq_self name) refl

-- The end of the function: the file is opened again and unlinked.
unlink_after-TidyReturn :
    (name : Bytes) (before w : World) (r : Reply ℕ × World)
    → temp_files w.trace ≡ name ∷ temp_files before.trace
    → TidyReturn w r
    → TidyReturn before (unlink_after name r)
unlink_after-TidyReturn name before w (done fd, v) made h =
    rw (h, made) (remove_first name (temp_files before.trace))
unlink_after-TidyReturn name before w (failed, v) made h =
    rw (h, made) (remove_first name (temp_files before.trace))
unlink_after-TidyReturn name before w (crashed, v) made h = tt

-- Whether the download works or not.
discard-TidyReturn :
    (sys : System) (reopen : Bytes → ℕ → M ℕ) (fd : ℕ) (name : Bytes) (before w : World)
    (r : Reply (Unit {0}) × World)
    → ((path : Bytes) (flags : ℕ) (v : World) → TidyReturn v (reopen path flags v))
    → temp_files w.trace ≡ name ∷ temp_files before.trace
    → Tidy w r
    → TidyReturn before (
        after
          (discard fd name r)
          (λ _. log (closed fd) >>= λ _ v. unlink_after name (reopen name 0 v)))
discard-TidyReturn sys reopen fd name before w (done u, v) opens made h =
    let v' = record v { trace = closed fd ∷ v.trace } in
    unlink_after-TidyReturn name before v' (reopen name 0 v') (h ∙ made) (opens name 0 v')
discard-TidyReturn sys reopen fd name before w (failed, v) opens made h =
    rw (h, made) (remove_first name (temp_files before.trace))
discard-TidyReturn sys reopen fd name before w (crashed, v) opens made h = tt

pub make_temp-none :
    (sys : System) (template : Bytes) (w : World)
    → sys.mkstemp w.trace template ≡ none
    → make_temp sys template w ≡ (failed, w)
unfolding make_temp
make_temp-none sys template w e = rw (e, make_temp)

pub make_temp-some :
    (sys : System) (template : Bytes) (w : World) {fd : ℕ} {name : Bytes}
    → sys.mkstemp w.trace template ≡ some (fd, name)
    → make_temp sys template w ≡ (done (fd, name), record w { trace = made_temp name ∷ w.trace })
unfolding make_temp
make_temp-some sys template w e = rw (e, make_temp)

-- From mkstemp on.
opens_temp :
    (sys : System) (reopen : Bytes → ℕ → M ℕ) (abs_path template : Bytes) (w : World)
    → ((path : Bytes) (flags : ℕ) (v : World) → TidyReturn v (reopen path flags v))
    → TidyReturn w (
        after (make_temp sys template w) λ (fd, name) v.
          after
            (discard fd name (download_into_temp sys abs_path fd v))
            (λ _. log (closed fd) >>= λ _ v'. unlink_after name (reopen name 0 v')))
opens_temp sys reopen abs_path template w opens =
    elim (Option-cases (sys.mkstemp w.trace template)) [
      | inl full ↦ rw (make_temp-none sys template w full) refl
      | inr ((fd, name), e) ↦
          let v = record w { trace = made_temp name ∷ w.trace } in
          rw (make_temp-some sys template w e) (
            discard-TidyReturn sys reopen fd name w v (download_into_temp sys abs_path fd v) opens
              refl (download_into_temp-Keeps temp_view temp_view-IsQuiet sys abs_path fd v))
    ]

TidyReturn-Tidy :
    {A B : Type 0} (w : World) (before : B × World) (r : Reply A × World)
    → Tidy w before
    → TidyReturn before.1 r
    → TidyReturn w r
TidyReturn-Tidy w before (done a, v) h k = k ∙ h
TidyReturn-Tidy w before (failed, v) h k = k ∙ h
TidyReturn-Tidy w before (crashed, v) h k = tt

refuse_dir-Tidy :
    (is_dir : Bool) (w : World)
    → Tidy w ((if is_dir then fail {A = Unit {0}} eisdir else pure tt) w)
refuse_dir-Tidy is_dir w = ground arith

-- `open` inside the function may do the same in turn.
pub remote_open_file-TidyReturn :
    (sys : System) (reopen : Bytes → ℕ → M ℕ) (abs_path : Bytes) (flags : ℕ) (w : World)
    → ((path : Bytes) (flags' : ℕ) (v : World) → TidyReturn v (reopen path flags' v))
    → TidyReturn w (remote_open_file sys reopen abs_path flags w)
unfolding remote_open_file
remote_open_file-TidyReturn sys reopen abs_path flags w opens =
    let template = clip path_max (sys.cache_dir ++ codes "/cache-XXXXXX") in
    after-TidyReturn w (allow_open_flags flags w) _ (allow_open_flags-Tidy flags w) λ _ v h.
      after-TidyReturn w (remote_stat_path sys abs_path v) _
        (remote_stat_path-Keeps temp_view temp_view-IsQuiet sys abs_path v ∙ h)
        λ st v' h'.
          after-TidyReturn w ((if s_isdir st.mode then fail {A = Unit {0}} eisdir else pure tt) v')
            _ (refuse_dir-Tidy (s_isdir st.mode) v' ∙ h')
            λ u v'' h''.
              TidyReturn-Tidy w (u, v'') _ h'' (opens_temp sys reopen abs_path template v'' opens)
