-- ===== src/Remote/Reopening.antt =====
-- About what `remote_open_file` opens.
use s3ro.Base.{
  ℕ, List, some, ◌∷◌, ◌++◌, Bytes, codes, if◌then◌else◌, ◌≡◌, refl, ap, inl, inr, Option-cases,
}
use s3ro.Meta.{s_isdir}
use s3ro.Path.{clip, path_max}
use s3ro.Remote.{
  remote_stat_path, allow_open_flags, download_into_temp, make_temp, discard, unlink_after,
  remote_open_file,
}
use s3ro.World.{
  World, System, Event, Reply, done, failed, crashed, M, closed, made_temp, after, fail, pure,
  eisdir,
}

after_cong :
    {A B : Type 0} (r : Reply A × World) (f g : A → M B)
    → ((a : A) (v : World) → f a v ≡ g a v)
    → after r f ≡ after r g
after_cong (done a, v) f g h = h a v
after_cong (failed, v) f g h = refl
after_cong (crashed, v) f g h = refl

make_temp_cong :
    (sys : System) (template : Bytes) (w : World) (f g : ℕ × Bytes → M ℕ)
    → ((fd : ℕ) (name : Bytes) (v : World)
        → sys.mkstemp w.trace template ≡ some (fd, name)
        → f (fd, name) v ≡ g (fd, name) v)
    → after (make_temp sys template w) f ≡ after (make_temp sys template w) g
unfolding make_temp
make_temp_cong sys template w f g h = elim (Option-cases (sys.mkstemp w.trace template)) [
  | inl e ↦ rw (e, make_temp)
  | inr ((fd, name), e) ↦
      rw (e, make_temp) (h fd name (record w { trace = made_temp name ∷ w.trace }) e)
]

pub remote_open_file-reopen :
    (sys : System) (f g : Bytes → ℕ → M ℕ) (abs_path : Bytes) (flags : ℕ) (w : World)
    → ((trace : List Event) (template : Bytes) (fd : ℕ) (name : Bytes) (v : World)
        → sys.mkstemp trace template ≡ some (fd, name)
        → f name 0 v ≡ g name 0 v)
    → remote_open_file sys f abs_path flags w ≡ remote_open_file sys g abs_path flags w
unfolding remote_open_file
remote_open_file-reopen sys f g abs_path flags w same =
    let template = clip path_max (sys.cache_dir ++ codes "/cache-XXXXXX") in
    after_cong (allow_open_flags flags w) _ _ λ _ v.
      after_cong (remote_stat_path sys abs_path v) _ _ λ st v1.
        after_cong ((if s_isdir st.mode then fail {A = Unit {0}} eisdir else pure tt) v1) _ _
          λ _ v2. make_temp_cong sys template v2 _ _ λ fd name v3 e.
            after_cong (discard fd name (download_into_temp sys abs_path fd v3)) _ _ λ _ v4.
              let v5 = record v4 { trace = closed fd ∷ v4.trace } in
              ap (unlink_after name) (same v2.trace template fd name v5 e)
