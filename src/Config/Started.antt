-- ===== src/Config/Started.antt =====
-- About the life of a process: it is started once, and what fails before.
use s3ro.Base.{Bool, true, false, List, [], ◌++◌, ◌≡◌, refl, sym, ap, ◌∙◌, inl, inr, if◌then◌else◌}
use s3ro.Config.Once.{
  Environment, Globals, Startup, blank_globals, shim_init_once, ensure_initialized, entered,
  system_of,
}
use s3ro.Handlers.Directories.{
  opendir, readdir, readdir64, readdir_r, readdir64_r, closedir, rewinddir, telldir, seekdir, dirfd,
}
use s3ro.Config.{configured_root}
use s3ro.Handlers.Directories.Observed.{
  Op, opens, reads, reads64, reads_r, reads64_r, closes, rewinds, tells, seeks, perform, on_handle,
  on_copy, gave, closed, rewound, told, sought,
}
use s3ro.Registry.{Ptr, lookup_dir}
use s3ro.Run.{ok, ◌>>=◌, >>=-eq-ok, ok-injective}
use s3ro.Handlers.{Answer, Handler}
use s3ro.World.{World, System}
use s3ro.Config.Life.{
  Machine, CallStep, on_opendir, on_path, on_handle_call, on_dirfd, takes_handle, Life, loaded,
  then_step, IsStarted, IsOnce, FailsAll,
}

shim_init_once-ready :
    (env : Environment) {g : Globals} {events : List Startup}
    → shim_init_once env ≡ ok (g, events)
    → g.ready ≡ true
unfolding shim_init_once
shim_init_once-ready env h =
    let (root, _, e) = >>=-eq-ok (configured_root env.cwd env.root) _ h in
    sym (ap (λ r. r.0.ready) (ok-injective e))

ensure_initialized-blank :
    (env : Environment) {g : Globals} {events : List Startup}
    → ensure_initialized env (blank_globals, []) ≡ ok (g, events)
    → shim_init_once env ≡ ok (g, events)
unfolding ensure_initialized
ensure_initialized-blank env h =
    let ((g', more), e, f) = >>=-eq-ok (shim_init_once env) _ h in e ∙ f

if_true : {A : Type 0} (b : Bool) (x y : A) → b ≡ true → (if b then x else y) ≡ x
if_true true x y h = refl
if_true false x y h = cc

ensure_initialized-ready :
    (env : Environment) (g : Globals) (events : List Startup)
    → g.ready ≡ true
    → ensure_initialized env (g, events) ≡ ok (g, events)
unfolding ensure_initialized
ensure_initialized-ready env g events ready =
    if_true g.ready (ok (g, events)) (shim_init_once env >>= λ (g', more). ok (g', events ++ more))
      ready

blank_fails :
    (sys : System) (p : Ptr) (w : World) → w.dirs ≡ [] → FailsAll (system_of sys blank_globals) p w
unfolding lookup_dir readdir readdir64 readdir_r readdir64_r closedir rewinddir telldir seekdir
    dirfd
blank_fails sys p w none_open = record {
  on_readdir = rw none_open refl;
  on_readdir64 = rw none_open refl;
  on_readdir_r = rw none_open refl;
  on_readdir64_r = rw none_open refl;
  on_closedir = rw none_open refl;
  on_rewinddir = rw none_open refl;
  on_telldir = rw none_open refl;
  on_seekdir = λ loc. rw none_open refl;
  on_dirfd = rw none_open refl;
}

blank_perform :
    (sys : System) (op : Op) (w : World)
    → takes_handle op ≡ true
    → w.dirs ≡ []
    → (perform (system_of sys blank_globals) op w).1 ≡ w
unfolding perform
blank_perform sys (opens path) w h none_open = cc
blank_perform sys (reads p) w h none_open =
    ap (λ r. (on_handle p (gave p) r).1) ((blank_fails sys p w none_open).on_readdir)
blank_perform sys (reads64 p) w h none_open =
    ap (λ r. (on_handle p (gave p) r).1) ((blank_fails sys p w none_open).on_readdir64)
blank_perform sys (reads_r p) w h none_open =
    ap (λ r. (on_copy p r).1) ((blank_fails sys p w none_open).on_readdir_r)
blank_perform sys (reads64_r p) w h none_open =
    ap (λ r. (on_copy p r).1) ((blank_fails sys p w none_open).on_readdir64_r)
blank_perform sys (closes p) w h none_open =
    ap (λ r. (on_handle p (λ _. closed p) r).1) ((blank_fails sys p w none_open).on_closedir)
blank_perform sys (rewinds p) w h none_open =
    ap (λ r. (on_handle p (λ _. rewound p) r).1) ((blank_fails sys p w none_open).on_rewinddir)
blank_perform sys (tells p) w h none_open =
    ap (λ r. (on_handle p (told p) r).1) ((blank_fails sys p w none_open).on_telldir)
blank_perform sys (seeks p loc) w h none_open =
    ap (λ r. (on_handle p (λ _. sought p loc) r).1) ((blank_fails sys p w none_open).on_seekdir loc)

starts_or_stays :
    (env : Environment) (m : Machine) {g : Globals} {events : List Startup} (w : World)
    → IsOnce m
    → ensure_initialized env (m.globals, m.events) ≡ ok (g, events)
    → IsStarted (record { globals = g; events = events; world = w })
starts_or_stays env m w (inl (blank, quiet, _)) h =
    (env, ensure_initialized-blank env (rw (blank, quiet) at h))
starts_or_stays env m w (inr (first, starts)) h = (
  first,
  starts
      ∙ sym (ensure_initialized-ready env m.globals m.events (shim_init_once-ready first starts))
      ∙ h,
)

entered-starts :
    {A : Type 0} (sys : System) (env : Environment) (before : Globals × List Startup)
    (handler : System → Handler A) (w : World) {r : Answer A × World} {g : Globals}
    {events : List Startup}
    → entered sys env before handler w ≡ ok (r, (g, events))
    → ensure_initialized env before ≡ ok (g, events)
unfolding entered
entered-starts sys env before handler w h =
    let (after, e, f) = >>=-eq-ok (ensure_initialized env before) _ h in
    e ∙ ap ok (ap (λ x. x.1) (ok-injective f))

step-IsOnce : {sys : System} {m n : Machine} → CallStep sys m n → IsOnce m → IsOnce n
unfolding dirfd
step-IsOnce {sys} {m} (on_opendir {r = r} env path h) once = inr (
    starts_or_stays env m r.1 once
      (entered-starts sys env (m.globals, m.events) (λ s. opendir s path) m.world h))
step-IsOnce {sys} {m} (on_path {r = r} env handler h same) once = inr (
    starts_or_stays env m r.1 once (entered-starts sys env (m.globals, m.events) handler m.world h))
step-IsOnce {sys} {m} (on_handle_call op takes) (inr started) = inr started
step-IsOnce {sys} {m} (on_handle_call op takes) (inl (blank, quiet, none_open)) = inl (
  blank,
  quiet,
  rw blank (ap (λ w. w.dirs) (blank_perform sys op m.world takes none_open) ∙ none_open),
)
step-IsOnce {sys} {m} (on_dirfd p) (inr started) = inr started
step-IsOnce {sys} {m} (on_dirfd p) (inl (blank, quiet, none_open)) = inl (
  blank,
  quiet,
  rw blank (ap (λ r. r.1.dirs) ((blank_fails sys p m.world none_open).on_dirfd) ∙ none_open),
)

Life-IsOnce : {sys : System} {m : Machine} → Life sys m → IsOnce m
Life-IsOnce (loaded w none_open) = inl (refl, refl, none_open)
Life-IsOnce (then_step before step) = step-IsOnce step (Life-IsOnce before)

-- As long as no call that takes a path has started the process, readdir, readdir64, readdir_r,
-- readdir64_r, closedir, rewinddir, telldir, seekdir and dirfd fail on every handle, the two
-- readdir_r by giving EBADF, without a call of libc's function, and nothing has been set up.
pub Life-blank :
    (sys : System) (p : Ptr) {m : Machine}
    → Life sys m
    → m.globals.ready ≡ false
    → FailsAll (system_of sys m.globals) p m.world × (m.events ≡ [])
Life-blank sys p {m} life cold = elim (Life-IsOnce life) [
  | inl (blank, quiet, none_open) ↦ rw blank (blank_fails sys p m.world none_open, quiet)
  | inr (env, starts) ↦ absurd (cc (shim_init_once-ready env starts))
]
