-- ===== src/Config/Within.antt =====
-- About the root that the process starts with, and the paths that are below it.
use s3ro.Base.{
  Bytes, Option, none, some, List, ◌++◌, length, ◌<◌, ◌≡◌, refl, ap, ◌∙◌, ◌⊎◌, inl, inr,
}
use s3ro.Config.Once.{start_with, Environment, Globals, Startup, shim_init_once, system_of}
use s3ro.Config.Root.{configured_root-IsCanonical}
use s3ro.Handlers.{at_root, located}
use s3ro.Path.{path_max, Located, canonicalize_path, path_within_root}
use s3ro.Path.Canonical.{
  IsCwd, IsCanonical, canonicalize_path-IsCanonical, canonicalize_path-safe,
  canonicalize_path-not_stray,
}
use s3ro.Path.Names.{ArePlain, render, spell}
use s3ro.Path.Within.{path_within_root_complete, path_within_root_sound}
use s3ro.Run.{Run, ok, refuse, overrun, stuck, stray}
use s3ro.World.{System}

-- The process starts whatever the environment is, with a canonical root.
pub shim_init_once-IsCanonical :
    (env : Environment)
    → IsCwd env.cwd
    → (g : Globals) × (events : List Startup) × (shim_init_once env ≡ ok (g, events))
      × IsCanonical g.cfg.root
unfolding shim_init_once
shim_init_once-IsCanonical env w =
    let (root, e, c) = configured_root-IsCanonical env.cwd env.root w in
    ((start_with env root).0, (start_with env root).1, rw e refl, c)

-- The names of a path lie below those of the root, or the path is left to libc.
abbrev pub IsDecided : System → List Bytes → Option Bytes → Type 0
IsDecided sys root path =
    ((canonicalize_path sys.process.cwd path path_max ≡ refuse) × (at_root sys path ≡ none))
    ⊎ ((dir : List Bytes) × (canonicalize_path sys.process.cwd path path_max ≡ ok (render dir))
        × ArePlain dir
        × (((inner : List Bytes) × (dir ≡ inner ++ root) × (at_root sys path ≡ some (render dir)))
            ⊎ ((((inner : List Bytes) × (dir ≡ inner ++ root)) → ⊥) × (at_root sys path ≡ none))))

module _ (sys : System) (root : List Bytes) (root_plain : ArePlain root)
    (root_is : sys.process.root ≡ render root) (path : Option Bytes) where
  located_cases :
      (r : Run Located)
      → (located r ≡ none) ⊎ ((l : Located) × (r ≡ ok l) × (located r ≡ some l.abs))
  located_cases (ok l) = inr (l, refl, refl)
  located_cases refuse = inl refl
  located_cases overrun = inl refl
  located_cases stuck = inl refl
  located_cases stray = inl refl

  decide_dir :
      (dir : List Bytes)
      → ArePlain dir
      → length (spell dir) < path_max
      → canonicalize_path sys.process.cwd path path_max ≡ ok (render dir)
      → IsDecided sys root path
  decide_dir dir plain fits leads =
      let p = sys.process in
      let below = path_within_root p path in
      elim (located_cases below) [
        | inl out ↦ inr (
          dir,
          leads,
          plain,
          inr (
            λ (inner, lies).
                let whole =
                  path_within_root_complete p path root dir root_plain root_is plain fits leads
                    inner lies in
                absurd (cc (ap located whole)),
            out,
          ),
        )
        | inr (l, e, is_l) ↦
            let (inner, lies, l_is) =
              path_within_root_sound p path root dir root_plain root_is plain fits leads e in
            inr (dir, leads, plain, inl (inner, lies, is_l ∙ ap (λ m. some m.abs) l_is))
      ]

  decide :
      (r : Run Bytes)
      → IsCwd sys.process.cwd
      → canonicalize_path sys.process.cwd path path_max ≡ r
      → IsDecided sys root path
  unfolding path_within_root
  decide refuse w e = inl (e, rw e refl)
  decide (ok s) w e =
      let c = canonicalize_path-IsCanonical sys.process.cwd path path_max w e in
      decide_dir c.dir c.plain c.fits (e ∙ ap ok c.spelled)
  decide overrun w e = absurd ((canonicalize_path-safe sys.process.cwd path path_max w).0 e)
  decide stuck w e = absurd ((canonicalize_path-safe sys.process.cwd path path_max w).1 e)
  decide stray w e = absurd (canonicalize_path-not_stray sys.process.cwd path path_max w e)

-- If getcwd gives an absolute path or fails, at the start and at the call, then shim_init_once
-- ends, whatever the environment is, with a root that is the canonical spelling of a list of
-- names, and the process so started takes a path for one below the root exactly if
-- canonicalize_path leads to a directory whose names lie below those of the root or are they; it
-- then works with the canonical spelling of that directory.
pub shim_init_once-IsDecided :
    (env : Environment) (sys : System) (path : Option Bytes)
    → IsCwd env.cwd
    → IsCwd sys.process.cwd
    → (g : Globals) × (events : List Startup) × (root : List Bytes) × (shim_init_once env
        ≡ ok (g, events))
      × ArePlain root
      × (g.cfg.root ≡ render root)
      × IsDecided (system_of sys g) root path
shim_init_once-IsDecided env sys path w v =
    let (g, events, starts, c) = shim_init_once-IsCanonical env w in
    let here = system_of sys g in
    (
      g,
      events,
      c.dir,
      starts,
      c.plain,
      c.spelled,
      decide here c.dir c.plain c.spelled path (canonicalize_path sys.process.cwd path path_max) v
          refl,
    )
