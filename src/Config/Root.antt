-- ===== src/Config/Root.antt =====
-- About `configured_root` and the canonical form of paths.
use s3ro.Base.{
  ℕ, true, false, Option, some, List, [], ◌∷◌, ◌++◌, Bytes, codes, ◌≡◌, refl, ap, ◌∙◌, arith,
}
use s3ro.Config.{env_or, ends_slash, trim_slash, root_or_default, configured_root}
use s3ro.Path.{path_max, canonicalize_path}
use s3ro.Path.Names.{spell, render, ArePlain, no_slash}
use s3ro.Path.Canonical.{
  IsCwd, IsCanonical, canonicalize_path-IsCanonical, canonicalize_path-safe,
  canonicalize_path-not_stray,
}
use s3ro.Run.{Run, ok, refuse, overrun, stuck, stray}

ends_slash-append :
    (xs : Bytes) (y : ℕ) (ys : Bytes) → ends_slash (xs ++ (y ∷ ys)) ≡ ends_slash (y ∷ ys)
unfolding ends_slash
ends_slash-append [] y ys = refl
ends_slash-append (x ∷ []) y ys = refl
ends_slash-append (x ∷ x' ∷ xs) y ys = ends_slash-append (x' ∷ xs) y ys

no_slash-ends_slash : (s : Bytes) → no_slash s ≡ true → ends_slash s ≡ false
unfolding ends_slash
no_slash-ends_slash [] h = refl
no_slash-ends_slash (c ∷ []) h = ground arith
no_slash-ends_slash (c ∷ d ∷ s) h = no_slash-ends_slash (d ∷ s) (ground arith)

trim_slash-short : (root : Bytes) → ends_slash root ≡ false → trim_slash root ≡ root
unfolding trim_slash
trim_slash-short root h = ground arith

trim_slash-render : (dir : List Bytes) → ArePlain dir → trim_slash (render dir) ≡ render dir
unfolding trim_slash ends_slash
trim_slash-render [] plain = refl
trim_slash-render ([] ∷ dir) plain = cc
trim_slash-render ((c ∷ s) ∷ dir) plain =
    let plain_name : no_slash (c ∷ s) ≡ true = ground (arith, plain.0) in
    trim_slash-short (spell dir ++ (b'/' ∷ c ∷ s))
      (ends_slash-append (spell dir) (b'/') (c ∷ s) ∙ no_slash-ends_slash (c ∷ s) plain_name)

default_root : IsCanonical (codes "/remote")
default_root = record {
  dir = codes "remote" ∷ [];
  plain = (refl, tt);
  fits = omega arith;
  spelled = refl;
}

trim_slash-IsCanonical : {r : Bytes} → IsCanonical r → trim_slash r ≡ r
trim_slash-IsCanonical c = rw c.spelled (trim_slash-render c.dir c.plain)

root_or_default-IsCanonical :
    (cwd path : Option Bytes) (r : Run Bytes)
    → IsCwd cwd
    → canonicalize_path cwd path path_max ≡ r
    → (root : Bytes) × (root_or_default r ≡ ok root) × IsCanonical root
unfolding root_or_default
root_or_default-IsCanonical cwd path (ok r) w e =
    let c = canonicalize_path-IsCanonical cwd path path_max w e in
    (r, ap ok (trim_slash-IsCanonical c), c)
root_or_default-IsCanonical cwd path refuse w e =
    (codes "/remote", ap ok (trim_slash-IsCanonical default_root), default_root)
root_or_default-IsCanonical cwd path overrun w e =
    absurd ((canonicalize_path-safe cwd path path_max w).0 e)
root_or_default-IsCanonical cwd path stuck w e =
    absurd ((canonicalize_path-safe cwd path path_max w).1 e)
root_or_default-IsCanonical cwd path stray w e =
    absurd (canonicalize_path-not_stray cwd path path_max w e)

-- If getcwd gives an absolute path or fails, the root that is configured is canonical, whatever
-- REMOTEFS_ROOT holds: one '/' before each of its names, none of which is empty, "." or "..", and
-- room for the NUL.
pub configured_root-IsCanonical :
    (cwd root : Option Bytes)
    → IsCwd cwd
    → (r : Bytes) × (configured_root cwd root ≡ ok r) × IsCanonical r
unfolding configured_root
configured_root-IsCanonical cwd root w =
    let text = some (env_or root (codes "/remote")) in
    root_or_default-IsCanonical cwd text (canonicalize_path cwd text path_max) w refl
