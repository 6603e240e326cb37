-- ===== src/Path/Absolute.antt =====
-- About `canonicalize_path` on absolute paths, and on its own results.
use s3ro.Base.{
  ℕ, ◌-◌, ◌<◌, true, Option, none, some, List, ◌≡◌, ap, ◌∙◌, arith, Bytes, codes, lt→ltb, length,
  starts_with, take-of_le,
}
use s3ro.Run.{ok}
use s3ro.Path.{path_max, clip, canonicalize_path}
use s3ro.Path.Names.{spell, render, ArePlain}
use s3ro.Path.Spelling.{place, render-lt, starts-render, place-render}
use s3ro.Path.Canonical.{
  IsCwd, IsCanonical, canonicalize_path-IsCanonical, canonicalize_path-render, scratch_absolute,
}

-- The working directory matters to relative paths alone.
pub canonicalize_path_absolute :
    (cwd : Option Bytes) (path : Bytes) (out_len : ℕ)
    → starts_with (codes "/") path ≡ true
    → canonicalize_path cwd (some path) out_len ≡ canonicalize_path none (some path) out_len
unfolding canonicalize_path
canonicalize_path_absolute cwd path out_len h =
    rw (scratch_absolute cwd path h, scratch_absolute none path h)

canonicalize_path-place :
    (path : Bytes)
    → starts_with (codes "/") path ≡ true
    → length (render (place (clip path_max path))) < path_max
    → canonicalize_path none (some path) path_max ≡ ok (render (place (clip path_max path)))
canonicalize_path-place path h fits =
    canonicalize_path-render none path path_max tt (omega arith) (scratch_absolute none path h)
    ∙ rw (lt→ltb (length (render (place (clip path_max path)))) path_max fits)

self_render :
    (dir : List Bytes)
    → ArePlain dir
    → length (spell dir) < path_max
    → canonicalize_path none (some (render dir)) path_max ≡ ok (render dir)
self_render dir plain small =
    let fits = render-lt dir small in
    let same : place (clip path_max (render dir)) ≡ dir =
      rw (take-of_le (path_max - 1) (render dir) (omega arith)) (place-render dir plain) in
    canonicalize_path-place (render dir) (starts-render dir) (rw same fits)
    ∙ ap (λ d. ok (render d)) same

-- A canonical path is its own canonical form, whatever the working directory.
pub canonicalize_path_self :
    (cwd : Option Bytes) {r : Bytes}
    → IsCanonical r
    → canonicalize_path cwd (some r) path_max ≡ ok r
canonicalize_path_self cwd {r} c = rw c.spelled (
    canonicalize_path_absolute cwd (render c.dir) path_max (starts-render c.dir)
    ∙ self_render c.dir c.plain c.fits)

-- If getcwd gives an absolute path or fails, what canonicalize_path returns is its own canonical
-- form, in any working directory.
pub canonicalize_path_idem :
    (cwd cwd' path : Option Bytes) (out_len : ℕ) {r : Bytes}
    → IsCwd cwd
    → canonicalize_path cwd path out_len ≡ ok r
    → canonicalize_path cwd' (some r) path_max ≡ ok r
canonicalize_path_idem cwd cwd' path out_len w e =
    canonicalize_path_self cwd' (canonicalize_path-IsCanonical cwd path out_len w e)
