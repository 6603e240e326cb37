-- ===== src/Path/Within.antt =====
-- What `path_within_root` accepts, and the relative form that it returns.
use s3ro.Base.{◌<◌, Option, List, [], ◌∷◌, ◌++◌, ◌≡◌, sym, ◌∙◌, append-nil, Bytes, length}
use s3ro.Run.{ok, ok-injective}
use s3ro.Path.{path_max, Process, Located, canonicalize_path, below_root, path_within_root}
use s3ro.Path.Names.{spell, render, ArePlain}
use s3ro.Path.Spelling.{render-lt}
use s3ro.Path.Below.{relative, below_root_complete, below_root_sound, below_slash}

below_complete :
    (inner root : List Bytes)
    → ArePlain root
    → ArePlain (inner ++ root)
    → length (spell (inner ++ root)) < path_max
    → below_root (render root) (render (inner ++ root))
      ≡ ok (record { abs = render (inner ++ root); rel = relative inner })
below_complete inner [] k h fits =
    rw append-nil (below_slash inner (rw append-nil at h) (rw append-nil at fits))
below_complete inner (name ∷ root) k h fits =
    below_root_complete name root k inner (render-lt (inner ++ (name ∷ root)) fits)

below_sound :
    (dir root : List Bytes) {l : Located}
    → ArePlain root
    → ArePlain dir
    → below_root (render root) (render dir) ≡ ok l
    → (inner : List Bytes) × (dir ≡ inner ++ root)
below_sound dir [] k h e = (dir, sym (append-nil dir))
below_sound dir (name ∷ root) k h e = below_root_sound name root k dir h e

-- The text of REMOTEFS_ROOT, and where the path that is given leads.
module _ (p : Process) (path : Option Bytes) (root dir : List Bytes) (root_plain : ArePlain root)
    (root_is : p.root ≡ render root) (plain : ArePlain dir) (fits : length (spell dir) < path_max)
    (leads : canonicalize_path p.cwd path path_max ≡ ok (render dir)) where
  -- Let the root and the path that canonicalize_path makes of the argument be canonical spellings
  -- of the directories root and dir, the latter with room for its NUL. If dir is root or lies in
  -- it, path_within_root accepts the argument, and the outputs are the canonical path and the
  -- names behind the root with '/' between them.
  pub path_within_root_complete :
      (inner : List Bytes)
      → dir ≡ inner ++ root
      → path_within_root p path ≡ ok (record { abs = render dir; rel = relative inner })
  unfolding path_within_root
  path_within_root_complete inner e =
      rw (leads, root_is, e) (below_complete inner root root_plain (rw e at plain) (rw e at fits))

  -- Let the root and the path that canonicalize_path makes of the argument be canonical spellings
  -- of the directories root and dir, the latter with room for its NUL. If path_within_root
  -- accepts the argument, dir is root or lies in it, and the outputs are the canonical path and
  -- the names behind the root with '/' between them.
  pub path_within_root_sound :
      {l : Located}
      → path_within_root p path ≡ ok l
      → (inner : List Bytes) × (dir ≡ inner ++ root)
        × (l ≡ record { abs = render dir; rel = relative inner })
  unfolding path_within_root
  path_within_root_sound e =
      let (inner, lies) = below_sound dir root root_plain plain (rw (leads, root_is) at e) in
      (inner, lies, ok-injective (sym e ∙ path_within_root_complete inner lies))
