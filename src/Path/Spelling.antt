-- ===== src/Path/Spelling.antt =====
-- About the paths that lists of names spell.
use s3ro.Base.{
  ◌<◌, true, false, List, [], ◌∷◌, ◌++◌, ◌≡◌, refl, ap, ◌∙◌, arith, append-nil, append_assoc, Bytes,
  codes, ◌==◌, length, starts_with, length-append,
}
use s3ro.Path.{path_max}
use s3ro.Path.Names.{
  glue, split, names_of, enter, resolve, spell, render, no_slash, IsPlain, ArePlain,
}
use s3ro.Path.Loop.{Rooted}

-- The directory that a path leads to from the root.
abbrev pub place : Bytes → List Bytes
place s = resolve [] (names_of s)

pub render-positive : (dir : List Bytes) → (length (render dir) == 0) ≡ false
render-positive [] = refl
render-positive (name ∷ dir) = ground (arith, length-append (spell dir) (b'/' ∷ name))

pub render-lt : (dir : List Bytes) → length (spell dir) < path_max → length (render dir) < path_max
render-lt [] h = omega arith
render-lt (name ∷ dir) h = h

pub starts-append :
    (p q : Bytes) → starts_with (codes "/") p ≡ true → starts_with (codes "/") (p ++ q) ≡ true
starts-append [] q h = cc
starts-append (c ∷ p) q h = h

pub starts-render : (dir : List Bytes) → starts_with (codes "/") (render dir) ≡ true
starts-render [] = refl
starts-render (name ∷ []) = refl
starts-render (name ∷ parent ∷ dir) =
    starts-append (render (parent ∷ dir)) (b'/' ∷ name) (starts-render (parent ∷ dir))

split-append :
    (name rest : Bytes)
    → no_slash name ≡ true
    → Rooted rest
    → split (name ++ rest) ≡ (name, names_of rest)
unfolding names_of split
split-append [] [] h r = refl
split-append [] (c ∷ rest) h r = ground arith
split-append (c ∷ name) rest h r = ground (arith, split-append name rest)

glue_some : (name : Bytes) (names : List Bytes) → IsPlain name → glue name names ≡ name ∷ names
glue_some [] names h = cc
glue_some (c ∷ name) names h = refl

pub names_of-slash :
    (name rest : Bytes)
    → IsPlain name
    → Rooted rest
    → names_of (b'/' ∷ (name ++ rest)) ≡ name ∷ names_of rest
unfolding names_of split
names_of-slash name rest h r =
    rw (split-append name rest (ground arith) r) (glue_some name (names_of rest) h)

enter_plain : (dir : List Bytes) (name : Bytes) → IsPlain name → enter dir name ≡ name ∷ dir
unfolding enter
enter_plain dir name h = ground arith

pub spell-Rooted : (dir : List Bytes) (rest : Bytes) → Rooted rest → Rooted (spell dir ++ rest)
spell-Rooted [] rest r = r
spell-Rooted (name ∷ dir) rest r = rw append_assoc (spell-Rooted dir (b'/' ∷ (name ++ rest)) refl)

-- Following the names of a canonical path leads to its directory.
pub resolve-spell :
    (dir : List Bytes) (rest : Bytes)
    → ArePlain dir
    → Rooted rest
    → resolve [] (names_of (spell dir ++ rest)) ≡ resolve dir (names_of rest)
unfolding resolve
resolve-spell [] rest h r = refl
resolve-spell (name ∷ dir) rest h r = rw append_assoc (
    resolve-spell dir (b'/' ∷ (name ++ rest)) h.1 refl
    ∙ rw (names_of-slash name rest h.0 r)
        (ap (λ d. resolve d (names_of rest)) (enter_plain dir name h.0)))

pub place-render : (dir : List Bytes) → ArePlain dir → place (render dir) ≡ dir
unfolding resolve names_of split
place-render [] h = refl
place-render (name ∷ dir) h =
    rw (← append-nil (spell (name ∷ dir))) (resolve-spell (name ∷ dir) [] h tt)
