-- ===== src/Path/Names.antt =====
-- The specification of `canonicalize_path`: a path is a list of names, innermost name first.
use s3ro.Base.{
  suc, ◌+◌, ◌≤◌, Bool, true, ◌&&◌, not, List, [], ◌∷◌, ◌++◌, ◌≡◌, arith, Bytes, codes, ltb, ◌==◌,
  if◌then◌else◌, length, str_eq, length-append,
}

-- A predicate at each member of a list.
abbrev pub All {ℓ κ} : {A : Type ℓ} → (A → Type κ) → List A → Type κ
All P [] = Unit
All P (x ∷ xs) = P x × All P xs

-- The first name in front of others, if it is a name at all.
abbrev pub glue : Bytes → List Bytes → List Bytes
glue [] names = names
glue (c ∷ s) names = (c ∷ s) ∷ names

-- What stands before the first '/', and the names behind it.
unfoldable pub split : Bytes → Bytes × List Bytes
split [] = ([], [])
split (c ∷ p) =
    if c == b'/' then ([], glue (split p).0 (split p).1) else (c ∷ (split p).0, (split p).1)

-- The names in a path: its longest parts without '/'.
unfoldable pub names_of : Bytes → List Bytes
unfolding split
names_of p = glue (split p).0 (split p).1

-- The directory that a name leads to.
unfoldable pub enter : List Bytes → Bytes → List Bytes
enter dir name =
    if str_eq name (codes ".")
    then dir
    else if str_eq name (codes "..")
    then (elim dir [ [] ↦ [] | _ ∷ parent ↦ parent ])
    else name ∷ dir

unfoldable pub resolve : List Bytes → List Bytes → List Bytes
resolve dir [] = dir
resolve dir (name ∷ names) = resolve (enter dir name) names

-- Each name behind a '/'.
abbrev pub spell : List Bytes → Bytes
spell [] = []
spell (name ∷ dir) = spell dir ++ (b'/' ∷ name)

abbrev pub render : List Bytes → Bytes
render [] = b'/' ∷ []
render (name ∷ dir) = spell (name ∷ dir)

abbrev pub no_slash : Bytes → Bool
no_slash [] = true
no_slash (c ∷ s) = not (c == b'/') && no_slash s

-- A name that a canonical path may hold.
abbrev pub is_plain : Bytes → Bool
is_plain s =
    ltb 0 (length s) && no_slash s && not (str_eq s (codes ".")) && not (str_eq s (codes ".."))

abbrev pub IsPlain : Bytes → Type 0
IsPlain s = is_plain s ≡ true

-- The names of a canonical path.
abbrev pub ArePlain : List Bytes → Type 0
ArePlain = All IsPlain

pub length-spell-cons :
    (name : Bytes) (dir : List Bytes)
    → length (spell (name ∷ dir)) ≡ length (spell dir) + suc (length name)
length-spell-cons name dir = length-append (spell dir) (b'/' ∷ name)

-- Every plain name takes two bytes at least.
pub double-le-spell :
    (dir : List Bytes) → ArePlain dir → length dir + length dir ≤ length (spell dir)
double-le-spell [] h = omega arith
double-le-spell ((c ∷ s) ∷ dir) h =
    omega (arith, double-le-spell dir h.1, length-spell-cons (c ∷ s) dir)
double-le-spell ([] ∷ dir) h = cc
