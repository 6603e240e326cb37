-- ===== src/Path/Below.antt =====
-- About `below_root`: the paths in a directory, by the text of their names.
use mathlib.Core.List.{reverse, reverse_aux, reverse_aux-eq, reverse_aux-reverse_aux-nil}
use s3ro.Base.{
  ℕ, ◌-◌, ◌≤◌, ◌<◌, true, false, List, [], ◌∷◌, ◌++◌, ◌≡◌, refl, sym, ap, ◌∙◌, arith, append-nil,
  append_assoc, Bytes, ltb, lt→ltb, ◌==◌, length, drop, starts_with, length-append, take-of_le,
  drop-length-append, length-drop-le, starts_with-append, starts_with→append,
}
use s3ro.Run.{ok, require, require-ok, >>=-eq-ok}
use s3ro.Path.{path_max, Located, locate, below_root}
use s3ro.Path.Names.{split, names_of, spell, render, ArePlain, double-le-spell}
use s3ro.Path.Loop.{Rooted}
use s3ro.Path.Spelling.{names_of-slash, spell-Rooted}

-- The path of `inner` below the directory that holds it: its names with '/' between them.
abbrev pub relative : List Bytes → Bytes
relative inner = drop 1 (spell inner)

spell-append : (inner outer : List Bytes) → spell (inner ++ outer) ≡ spell outer ++ spell inner
spell-append [] outer = rw append-nil
spell-append (name ∷ inner) outer = rw (spell-append inner outer, append_assoc)

names_of-spell :
    (dir : List Bytes) (rest : Bytes)
    → ArePlain dir
    → Rooted rest
    → names_of (spell dir ++ rest) ≡ reverse_aux dir (names_of rest)
names_of-spell [] rest h r = refl
names_of-spell (name ∷ dir) rest h r = rw append_assoc (
    names_of-spell dir (b'/' ∷ (name ++ rest)) h.1 refl
    ∙ ap (reverse_aux dir) (names_of-slash name rest h.0 r))

-- Text that continues a canonical path at a '/' names a directory inside.
spell_inner :
    (dir root : List Bytes) (rest : Bytes)
    → ArePlain dir
    → ArePlain root
    → Rooted rest
    → spell dir ≡ spell root ++ rest
    → dir ≡ reverse (names_of rest) ++ root
unfolding names_of split
spell_inner dir root rest h k r e =
    let outward : reverse_aux dir [] ≡ reverse_aux root (names_of rest) =
      sym (names_of-spell dir [] h tt)
      ∙ ap names_of (append-nil (spell dir) ∙ e)
      ∙ names_of-spell root rest k r in
    sym (reverse_aux-reverse_aux-nil dir [])
    ∙ ap (λ l. reverse_aux l []) outward
    ∙ reverse_aux-reverse_aux-nil root (names_of rest)
    ∙ reverse_aux-eq (names_of rest) root

-- What `path_within_root` does with a canonical path below a root other than "/".
locate_sound :
    (root rest : Bytes) {rel : Bytes}
    → ltb 1 (length root) ≡ true
    → locate root rest ≡ ok rel
    → Rooted rest × (rel ≡ drop 1 rest)
unfolding locate
locate_sound root [] long e = ground arith
locate_sound root (c ∷ rest) long e = ground arith

locate_complete : (root rest : Bytes) → Rooted rest → locate root rest ≡ ok (drop 1 rest)
unfolding locate
locate_complete root [] r = refl
locate_complete root (c ∷ rest) r = ground arith

pub render_below :
    (inner : List Bytes) (name : Bytes) (root : List Bytes)
    → render (inner ++ (name ∷ root)) ≡ spell (name ∷ root) ++ spell inner
render_below [] name root = spell-append [] (name ∷ root)
render_below (n ∷ inner) name root = spell-append (n ∷ inner) (name ∷ root)

-- A canonical path other than "/" does not go on with a second '/'.
pub record Opening (s : Bytes) : Type 0 where
  pub first : ℕ
  pub rest : Bytes
  pub shape : s ≡ b'/' ∷ first ∷ rest
  pub no_second : (first == b'/') ≡ false

Opening-append : {s : Bytes} (t : Bytes) → Opening s → Opening (s ++ t)
Opening-append t o = record {
  first = o.first;
  rest = o.rest ++ t;
  shape = rw o.shape refl;
  no_second = o.no_second;
}

pub spell-Opening :
    (name : Bytes) (dir : List Bytes) → ArePlain (name ∷ dir) → Opening (spell (name ∷ dir))
spell-Opening [] [] h = cc
spell-Opening (c ∷ name) [] h = record {
  first = c;
  rest = name;
  shape = refl;
  no_second = ground arith;
}
spell-Opening name (n ∷ dir) h = Opening-append (b'/' ∷ name) (spell-Opening n dir h.1)

below_root-ok :
    (root s : Bytes) {rel : Bytes}
    → starts_with root s ≡ true
    → locate root (drop (length root) s) ≡ ok rel
    → length s < path_max
    → length rel ≤ length s
    → below_root root s ≡ ok (record { abs = s; rel = rel })
unfolding below_root
below_root-ok root s {rel} starts located fits short = rw (
  starts,
  located,
  take-of_le (path_max - 1) s (omega arith),
  take-of_le (path_max - 1) rel (omega arith),
)

locate-Opening : {s : Bytes} → Opening s → locate (b'/' ∷ []) (drop 1 s) ≡ ok (drop 1 s)
unfolding locate
locate-Opening o = rw (o.shape, o.no_second)

starts-Opening : {s : Bytes} → Opening s → starts_with (b'/' ∷ []) s ≡ true
starts-Opening o = rw o.shape refl

pub below_slash :
    (dir : List Bytes)
    → ArePlain dir
    → length (spell dir) < path_max
    → below_root (b'/' ∷ []) (render dir) ≡ ok (record { abs = render dir; rel = relative dir })
unfolding below_root locate
below_slash [] h fits = refl
below_slash (name ∷ dir) h fits =
    let o = spell-Opening name dir h in
    below_root-ok (b'/' ∷ []) (spell (name ∷ dir)) (starts-Opening o) (locate-Opening o) fits
      (length-drop-le 1 (spell (name ∷ dir)))

spell-Rooted_nil : (dir : List Bytes) → Rooted (spell dir)
spell-Rooted_nil dir = rw (← append-nil (spell dir)) (spell-Rooted dir [] tt)

module _ (name : Bytes) (root : List Bytes) (root_plain : ArePlain (name ∷ root)) where
  long_root : 1 < length (spell (name ∷ root))
  long_root = omega (arith, double-le-spell (name ∷ root) root_plain)

  pub below_root_complete :
      (inner : List Bytes)
      → length (render (inner ++ (name ∷ root))) < path_max
      → below_root (spell (name ∷ root)) (render (inner ++ (name ∷ root)))
        ≡ ok (record { abs = render (inner ++ (name ∷ root)); rel = relative inner })
  below_root_complete inner fits =
      let whole = render_below inner name root in
      below_root-ok (spell (name ∷ root)) (render (inner ++ (name ∷ root)))
        (rw whole (starts_with-append (spell (name ∷ root)) (spell inner)))
        (rw (whole, drop-length-append (spell (name ∷ root)) (spell inner))
          (locate_complete (spell (name ∷ root)) (spell inner) (spell-Rooted_nil inner)))
        fits
        (omega (
          arith,
          ap length whole,
          length-append (spell (name ∷ root)) (spell inner),
          length-drop-le 1 (spell inner),
        ))

  spell_dir :
      (dir : List Bytes) (rest : Bytes)
      → render dir ≡ spell (name ∷ root) ++ rest
      → spell dir ≡ spell (name ∷ root) ++ rest
  spell_dir [] rest e =
      absurd (omega (arith, ap length e, length-append (spell (name ∷ root)) rest, long_root))
  spell_dir (n ∷ dir) rest e = e

  pub below_root_sound :
      (dir : List Bytes) {l : Located}
      → ArePlain dir
      → below_root (spell (name ∷ root)) (render dir) ≡ ok l
      → (inner : List Bytes) × (dir ≡ inner ++ (name ∷ root))
  unfolding below_root
  below_root_sound dir h e =
      let top = spell (name ∷ root) in
      let rest = drop (length top) (render dir) in
      let (_, starts, e') = >>=-eq-ok (require (starts_with top (render dir))) _ e in
      let (rel, located, _) = >>=-eq-ok (locate top rest) _ e' in
      let rooted = (locate_sound top rest (lt→ltb 1 (length top) long_root) located).0 in
      let whole = starts_with→append top (render dir) (require-ok _ starts) in
      (
        reverse (names_of rest),
        spell_inner dir (name ∷ root) rest h root_plain rooted (spell_dir dir rest whole),
      )
