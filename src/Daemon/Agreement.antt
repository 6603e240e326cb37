-- ===== src/Daemon/Agreement.antt =====
-- About `sanitize` on what path_within_root of the shim accepts.
use s3ro.Base.{
  ◌<◌, true, false, Option, some, List, [], ◌∷◌, ◌++◌, Bytes, codes, ltb, lt→ltb, length, drop,
  str_eq, str_eq→eq, str_eq_self, starts_with, starts_with-append, drop-length-append,
  length-append, append-nil, append_assoc, Bool-cases, ◌≡◌, refl, sym, ap, ◌∙◌, arith, inl, inr,
}
use s3ro.Daemon.Files.{TextTools, below_local, clean_relative, sanitize}
use s3ro.Path.{path_max, Process, Located, canonicalize_path, path_within_root}
use s3ro.Path.Below.{relative, render_below, spell-Opening}
use s3ro.Path.Names.{spell, render, ArePlain, double-le-spell}
use s3ro.Path.Within.{path_within_root_sound}
use s3ro.Run.{ok}

-- Clean leaves a path alone to which none of its rules applies, and makes "." of the empty one.
pub record Cleans (tools : TextTools) : Type 0 where
  pub absolute : (dir : List Bytes) → ArePlain dir → tools.clean (render dir) ≡ render dir
  pub inner :
      (name : Bytes) (dir : List Bytes)
      → ArePlain (name ∷ dir)
      → tools.clean (relative (name ∷ dir)) ≡ relative (name ∷ dir)
  pub empty : tools.clean [] ≡ codes "."

str_eq-lengths : (a b : Bytes) → length b < length a → str_eq a b ≡ false
str_eq-lengths a b h = elim (Bool-cases (str_eq a b)) [
  | inl same ↦ absurd (omega (arith, h, ap length (str_eq→eq a b same)))
  | inr other ↦ other
]

-- The relative path of a directory below another one.
module _ (name : Bytes) (dir : List Bytes) (plain : ArePlain (name ∷ dir)) where
  pub spell-relative : spell (name ∷ dir) ≡ b'/' ∷ relative (name ∷ dir)
  spell-relative = let o = spell-Opening name dir plain in rw o.shape refl

  relative_no_slash : starts_with (codes "/") (relative (name ∷ dir)) ≡ false
  relative_no_slash =
      let o = spell-Opening name dir plain in rw o.shape (ground (arith, o.no_second))

not_dot :
    (name : Bytes) (dir : List Bytes)
    → ArePlain (name ∷ dir)
    → str_eq (relative (name ∷ dir)) (codes ".") ≡ false
not_dot name [] plain = ground (arith, plain.0)
not_dot name (n ∷ dir) plain = str_eq-lengths (relative (name ∷ n ∷ dir)) (codes ".") (
    omega (
      arith,
      ap length (spell-relative name (n ∷ dir) plain),
      double-le-spell (name ∷ n ∷ dir) plain,
    ))

clean_relative-relative :
    (tools : TextTools) (inner : List Bytes)
    → Cleans tools
    → ArePlain inner
    → clean_relative tools (relative inner) ≡ relative inner
unfolding clean_relative
clean_relative-relative tools [] cleans plain = rw cleans.empty refl
clean_relative-relative tools (name ∷ dir) cleans plain =
    rw (cleans.inner name dir plain, relative_no_slash name dir plain, not_dot name dir plain) refl

below_local-slash :
    (root rel : Bytes)
    → ltb 0 (length root) ≡ true
    → below_local root (root ++ (b'/' ∷ rel)) ≡ some rel
unfolding below_local
below_local-slash root rel some_root =
    let longer : str_eq (root ++ (b'/' ∷ rel)) root ≡ false =
      str_eq-lengths (root ++ (b'/' ∷ rel)) root (omega (arith, length-append root (b'/' ∷ rel))) in
    let slash = root ++ codes "/" in
    let assoc : root ++ (b'/' ∷ rel) ≡ slash ++ rel = sym (append_assoc root (codes "/") rel) in
    let starts : starts_with slash (root ++ (b'/' ∷ rel)) ≡ true =
      ap (starts_with slash) assoc ∙ starts_with-append slash rel in
    let behind : drop (length slash) (root ++ (b'/' ∷ rel)) ≡ rel =
      ap (drop (length slash)) assoc ∙ drop-length-append slash rel in
    rw (some_root, longer, starts, behind) refl

-- The part of a canonical path behind a root other than "/".
below_local-relative :
    (root : Bytes) (inner : List Bytes)
    → ltb 0 (length root) ≡ true
    → ArePlain inner
    → below_local root (root ++ spell inner) ≡ some (relative inner)
unfolding below_local
below_local-relative root [] some_root plain =
    rw (some_root, append-nil root, str_eq_self root) refl
below_local-relative root (name ∷ dir) some_root plain =
    ap (λ s. below_local root (root ++ s)) (spell-relative name dir plain)
    ∙ below_local-slash root (relative (name ∷ dir)) some_root

sanitize-relative :
    (tools : TextTools) (top : Bytes) (root inner : List Bytes)
    → Cleans tools
    → ArePlain (top ∷ root)
    → ArePlain inner
    → ArePlain (inner ++ (top ∷ root))
    → tools.trim_space (render (inner ++ (top ∷ root))) ≡ render (inner ++ (top ∷ root))
    → sanitize tools (spell (top ∷ root)) (render (inner ++ (top ∷ root))) ≡ some (relative inner)
unfolding sanitize
sanitize-relative tools top root inner cleans root_plain inner_plain plain trims =
    let path = render (inner ++ (top ∷ root)) in
    let whole = render_below inner top root in
    let long = double-le-spell (top ∷ root) root_plain in
    let some_root : ltb 0 (length (spell (top ∷ root))) ≡ true =
      lt→ltb 0 (length (spell (top ∷ root))) (omega (arith, long)) in
    let some_path : ltb 0 (length path) ≡ true =
      lt→ltb 0 (length path)
        (omega (arith, long, ap length whole, length-append (spell (top ∷ root)) (spell inner))) in
    let behind : below_local (spell (top ∷ root)) path ≡ some (relative inner) =
      ap (below_local (spell (top ∷ root))) whole
      ∙ below_local-relative (spell (top ∷ root)) inner some_root inner_plain in
    rw
      (
        trims,
        some_path,
        cleans.absolute (inner ++ (top ∷ root)) plain,
        behind,
        clean_relative-relative tools inner cleans inner_plain,
      )
      refl

All-prefix : (inner root : List Bytes) → ArePlain (inner ++ root) → ArePlain inner
All-prefix [] root h = tt
All-prefix (name ∷ inner) root h = (h.0, All-prefix inner root h.1)

module _ (p : Process) (path : Option Bytes) (top : Bytes) (outer dir : List Bytes)
    (root_plain : ArePlain (top ∷ outer)) (root_is : p.root ≡ render (top ∷ outer))
    (plain : ArePlain dir) (fits : length (spell dir) < path_max)
    (leads : canonicalize_path p.cwd path path_max ≡ ok (render dir)) where
  -- Let the root, not "/", and the path that canonicalize_path makes of the argument be canonical
  -- spellings, the latter with room for its NUL, and let Clean leave such paths alone. If
  -- path_within_root of the shim accepts the argument, and its canonical path has no white space
  -- at the ends that TrimSpace would cut, then sanitize of a daemon with the same root makes of
  -- the canonical path the relative path that path_within_root gives.
  pub sanitize-path_within_root :
      (tools : TextTools) {l : Located}
      → Cleans tools
      → path_within_root p path ≡ ok l
      → tools.trim_space l.abs ≡ l.abs
      → sanitize tools p.root l.abs ≡ some l.rel
  sanitize-path_within_root tools {l} cleans accepted trims =
      let (inner, lies, outputs) =
        path_within_root_sound p path (top ∷ outer) dir root_plain root_is plain fits leads
          accepted in
      let abs : l.abs ≡ render (inner ++ (top ∷ outer)) =
        ap (λ o. o.abs) outputs ∙ ap render lies in
      let rel : l.rel ≡ relative inner = ap (λ o. o.rel) outputs in
      let all = rw lies at plain in
      rw (root_is, rel, abs)
        (sanitize-relative tools top outer inner cleans root_plain
          (All-prefix inner (top ∷ outer) all) all (rw abs at trims))
