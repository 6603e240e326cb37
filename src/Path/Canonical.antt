-- ===== src/Path/Canonical.antt =====
-- About `canonicalize_path`: what it returns, and when.
use s3ro.Base.{
  ℕ, suc, ◌+◌, ◌-◌, ◌<◌, true, false, Option, none, some, List, [], ◌∷◌, ◌++◌, ◌≡◌, ◌≢◌, refl, ◌∙◌,
  arith, ◌⊎◌, inl, inr, Bytes, codes, ltb, lt→ltb, if◌then◌else◌, length, starts_with,
  length-take-le, take-of_le, take-length-append, Bool-cases,
}
use s3ro.Run.{ok, refuse, overrun, stuck, stray}
use s3ro.Path.{path_max, clip, scratch, finish, canonicalize_path}
use s3ro.Path.Names.{spell, render, ArePlain}
use s3ro.Path.Loop.{Rooted, canon_loop-resolve}
use s3ro.Path.Spelling.{starts-append, place, render-positive, render-lt}

-- getcwd returns an absolute path, as its documentation says, or fails.
abbrev pub IsCwd : Option Bytes → Type 0
IsCwd none = Unit
IsCwd (some dir) = starts_with (codes "/") dir ≡ true

finish-render :
    (dir : List Bytes) (out_len : ℕ)
    → length (spell dir) < path_max
    → finish (render dir) out_len
      ≡ (if ltb (length (render dir)) out_len then ok (render dir) else refuse)
unfolding finish
finish-render dir out_len h =
    rw (render-positive dir)
      (ground (arith, render-lt dir h, take-of_le (out_len - 1) (render dir)))

clip-Rooted : (p : Bytes) → starts_with (codes "/") p ≡ true → Rooted (clip path_max p)
clip-Rooted [] h = tt
clip-Rooted (c ∷ p) h = ground arith

-- The path that is scanned begins with '/' and fits its buffer.
scratch_cases :
    (cwd : Option Bytes) (path : Bytes)
    → IsCwd cwd
    → (scratch cwd path ≡ refuse)
      ⊎ ((s : Bytes) × (scratch cwd path ≡ ok s) × Rooted s × (length s < path_max))
unfolding scratch
scratch_cases none path w = elim (Bool-cases (starts_with (codes "/") path)) [
  | inl absolute ↦ inr (
    clip path_max path,
    rw absolute,
    clip-Rooted path absolute,
    omega (arith, length-take-le (path_max - 1) path),
  )
  | inr relative ↦ inl (rw relative)
]
scratch_cases (some dir) path w = elim (Bool-cases (starts_with (codes "/") path)) [
  | inl absolute ↦ inr (
    clip path_max path,
    rw absolute,
    clip-Rooted path absolute,
    omega (arith, length-take-le (path_max - 1) path),
  )
  | inr relative ↦
      let whole = dir ++ (b'/' ∷ path) in
      inr (
        clip path_max whole,
        rw relative,
        clip-Rooted whole (starts-append dir (b'/' ∷ path) w),
        omega (arith, length-take-le (path_max - 1) whole),
      )
]

-- What stands behind the call of the loop.
module _ (cwd : Option Bytes) (path : Bytes) (out_len : ℕ) where
  pub data Outcome : Type 0 where
    unresolved :
        scratch cwd path ≡ refuse → canonicalize_path cwd (some path) out_len ≡ refuse → Outcome
    resolved :
        (s : Bytes)
        → scratch cwd path ≡ ok s
        → ArePlain (place s)
        → length (spell (place s)) < path_max
        → canonicalize_path cwd (some path) out_len
          ≡ (if ltb (length (render (place s))) out_len then ok (render (place s)) else refuse)
        → Outcome

  pub canonicalize_path-Outcome : IsCwd cwd → ltb 0 out_len ≡ true → Outcome
  unfolding canonicalize_path
  canonicalize_path-Outcome w room = elim (scratch_cases cwd path w) [
    | inl e ↦ unresolved e (rw (room, e))
    | inr (s, e, r, fits) ↦
        let (loop, plain, small) =
          canon_loop-resolve (suc (length s)) s [] (omega arith) r tt (omega arith) in
        resolved s e plain small (rw (room, e, loop) (finish-render (place s) out_len small))
  ]

-- If getcwd gives an absolute path or fails, the caller's buffer has room for a byte, and the
-- path to scan is s, then canonicalize_path returns the canonical spelling of the directory that
-- the names of s lead to from the root, if that fits the buffer with its NUL, and refuses
-- otherwise.
pub canonicalize_path-render :
    (cwd : Option Bytes) (path : Bytes) (out_len : ℕ) {s : Bytes}
    → IsCwd cwd
    → 0 < out_len
    → scratch cwd path ≡ ok s
    → canonicalize_path cwd (some path) out_len
      ≡ (if ltb (length (render (place s))) out_len then ok (render (place s)) else refuse)
canonicalize_path-render cwd path out_len {s} w room e =
    elim (canonicalize_path-Outcome cwd path out_len w (lt→ltb 0 out_len room)) [
      | unresolved e' _ ↦ absurd (cc (e, e'))
      | resolved s' e' plain small result ↦ let same : s' ≡ s = cc (e, e') in rw (← same) result
    ]

canonicalize_path-null :
    (cwd : Option Bytes) (out_len : ℕ) → canonicalize_path cwd none out_len ≡ refuse
unfolding canonicalize_path
canonicalize_path-null cwd out_len = refl

canonicalize_path-zero :
    (cwd : Option Bytes) (path : Bytes) (out_len : ℕ)
    → ltb 0 out_len ≡ false
    → canonicalize_path cwd (some path) out_len ≡ refuse
unfolding canonicalize_path
canonicalize_path-zero cwd path out_len h = rw h

-- If getcwd gives an absolute path or fails, canonicalize_path never writes outside its arrays of
-- PATH_MAX bytes and PATH_MAX / 2 numbers, and its loop ends, for every path and every size of
-- the caller's buffer.
pub canonicalize_path-safe :
    (cwd path : Option Bytes) (out_len : ℕ)
    → IsCwd cwd
    → (canonicalize_path cwd path out_len ≢ overrun) × (canonicalize_path cwd path out_len ≢ stuck)
canonicalize_path-safe cwd none out_len w = rw canonicalize_path-null (ground arith)
canonicalize_path-safe cwd (some path) out_len w = elim (Bool-cases (ltb 0 out_len)) [
  | inr room ↦ rw (canonicalize_path-zero cwd path out_len room) (ground arith)
  | inl room ↦ elim (canonicalize_path-Outcome cwd path out_len w room) [
    | unresolved _ e ↦ rw e (ground arith)
    | resolved s _ _ _ e ↦ rw e (ground arith)
  ]
]

pub canonicalize_path-not_stray :
    (cwd path : Option Bytes) (out_len : ℕ) → IsCwd cwd → canonicalize_path cwd path out_len ≢ stray
canonicalize_path-not_stray cwd none out_len w = rw canonicalize_path-null (ground arith)
canonicalize_path-not_stray cwd (some path) out_len w = elim (Bool-cases (ltb 0 out_len)) [
  | inr room ↦ rw (canonicalize_path-zero cwd path out_len room) (ground arith)
  | inl room ↦ elim (canonicalize_path-Outcome cwd path out_len w room) [
    | unresolved _ e ↦ rw e (ground arith)
    | resolved s _ _ _ e ↦ rw e (ground arith)
  ]
]

-- A path that `canonicalize_path` may return: plain names behind one '/' each, in PATH_MAX bytes.
pub record IsCanonical (r : Bytes) : Type 0 where
  pub dir : List Bytes
  pub plain : ArePlain dir
  pub fits : length (spell dir) < path_max
  pub spelled : r ≡ render dir

pub canonicalize_path-IsCanonical :
    (cwd path : Option Bytes) (out_len : ℕ) {r : Bytes}
    → IsCwd cwd
    → canonicalize_path cwd path out_len ≡ ok r
    → IsCanonical r
canonicalize_path-IsCanonical cwd none out_len w e =
    absurd (cc (canonicalize_path-null cwd out_len))
canonicalize_path-IsCanonical cwd (some path) out_len {r} w e = elim (Bool-cases (ltb 0 out_len)) [
  | inr room ↦ absurd (cc (canonicalize_path-zero cwd path out_len room))
  | inl room ↦ elim (canonicalize_path-Outcome cwd path out_len w room) [
    | unresolved _ e' ↦ absurd (cc)
    | resolved s _ plain fits e' ↦ record {
      dir = place s;
      plain = plain;
      fits = fits;
      spelled = ground arith;
    }
  ]
]

pub scratch_absolute :
    (cwd : Option Bytes) (path : Bytes)
    → starts_with (codes "/") path ≡ true
    → scratch cwd path ≡ ok (clip path_max path)
unfolding scratch
scratch_absolute cwd path h = rw h

scratch-ne-refuse :
    (cwd : Option Bytes) (path : Bytes)
    → (starts_with (codes "/") path ≡ true) ⊎ (cwd ≢ none)
    → scratch cwd path ≢ refuse
unfolding scratch
scratch-ne-refuse none path h = ground arith
scratch-ne-refuse (some dir) path h = ground arith

-- If getcwd gives an absolute path or fails, and the path is absolute or getcwd works,
-- canonicalize_path with a buffer of PATH_MAX bytes returns a path.
pub canonicalize_path_total :
    (cwd : Option Bytes) (path : Bytes)
    → IsCwd cwd
    → (starts_with (codes "/") path ≡ true) ⊎ (cwd ≢ none)
    → (r : Bytes) × (canonicalize_path cwd (some path) path_max ≡ ok r)
canonicalize_path_total cwd path w h = elim (canonicalize_path-Outcome cwd path path_max w refl) [
  | unresolved e _ ↦ absurd (scratch-ne-refuse cwd path h e)
  | resolved s _ _ fits e ↦
      (render (place s), e ∙ rw (lt→ltb _ path_max (render-lt (place s) fits)))
]

clip_whole : (path rest : Bytes) → length path + 1 ≡ path_max → clip path_max (path ++ rest) ≡ path
clip_whole path rest h =
    let n : length path ≡ path_max - 1 = omega arith in rw (← n) (take-length-append path rest)

canonicalize_path-scratch :
    (cwd : Option Bytes) (p q : Bytes) (out_len : ℕ)
    → scratch cwd p ≡ scratch cwd q
    → canonicalize_path cwd (some p) out_len ≡ canonicalize_path cwd (some q) out_len
unfolding canonicalize_path
canonicalize_path-scratch cwd p q out_len e = rw e

-- An absolute path longer than PATH_MAX - 1 bytes is treated as its first PATH_MAX - 1 bytes.
pub canonicalize_path_clipped :
    (cwd : Option Bytes) (path rest : Bytes) (out_len : ℕ)
    → starts_with (codes "/") path ≡ true
    → length path + 1 ≡ path_max
    → canonicalize_path cwd (some (path ++ rest)) out_len
      ≡ canonicalize_path cwd (some path) out_len
canonicalize_path_clipped cwd path rest out_len absolute whole =
    canonicalize_path-scratch cwd (path ++ rest) path out_len (
      rw (
        scratch_absolute cwd (path ++ rest) (starts-append path rest absolute),
        scratch_absolute cwd path absolute,
        clip_whole path rest whole,
        take-of_le (path_max - 1) path (omega arith),
      ))
