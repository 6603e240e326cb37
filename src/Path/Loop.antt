-- ===== src/Path/Loop.antt =====
-- About `canon_loop`, its two arrays and `resolve`.
use s3ro.Base.{
  ℕ, zero, suc, ◌+◌, ◌≤◌, ◌<◌, true, false, ◌&&◌, List, [], ◌∷◌, ◌++◌, ◌≡◌, refl, ap, arith, ◌⊎◌,
  inl, inr, append_assoc, Bytes, codes, ◌==◌, length, str_eq, starts_with, length-append,
  take-length-append, Bool-cases,
}
use s3ro.Run.{ok}
use s3ro.Path.{
  path_max, Builder, skip_slashes, segment, after_segment, segment_step, push_segment, pop_segment,
  canon_loop,
}
use s3ro.Path.Names.{
  split, names_of, enter, resolve, spell, render, no_slash, ArePlain, length-spell-cons,
  double-le-spell,
}

-- The array `stack` for the names entered so far.
abbrev ends : List Bytes → List ℕ
ends [] = 1 ∷ []
ends (name ∷ dir) = length (spell (name ∷ dir)) ∷ ends dir

abbrev build : List Bytes → Builder
build dir = record { result = render dir; stack = ends dir }

length-ends : (dir : List Bytes) → length (ends dir) ≡ suc (length dir)
length-ends [] = refl
length-ends (name ∷ dir) = ap suc (length-ends dir)

some_test : (c : ℕ) (s : Bytes) → (length (c ∷ s) == 0) ≡ false
some_test c s = ground arith

dot_test : (s : Bytes) → (length s == 1 && starts_with (codes ".") s) ≡ str_eq s (codes ".")
dot_test [] = refl
dot_test (c ∷ []) = ground arith
dot_test (c ∷ d ∷ s) = ground arith

dots_test : (s : Bytes) → (length s == 2 && starts_with (codes "..") s) ≡ str_eq s (codes "..")
dots_test [] = refl
dots_test (c ∷ []) = ground arith
dots_test (c ∷ d ∷ []) = ground arith
dots_test (c ∷ d ∷ e ∷ s) = ground arith

pop-build :
    (dir : List Bytes)
    → length (spell dir) < path_max
    → pop_segment (render dir) (ends dir) ≡ ok (build (elim dir [ [] ↦ [] | _ ∷ parent ↦ parent ]))
unfolding pop_segment
pop-build [] h = refl
pop-build (s ∷ []) h = refl
pop-build (s ∷ t ∷ dir) h = rw take-length-append (ground (arith, length-spell-cons s (t ∷ dir)))

push-build :
    (dir : List Bytes) (seg : Bytes)
    → ArePlain dir
    → 0 < length seg
    → length (spell dir) + suc (length seg) < path_max
    → push_segment seg (build dir) ≡ ok (build (seg ∷ dir))
unfolding push_segment
push-build [] seg h n fits = ground arith
push-build (s ∷ dir) seg h n fits = ground (
  arith,
  length-append (spell dir ++ (b'/' ∷ s)) (b'/' ∷ []),
  length-append (spell dir ++ (b'/' ∷ s) ++ (b'/' ∷ [])) seg,
  append_assoc (spell dir ++ (b'/' ∷ s)) (b'/' ∷ []) seg,
  length-spell-cons s dir,
  length-ends dir,
  double-le-spell (s ∷ dir) h,
)

-- One name is entered as the specification says.
step-build :
    (dir : List Bytes) (seg : Bytes)
    → ArePlain dir
    → 0 < length seg
    → length (spell dir) + suc (length seg) < path_max
    → segment_step seg (build dir) ≡ ok (build (enter dir seg))
unfolding segment_step enter
step-build dir [] h n fits = absurd (omega arith)
step-build dir (c ∷ s) h n fits =
    rw (some_test c s, dot_test (c ∷ s), dots_test (c ∷ s))
      (elim (Bool-cases (str_eq (c ∷ s) (codes "."))) [
        | inl dot ↦ rw dot refl
        | inr name ↦ rw name (elim (Bool-cases (str_eq (c ∷ s) (codes ".."))) [
          | inl dots ↦ rw dots (pop-build dir (omega arith))
          | inr plain ↦ rw plain (push-build dir (c ∷ s) h n fits)
        ])
      ])

enter-ArePlain :
    (dir : List Bytes) (seg : Bytes)
    → ArePlain dir
    → 0 < length seg
    → no_slash seg ≡ true
    → ArePlain (enter dir seg)
unfolding enter
enter-ArePlain [] seg h n p = ground arith
enter-ArePlain (s ∷ dir) seg h n p = ground arith

spell-enter-le :
    (dir : List Bytes) (seg : Bytes)
    → length (spell (enter dir seg)) ≤ length (spell dir) + suc (length seg)
unfolding enter
spell-enter-le [] seg = ground (arith, length-spell-cons seg [])
spell-enter-le (s ∷ dir) seg =
    ground (arith, length-spell-cons seg (s ∷ dir), length-spell-cons s dir)

-- Where a round of the loop may begin: at the end, or at a '/'.
abbrev pub Rooted : Bytes → Type 0
Rooted [] = Unit
Rooted (c ∷ p) = c ≡ b'/'

pub split-segment : (p : Bytes) → split p ≡ (segment p, names_of (after_segment p))
unfolding split names_of segment after_segment
split-segment [] = refl
split-segment (c ∷ p) = ground (arith, split-segment p)

-- What one round does to the input: it ends, or takes the next name.
record Round (p : Bytes) (c : ℕ) (q : Bytes) : Type 0 where
  skips : skip_slashes p ≡ c ∷ q
  names : names_of p ≡ segment (c ∷ q) ∷ names_of (after_segment (c ∷ q))
  some_byte : 0 < length (segment (c ∷ q))
  plain : no_slash (segment (c ∷ q)) ≡ true
  shorter : length (segment (c ∷ q)) + length (after_segment (c ∷ q)) ≤ length p
  rooted : Rooted p → length (segment (c ∷ q)) + length (after_segment (c ∷ q)) < length p

length-segment : (p : Bytes) → length (segment p) + length (after_segment p) ≡ length p
unfolding segment after_segment
length-segment [] = omega arith
length-segment (c ∷ p) = ground (arith, length-segment p)

segment-no_slash : (p : Bytes) → no_slash (segment p) ≡ true
unfolding segment
segment-no_slash [] = refl
segment-no_slash (c ∷ p) = ground (arith, segment-no_slash p)

after_segment-Rooted : (p : Bytes) → Rooted (after_segment p)
unfolding after_segment
after_segment-Rooted [] = tt
after_segment-Rooted (c ∷ p) = ground (arith, after_segment-Rooted p)

Round-here : (c : ℕ) (q : Bytes) → (c == b'/') ≡ false → Round (c ∷ q) c q
unfolding skip_slashes names_of split segment after_segment
Round-here c q h = record {
  skips = rw h;
  names = ground (arith, split-segment q);
  some_byte = ground arith;
  plain = segment-no_slash (c ∷ q);
  shorter = omega (arith, length-segment (c ∷ q));
  rooted = λ e. ground arith;
}

Round-later :
    (d : ℕ) (p : Bytes) {c : ℕ} {q : Bytes} → (d == b'/') ≡ true → Round p c q → Round (d ∷ p) c q
unfolding skip_slashes names_of split
Round-later d p h r = record {
  skips = rw h r.skips;
  names = rw h r.names;
  some_byte = r.some_byte;
  plain = r.plain;
  shorter = omega (arith, r.shorter);
  rooted = λ e. omega (arith, r.shorter);
}

rounds :
    (p : Bytes)
    → ((skip_slashes p ≡ []) × (names_of p ≡ [])) ⊎ ((c : ℕ) × (q : Bytes) × Round p c q)
unfolding skip_slashes names_of split
rounds [] = inl (refl, refl)
rounds (d ∷ p) = elim (Bool-cases (d == b'/')) [
  | inr name ↦ inr (d, p, Round-here d p name)
  | inl slash ↦ elim (rounds p) [
    | inl (e, f) ↦ inl (rw slash e, rw slash f)
    | inr (c, q, r) ↦ inr (c, q, Round-later d p slash r)
  ]
]

-- The whole loop, from any directory on, with at least a round for each byte.
pub canon_loop-resolve :
    (fuel : ℕ) (p : Bytes) (dir : List Bytes)
    → length p < fuel
    → Rooted p
    → ArePlain dir
    → length (spell dir) + length p < path_max
    → (canon_loop fuel p (build dir) ≡ ok (build (resolve dir (names_of p))))
      × ArePlain (resolve dir (names_of p))
      × (length (spell (resolve dir (names_of p))) < path_max)
unfolding canon_loop resolve
canon_loop-resolve zero p dir enough r h fits = absurd (omega arith)
canon_loop-resolve (suc fuel) p dir enough r h fits = elim (rounds p) [
  | inl (e, f) ↦ rw (f, e, canon_loop) (refl, h, omega arith)
  | inr (c, q, round) ↦
      let seg = segment (c ∷ q) in
      let shorter = round.rooted r in
      let later =
        canon_loop-resolve fuel (after_segment (c ∷ q)) (enter dir seg) (omega arith)
          (after_segment-Rooted (c ∷ q)) (enter-ArePlain dir seg h round.some_byte round.plain)
          (omega (arith, spell-enter-le dir seg)) in
      rw (round.names, round.skips, canon_loop, step-build dir seg h round.some_byte (omega arith))
        later
]
