-- ===== src/Registry/Table.antt =====
-- About the list of open directories, as a table from addresses to directories.
use s3ro.Base.{Bool, true, false, ◌||◌, none, some, [], ◌∷◌, ◌≡◌, refl, arith, ◌==◌, if◌then◌else◌}
use s3ro.Dir.{ShimDir}
use s3ro.Registry.{Ptr, Dirs, register_dir, lookup_dir, unregister_dir, write_dir}

abbrev pub is_open : Ptr → Dirs → Bool
is_open p [] = false
is_open p ((cur, _) ∷ dirs) = cur == p || is_open p dirs

-- No address stands twice.
abbrev pub Distinct : Dirs → Type 0
Distinct [] = Unit
Distinct ((p, _) ∷ dirs) = (is_open p dirs ≡ false) × Distinct dirs

pub lookup_closed : (p : Ptr) (dirs : Dirs) → is_open p dirs ≡ false → lookup_dir p dirs ≡ none
unfolding lookup_dir
lookup_closed p [] h = refl
lookup_closed p ((cur, d) ∷ dirs) h = ground (arith, lookup_closed p dirs)

pub lookup_dir-register_dir :
    (p q : Ptr) (dir : ShimDir) (dirs : Dirs)
    → lookup_dir q (register_dir p dir dirs) ≡ (if p == q then some dir else lookup_dir q dirs)
unfolding lookup_dir register_dir
lookup_dir-register_dir p q dir dirs = refl

-- If no address stands twice in the list of open directories, unregister_dir takes out the
-- directory at its address and leaves every other one to be found.
pub lookup_dir-unregister_dir :
    (p q : Ptr) (dirs : Dirs)
    → Distinct dirs
    → lookup_dir q (unregister_dir p dirs) ≡ (if p == q then none else lookup_dir q dirs)
unfolding lookup_dir unregister_dir
lookup_dir-unregister_dir p q [] h = ground arith
lookup_dir-unregister_dir p q ((cur, d) ∷ dirs) h =
    ground (arith, lookup_dir-unregister_dir p q dirs h.1, lookup_closed cur dirs h.0)

pub lookup_dir-write_dir :
    (p q : Ptr) (new : ShimDir) (dirs : Dirs)
    → lookup_dir q (write_dir p new dirs) ≡ (
        if p == q
        then (elim (lookup_dir q dirs) [ none ↦ none | some _ ↦ some new ])
        else lookup_dir q dirs)
unfolding lookup_dir write_dir
lookup_dir-write_dir p q new [] = ground arith
lookup_dir-write_dir p q new ((cur, d) ∷ dirs) = ground (arith, lookup_dir-write_dir p q new dirs)

is_open-unregister_dir :
    (p q : Ptr) (dirs : Dirs) → is_open q dirs ≡ false → is_open q (unregister_dir p dirs) ≡ false
unfolding unregister_dir
is_open-unregister_dir p q [] h = refl
is_open-unregister_dir p q ((cur, d) ∷ dirs) h = ground (arith, is_open-unregister_dir p q dirs)

pub Distinct-unregister_dir :
    (p : Ptr) (dirs : Dirs) → Distinct dirs → Distinct (unregister_dir p dirs)
unfolding unregister_dir
Distinct-unregister_dir p [] h = tt
Distinct-unregister_dir p ((cur, d) ∷ dirs) h =
    ground (arith, Distinct-unregister_dir p dirs h.1, is_open-unregister_dir p cur dirs h.0)

is_open-write_dir :
    (p q : Ptr) (new : ShimDir) (dirs : Dirs) → is_open q (write_dir p new dirs) ≡ is_open q dirs
unfolding write_dir
is_open-write_dir p q new [] = refl
is_open-write_dir p q new ((cur, d) ∷ dirs) = ground (arith, is_open-write_dir p q new dirs)

pub Distinct-write_dir :
    (p : Ptr) (new : ShimDir) (dirs : Dirs) → Distinct dirs → Distinct (write_dir p new dirs)
unfolding write_dir
Distinct-write_dir p new [] h = tt
Distinct-write_dir p new ((cur, d) ∷ dirs) h =
    ground (arith, Distinct-write_dir p new dirs h.1, is_open-write_dir p cur new dirs)

pub is_open-lookup_dir :
    (p : Ptr) (dirs : Dirs) {dir : ShimDir} → lookup_dir p dirs ≡ some dir → is_open p dirs ≡ true
unfolding lookup_dir
is_open-lookup_dir p [] h = cc
is_open-lookup_dir p ((cur, d) ∷ dirs) {dir} h =
    ground (arith, is_open-lookup_dir p dirs {dir = dir})
