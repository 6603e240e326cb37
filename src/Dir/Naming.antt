-- ===== src/Dir/Naming.antt =====
-- About `relative_name`: the name of a child in its directory.
use s3ro.Base.{
  ℕ, ◌+◌, Bool, true, false, some, [], ◌∷◌, ◌++◌, Bytes, length, starts_with-append,
  drop-length-append, ◌==◌, ◌≡◌, refl, ap, arith,
}
use s3ro.Dir.{relative_name}
use s3ro.Path.{segment}
use s3ro.Path.Names.{no_slash}

-- The path of a child from the root on, as the daemon gives it.
abbrev pub child_path : Bytes → Bytes → Bytes
child_path [] name = name
child_path (c ∷ dir_rel) name = (c ∷ dir_rel) ++ (b'/' ∷ name)

segment_whole : (name : Bytes) → no_slash name ≡ true → segment name ≡ name
unfolding segment
segment_whole [] h = refl
segment_whole (c ∷ name) h =
    let (other, rest) : ((c == b'/') ≡ false) × (no_slash name ≡ true) =
      (ground arith, ground arith) in
    rw other (ap (◌∷◌ c) (segment_whole name rest))

pub relative_name-child_path :
    (allocates : ℕ → Bool) (dir_rel name : Bytes)
    → ((size : ℕ) → allocates size ≡ true)
    → no_slash name ≡ true
    → relative_name allocates dir_rel (child_path dir_rel name) ≡ some name
unfolding relative_name
relative_name-child_path allocates [] name memory h =
    rw (segment_whole name h, memory (length name + 1)) refl
relative_name-child_path allocates (c ∷ dir_rel) name memory h =
    rw
      (
        starts_with-append (c ∷ dir_rel) (b'/' ∷ name),
        drop-length-append (c ∷ dir_rel) (b'/' ∷ name),
        segment_whole name h,
        memory (length name + 1),
      )
      refl
