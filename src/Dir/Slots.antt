-- ===== src/Dir/Slots.antt =====
-- What one child does to the array of entries.
use s3ro.Base.{
  ◌%◌, ◌^◌, codes, str_eq, ℕ, suc, ◌+◌, Bool, true, Option, none, some, List, [], ◌∷◌, ◌++◌, Bytes,
  ltb, lt→ltb, if◌then◌else◌, length, set, replicate, ◌≡◌, refl, ap, arith, ◌⊎◌, inl, inr,
  append_assoc, length-append, Bool-cases,
}
use s3ro.Dir.{
  dt_dir, dt_reg, Dirent, EntryPair, ShimDir, dirent_size, entry_path, add_entry, entry_pair,
  Reader, place_entry, blank_pair,
}
use s3ro.Hash.{hash_path}
use s3ro.Json.{Token}
use s3ro.Meta.{RemoteMeta}
use s3ro.Run.{Run, ok, refuse}
use s3ro.Dir.Listing.{Listed, pair_of, path_in, pairs_from, read_children, list_name, listed}

set-middle {ℓ} :
    {A : Type ℓ} (xs : List A) (b v : A) (ys : List A)
    → set (xs ++ (b ∷ ys)) (length xs) v ≡ xs ++ (v ∷ ys)
set-middle [] b v ys = refl
set-middle (x ∷ xs) b v ys = ap (◌∷◌ x) (set-middle xs b v ys)

-- The directory with these entries.
abbrev pub holding : ShimDir → List EntryPair → ShimDir
holding dir entries = record dir { entries = entries }

pub entry_path-path_in : (abs_path name : Bytes) → entry_path abs_path name ≡ path_in abs_path name
unfolding entry_path path_in
entry_path-path_in abs_path name = elim (Bool-cases (str_eq name (codes "."))) [
  | inl dot ↦ rw dot refl
  | inr named ↦ elim (Bool-cases (str_eq name (codes ".."))) [
    | inl dots ↦ rw (named, dots) refl
    | inr other ↦ elim (Bool-cases (str_eq abs_path (codes "/"))) [
      | inl top ↦ rw (named, other, top) refl
      | inr below ↦ rw (named, other, below) refl
    ]
  ]
]

entry_pair_made :
    (allocates : ℕ → Bool) (name : Bytes) (is_dir : Bool) (ino index : ℕ)
    → let d : Dirent = record {
      ino = ino;
      off = index;
      reclen = dirent_size name % 2 ^ 16;
      dtype = if is_dir then dt_dir else dt_reg;
      name = name;
    } in
      (entry_pair allocates name (if is_dir then dt_dir else dt_reg) ino index ≡ refuse)
      ⊎ (entry_pair allocates name (if is_dir then dt_dir else dt_reg) ino index
          ≡ ok (record { d32 = some d; d64 = some d }))
unfolding entry_pair
entry_pair_made allocates name is_dir ino index = elim (Bool-cases (allocates (dirent_size name))) [
  | inl room ↦ inr (rw (room, entry_pair) (ground arith))
  | inr full ↦ inl (rw (full, entry_pair) (ground arith))
]

entry_pair_cases :
    (allocates : ℕ → Bool) (abs_path name : Bytes) (is_dir : Bool) (index : ℕ)
    → (entry_pair allocates name
          (if is_dir then dt_dir else dt_reg)
          (hash_path (some (entry_path abs_path name)))
          index
        ≡ refuse)
      ⊎ (entry_pair allocates name
            (if is_dir then dt_dir else dt_reg)
            (hash_path (some (entry_path abs_path name)))
            index
          ≡ ok (pair_of abs_path index (name, is_dir)))
entry_pair_cases allocates abs_path name is_dir index =
    rw (entry_path-path_in abs_path name)
      (entry_pair_made allocates name is_dir (hash_path (some (path_in abs_path name))) index)

-- A slot that is free is taken, unless memory runs out.
pub add_entry_cases :
    (allocates : ℕ → Bool) (dir : ShimDir) (name : Bytes) (is_dir : Bool) (front : List EntryPair)
    (b : EntryPair) (rest : List EntryPair) (slot : ℕ)
    → slot ≡ length front
    → (add_entry allocates (holding dir (front ++ (b ∷ rest))) slot name is_dir ≡ refuse)
      ⊎ (add_entry allocates (holding dir (front ++ (b ∷ rest))) slot name is_dir
          ≡ ok (holding dir (front ++ (pair_of dir.abs_path slot (name, is_dir) ∷ rest))))
unfolding add_entry
add_entry_cases allocates dir name is_dir front b rest slot at_end =
    let room : ltb slot (length (front ++ (b ∷ rest))) ≡ true =
      lt→ltb slot _ (omega (arith, length-append front (b ∷ rest))) in
    elim (entry_pair_cases allocates dir.abs_path name is_dir slot) [
      | inl e ↦ inl (rw (room, e) refl)
      | inr e ↦ inr (rw (room, e, at_end, set-middle) refl)
    ]

-- The array behind the loop: the entries of the children that have a name, and slots left over.
pub record Filled (r : Reader) (rel_path json : Bytes) (tokens : List Token) (n idx : ℕ)
    (dir : ShimDir) (front : List EntryPair) (slot : ℕ) (result : Run (ShimDir × ℕ)) : Type 0 where
  pub metas : List RemoteMeta
  pub spare : ℕ
  pub end : ℕ
  pub read : read_children r json tokens n idx ≡ some metas
  pub ends : end ≡ slot + length (listed r.allocates rel_path metas)
  pub is_ok :
      result
      ≡ ok (
        holding dir (
            front
            ++ (pairs_from dir.abs_path slot (listed r.allocates rel_path metas)
                ++ replicate spare blank_pair)),
        end,
      )

pub place_unnamed :
    (allocates : ℕ → Bool) (dir : ShimDir) (slot : ℕ) (name : Option Bytes) (is_dir : Bool)
    → list_name name is_dir [] ≡ []
    → place_entry allocates dir slot name is_dir ≡ ok (dir, slot)
unfolding place_entry
place_unnamed allocates dir slot none is_dir h = refl
place_unnamed allocates dir slot (some []) is_dir h = refl
place_unnamed allocates dir slot (some (c ∷ name)) is_dir h = cc

pub list_unnamed :
    (name : Option Bytes) (is_dir : Bool) (rest : List Listed)
    → list_name name is_dir [] ≡ []
    → list_name name is_dir rest ≡ rest
list_unnamed none is_dir rest h = refl
list_unnamed (some []) is_dir rest h = refl
list_unnamed (some (c ∷ name)) is_dir rest h = cc

pub place_named :
    (allocates : ℕ → Bool) (dir : ShimDir) (c : ℕ) (s : Bytes) (is_dir : Bool)
    (front : List EntryPair) (free slot : ℕ)
    → slot ≡ length front
    → (place_entry allocates
          (holding dir (front ++ replicate (suc free) blank_pair))
          slot
          (some (c ∷ s))
          is_dir
        ≡ refuse)
      ⊎ (place_entry allocates
            (holding dir (front ++ replicate (suc free) blank_pair))
            slot
            (some (c ∷ s))
            is_dir
          ≡ ok (
            holding dir (
                (front ++ (pair_of dir.abs_path slot (c ∷ s, is_dir) ∷ []))
                ++ replicate free blank_pair),
            slot + 1,
          ))
unfolding place_entry
place_named allocates dir c s is_dir front free slot at_end =
    elim (add_entry_cases allocates dir (c ∷ s) is_dir front blank_pair (replicate free blank_pair)
      slot at_end) [ inl e ↦ inl (rw e refl) | inr e ↦ inr (rw (e, append_assoc) refl) ]

-- A name to list, or none.
pub name_cases :
    (name : Option Bytes)
    → ((is_dir : Bool) → list_name name is_dir [] ≡ [])
      ⊎ ((c : ℕ) × (s : Bytes) × (name ≡ some (c ∷ s)))
name_cases none = inl (λ _. refl)
name_cases (some []) = inl (λ _. refl)
name_cases (some (c ∷ s)) = inr (c, s, refl)
