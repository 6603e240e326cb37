-- ===== src/Dir/Leaving/Whole.antt =====
-- About what `populate_directory` leaves behind: it has as many slots as it counts, and `free_dir`
-- gives all of it back.
use s3ro.Base.{
  ℕ, zero, suc, ◌+◌, ◌*◌, Bool, true, Option, none, some, List, [], ◌∷◌, ◌++◌, Bytes, codes, ltb,
  length, length-set, length-replicate, set, replicate, if◌then◌else◌, ◌≡◌, ◌≢◌, inl, inr, refl,
  sym, ap, ◌∙◌, arith, Bool-cases, Option-cases, append_assoc, length-append,
}
use s3ro.Dir.{
  dt_dir, dt_reg, EntryPair, ShimDir, Reader, entry_path, entry_pair, add_entry, relative_name,
  place_entry, populate_directory, is_array, pair_size, blank_pair, free_dir, free_entries,
}
use s3ro.Dir.Populate.{populate_directory-safe}
use s3ro.Dir.Release.{blocks_of_dir, copies_from, free_entries-next, get_elem?-middle}
use s3ro.Hash.{hash_path}
use s3ro.Json.{Token, parse_json_document, parse_object_at}
use s3ro.Run.{Run, ok, refuse, overrun, stuck, stray, within_bounds, >>=-eq-ok, ok-injective}
use s3ro.Dir.Leaving.{left_of, children_left, fill_left, tokens_left, populate_left}

-- The count is that of the slots.
abbrev pub IsWhole : ShimDir → Type 0
IsWhole dir = dir.count ≡ length dir.entries

left_of-IsWhole :
    {A : Type 0} (dir : ShimDir) (r : Run A) (rest : A → ShimDir)
    → IsWhole dir
    → ((a : A) → r ≡ ok a → IsWhole (rest a))
    → IsWhole (left_of dir r rest)
left_of-IsWhole dir (ok a) rest h k = k a refl
left_of-IsWhole dir refuse rest h k = h
left_of-IsWhole dir overrun rest h k = h
left_of-IsWhole dir stuck rest h k = h
left_of-IsWhole dir stray rest h k = h

add_entry-IsWhole :
    (allocates : ℕ → Bool) (dir : ShimDir) (index : ℕ) (name : Bytes) (is_dir : Bool)
    {dir' : ShimDir}
    → add_entry allocates dir index name is_dir ≡ ok dir'
    → IsWhole dir
    → IsWhole dir'
unfolding add_entry
add_entry-IsWhole allocates dir index name is_dir {dir'} h whole =
    let ino = hash_path (some (entry_path dir.abs_path name)) in
    let made = entry_pair allocates name (if is_dir then dt_dir else dt_reg) ino index in
    let put : EntryPair → Run ShimDir =
      λ pair. ok (record dir { entries = set dir.entries index pair }) in
    let (_, _, h1) = >>=-eq-ok (within_bounds (ltb index (length dir.entries))) _ h in
    let (pair, _, h2) = >>=-eq-ok made put h1 in
    let same : record dir { entries = set dir.entries index pair } ≡ dir' = ok-injective h2 in
    rw (← same) (whole ∙ sym (length-set dir.entries index pair))

place_entry-IsWhole :
    (allocates : ℕ → Bool) (dir : ShimDir) (slot : ℕ) (name : Option Bytes) (is_dir : Bool)
    {dir' : ShimDir} {slot' : ℕ}
    → place_entry allocates dir slot name is_dir ≡ ok (dir', slot')
    → IsWhole dir
    → IsWhole dir'
unfolding place_entry
place_entry-IsWhole allocates dir slot none is_dir h whole =
    rw (ap (λ r. r.0) (ok-injective h)) at whole
place_entry-IsWhole allocates dir slot (some []) is_dir h whole =
    rw (ap (λ r. r.0) (ok-injective h)) at whole
place_entry-IsWhole allocates dir slot (some (c ∷ name)) is_dir h whole =
    let next : ShimDir → Run (ShimDir × ℕ) = λ dir'. ok (dir', slot + 1) in
    let (mid, e, f) = >>=-eq-ok (add_entry allocates dir slot (c ∷ name) is_dir) next h in
    rw (ap (λ r. r.0) (ok-injective f)) at
      (add_entry-IsWhole allocates dir slot (c ∷ name) is_dir e whole)

module _ (r : Reader) (rel_path json : Bytes) where
  children_left-IsWhole :
      (tokens : List Token) (n idx : ℕ) (dir : ShimDir) (slot : ℕ)
      → IsWhole dir
      → IsWhole (children_left r rel_path json tokens n idx dir slot)
  unfolding children_left
  children_left-IsWhole tokens zero idx dir slot whole = whole
  children_left-IsWhole tokens (suc n) idx dir slot whole =
      left_of-IsWhole dir (parse_object_at r.g_uid r.g_gid json tokens idx) _ whole
        λ (meta, next) _.
          let name = relative_name r.allocates rel_path meta.path in
          left_of-IsWhole dir (place_entry r.allocates dir slot name meta.is_dir) _ whole
            λ (dir', slot') placed.
              children_left-IsWhole tokens n next dir' slot'
                (place_entry-IsWhole r.allocates dir slot name meta.is_dir placed whole)

  fill_left-IsWhole :
      (dir : ShimDir) (head : Token) (tokens : List Token)
      → dir.count ≡ 0
      → IsWhole (fill_left r rel_path dir json head tokens)
  unfolding fill_left
  fill_left-IsWhole dir head tokens none_yet =
      let total = head.size + 2 in
      let dir0 = record dir { entries = replicate total blank_pair; count = total; index = 0 } in
      let whole : IsWhole dir0 = sym (length-replicate total blank_pair) in
      elim (Bool-cases (r.allocates (total * pair_size))) [
        | inr full ↦ rw full none_yet
        | inl room ↦ rw room (
            left_of-IsWhole dir0 (add_entry r.allocates dir0 0 (codes ".") true) _ whole λ dir1 e.
              let whole1 = add_entry-IsWhole r.allocates dir0 0 (codes ".") true e whole in
              left_of-IsWhole dir1 (add_entry r.allocates dir1 1 (codes "..") true) _ whole1
                λ dir2 f.
                  children_left-IsWhole tokens head.size 1 dir2 2
                    (add_entry-IsWhole r.allocates dir1 1 (codes "..") true f whole1))
      ]

  tokens_left-IsWhole :
      (dir : ShimDir) (count : ℕ) (tokens : List Token)
      → dir.count ≡ 0
      → dir.entries ≡ []
      → IsWhole (tokens_left r rel_path dir json count tokens)
  unfolding tokens_left
  tokens_left-IsWhole dir count [] none_yet empty = rw empty none_yet
  tokens_left-IsWhole dir count (head ∷ tokens) none_yet empty = elim (Bool-cases (ltb count 1)) [
    | inl few ↦ rw (few, empty) none_yet
    | inr some_token ↦ elim (Bool-cases (is_array head.type)) [
      | inl array ↦ rw (some_token, array) (fill_left-IsWhole dir head (head ∷ tokens) none_yet)
      | inr other ↦ rw (some_token, other, empty) none_yet
    ]
  ]

  populate_left-none :
      (dir : ShimDir)
      → parse_json_document r.allocates r.jsmn json ≡ none
      → populate_left r rel_path dir json ≡ dir
  unfolding populate_left
  populate_left-none dir e = rw (e, populate_left) refl

  populate_left-some :
      (dir : ShimDir) {count : ℕ} {tokens : List Token}
      → parse_json_document r.allocates r.jsmn json ≡ some (count, tokens)
      → populate_left r rel_path dir json ≡ tokens_left r rel_path dir json count tokens
  unfolding populate_left
  populate_left-some dir e = rw (e, populate_left) refl

  populate_left-IsWhole :
      (dir : ShimDir)
      → dir.count ≡ 0
      → dir.entries ≡ []
      → IsWhole (populate_left r rel_path dir json)
  populate_left-IsWhole dir none_yet empty =
      elim (Option-cases (parse_json_document r.allocates r.jsmn json)) [
        | inl bad ↦ rw (populate_left-none dir bad, empty) none_yet
        | inr ((count, tokens), e) ↦
            rw (populate_left-some dir e) (tokens_left-IsWhole dir count tokens none_yet empty)
      ]

free_entries-whole :
    (front rest : List EntryPair)
    → free_entries (length rest) (length front) (front ++ rest)
      ≡ ok (copies_from (length front) rest)
unfolding free_entries
free_entries-whole front [] = refl
free_entries-whole front (pair ∷ rest) =
    let moved = append_assoc front (pair ∷ []) rest in
    let next : length (front ++ (pair ∷ [])) ≡ length front + 1 =
      omega (arith, length-append front (pair ∷ [])) in
    free_entries-next (length rest) (length front) (front ++ (pair ∷ rest))
      (get_elem?-middle front pair rest)
      (rw (moved, next) at (free_entries-whole (front ++ (pair ∷ [])) rest))

-- What populate_directory leaves of a new directory, free_dir gives back.
free_dir-populate_left :
    (r : Reader) (rel_path json : Bytes) (dir : ShimDir)
    → dir.count ≡ 0
    → dir.entries ≡ []
    → free_dir (populate_left r rel_path dir json)
      ≡ ok (blocks_of_dir (populate_left r rel_path dir json))
unfolding free_dir
free_dir-populate_left r rel_path json dir none_yet empty =
    let left = populate_left r rel_path dir json in
    rw
      (populate_left-IsWhole r rel_path json dir none_yet empty, free_entries-whole [] left.entries)
      refl

-- Whatever the response, populate_directory on a new directory writes no entry outside the array
-- that it has allocated, its loop ends, and what it leaves in the directory where it fails,
-- free_dir gives back whole, without a read outside the array.
pub populate_directory-free_dir :
    (r : Reader) (rel_path json : Bytes) (dir : ShimDir)
    → dir.count ≡ 0
    → dir.entries ≡ []
    → (populate_directory r rel_path dir json ≢ overrun)
      × (populate_directory r rel_path dir json ≢ stuck)
      × (free_dir (populate_left r rel_path dir json)
          ≡ ok (blocks_of_dir (populate_left r rel_path dir json)))
populate_directory-free_dir r rel_path json dir none_yet empty =
    let (inside, ends) = populate_directory-safe r rel_path json dir in
    (inside, ends, free_dir-populate_left r rel_path json dir none_yet empty)
