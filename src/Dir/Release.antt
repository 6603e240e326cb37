-- ===== src/Dir/Release.antt =====
-- About `free_dir`: what it gives back of a directory.
use s3ro.Base.{
  ℕ, zero, suc, ◌+◌, ◌≤◌, ◌<◌, some, List, [], ◌∷◌, ◌++◌, length, get_elem?, ◌≡◌, refl, arith,
  append_assoc, length-append,
}
use s3ro.Dir.{
  Dirent, EntryPair, ShimDir, Block, dirent_copy, dirent64_copy, entry_array, abs_path_copy,
  rel_path_copy, dir_node, free_copy, free_entries, free_dir, blank_pair,
}
use s3ro.Run.{ok}

-- All that the entries of an array point to.
abbrev pub copies_from : ℕ → List EntryPair → List Block
copies_from i [] = []
copies_from i (pair ∷ pairs) =
    free_copy (dirent_copy i) pair.d32
    ++ (free_copy (dirent64_copy i) pair.d64 ++ copies_from (i + 1) pairs)

-- All that a directory holds, each block once.
abbrev pub blocks_of_dir : ShimDir → List Block
blocks_of_dir dir =
    copies_from 0 dir.entries ++ (entry_array ∷ abs_path_copy ∷ rel_path_copy ∷ dir_node ∷ [])

-- The first n entries are there.
abbrev pub AreFull : ℕ → List EntryPair → Type 0
AreFull n entries =
    (i : ℕ)
    → i < n
    → (e : Dirent) × (get_elem? entries i ≡ some (record { d32 = some e; d64 = some e }))

-- The others are blank.
abbrev pub AreSpare : ℕ → List EntryPair → Type 0
AreSpare n entries =
    (i : ℕ) (pair : EntryPair) → n ≤ i → get_elem? entries i ≡ some pair → pair ≡ blank_pair

copies_from-spare :
    (i : ℕ) (entries : List EntryPair) → AreSpare 0 entries → copies_from i entries ≡ []
copies_from-spare i [] h = refl
copies_from-spare i (pair ∷ pairs) h =
    rw (h 0 pair (omega arith) refl)
      (copies_from-spare (i + 1) pairs (λ j p le e. h (suc j) p (omega arith) e))

pub get_elem?-middle {ℓ} :
    {A : Type ℓ} (front : List A) (x : A) (rest : List A)
    → get_elem? (front ++ (x ∷ rest)) (length front) ≡ some x
get_elem?-middle [] x rest = refl
get_elem?-middle (y ∷ front) x rest = get_elem?-middle front x rest

pub free_entries-next :
    (n i : ℕ) (entries : List EntryPair) {pair : EntryPair} {freed : List Block}
    → get_elem? entries i ≡ some pair
    → free_entries n (i + 1) entries ≡ ok freed
    → free_entries (suc n) i entries
      ≡ ok (free_copy (dirent_copy i) pair.d32 ++ (free_copy (dirent64_copy i) pair.d64 ++ freed))
unfolding free_entries
free_entries-next n i entries e f = rw (e, f, free_entries) refl

free_entries-all :
    (n i : ℕ) (front rest : List EntryPair)
    → i ≡ length front
    → AreFull n rest
    → AreSpare n rest
    → free_entries n i (front ++ rest) ≡ ok (copies_from i rest)
unfolding free_entries
free_entries-all zero i front rest at full spare = rw (copies_from-spare i rest spare) refl
free_entries-all (suc n) i front [] at full spare = absurd (cc ((full 0 (omega arith)).1))
free_entries-all (suc n) i front (pair ∷ rest) at full spare =
    let moved : (front ++ (pair ∷ [])) ++ rest ≡ front ++ (pair ∷ rest) =
      append_assoc front (pair ∷ []) rest in
    free_entries-next n i (front ++ (pair ∷ rest)) {pair = pair} {freed = copies_from (i + 1) rest}
      (rw at (get_elem?-middle front pair rest))
      (rw (← moved) (
        free_entries-all n (i + 1) (front ++ (pair ∷ [])) rest
          (omega (arith, at, length-append front (pair ∷ []))) (λ j lt. full (suc j) (omega arith))
          (λ j p le e. spare (suc j) p (omega arith) e)))

-- If the entries below the count are there and the others blank, everything is given back.
pub free_dir-all :
    (dir : ShimDir)
    → AreFull dir.count dir.entries
    → AreSpare dir.count dir.entries
    → free_dir dir ≡ ok (blocks_of_dir dir)
unfolding free_dir
free_dir-all dir full spare = rw (free_entries-all dir.count 0 [] dir.entries refl full spare) refl
