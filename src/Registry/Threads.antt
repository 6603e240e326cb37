-- ===== src/Registry/Threads.antt =====
-- Several threads in `dir_next_entry` on one directory in shim/ldpreload/remotefs_shim.c: its test
-- and its read behind it are two steps, since no lock is held
-- there. The read and the increment in it are one step.
use s3ro.Base.{
  ℕ, zero, suc, ◌+◌, ◌≤◌, ◌<◌, Bool, true, false, Option, none, some, List, [], ◌∷◌, ltb,
  if◌then◌else◌, get_elem?, set, replicate, length, length-set, ◌≡◌, refl, ap, ◌∙◌, arith, ltb→lt,
  lt→ltb,
}
use s3ro.Dir.{EntryPair, ShimDir}
use s3ro.Registry.{next_pair}

-- Whether `dir->index >= dir->count` lets a thread go on to the read.
unfoldable pub passes : ShimDir → Bool
passes dir = ltb dir.index dir.count

-- `dir->entries[dir->index++]`.
unfoldable pub take_entry : ShimDir → Option EntryPair × ShimDir
take_entry dir = (get_elem? dir.entries dir.index, record dir { index = dir.index + 1 })

-- The shared directory, and for each thread whether it stands behind the test.
pub record Shared : Type 0 where
  pub dir : ShimDir
  pub behind : List Bool

-- One thread's step.
pub data Step : Shared → Shared → Type 0 where
  tests :
      (s : Shared) (k : ℕ)
      → get_elem? s.behind k ≡ some false
      → passes s.dir ≡ true
      → Step s (record s { behind = set s.behind k true })
  ends : (s : Shared) (k : ℕ) → get_elem? s.behind k ≡ some false → passes s.dir ≡ false → Step s s
  takes :
      (s : Shared) (k : ℕ)
      → get_elem? s.behind k ≡ some true
      → Step s (record { dir = (take_entry s.dir).1; behind = set s.behind k false })

-- The threads' steps in any order.
pub data Interleaved : Shared → Shared → Type 0 where
  start : (s : Shared) → Interleaved s s
  next : (s t u : Shared) → Interleaved s t → Step t u → Interleaved s u

-- A thread that does both without another in between does what `next_pair` does.
pub next_pair-take_entry :
    (dir : ShimDir) → next_pair dir ≡ (if passes dir then take_entry dir else (none, dir))
unfolding next_pair passes take_entry
next_pair-take_entry dir = refl

-- The number of threads behind the test.
abbrev pub count_behind : List Bool → ℕ
count_behind [] = 0
count_behind (true ∷ bs) = suc (count_behind bs)
count_behind (false ∷ bs) = count_behind bs

count_behind-set-true :
    (bs : List Bool) (k : ℕ)
    → get_elem? bs k ≡ some false
    → count_behind (set bs k true) ≡ suc (count_behind bs)
count_behind-set-true [] k h = cc
count_behind-set-true (true ∷ bs) zero h = cc
count_behind-set-true (false ∷ bs) zero h = refl
count_behind-set-true (true ∷ bs) (suc k) h = ap suc (count_behind-set-true bs k h)
count_behind-set-true (false ∷ bs) (suc k) h = count_behind-set-true bs k h

count_behind-set-false :
    (bs : List Bool) (k : ℕ)
    → get_elem? bs k ≡ some true
    → suc (count_behind (set bs k false)) ≡ count_behind bs
count_behind-set-false [] k h = cc
count_behind-set-false (true ∷ bs) zero h = refl
count_behind-set-false (false ∷ bs) zero h = cc
count_behind-set-false (true ∷ bs) (suc k) h = ap suc (count_behind-set-false bs k h)
count_behind-set-false (false ∷ bs) (suc k) h = count_behind-set-false bs k h

count_behind-le : (bs : List Bool) → count_behind bs ≤ length bs
count_behind-le [] = omega arith
count_behind-le (true ∷ bs) = omega (arith, count_behind-le bs)
count_behind-le (false ∷ bs) = omega (arith, count_behind-le bs)

count_behind-lt :
    (bs : List Bool) (k : ℕ) → get_elem? bs k ≡ some false → count_behind bs < length bs
count_behind-lt bs k h =
    omega
      (arith, count_behind-le (set bs k true), count_behind-set-true bs k h, length-set bs k true)

get_elem?-end {ℓ} : {A : Type ℓ} (xs : List A) (i : ℕ) → length xs ≡ i → get_elem? xs i ≡ none
get_elem?-end [] i h = refl
get_elem?-end (x ∷ xs) zero h = absurd (omega (arith, h))
get_elem?-end (x ∷ xs) (suc i) h = get_elem?-end xs i (omega (arith, h))

-- Where n threads on a directory can be: its entries stay, and the index is not far beyond them.
record Within (n : ℕ) (dir : ShimDir) (s : Shared) : Type 0 where
  threads : length s.behind ≡ n
  count : s.dir.count ≡ dir.count
  entries : s.dir.entries ≡ dir.entries
  bound : s.dir.index + count_behind s.behind < dir.count + n

-- The start of n threads.
abbrev pub idle : ℕ → ShimDir → Shared
idle n dir = record { dir = dir; behind = replicate n false }

length-replicate-false : (n : ℕ) → length (replicate n false) ≡ n
length-replicate-false zero = refl
length-replicate-false (suc n) = ap suc (length-replicate-false n)

count_behind-replicate : (n : ℕ) → count_behind (replicate n false) ≡ 0
count_behind-replicate zero = refl
count_behind-replicate (suc n) = count_behind-replicate n

Within-step : {n : ℕ} {dir : ShimDir} {s t : Shared} → Within n dir s → Step s t → Within n dir t
unfolding passes take_entry
Within-step h (tests s k idle_k more) = record {
  threads = length-set s.behind k true ∙ h.threads;
  count = h.count;
  entries = h.entries;
  bound = omega (
    arith,
    h.count,
    h.threads,
    ltb→lt s.dir.index s.dir.count more,
    count_behind-lt s.behind k idle_k,
    count_behind-set-true s.behind k idle_k,
  );
}
Within-step h (ends s k idle_k last) = h
Within-step h (takes s k behind_k) = record {
  threads = length-set s.behind k false ∙ h.threads;
  count = h.count;
  entries = h.entries;
  bound = omega (arith, h.bound, count_behind-set-false s.behind k behind_k);
}

Within-Interleaved :
    {n : ℕ} {dir : ShimDir} {s t : Shared} → Within n dir s → Interleaved s t → Within n dir t
Within-Interleaved h (start s) = h
Within-Interleaved h (next s t u run step) = Within-step (Within-Interleaved h run) step

-- If n + 1 threads start in dir_next_entry on one directory whose index is at most its count,
-- then however their steps interleave, the index that a thread behind the test reads is below
-- count + n, and the count and the entries are as they were: a single thread stays inside the
-- entries.
pub take_entry-bound :
    (n k : ℕ) (dir : ShimDir) (s : Shared)
    → dir.index ≤ dir.count
    → Interleaved (idle (suc n) dir) s
    → get_elem? s.behind k ≡ some true
    → (s.dir.index < dir.count + n) × (s.dir.count ≡ dir.count) × (s.dir.entries ≡ dir.entries)
take_entry-bound n k dir s le run behind_k =
    let here : Within (suc n) dir s =
      Within-Interleaved
        (record {
          threads = length-replicate-false (suc n);
          count = refl;
          entries = refl;
          bound = omega (arith, le, count_behind-replicate n);
        })
        run in
    (
      omega (arith, here.bound, count_behind-set-false s.behind k behind_k),
      here.count,
      here.entries,
    )

-- One thread is behind the test when the other has read the last entry.
abbrev overtaken : ShimDir → Shared
overtaken dir = record { dir = record dir { index = dir.index + 1 }; behind = false ∷ true ∷ [] }

overtakes : (dir : ShimDir) → dir.index < dir.count → Interleaved (idle 2 dir) (overtaken dir)
unfolding passes take_entry
overtakes dir more =
    let open_test = lt→ltb dir.index dir.count more in
    next _ _ _
      (next _ _ _ (next _ _ _ (start (idle 2 dir)) (tests (idle 2 dir) 0 refl open_test))
        (tests (record { dir = dir; behind = true ∷ false ∷ [] }) 1 refl open_test))
      (takes (record { dir = dir; behind = true ∷ true ∷ [] }) 0 refl)

-- If one entry is left of an array without spare slots, two threads in dir_next_entry can
-- interleave so that the second reads behind the end of the array.
pub take_entry-outside :
    (dir : ShimDir)
    → dir.index + 1 ≡ dir.count
    → length dir.entries ≡ dir.count
    → (s : Shared) × Interleaved (idle 2 dir) s
      × (get_elem? s.behind 1 ≡ some true)
      × ((take_entry s.dir).0 ≡ none)
unfolding take_entry
take_entry-outside dir last full = (
  overtaken dir,
  overtakes dir (omega (arith, last)),
  refl,
  get_elem?-end dir.entries (dir.index + 1) (omega (arith, last, full)),
)
