-- ===== src/Registry/Streams.antt =====
-- The abstract view of the open directories: from a handle to the entries of its listing and the
-- place in them. The order of the list, the slots behind the entries and the two copies of an entry
-- are forgotten.
use mathlib.Core.Path.{fun_ext}
use mathlib.Core.Option
use s3ro.Base.{
  ℕ, zero, suc, ◌+◌, ◌≤◌, ◌<◌, Option, none, some, List, [], ◌∷◌, ◌==◌, ltb, if◌then◌else◌, length,
  get_elem?, ◌≡◌, refl, ap, arith, inl, inr, Bool-cases, ==→eq, ltb→lt,
}
use s3ro.Dir.{Dirent, EntryPair, ShimDir}
use s3ro.Dir.Release.{AreFull}
use s3ro.Registry.{
  Ptr, Dirs, register_dir, lookup_dir, unregister_dir, write_dir, dir_next_entry, dir_next_entry64,
}
use s3ro.Registry.Sound.{IsSound}
use s3ro.Registry.Table.{
  Distinct, lookup_dir-register_dir, lookup_dir-unregister_dir, lookup_dir-write_dir,
}

-- A directory that is read: what it lists, and how much of it was read.
pub record Stream : Type 0 where
  pub entries : List Dirent
  pub place : ℕ

abbrev pub Streams : Type 0
Streams = Ptr → Option Stream

-- A function, changed at one handle.
abbrev pub update : Streams → Ptr → Option Stream → Streams
update f p s q = if p == q then s else f q

-- The first entries of an array, by their first copies.
abbrev pub listing : ℕ → List EntryPair → List Dirent
listing zero pairs = []
listing (suc n) [] = []
listing (suc n) (pair ∷ pairs) = elim pair.d32 [
  | none ↦ listing n pairs
  | some e ↦ e ∷ listing n pairs
]

abbrev pub stream : ShimDir → Stream
stream dir = record { entries = listing dir.count dir.entries; place = dir.index }

abbrev pub view : Option ShimDir → Option Stream
view none = none
view (some dir) = some (stream dir)

abbrev pub streams : Dirs → Streams
streams dirs p = view (lookup_dir p dirs)

pub streams-register_dir :
    (p : Ptr) (dir : ShimDir) (dirs : Dirs)
    → streams (register_dir p dir dirs) ≡ update (streams dirs) p (some (stream dir))
streams-register_dir p dir dirs =
    fun_ext λ q. rw (lookup_dir-register_dir p q dir dirs) (ground arith)

pub streams-unregister_dir :
    (p : Ptr) (dirs : Dirs)
    → Distinct dirs
    → streams (unregister_dir p dirs) ≡ update (streams dirs) p none
streams-unregister_dir p dirs h =
    fun_ext λ q. rw (lookup_dir-unregister_dir p q dirs h) (ground arith)

pub streams-write_dir :
    (p : Ptr) (new : ShimDir) (dirs : Dirs) {dir : ShimDir}
    → lookup_dir p dirs ≡ some dir
    → streams (write_dir p new dirs) ≡ update (streams dirs) p (some (stream new))
streams-write_dir p new dirs found = fun_ext λ q. elim (Bool-cases (p == q)) [
  | inl same ↦ rw (lookup_dir-write_dir p q new dirs, same, ← ==→eq p q same, found) refl
  | inr other ↦ rw (lookup_dir-write_dir p q new dirs, other) refl
]

first_full :
    (n : ℕ) (pair : EntryPair) (pairs : List EntryPair)
    → AreFull (suc n) (pair ∷ pairs)
    → (e : Dirent) × (pair ≡ record { d32 = some e; d64 = some e })
first_full n pair pairs h = let (e, at) = h 0 (omega arith) in (e, cc (at))

later_full :
    (n : ℕ) (pair : EntryPair) (pairs : List EntryPair)
    → AreFull (suc n) (pair ∷ pairs)
    → AreFull n pairs
later_full n pair pairs h i lt = h (suc i) (omega arith)

pub length-listing :
    (n : ℕ) (pairs : List EntryPair) → AreFull n pairs → length (listing n pairs) ≡ n
length-listing zero pairs h = refl
length-listing (suc n) [] h = absurd (cc ((h 0 (omega arith)).1))
length-listing (suc n) (pair ∷ pairs) h =
    let (e, whole) = first_full n pair pairs h in
    rw whole (ap suc (length-listing n pairs (later_full n pair pairs h)))

get_elem?-listing :
    (n : ℕ) (pairs : List EntryPair) (i : ℕ)
    → AreFull n pairs
    → i < n
    → (e : Dirent) × (get_elem? pairs i ≡ some (record { d32 = some e; d64 = some e }))
      × (get_elem? (listing n pairs) i ≡ some e)
get_elem?-listing zero pairs i h lt = absurd (omega arith)
get_elem?-listing (suc n) [] i h lt = absurd (cc ((h 0 (omega arith)).1))
get_elem?-listing (suc n) (pair ∷ pairs) zero h lt =
    let (e, whole) = first_full n pair pairs h in (e, ap some whole, rw whole refl)
get_elem?-listing (suc n) (pair ∷ pairs) (suc i) h lt =
    let (e, whole) = first_full n pair pairs h in
    let (e', at, listed) = get_elem?-listing n pairs i (later_full n pair pairs h) (omega arith) in
    (e', at, rw whole listed)

get_elem?-past {ℓ} : {A : Type ℓ} (xs : List A) (i : ℕ) → length xs ≤ i → get_elem? xs i ≡ none
get_elem?-past [] i h = refl
get_elem?-past (x ∷ xs) zero h = absurd (omega (arith, h))
get_elem?-past (x ∷ xs) (suc i) h = get_elem?-past xs i (omega (arith, h))

-- What readdir gives, and where it leaves the place.
abbrev pub next_of : Stream → Option Dirent
next_of s = get_elem? s.entries s.place

abbrev pub advance : Stream → Stream
advance s = if ltb s.place (length s.entries) then record s { place = s.place + 1 } else s

-- The outcome of reading an entry is that of the stream.
abbrev pub Reads : ShimDir → Option Dirent × ShimDir → Type 0
Reads dir r = (r.0 ≡ next_of (stream dir)) × (stream r.1 ≡ advance (stream dir))

pub dir_next_entry-stream :
    (dir : ShimDir)
    → IsSound dir
    → Reads dir (dir_next_entry dir) × Reads dir (dir_next_entry64 dir)
unfolding dir_next_entry dir_next_entry64 mathlib.Core.Option.bind
dir_next_entry-stream dir h =
    let len = length-listing dir.count dir.entries h.full in
    elim (Bool-cases (ltb dir.index dir.count)) [
      | inl more ↦
          let (e, at, listed) =
            get_elem?-listing dir.count dir.entries dir.index h.full
              (ltb→lt dir.index dir.count more) in
          rw (len, more, at, listed) ((refl, refl), (refl, refl))
      | inr last ↦
          let past =
            get_elem?-past (listing dir.count dir.entries) dir.index (ground (arith, len)) in
          rw (len, last, past) ((refl, refl), (refl, refl))
    ]
