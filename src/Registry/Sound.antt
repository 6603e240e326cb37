-- ===== src/Registry/Sound.antt =====
-- About the state of the open directories, and the operations on the list of them.
use s3ro.Base.{
  ℕ, zero, suc, ◌+◌, ◌≤◌, ◌<◌, false, some, List, [], ◌∷◌, ◌++◌, ltb, ◌==◌, get_elem?, length, ◌≡◌,
  refl, arith, Bytes, Bool-cases, inl, inr, replicate,
}
use s3ro.Dir.{Dirent, EntryPair, ShimDir, Reader, blank_pair}
use s3ro.Dir.Release.{AreFull, AreSpare}
use s3ro.Dir.Listing.{Listed, dirent_of, pairs_from}
use s3ro.Dir.Populate.{IsPopulated, whole_listing}
use s3ro.Json.{Token}
use s3ro.Registry.{Ptr, Dirs, register_dir, lookup_dir, unregister_dir, write_dir, next_pair}
use s3ro.Registry.Table.{is_open, Distinct, Distinct-unregister_dir, Distinct-write_dir}

-- The place is inside the entries, each of them has both of its copies, and nothing stands behind
-- them.
pub record IsSound (dir : ShimDir) : Type 0 where
  pub within : dir.index ≤ dir.count
  pub full : AreFull dir.count dir.entries
  pub spare : AreSpare dir.count dir.entries

abbrev pub AllSound : Dirs → Type 0
AllSound [] = Unit
AllSound ((p, dir) ∷ dirs) = IsSound dir × AllSound dirs

-- The state of the list: no node stands twice, and each directory is sound.
abbrev pub IsValid : Dirs → Type 0
IsValid dirs = Distinct dirs × AllSound dirs

get_elem?-pairs_from :
    (abs_path : Bytes) (ls : List Listed) (back : List EntryPair) (k i : ℕ)
    → i < length ls
    → (e : Dirent) × (get_elem? (pairs_from abs_path k ls ++ back) i
        ≡ some (record { d32 = some e; d64 = some e }))
get_elem?-pairs_from abs_path [] back k i lt = absurd (omega arith)
get_elem?-pairs_from abs_path (l ∷ ls) back k zero lt = (dirent_of abs_path k l, refl)
get_elem?-pairs_from abs_path (l ∷ ls) back k (suc i) lt =
    get_elem?-pairs_from abs_path ls back (k + 1) i (omega arith)

get_elem?-replicate :
    (n i : ℕ) (pair : EntryPair)
    → get_elem? (replicate n blank_pair) i ≡ some pair
    → pair ≡ blank_pair
get_elem?-replicate zero i pair h = cc
get_elem?-replicate (suc n) zero pair h = cc
get_elem?-replicate (suc n) (suc i) pair h = get_elem?-replicate n i pair h

pairs_from-spare :
    (abs_path : Bytes) (ls : List Listed) (n k : ℕ)
    → AreSpare (length ls) (pairs_from abs_path k ls ++ replicate n blank_pair)
pairs_from-spare abs_path [] n k i pair le h = get_elem?-replicate n i pair h
pairs_from-spare abs_path (l ∷ ls) n k zero pair le h = absurd (omega arith)
pairs_from-spare abs_path (l ∷ ls) n k (suc i) pair le h =
    pairs_from-spare abs_path ls n (k + 1) i pair (omega arith) h

pub IsSound-IsPopulated :
    {r : Reader} {rel_path json : Bytes} {head : Token} {tokens : List Token} {dir filled : ShimDir}
    → IsPopulated r rel_path json head tokens dir filled
    → IsSound filled
IsSound-IsPopulated {r} {rel_path} {dir} {filled} h =
    let ls = whole_listing r rel_path h.metas in
    record {
      within = omega (arith, h.rewound);
      full =
          λ i lt. rw h.lists (get_elem?-pairs_from dir.abs_path ls _ 0 i (omega (arith, h.counts)));
      spare = rw (h.lists, h.counts) (pairs_from-spare dir.abs_path ls h.spare 0);
    }

-- Another place inside the same entries.
pub IsSound-moved :
    (dir : ShimDir) (n : ℕ) → IsSound dir → n ≤ dir.count → IsSound (record dir { index = n })
IsSound-moved dir n h le = record { within = le; full = h.full; spare = h.spare }

pub IsSound-next_pair : (dir : ShimDir) → IsSound dir → IsSound (next_pair dir).1
unfolding next_pair
IsSound-next_pair dir h = elim (Bool-cases (ltb dir.index dir.count)) [
  | inl more ↦ rw more (IsSound-moved dir (dir.index + 1) h (ground arith))
  | inr last ↦ rw last h
]

AllSound-lookup_dir :
    (p : Ptr) (dirs : Dirs) {dir : ShimDir}
    → AllSound dirs
    → lookup_dir p dirs ≡ some dir
    → IsSound dir
unfolding lookup_dir
AllSound-lookup_dir p [] all h = cc
AllSound-lookup_dir p ((cur, d) ∷ dirs) {dir} all h = elim (Bool-cases (cur == p)) [
  | inl here ↦
      let found : some d ≡ some dir = rw here at h in let same : d ≡ dir = cc in rw (← same) all.0
  | inr there ↦ AllSound-lookup_dir p dirs all.1 (rw there at h)
]

AllSound-write_dir :
    (p : Ptr) (new : ShimDir) (dirs : Dirs)
    → AllSound dirs
    → IsSound new
    → AllSound (write_dir p new dirs)
unfolding write_dir
AllSound-write_dir p new [] all h = tt
AllSound-write_dir p new ((cur, d) ∷ dirs) all h = elim (Bool-cases (cur == p)) [
  | inl here ↦ rw here (h, all.1)
  | inr there ↦ rw there (all.0, AllSound-write_dir p new dirs all.1 h)
]

AllSound-unregister_dir : (p : Ptr) (dirs : Dirs) → AllSound dirs → AllSound (unregister_dir p dirs)
unfolding unregister_dir
AllSound-unregister_dir p [] all = tt
AllSound-unregister_dir p ((cur, d) ∷ dirs) all = elim (Bool-cases (cur == p)) [
  | inl here ↦ rw here all.1
  | inr there ↦ rw there (all.0, AllSound-unregister_dir p dirs all.1)
]

pub IsValid-register_dir :
    (p : Ptr) (dir : ShimDir) (dirs : Dirs)
    → is_open p dirs ≡ false
    → IsSound dir
    → IsValid dirs
    → IsValid (register_dir p dir dirs)
unfolding register_dir
IsValid-register_dir p dir dirs new sound valid = ((new, valid.0), (sound, valid.1))

pub IsValid-write_dir :
    (p : Ptr) (new : ShimDir) (dirs : Dirs)
    → IsSound new
    → IsValid dirs
    → IsValid (write_dir p new dirs)
IsValid-write_dir p new dirs sound valid =
    (Distinct-write_dir p new dirs valid.0, AllSound-write_dir p new dirs valid.1 sound)

pub IsValid-unregister_dir :
    (p : Ptr) (dirs : Dirs) → IsValid dirs → IsValid (unregister_dir p dirs)
IsValid-unregister_dir p dirs valid =
    (Distinct-unregister_dir p dirs valid.0, AllSound-unregister_dir p dirs valid.1)

pub IsValid-lookup_dir :
    (p : Ptr) (dirs : Dirs) {dir : ShimDir}
    → IsValid dirs
    → lookup_dir p dirs ≡ some dir
    → IsSound dir
IsValid-lookup_dir p dirs valid e = AllSound-lookup_dir p dirs valid.1 e
