-- ===== src/Handlers/Directories/Stream.antt =====
-- Reading a directory of the shim's to its end.
use mathlib.Core.Path.{subst, subst₂}
use s3ro.Base.{
  ℕ, zero, suc, ◌+◌, ◌<◌, true, false, Option, none, some, List, [], ◌∷◌, ◌++◌, ◌≡◌, refl, sym, ap,
  ◌∙◌, arith, ltb, get_elem?, length, lt→ltb, ==_self, append_assoc, length-append, replicate,
  Bytes,
}
use s3ro.Dir.{Dirent, EntryPair, ShimDir, Reader, blank_pair}
use s3ro.Dir.Listing.{Listed, dirent_of, pair_of, pairs_from}
use s3ro.Dir.Populate.{IsPopulated, whole_listing}
use s3ro.Json.{Token}
use s3ro.Handlers.{Answer, answered, delegated, delegated_open, answer, fall_back}
use s3ro.Handlers.Directories.{readdir, with_dir, step_dir}
use s3ro.Registry.{Ptr, Dirs, lookup_dir, write_dir, dir_next_entry}
use s3ro.Registry.Table.{lookup_dir-write_dir}
use s3ro.World.{World, System, Symbol, sym_readdir, M, done}

-- What a program that reads to NULL does with one answer of readdir.
abbrev go_on : Answer (Option Dirent) × World → (World → List Dirent) → List Dirent
go_on (answered (done (some entry)), w) k = entry ∷ k w
go_on (answered _, w) k = []
go_on (delegated _, w) k = []
go_on (delegated_open _ _ _, w) k = []

-- It calls readdir until that gives NULL, a number of times at most.
unfoldable pub read_until_null : System → ℕ → Ptr → World → List Dirent
read_until_null sys zero p w = []
read_until_null sys (suc calls) p w = go_on (readdir sys p w) (read_until_null sys calls p)

-- From index i on, the array has these entries.
abbrev pub Shows : List EntryPair → ℕ → List Dirent → Type 0
Shows entries i [] = Unit
Shows entries i (e ∷ es) =
    (pair : EntryPair) × (get_elem? entries i ≡ some pair)
    × (pair.d32 ≡ some e)
    × Shows entries (i + 1) es

-- What is left to read in a directory.
pub record Remains (dir : ShimDir) (es : List Dirent) : Type 0 where
  pub counts : dir.count ≡ dir.index + length es
  pub shows : Shows dir.entries dir.index es

-- A handle of the shim's is answered by the shim.
pub with_dir-found :
    {A : Type 0} (sys : System) (sym : Symbol) (p : Ptr) (own : ShimDir → M A) (w : World)
    {dir : ShimDir}
    → lookup_dir p w.dirs ≡ some dir
    → with_dir sys sym p own w ≡ answer (own dir w)
with_dir-found sys sym p own w e = rw (e, with_dir)

pub with_dir-lost :
    {A : Type 0} (sys : System) (sym : Symbol) (p : Ptr) (own : ShimDir → M A) (w : World)
    → lookup_dir p w.dirs ≡ none
    → with_dir sys sym p own w ≡ fall_back sys sym w
with_dir-lost sys sym p own w e = rw (e, with_dir)

next_entry :
    (dir : ShimDir) {pair : EntryPair} {e : Dirent}
    → ltb dir.index dir.count ≡ true
    → get_elem? dir.entries dir.index ≡ some pair
    → pair.d32 ≡ some e
    → dir_next_entry dir ≡ (some e, record dir { index = dir.index + 1 })
unfolding dir_next_entry mathlib.Core.Option.bind
next_entry dir more at_index shown = rw (more, at_index) (rw shown refl)

no_entry : (dir : ShimDir) → ltb dir.index dir.count ≡ false → dir_next_entry dir ≡ (none, dir)
unfolding dir_next_entry mathlib.Core.Option.bind
no_entry dir last = rw last refl

readdir-next :
    (sys : System) (p : Ptr) (w : World) (dir : ShimDir) {pair : EntryPair} {e : Dirent}
    → lookup_dir p w.dirs ≡ some dir
    → ltb dir.index dir.count ≡ true
    → get_elem? dir.entries dir.index ≡ some pair
    → pair.d32 ≡ some e
    → readdir sys p w ≡ (
      answered (done (some e)),
      record w { dirs = write_dir p (record dir { index = dir.index + 1 }) w.dirs },
    )
unfolding readdir
readdir-next sys p w dir found more at_index shown =
    with_dir-found sys sym_readdir p (λ d. step_dir p (dir_next_entry d)) w found
    ∙ rw (next_entry dir more at_index shown) refl

readdir-end :
    (sys : System) (p : Ptr) (w : World) (dir : ShimDir)
    → lookup_dir p w.dirs ≡ some dir
    → ltb dir.index dir.count ≡ false
    → readdir sys p w ≡ (answered (done none), record w { dirs = write_dir p dir w.dirs })
unfolding readdir
readdir-end sys p w dir found last =
    with_dir-found sys sym_readdir p (λ d. step_dir p (dir_next_entry d)) w found
    ∙ rw (no_entry dir last) refl

still_found :
    (p : Ptr) (new dir : ShimDir) (dirs : Dirs)
    → lookup_dir p dirs ≡ some dir
    → lookup_dir p (write_dir p new dirs) ≡ some new
still_found p new dir dirs e = lookup_dir-write_dir p p new dirs ∙ rw (==_self p, e) refl

pub read_until_null-Remains :
    (sys : System) (p : Ptr) (es : List Dirent) (calls : ℕ) (w : World) (dir : ShimDir)
    → lookup_dir p w.dirs ≡ some dir
    → Remains dir es
    → length es < calls
    → read_until_null sys calls p w ≡ es
unfolding read_until_null
read_until_null-Remains sys p es zero w dir found r enough = absurd (omega arith)
read_until_null-Remains sys p [] (suc calls) w dir found r enough =
    let last : ltb dir.index dir.count ≡ false = ground (arith, r.counts) in
    rw (readdir-end sys p w dir found last) refl
read_until_null-Remains sys p (e ∷ es) (suc calls) w dir found r enough =
    let (pair, at_index, shown, later) = r.shows in
    let moved = record dir { index = dir.index + 1 } in
    let more : ltb dir.index dir.count ≡ true =
      lt→ltb dir.index dir.count (omega (arith, r.counts)) in
    rw (readdir-next sys p w dir found more at_index shown) (
      ap (◌∷◌ e) (
        read_until_null-Remains sys p es calls (record w { dirs = write_dir p moved w.dirs }) moved
          (still_found p moved dir w.dirs found)
          (record { counts = omega (arith, r.counts); shows = later }) (omega arith)))

-- The entries of a listing, from an index on.
abbrev pub dirents_from : Bytes → ℕ → List Listed → List Dirent
dirents_from abs_path i [] = []
dirents_from abs_path i (l ∷ ls) = dirent_of abs_path i l ∷ dirents_from abs_path (i + 1) ls

get_elem?-middle {ℓ} :
    {A : Type ℓ} (xs : List A) (y : A) (ys : List A) (i : ℕ)
    → i ≡ length xs
    → get_elem? (xs ++ (y ∷ ys)) i ≡ some y
get_elem?-middle [] y ys i e = rw e refl
get_elem?-middle (x ∷ xs) y ys i e = rw e (get_elem?-middle xs y ys (length xs) refl)

Shows-pairs_from :
    (abs_path : Bytes) (ls : List Listed) (front back : List EntryPair) (i : ℕ)
    → i ≡ length front
    → Shows (front ++ (pairs_from abs_path i ls ++ back)) i (dirents_from abs_path i ls)
Shows-pairs_from abs_path [] front back i e = tt
Shows-pairs_from abs_path (l ∷ ls) front back i e = (
  pair_of abs_path i l,
  get_elem?-middle front (pair_of abs_path i l) (pairs_from abs_path (i + 1) ls ++ back) i e,
  refl,
  subst (λ entries. Shows entries (i + 1) (dirents_from abs_path (i + 1) ls))
      (append_assoc front (pair_of abs_path i l ∷ []) (pairs_from abs_path (i + 1) ls ++ back))
      (Shows-pairs_from abs_path ls (front ++ (pair_of abs_path i l ∷ [])) back (i + 1)
        (omega (arith, length-append front (pair_of abs_path i l ∷ [])))),
)

pub length-dirents_from :
    (abs_path : Bytes) (i : ℕ) (ls : List Listed) → length (dirents_from abs_path i ls) ≡ length ls
length-dirents_from abs_path i [] = refl
length-dirents_from abs_path i (l ∷ ls) = ap suc (length-dirents_from abs_path (i + 1) ls)

-- A directory that opendir has filled is read from "." on.
pub Remains-IsPopulated :
    {r : Reader} {rel_path json : Bytes} {head : Token} {tokens : List Token} {dir filled : ShimDir}
    (h : IsPopulated r rel_path json head tokens dir filled)
    → Remains filled (dirents_from dir.abs_path 0 (whole_listing r rel_path h.metas))
Remains-IsPopulated {r} {rel_path} {dir} {filled} h =
    let ls = whole_listing r rel_path h.metas in
    record {
      counts = rw h.rewound (omega (arith, h.counts, length-dirents_from dir.abs_path 0 ls));
      shows =
          subst₂ (λ entries i. Shows entries i (dirents_from dir.abs_path 0 ls)) (sym h.lists)
            (sym h.rewound)
            (Shows-pairs_from dir.abs_path ls [] (replicate h.spare blank_pair) 0 refl);
    }
