-- ===== src/Remote/Inodes.antt =====
-- About the inode of a directory entry and the inode that stat reports.
use s3ro.Base.{
  ℕ, ◌-◌, ◌<◌, Bool-cases, ◌⊎◌, inl, inr, str_eq→eq, Bool, false, some, List, [], ◌∷◌, ◌++◌, Bytes,
  codes, length, str_eq, ◌≡◌, refl, sym, ap, ◌∙◌, arith, take-of_le,
}
use s3ro.Dir.{entry_path, Dirent, EntryPair, ShimDir, add_entry}
use s3ro.Dir.Listing.{dirent_of}
use s3ro.Dir.Slots.{entry_path-path_in, holding, add_entry_cases}
use s3ro.Run.{ok, ok-injective}
use s3ro.Hash.{hash_path}
use s3ro.Meta.{Stat, hydrate_stat}
use s3ro.Path.{path_max}
use s3ro.Path.Names.{length-spell-cons, render, IsPlain, ArePlain}
use s3ro.Remote.{remote_stat_path}
use s3ro.Remote.Outcomes.{remote_stat_path-Reported}
use s3ro.World.{World, System, done}

not_dots :
    (name : Bytes)
    → IsPlain name
    → (str_eq name (codes ".") ≡ false) × (str_eq name (codes "..") ≡ false)
not_dots name h = (ground arith, ground arith)

-- Two bytes at least.
not_slash :
    (dir : List Bytes) (name : Bytes)
    → IsPlain name
    → str_eq (render (name ∷ dir)) (codes "/") ≡ false
not_slash dir [] h = cc
not_slash dir (c ∷ s) h = elim (Bool-cases (str_eq (render ((c ∷ s) ∷ dir)) (codes "/"))) [
  | inl same ↦
      let one = ap length (str_eq→eq (render ((c ∷ s) ∷ dir)) (codes "/") same) in
      absurd (omega (arith, one, length-spell-cons (c ∷ s) dir))
  | inr other ↦ other
]

entry_path-child :
    (dir : List Bytes) (name : Bytes)
    → ArePlain dir
    → IsPlain name
    → length (render (name ∷ dir)) < path_max
    → entry_path (render dir) name ≡ render (name ∷ dir)
unfolding entry_path
entry_path-child [] name plain h fits =
    let (here, up) = not_dots name h in
    rw (here, up) (take-of_le (path_max - 1) (b'/' ∷ name) (omega (arith, fits)))
entry_path-child (top ∷ dir) name plain h fits =
    let (here, up) = not_dots name h in
    rw (here, up, not_slash dir top plain.0)
      (take-of_le (path_max - 1) (render (name ∷ top ∷ dir)) (omega (arith, fits)))

entry_path-dots :
    (dir : List Bytes)
    → length (render dir) < path_max
    → (entry_path (render dir) (codes ".") ≡ render dir)
      × (entry_path (render dir) (codes "..") ≡ render dir)
unfolding entry_path
entry_path-dots dir fits =
    let short = take-of_le (path_max - 1) (render dir) (omega (arith, fits)) in (short, short)

-- The inode of every answer is the hash of the path.
stat_ino :
    (sys : System) (abs_path : Bytes) (w : World) {st : Stat} {w' : World}
    → remote_stat_path sys abs_path w ≡ (done st, w')
    → st.ino ≡ hash_path (some abs_path)
unfolding hydrate_stat
stat_ino sys abs_path w h =
    let (meta, _, is_st, _) = remote_stat_path-Reported sys abs_path w h in ap (λ s. s.ino) is_st

-- A slot that was filled holds an entry with this name and this inode in both flavours.
abbrev pub HoldsEntry : ShimDir → List EntryPair → List EntryPair → Bytes → ℕ → Type 0
HoldsEntry dir front rest name ino =
    (d32 : Dirent) × (d64 : Dirent) × (dir.entries
      ≡ front ++ (record { d32 = some d32; d64 = some d64 } ∷ rest))
    × (d32.name ≡ name)
    × (d32.ino ≡ ino)
    × (d64.name ≡ name)
    × (d64.ino ≡ ino)

filled_slot :
    (allocates : ℕ → Bool) (dir : ShimDir) (name : Bytes) (is_dir : Bool) (front : List EntryPair)
    (b : EntryPair) (rest : List EntryPair) {dir' : ShimDir}
    → add_entry allocates (holding dir (front ++ (b ∷ rest))) (length front) name is_dir ≡ ok dir'
    → HoldsEntry dir' front rest name (hash_path (some (entry_path dir.abs_path name)))
filled_slot allocates dir name is_dir front b rest h =
    elim (add_entry_cases allocates dir name is_dir front b rest (length front) refl) [
      | inl full ↦ absurd (cc)
      | inr fine ↦
          let entry = dirent_of dir.abs_path (length front) (name, is_dir) in
          let ino = ap (λ p. hash_path (some p)) (sym (entry_path-path_in dir.abs_path name)) in
          (entry, entry, ap (λ d. d.entries) (ok-injective (sym h ∙ fine)), refl, ino, refl, ino)
    ]

child-ino :
    (sys : System) (w : World) (dir : ShimDir) (names : List Bytes) (name : Bytes) (is_dir : Bool)
    (front : List EntryPair) (b : EntryPair) (rest : List EntryPair) {dir' : ShimDir} {st : Stat}
    {w' : World}
    → dir.abs_path ≡ render names
    → ArePlain names
    → IsPlain name
    → length (render (name ∷ names)) < path_max
    → add_entry sys.allocates (holding dir (front ++ (b ∷ rest))) (length front) name is_dir
      ≡ ok dir'
    → remote_stat_path sys (render (name ∷ names)) w ≡ (done st, w')
    → HoldsEntry dir' front rest name st.ino
child-ino sys w dir names name is_dir front b rest opened plain h fits fills stats =
    let same : entry_path dir.abs_path name ≡ render (name ∷ names) =
      rw opened (entry_path-child names name plain h fits) in
    rw (stat_ino sys (render (name ∷ names)) w stats, ← same)
      (filled_slot sys.allocates dir name is_dir front b rest fills)

dots-ino :
    (sys : System) (w : World) (dir : ShimDir) (names : List Bytes) (name : Bytes) (is_dir : Bool)
    (front : List EntryPair) (b : EntryPair) (rest : List EntryPair) {dir' : ShimDir} {st : Stat}
    {w' : World}
    → dir.abs_path ≡ render names
    → (name ≡ codes ".") ⊎ (name ≡ codes "..")
    → length (render names) < path_max
    → add_entry sys.allocates (holding dir (front ++ (b ∷ rest))) (length front) name is_dir
      ≡ ok dir'
    → remote_stat_path sys (render names) w ≡ (done st, w')
    → HoldsEntry dir' front rest name st.ino
dots-ino sys w dir names name is_dir front b rest opened dots fits fills stats =
    let here : entry_path dir.abs_path name ≡ render names = elim dots [
      | inl e ↦ rw (opened, e) ((entry_path-dots names fits).0)
      | inr e ↦ rw (opened, e) ((entry_path-dots names fits).1)
    ] in
    rw (stat_ino sys (render names) w stats, ← here)
      (filled_slot sys.allocates dir name is_dir front b rest fills)

-- The path whose inode an entry of a directory carries: a name's own, and for "." and ".." that of
-- the directory itself.
abbrev pub InodePath : List Bytes → Bytes → Bytes → Type 0
InodePath names name path =
    (IsPlain name × (path ≡ render (name ∷ names)))
    ⊎ (((name ≡ codes ".") ⊎ (name ≡ codes "..")) × (path ≡ render names))

-- If a directory's path is canonical, add_entry fills a slot under a name, and stat succeeds on
-- the path that fits in the buffer and is that of the name in the directory, where the name is
-- not empty, not "." or ".." and without '/', or of the directory itself, where the name is "."
-- or "..", then both copies of the entry carry the name and the inode that stat reports.
pub add_entry-ino :
    (sys : System) (w : World) (dir : ShimDir) (names : List Bytes) (name path : Bytes)
    (is_dir : Bool) (front : List EntryPair) (b : EntryPair) (rest : List EntryPair)
    {dir' : ShimDir} {st : Stat} {w' : World}
    → dir.abs_path ≡ render names
    → ArePlain names
    → InodePath names name path
    → length path < path_max
    → add_entry sys.allocates (holding dir (front ++ (b ∷ rest))) (length front) name is_dir
      ≡ ok dir'
    → remote_stat_path sys path w ≡ (done st, w')
    → HoldsEntry dir' front rest name st.ino
add_entry-ino sys w dir names name path is_dir front b rest opened plain (inl (h, e)) fits fills
      stats =
    child-ino sys w dir names name is_dir front b rest opened plain h (rw e at fits) fills
      (rw e at stats)
add_entry-ino sys w dir names name path is_dir front b rest opened plain (inr (h, e)) fits fills
      stats =
    dots-ino sys w dir names name is_dir front b rest opened h (rw e at fits) fills (rw e at stats)
