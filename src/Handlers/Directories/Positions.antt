-- ===== src/Handlers/Directories/Positions.antt =====
-- About telldir, seekdir and rewinddir: the position in a directory.
use s3ro.Base.{
  ℕ, zero, suc, ◌<◌, true, false, Option, some, ◌≡◌, refl, ap, ◌∙◌, arith, ltb, lt→ltb, ==_self,
}
use s3ro.Base.Int.{pos}
use s3ro.Dir.{ShimDir}
use s3ro.Handlers.{answered}
use s3ro.Handlers.Directories.{readdir, telldir, seekdir, rewinddir, seek_index, step_dir}
use s3ro.Handlers.Directories.Stream.{with_dir-found}
use s3ro.Registry.{Ptr, Dirs, lookup_dir, write_dir, next_pair, dir_next_entry}
use s3ro.Registry.Table.{lookup_dir-write_dir}
use s3ro.World.{World, System, sym_readdir, sym_telldir, sym_seekdir, sym_rewinddir, done, pure}

-- The world behind a number of calls of readdir.
unfoldable pub read_on : System → ℕ → Ptr → World → World
read_on sys zero p w = w
read_on sys (suc calls) p w = read_on sys calls p (readdir sys p w).1

-- The same directory, read up to another place.
abbrev pub SameBut : ShimDir → ShimDir → Type 0
SameBut dir dir' = dir' ≡ record dir { index = dir'.index }

dir_next_entry-SameBut : (dir : ShimDir) → SameBut dir (dir_next_entry dir).1
unfolding dir_next_entry next_pair
dir_next_entry-SameBut dir = ground arith

lookup-write_same :
    (p : Ptr) (new : ShimDir) (dirs : Dirs) {dir : ShimDir}
    → lookup_dir p dirs ≡ some dir
    → lookup_dir p (write_dir p new dirs) ≡ some new
lookup-write_same p new dirs e = lookup_dir-write_dir p p new dirs ∙ rw (==_self p, e) refl

readdir-world :
    (sys : System) (p : Ptr) (w : World) {dir : ShimDir}
    → lookup_dir p w.dirs ≡ some dir
    → (readdir sys p w).1 ≡ record w { dirs = write_dir p (dir_next_entry dir).1 w.dirs }
unfolding readdir
readdir-world sys p w e =
    ap (λ r. r.1) (with_dir-found sys sym_readdir p (λ d. step_dir p (dir_next_entry d)) w e)

-- After reading on, the directory is the same but for its place.
read_on-SameBut :
    (sys : System) (calls : ℕ) (p : Ptr) (w : World) {dir : ShimDir}
    → lookup_dir p w.dirs ≡ some dir
    → (dir' : ShimDir) × (lookup_dir p (read_on sys calls p w).dirs ≡ some dir') × SameBut dir dir'
unfolding read_on
read_on-SameBut sys zero p w {dir} e = (dir, e, refl)
read_on-SameBut sys (suc calls) p w {dir} e =
    let next = (dir_next_entry dir).1 in
    let v : World = record w { dirs = write_dir p next w.dirs } in
    let step : (readdir sys p w).1 ≡ v = readdir-world sys p w e in
    let (dir', found, same) = read_on-SameBut sys calls p v (lookup-write_same p next w.dirs e) in
    let at_place : ShimDir → ShimDir = λ d. record d { index = dir'.index } in
    (
      dir',
      ap (λ u. lookup_dir p (read_on sys calls p u).dirs) step ∙ found,
      same ∙ ap at_place (dir_next_entry-SameBut dir),
    )

seekdir-lookup :
    (sys : System) (p : Ptr) (loc : ℕ) (w : World) {dir : ShimDir}
    → lookup_dir p w.dirs ≡ some dir
    → lookup_dir p (seekdir sys p (pos loc) w).1.dirs ≡ some (seek_index dir (pos loc))
unfolding seekdir
seekdir-lookup sys p loc w {dir} e =
    rw
      (with_dir-found sys sym_seekdir p
        (λ d v. (done tt, record v { dirs = write_dir p (seek_index d (pos loc)) v.dirs })) w e)
      (lookup-write_same p (seek_index dir (pos loc)) w.dirs e)

-- If the handle is one of the shim's and not read to its end, telldir gives the index, and
-- seekdir to it, after any number of calls of readdir, brings the directory back as it was.
pub seekdir-telldir :
    (sys : System) (calls : ℕ) (p : Ptr) (w : World) {dir : ShimDir}
    → lookup_dir p w.dirs ≡ some dir
    → dir.index < dir.count
    → (telldir sys p w ≡ (answered (done dir.index), w))
      × (lookup_dir p (seekdir sys p (pos dir.index) (read_on sys calls p w)).1.dirs ≡ some dir)
unfolding telldir seek_index
seekdir-telldir sys calls p w {dir} e inside =
    let (dir', found, same) = read_on-SameBut sys calls p w e in
    let restore : ShimDir → Option ShimDir = λ d. some (record d { index = dir.index }) in
    let counts : dir'.count ≡ dir.count = ap (λ d. d.count) same in
    let inside' : ltb dir.index dir'.count ≡ true = rw counts (lt→ltb dir.index dir.count inside) in
    (
      with_dir-found sys sym_telldir p (λ d. pure d.index) w e,
      seekdir-lookup sys p dir.index (read_on sys calls p w) found ∙ rw inside' (ap restore same),
    )

rewinddir-lookup :
    (sys : System) (p : Ptr) (w : World) {dir : ShimDir}
    → lookup_dir p w.dirs ≡ some dir
    → lookup_dir p (rewinddir sys p w).1.dirs ≡ some (record dir { index = 0 })
unfolding rewinddir
rewinddir-lookup sys p w {dir} e =
    rw
      (with_dir-found sys sym_rewinddir p
        (λ d v. (done tt, record v { dirs = write_dir p (record d { index = 0 }) v.dirs })) w e)
      (lookup-write_same p (record dir { index = 0 }) w.dirs e)

-- If the handle is one of the shim's and read to its end, telldir gives the number of entries,
-- and seekdir to that, after rewinddir, stays at the first entry.
pub seekdir-rewinddir_end :
    (sys : System) (p : Ptr) (w : World) {dir : ShimDir}
    → lookup_dir p w.dirs ≡ some dir
    → dir.index ≡ dir.count
    → (telldir sys p w ≡ (answered (done dir.count), w))
      × (lookup_dir p (seekdir sys p (pos dir.count) (rewinddir sys p w).1).1.dirs
          ≡ some (record dir { index = 0 }))
unfolding telldir seek_index
seekdir-rewinddir_end sys p w {dir} e at_end =
    let same : ltb dir.count dir.count ≡ false = ground arith in
    (
      with_dir-found sys sym_telldir p (λ d. pure d.index) w e ∙ rw at_end refl,
      seekdir-lookup sys p dir.count (rewinddir sys p w).1 (rewinddir-lookup sys p w e)
          ∙ rw same refl,
    )
