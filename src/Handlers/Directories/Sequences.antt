-- ===== src/Handlers/Directories/Sequences.antt =====
-- About sequences of calls: the state of the open directories that they lead to.
use s3ro.Base.{
  none, some, length, ltb, List, ℕ, Option, [], Bytes, ◌≡◌, refl, sym, arith, Bool-cases,
  Option-cases, inl, inr,
}
use s3ro.Base.Int.{ℤ, pos, negsuc}
use s3ro.Dir.{Block, free_dir, Dirent, ShimDir}
use s3ro.Handlers.{Answer, answered, delegated, delegated_open}
use s3ro.Handlers.Directories.{
  Copied, or_ebadf, released, remote_opendir, opendir_at, opendir, with_dir, step_dir, d_name_size,
  copy_out, readdir, readdir64, readdir_r, readdir64_r, closedir, rewinddir, telldir, seek_index,
  seekdir, dirfd,
}
use s3ro.Handlers.Directories.Outcomes.{GivesFresh, OpenOutcome-IsValid, remote_opendir-OpenOutcome}
use s3ro.Path.{Located, path_within_root}
use s3ro.Registry.{
  unregister_dir, Ptr, Dirs, lookup_dir, write_dir, dir_next_entry, dir_next_entry64, next_pair,
}
use s3ro.Registry.Sound.{
  IsSound, IsValid, IsSound-moved, IsSound-next_pair, IsValid-write_dir, IsValid-unregister_dir,
  IsValid-lookup_dir,
}
use s3ro.Run.{Run, ok, refuse, overrun, stuck, stray}
use s3ro.World.{
  World, System, Reply, done, failed, crashed, Symbol, sym_readdir, sym_readdir64, sym_readdir_r,
  sym_readdir64_r, sym_closedir, sym_rewinddir, sym_telldir, sym_seekdir, sym_dirfd, enotsup, pure,
  fail, done, M,
}

released-dirs : (r : Run (List Block)) (w : World) → (released r w).1.dirs ≡ w.dirs
released-dirs (ok freed) w = refl
released-dirs refuse w = refl
released-dirs overrun w = refl
released-dirs stuck w = refl
released-dirs stray w = refl

copy_out-world : (r : Reply (Option Dirent) × World) → (copy_out r).1 ≡ r.1
copy_out-world (done none, w) = refl
copy_out-world (failed, w) = refl
copy_out-world (crashed, w) = refl
copy_out-world (done (some entry), w) = elim (Bool-cases (ltb (length entry.name) d_name_size)) [
  | inl fits ↦ rw fits refl
  | inr long ↦ rw long refl
]

or_ebadf-world : (r : Answer Copied × World) → (or_ebadf r).1 ≡ r.1
or_ebadf-world (answered failed, w) = refl
or_ebadf-world (answered (done c), w) = refl
or_ebadf-world (answered crashed, w) = refl
or_ebadf-world (delegated sym, w) = refl
or_ebadf-world (delegated_open sym flags mode, w) = refl

module _ (sys : System) (new : GivesFresh sys) where
  opendir_at-IsValid :
      (r : Run Located) (w : World) → IsValid w.dirs → IsValid (opendir_at sys r w).1.dirs
  unfolding opendir_at
  opendir_at-IsValid (ok l) w valid =
      OpenOutcome-IsValid sys w (remote_opendir sys l w) new (remote_opendir-OpenOutcome sys l w)
        valid
  opendir_at-IsValid refuse w valid = valid
  opendir_at-IsValid overrun w valid = valid
  opendir_at-IsValid stuck w valid = valid
  opendir_at-IsValid stray w valid = valid

  with_dir-IsValid :
      {A : Type 0} (sym : Symbol) (p : Ptr) (own : ShimDir → M A) (w : World)
      → IsValid w.dirs
      → ((dir : ShimDir) → IsSound dir → IsValid (own dir w).1.dirs)
      → IsValid (with_dir sys sym p own w).1.dirs
  with_dir-IsValid sym p own w valid keeps = elim (Option-cases (lookup_dir p w.dirs)) [
    | inl lost ↦ rw (lost, with_dir) valid
    | inr (dir, found) ↦ rw (found, with_dir) (keeps dir (IsValid-lookup_dir p w.dirs valid found))
  ]

  -- The functions of the readdir family.
  reads-IsValid :
      (sym : Symbol) (p : Ptr) (entry_of : ShimDir → Option Dirent) (w : World)
      → IsValid w.dirs
      → IsValid (with_dir sys sym p (λ dir. step_dir p (entry_of dir, (next_pair dir).1)) w).1.dirs
  reads-IsValid sym p entry_of w valid =
      with_dir-IsValid sym p (λ dir. step_dir p (entry_of dir, (next_pair dir).1)) w valid
        (λ dir sound.
          IsValid-write_dir p (next_pair dir).1 w.dirs (IsSound-next_pair dir sound) valid)

  copies-IsValid :
      (sym : Symbol) (p : Ptr) (entry_of : ShimDir → Option Dirent) (w : World)
      → IsValid w.dirs
      → IsValid
          (or_ebadf (
            with_dir sys sym p
              (λ dir v. copy_out (step_dir p (entry_of dir, (next_pair dir).1) v))
              w)).1.dirs
  copies-IsValid sym p entry_of w valid =
      rw
        (or_ebadf-world (
          with_dir sys sym p (λ dir v. copy_out (step_dir p (entry_of dir, (next_pair dir).1) v))
            w))
        (with_dir-IsValid sym p (λ dir v. copy_out (step_dir p (entry_of dir, (next_pair dir).1) v))
          w valid
          (λ dir sound.
            rw (copy_out-world (step_dir p (entry_of dir, (next_pair dir).1) w))
              (IsValid-write_dir p (next_pair dir).1 w.dirs (IsSound-next_pair dir sound) valid)))

  -- The functions that only change the list.
  changes-IsValid :
      (sym : Symbol) (p : Ptr) (change : ShimDir → Dirs → Dirs) (w : World)
      → IsValid w.dirs
      → ((dir : ShimDir) → IsSound dir → IsValid (change dir w.dirs))
      → IsValid
          (with_dir {A = Unit {0}} sys sym p
            (λ dir v. (done tt, record v { dirs = change dir v.dirs }))
            w).1.dirs
  changes-IsValid sym p change w valid keeps =
      with_dir-IsValid {A = Unit {0}} sym p
        (λ dir v. (done tt, record v { dirs = change dir v.dirs })) w valid keeps

  seek_index-IsSound : (dir : ShimDir) (loc : ℤ) → IsSound dir → IsSound (seek_index dir loc)
  unfolding seek_index
  seek_index-IsSound dir (negsuc n) sound = sound
  seek_index-IsSound dir (pos n) sound = elim (Bool-cases (ltb n dir.count)) [
    | inl inside ↦ rw inside (IsSound-moved dir n sound (ground arith))
    | inr past ↦ rw past sound
  ]

-- One call that a program makes. `elsewhere` is any call that leaves the list alone.
pub data Call (sys : System) (w : World) (u : World) : Type 0 where
  calls_opendir : (path : Option Bytes) → u ≡ (opendir sys path w).1 → Call sys w u
  calls_readdir : (p : Ptr) → u ≡ (readdir sys p w).1 → Call sys w u
  calls_readdir64 : (p : Ptr) → u ≡ (readdir64 sys p w).1 → Call sys w u
  calls_readdir_r : (p : Ptr) → u ≡ (readdir_r sys p w).1 → Call sys w u
  calls_readdir64_r : (p : Ptr) → u ≡ (readdir64_r sys p w).1 → Call sys w u
  calls_closedir : (p : Ptr) → u ≡ (closedir sys p w).1 → Call sys w u
  calls_rewinddir : (p : Ptr) → u ≡ (rewinddir sys p w).1 → Call sys w u
  calls_telldir : (p : Ptr) → u ≡ (telldir sys p w).1 → Call sys w u
  calls_seekdir : (p : Ptr) (loc : ℤ) → u ≡ (seekdir sys p loc w).1 → Call sys w u
  calls_dirfd : (p : Ptr) → u ≡ (dirfd sys p w).1 → Call sys w u
  elsewhere : u.dirs ≡ w.dirs → Call sys w u

-- From a process that has opened no directory yet.
pub data Reachable (sys : System) : World → Type 0 where
  at_start : (w : World) → w.dirs ≡ [] → Reachable sys w
  then_call : {w u : World} → Reachable sys w → Call sys w u → Reachable sys u

module _ (sys : System) (new : GivesFresh sys) where
  pub call-IsValid : {w u : World} → Call sys w u → IsValid w.dirs → IsValid u.dirs
  unfolding opendir readdir readdir64 readdir_r readdir64_r closedir rewinddir telldir seekdir dirfd
      dir_next_entry dir_next_entry64
  call-IsValid {w} (calls_opendir path e) valid =
      rw e (opendir_at-IsValid sys new (path_within_root sys.process path) w valid)
  call-IsValid {w} (calls_readdir p e) valid =
      rw e (reads-IsValid sys new sym_readdir p (λ d. (dir_next_entry d).0) w valid)
  call-IsValid {w} (calls_readdir64 p e) valid =
      rw e (reads-IsValid sys new sym_readdir64 p (λ d. (dir_next_entry64 d).0) w valid)
  call-IsValid {w} (calls_readdir_r p e) valid =
      rw e (copies-IsValid sys new sym_readdir_r p (λ d. (dir_next_entry d).0) w valid)
  call-IsValid {w} (calls_readdir64_r p e) valid =
      rw e (copies-IsValid sys new sym_readdir64_r p (λ d. (dir_next_entry64 d).0) w valid)
  call-IsValid {w} (calls_closedir p e) valid = rw e (
      with_dir-IsValid sys new sym_closedir p
        (λ dir v. released (free_dir dir) (record v { dirs = unregister_dir p v.dirs })) w valid
        (λ dir sound. rw (released-dirs (free_dir dir) _) (IsValid-unregister_dir p w.dirs valid)))
  call-IsValid {w} (calls_rewinddir p e) valid = rw e (
      changes-IsValid sys new sym_rewinddir p (λ d. write_dir p (record d { index = 0 })) w valid
        (λ dir sound.
          IsValid-write_dir p (record dir { index = 0 }) w.dirs
            (IsSound-moved dir 0 sound (omega arith)) valid))
  call-IsValid {w} (calls_telldir p e) valid =
      rw e (
        with_dir-IsValid sys new sym_telldir p (λ dir. pure dir.index) w valid (λ dir sound. valid))
  call-IsValid {w} (calls_seekdir p loc e) valid = rw e (
      changes-IsValid sys new sym_seekdir p (λ d. write_dir p (seek_index d loc)) w valid
        (λ dir sound.
          IsValid-write_dir p (seek_index dir loc) w.dirs (seek_index-IsSound sys new dir loc sound)
            valid))
  call-IsValid {w} (calls_dirfd p e) valid = rw e (
      with_dir-IsValid sys new sym_dirfd p (λ _. fail {A = ℕ} enotsup) w valid (λ dir sound. valid))
  call-IsValid (elsewhere e) valid = rw e valid

  -- If malloc gives an address at which no open directory stands, then after any sequence of
  -- calls of the directory functions from a process that has opened none, no address stands twice
  -- in the list of open directories, the index of each is at most its count, each entry below the
  -- count is there in both of its copies, and every slot behind them is blank.
  pub Reachable-IsValid : {w : World} → Reachable sys w → IsValid w.dirs
  Reachable-IsValid (at_start w e) = rw e (tt, tt)
  Reachable-IsValid (then_call before call) = call-IsValid call (Reachable-IsValid before)
