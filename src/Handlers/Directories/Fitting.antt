-- ===== src/Handlers/Directories/Fitting.antt =====
-- About one call on directories: what a program sees of it is what streams allow.
use s3ro.Base.{
  length, arith, Option, none, some, ltb, ◌≡◌, refl, sym, ap, ◌∙◌, inl, inr, Bool-cases,
  Option-cases,
}
use s3ro.Base.Int.{ℤ, pos, negsuc}
use s3ro.Dir.{Dirent, ShimDir, free_dir}
use s3ro.Dir.Release.{free_dir-all}
use s3ro.Handlers.{answer, fall_back}
use s3ro.Handlers.Directories.{
  with_dir, step_dir, d_name_size, copy_out, or_ebadf, released, opendir_at, remote_opendir,
  opendir, readdir, readdir64, readdir_r, readdir64_r, closedir, rewinddir, telldir, seek_index,
  seekdir,
}
use s3ro.Handlers.Directories.Observed.{
  Op, opens, reads, reads64, reads_r, reads64_r, closes, rewinds, tells, seeks, Seen, not_opened,
  gave, foreign, closed, rewound, told, sought, on_handle, on_copy, of_opendir, perform, move_to,
  Allowed,
}
use s3ro.Handlers.Directories.Outcomes.{GivesFresh, OpenOutcome, remote_opendir-OpenOutcome}
use s3ro.Handlers.Directories.Stream.{with_dir-found, with_dir-lost}
use s3ro.Path.{Located, path_within_root}
use s3ro.Registry.{
  Ptr, Dirs, lookup_dir, unregister_dir, write_dir, dir_next_entry, dir_next_entry64,
}
use s3ro.Registry.Sound.{IsSound, IsValid, IsValid-lookup_dir}
use s3ro.Registry.Table.{lookup_closed}
use s3ro.Registry.Streams.{
  Stream, stream, streams, view, Reads, update, advance, streams-register_dir,
  streams-unregister_dir, streams-write_dir, dir_next_entry-stream, length-listing,
}
use s3ro.Run.{Run, ok, refuse, overrun, stuck, stray}
use s3ro.World.{
  World, System, Symbol, Reply, done, failed, crashed, M, pure, sym_readdir, sym_readdir64,
  sym_readdir_r, sym_readdir64_r, sym_closedir, sym_rewinddir, sym_telldir, sym_seekdir,
  sym_opendir,
}

-- What was seen is allowed between the streams before and behind.
abbrev pub Fits : World → Seen × World → Type 0
Fits w r = Allowed r.0 (streams w.dirs) (streams r.1.dirs)

fall_back-foreign :
    {A : Type 0} (sys : System) (sym : Symbol) (p : Ptr) (seen : A → Seen) (w : World)
    → on_handle p seen (fall_back sys sym w) ≡ (foreign p, w)
fall_back-foreign sys sym p seen w = elim (Bool-cases (sys.resolved sym)) [
  | inl there ↦ rw there refl
  | inr missing ↦ rw missing refl
]

handle-Fits :
    {A : Type 0} (sys : System) (sym : Symbol) (p : Ptr) (own : ShimDir → M A) (seen : A → Seen)
    (w : World)
    → ((dir : ShimDir)
        → lookup_dir p w.dirs ≡ some dir
        → Fits w (on_handle p seen (answer (own dir w))))
    → Fits w (on_handle p seen (with_dir sys sym p own w))
handle-Fits sys sym p own seen w ours = elim (Option-cases (lookup_dir p w.dirs)) [
  | inr (dir, found) ↦ rw (with_dir-found sys sym p own w found) (ours dir found)
  | inl lost ↦
      rw (with_dir-lost sys sym p own w lost, fall_back-foreign sys sym p seen w)
        (ap view lost, refl)
]

-- A call that changes a directory of the shim's.
write-streams :
    (p : Ptr) (new : ShimDir) (dirs : Dirs) (s : Stream) {dir : ShimDir}
    → lookup_dir p dirs ≡ some dir
    → stream new ≡ s
    → streams (write_dir p new dirs) ≡ update (streams dirs) p (some s)
write-streams p new dirs s found shows =
    streams-write_dir p new dirs found ∙ ap (λ t. update (streams dirs) p (some t)) shows

step-Fits :
    (p : Ptr) (w : World) (dir : ShimDir) (r : Option Dirent × ShimDir)
    → lookup_dir p w.dirs ≡ some dir
    → Reads dir r
    → Fits w (on_handle p (gave p) (answer (step_dir p r w)))
step-Fits p w dir r found h =
    (stream dir, ap view found, h.0, write-streams p r.1 w.dirs (advance (stream dir)) found h.1)

fall_back-foreign_copy :
    (sys : System) (sym : Symbol) (p : Ptr) (w : World)
    → on_copy p (or_ebadf (fall_back sys sym w)) ≡ (foreign p, w)
fall_back-foreign_copy sys sym p w = elim (Bool-cases (sys.resolved sym)) [
  | inl there ↦ rw there refl
  | inr missing ↦ rw missing refl
]

copied-Fits :
    (p : Ptr) (w : World) (dir : ShimDir) (entry : Option Dirent) (moved : ShimDir)
    → lookup_dir p w.dirs ≡ some dir
    → Reads dir (entry, moved)
    → Fits w (on_copy p (or_ebadf (answer (copy_out (step_dir p (entry, moved) w)))))
copied-Fits p w dir none moved found h = step-Fits p w dir (none, moved) found h
copied-Fits p w dir (some entry) moved found h =
    elim (Bool-cases (ltb (length entry.name) d_name_size)) [
      | inl fits ↦ rw fits (step-Fits p w dir (some entry, moved) found h)
      | inr long ↦ rw long (
        stream dir,
        ap view found,
        (entry, sym h.0, ground arith),
        write-streams p moved w.dirs (advance (stream dir)) found h.1,
      )
    ]

copy-Fits :
    (sys : System) (sym : Symbol) (p : Ptr) (next : ShimDir → Option Dirent × ShimDir) (w : World)
    → ((dir : ShimDir) → lookup_dir p w.dirs ≡ some dir → Reads dir (next dir))
    → Fits w
        (on_copy p (or_ebadf (with_dir sys sym p (λ dir v. copy_out (step_dir p (next dir) v)) w)))
copy-Fits sys symbol p next w stream_reads = elim (Option-cases (lookup_dir p w.dirs)) [
  | inr (dir, found) ↦
      rw (with_dir-found sys symbol p (λ dir v. copy_out (step_dir p (next dir) v)) w found)
        (copied-Fits p w dir (next dir).0 (next dir).1 found (stream_reads dir found))
  | inl lost ↦
      rw
        (
          with_dir-lost sys symbol p (λ dir v. copy_out (step_dir p (next dir) v)) w lost,
          fall_back-foreign_copy sys symbol p w,
        )
        (ap view lost, refl)
]

seek_index-stream :
    (dir : ShimDir) (loc : ℤ) → IsSound dir → stream (seek_index dir loc) ≡ move_to (stream dir) loc
unfolding seek_index
seek_index-stream dir (negsuc n) h = refl
seek_index-stream dir (pos n) h =
    rw (length-listing dir.count dir.entries h.full) (elim (Bool-cases (ltb n dir.count)) [
      | inl inside ↦ rw inside refl
      | inr past ↦ rw past refl
    ])

opendir-Fits :
    (sys : System) (w : World) (r : Reply Ptr × World)
    → GivesFresh sys
    → OpenOutcome sys w r
    → Fits w (of_opendir (answer r))
opendir-Fits sys w (done p, v) new (filled, sound, at_start, at, same) = (
  (stream filled).entries,
  rw at (ap view (lookup_closed (sys.fresh w.dirs) w.dirs (new w.dirs))),
  ap streams same
      ∙ streams-register_dir p filled w.dirs
      ∙ ap
          (λ n.
            update (streams w.dirs) p
              (some (record { entries = (stream filled).entries; place = n })))
          at_start,
)
opendir-Fits sys w (failed, v) new same = ap streams same
opendir-Fits sys w (crashed, v) new same = ap streams same

of_opendir-foreign :
    (sys : System) (w : World) → of_opendir (fall_back sys sym_opendir w) ≡ (not_opened, w)
of_opendir-foreign sys w = elim (Bool-cases (sys.resolved sym_opendir)) [
  | inl there ↦ rw there refl
  | inr missing ↦ rw missing refl
]

opendir_at-Fits :
    (sys : System) (r : Run Located) (w : World)
    → GivesFresh sys
    → Fits w (of_opendir (opendir_at sys r w))
unfolding opendir_at
opendir_at-Fits sys (ok l) w new =
    opendir-Fits sys w (remote_opendir sys l w) new (remote_opendir-OpenOutcome sys l w)
opendir_at-Fits sys refuse w new = rw (of_opendir-foreign sys w) refl
opendir_at-Fits sys overrun w new = rw (of_opendir-foreign sys w) refl
opendir_at-Fits sys stuck w new = rw (of_opendir-foreign sys w) refl
opendir_at-Fits sys stray w new = rw (of_opendir-foreign sys w) refl

pub perform-Fits :
    (sys : System) (op : Op) (w : World)
    → GivesFresh sys
    → IsValid w.dirs
    → Fits w (perform sys op w)
unfolding perform opendir readdir readdir64 readdir_r readdir64_r closedir rewinddir telldir seekdir
perform-Fits sys (opens path) w new valid =
    opendir_at-Fits sys (path_within_root sys.process path) w new
perform-Fits sys (reads p) w new valid =
    handle-Fits sys sym_readdir p (λ d. step_dir p (dir_next_entry d)) (gave p) w
      λ dir found.
        step-Fits p w dir (dir_next_entry dir) found
          (dir_next_entry-stream dir (IsValid-lookup_dir p w.dirs valid found)).0
perform-Fits sys (reads64 p) w new valid =
    handle-Fits sys sym_readdir64 p (λ d. step_dir p (dir_next_entry64 d)) (gave p) w
      λ dir found.
        step-Fits p w dir (dir_next_entry64 dir) found
          (dir_next_entry-stream dir (IsValid-lookup_dir p w.dirs valid found)).1
perform-Fits sys (reads_r p) w new valid =
    copy-Fits sys sym_readdir_r p dir_next_entry w
      λ dir found. (dir_next_entry-stream dir (IsValid-lookup_dir p w.dirs valid found)).0
perform-Fits sys (reads64_r p) w new valid =
    copy-Fits sys sym_readdir64_r p dir_next_entry64 w
      λ dir found. (dir_next_entry-stream dir (IsValid-lookup_dir p w.dirs valid found)).1
perform-Fits sys (closes p) w new valid =
    handle-Fits sys sym_closedir p
      (λ d v. released (free_dir d) (record v { dirs = unregister_dir p v.dirs })) (λ _. closed p) w
      λ dir found.
        let sound = IsValid-lookup_dir p w.dirs valid found in
        rw (free_dir-all dir sound.full sound.spare)
          (stream dir, ap view found, streams-unregister_dir p w.dirs valid.0)
perform-Fits sys (rewinds p) w new valid =
    handle-Fits sys sym_rewinddir p
      (λ d v. (done tt, record v { dirs = write_dir p (record d { index = 0 }) v.dirs }))
      (λ _. rewound p) w
      λ dir found.
        (stream dir, ap view found, streams-write_dir p (record dir { index = 0 }) w.dirs found)
perform-Fits sys (tells p) w new valid =
    handle-Fits sys sym_telldir p (λ d. pure d.index) (told p) w
      λ dir found. (stream dir, ap view found, refl, refl)
perform-Fits sys (seeks p loc) w new valid =
    handle-Fits sys sym_seekdir p
      (λ d v. (done tt, record v { dirs = write_dir p (seek_index d loc) v.dirs }))
      (λ _. sought p loc) w
      λ dir found. (
        stream dir,
        ap view found,
        write-streams p (seek_index dir loc) w.dirs (move_to (stream dir) loc) found
            (seek_index-stream dir loc (IsValid-lookup_dir p w.dirs valid found)),
      )
