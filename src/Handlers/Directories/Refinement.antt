-- ===== src/Handlers/Directories/Refinement.antt =====
-- About any sequence of calls on directories: what a program observes is what the specification in
-- terms of streams allows.
use s3ro.Base.{List, [], ◌∷◌, ◌≡◌, refl}
use s3ro.Handlers.{Answer, answered, delegated, delegated_open}
use s3ro.Handlers.Directories.{
  Copied, read_into, ebadf, opendir, readdir, readdir64, readdir_r, readdir64_r, closedir,
  rewinddir, telldir, seekdir,
}
use s3ro.Handlers.Directories.Observed.{
  Op, opens, reads, reads64, reads_r, reads64_r, closes, rewinds, tells, seeks, Seen, gave, closed,
  rewound, told, sought, on_handle, on_copy, of_opendir, perform, run, AllAllowed,
}
use s3ro.Handlers.Directories.Outcomes.{GivesFresh}
use s3ro.Handlers.Directories.Sequences.{
  Call, calls_opendir, calls_readdir, calls_readdir64, calls_readdir_r, calls_readdir64_r,
  calls_closedir, calls_rewinddir, calls_telldir, calls_seekdir, call-IsValid,
}
use s3ro.Registry.{Ptr}
use s3ro.Registry.Sound.{IsValid}
use s3ro.Registry.Streams.{streams}
use s3ro.World.{World, System, done, failed, crashed}
use s3ro.Handlers.Directories.Fitting.{perform-Fits}

pub on_handle-world :
    {A : Type 0} (p : Ptr) (seen : A → Seen) (r : Answer A × World) → (on_handle p seen r).1 ≡ r.1
on_handle-world p seen (answered (done a), w) = refl
on_handle-world p seen (answered failed, w) = refl
on_handle-world p seen (answered crashed, w) = refl
on_handle-world p seen (delegated _, w) = refl
on_handle-world p seen (delegated_open _ _ _, w) = refl

on_copy-world : (p : Ptr) (r : Answer Copied × World) → (on_copy p r).1 ≡ r.1
on_copy-world p (answered (done (read_into entry)), w) = refl
on_copy-world p (answered (done ebadf), w) = refl
on_copy-world p (answered failed, w) = refl
on_copy-world p (answered crashed, w) = refl
on_copy-world p (delegated _, w) = refl
on_copy-world p (delegated_open _ _ _, w) = refl

of_opendir-world : (r : Answer Ptr × World) → (of_opendir r).1 ≡ r.1
of_opendir-world (answered (done a), w) = refl
of_opendir-world (answered failed, w) = refl
of_opendir-world (answered crashed, w) = refl
of_opendir-world (delegated _, w) = refl
of_opendir-world (delegated_open _ _ _, w) = refl

-- Each call is one of those that keep the state valid.
call_of : (sys : System) (op : Op) (w : World) → Call sys w (perform sys op w).1
unfolding perform
call_of sys (opens path) w = calls_opendir path (of_opendir-world (opendir sys path w))
call_of sys (reads p) w = calls_readdir p (on_handle-world p (gave p) (readdir sys p w))
call_of sys (reads64 p) w = calls_readdir64 p (on_handle-world p (gave p) (readdir64 sys p w))
call_of sys (reads_r p) w = calls_readdir_r p (on_copy-world p (readdir_r sys p w))
call_of sys (reads64_r p) w = calls_readdir64_r p (on_copy-world p (readdir64_r sys p w))
call_of sys (closes p) w = calls_closedir p (on_handle-world p (λ _. closed p) (closedir sys p w))
call_of sys (rewinds p) w =
    calls_rewinddir p (on_handle-world p (λ _. rewound p) (rewinddir sys p w))
call_of sys (tells p) w = calls_telldir p (on_handle-world p (told p) (telldir sys p w))
call_of sys (seeks p loc) w =
    calls_seekdir p loc (on_handle-world p (λ _. sought p loc) (seekdir sys p loc w))

-- If malloc gives an address at which no open directory stands, then whatever program of opendir,
-- readdir, readdir64, readdir_r, readdir64_r, closedir, rewinddir, telldir and seekdir runs from
-- a valid list of open directories, each of its observations is one that streams allow, where a
-- handle stands for a listing and a place in it: a new handle is a free one at its first entry, a
-- read gives the entry at the place and moves on or gives the end, and a call on a handle that
-- stands for none is left to libc and changes nothing; the list is valid at the end; and no call
-- on a handle crashes but readdir_r and readdir64_r where the next entry has a name longer than
-- 255 bytes, which their copy carries behind the caller's struct.
pub run-AllAllowed :
    (sys : System) (ops : List Op) (w : World)
    → GivesFresh sys
    → IsValid w.dirs
    → AllAllowed (run sys ops w).0 (streams w.dirs) (streams (run sys ops w).1.dirs)
      × IsValid (run sys ops w).1.dirs
unfolding run
run-AllAllowed sys [] w new valid = (refl, valid)
run-AllAllowed sys (op ∷ ops) w new valid =
    let w' = (perform sys op w).1 in
    let valid' = call-IsValid sys new (call_of sys op w) valid in
    let (later, last) = run-AllAllowed sys ops w' new valid' in
    ((streams w'.dirs, perform-Fits sys op w new valid, later), last)
