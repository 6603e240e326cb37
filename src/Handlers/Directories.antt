-- ===== src/Handlers/Directories.antt =====
-- The directory functions that shim/ldpreload/remotefs_shim.c puts in front of libc's. A DIR* that
-- is not in the shim's list is libc's own.
pub mod Stream
pub mod Opening
pub mod Sequences
pub mod Positions
pub mod Closing
pub mod Outcomes
pub mod Failing
pub mod Ending
pub mod Progress
pub mod Observed
pub mod Fitting
pub mod Refinement
use s3ro.Base.{length, List, ℕ, Option, none, some, [], Bytes, codes, ltb, if◌then◌else◌}
use s3ro.Base.Int.{ℤ, pos, negsuc}
use s3ro.Dir.{Block, free_dir, Dirent, ShimDir, Reader, populate_directory, copied}
use s3ro.Dir.Leaving.{populate_left}
use s3ro.Http.{Buffer, fetch_json}
use s3ro.Path.{Located, path_within_root}
use s3ro.Registry.{
  Ptr, register_dir, lookup_dir, unregister_dir, write_dir, dir_next_entry, dir_next_entry64,
}
use s3ro.Remote.{check_status}
use s3ro.Run.{Run, ok, refuse}
use s3ro.World.{
  System, Symbol, sym_opendir, sym_readdir, sym_readdir64, sym_readdir_r, sym_readdir64_r,
  sym_closedir, sym_rewinddir, sym_telldir, sym_seekdir, sym_dirfd, eio, enomem, enotsup, done,
  Reply, World, failed, crashed, M, ◌>>=◌, ◌>>◌, pure, fail,
}
use s3ro.Handlers.{Answer, answered, delegated, delegated_open, Handler, answer, fall_back}

abbrev pub reader_of : System → Reader
reader_of sys = record {
  allocates = sys.allocates;
  jsmn = sys.jsmn;
  g_uid = sys.g_uid;
  g_gid = sys.g_gid;
}

-- `sizeof(struct shim_dir)`.
abbrev pub shim_dir_size : ℕ
shim_dir_size = 48

-- The new directory, with its copies of the two paths; `none` is ENOMEM.
pub new_dir : System → Located → Option ShimDir
new_dir sys l =
    if sys.allocates shim_dir_size
    then (elim (copied sys.allocates l.abs) [
      | none ↦ none
      | some abs_path ↦ elim (copied sys.allocates l.rel) [
        | none ↦ none
        | some rel_path ↦ some (record {
          count = 0;
          index = 0;
          abs_path = abs_path;
          rel_path = rel_path;
          entries = [];
        })
      ]
    ])
    else none

-- `free_dir`, `errno = EIO`, `return NULL`; a read outside the array of entries is a crash.
pub give_up : Run (List Block) → M Ptr
give_up (ok freed) w = (failed, record w { errno = eio })
give_up _ w = (crashed, w)

-- `register_dir` on a directory that could be filled; another one, as it was left, is freed.
pub seed : System → (left : ShimDir) → Run ShimDir → M Ptr
unfolding give_up
seed sys left (ok filled) w =
    let p = sys.fresh w.dirs in (done p, record w { dirs = register_dir p filled w.dirs })
seed sys left refuse w = give_up (free_dir left) w
seed sys left _ w = (crashed, w)

-- From the response on; `strlen` crashes at a body that was never written.
pub seed_response : System → Located → Option ShimDir → Option Bytes → M Ptr
unfolding seed
seed_response sys l none content w = (failed, record w { errno = enomem })
seed_response sys l (some dir) none w = (crashed, w)
seed_response sys l (some dir) (some json) w =
    let r = reader_of sys in
    seed sys (populate_left r l.rel dir json) (populate_directory r l.rel dir json) w

pub remote_opendir : System → Located → M Ptr
unfolding seed_response new_dir
remote_opendir sys l = do
  (status, buf) ← fetch_json sys (codes "/ls") l.abs
  check_status status
  seed_response sys l (new_dir sys l) buf.content

-- With the answer of `path_within_root`.
pub opendir_at : System → Run Located → Handler Ptr
unfolding remote_opendir
opendir_at sys (ok l) w = answer (remote_opendir sys l w)
opendir_at sys _ w = fall_back sys sym_opendir w

unfoldable pub opendir : System → Option Bytes → Handler Ptr
unfolding opendir_at
opendir sys path = opendir_at sys (path_within_root sys.process path)

-- A directory of the shim's is handled by `own`, any other by the real function.
abbrev pub with_dir : {A : Type 0} → System → Symbol → Ptr → (ShimDir → M A) → Handler A
with_dir sys sym dirp own w = elim (lookup_dir dirp w.dirs) [
  | none ↦ fall_back sys sym w
  | some dir ↦ answer (own dir w)
]

-- The entry, and the directory with its index moved; the result `none` is NULL.
abbrev pub step_dir : Ptr → Option Dirent × ShimDir → M (Option Dirent)
step_dir dirp (entry, dir) w = (done entry, record w { dirs = write_dir dirp dir w.dirs })

unfoldable pub readdir : System → Ptr → Handler (Option Dirent)
readdir sys dirp = with_dir sys sym_readdir dirp (λ dir. step_dir dirp (dir_next_entry dir))

unfoldable pub readdir64 : System → Ptr → Handler (Option Dirent)
readdir64 sys dirp = with_dir sys sym_readdir64 dirp (λ dir. step_dir dirp (dir_next_entry64 dir))

-- `d_name` of the caller's struct dirent.
abbrev pub d_name_size : ℕ
d_name_size = 256

-- The result of readdir_r: 0, with the copy in `*entry` or none for the end, or the number EBADF.
pub data Copied : Type 0 where
  read_into : Option Dirent → Copied
  ebadf : Copied

-- The memcpy of an entry with its name and the NUL into the caller's struct, which may be smaller.
abbrev pub copy_out : Reply (Option Dirent) × World → Reply Copied × World
copy_out (done (some entry), w) =
    if ltb (length entry.name) d_name_size then (done (read_into (some entry)), w) else (crashed, w)
copy_out (done none, w) = (done (read_into none), w)
copy_out (failed, w) = (failed, w)
copy_out (crashed, w) = (crashed, w)

-- `real_readdir_r_fn ? real_readdir_r_fn(...) : EBADF`, where `fall_back` has a failure.
abbrev pub or_ebadf : Answer Copied × World → Answer Copied × World
or_ebadf (answered failed, w) = (answered (done ebadf), w)
or_ebadf (answered (done c), w) = (answered (done c), w)
or_ebadf (answered crashed, w) = (answered crashed, w)
or_ebadf (delegated sym, w) = (delegated sym, w)
or_ebadf (delegated_open sym flags mode, w) = (delegated_open sym flags mode, w)

unfoldable pub readdir_r : System → Ptr → Handler Copied
readdir_r sys dirp w =
    or_ebadf
      (with_dir sys sym_readdir_r dirp (λ dir v. copy_out (step_dir dirp (dir_next_entry dir) v)) w)

unfoldable pub readdir64_r : System → Ptr → Handler Copied
readdir64_r sys dirp w = or_ebadf (
    with_dir sys sym_readdir64_r dirp (λ dir v. copy_out (step_dir dirp (dir_next_entry64 dir) v))
      w)

-- `free_dir` on the way out of closedir; a read outside the array of entries is a crash.
abbrev pub released : Run (List Block) → M (Unit {0})
released (ok freed) w = (done tt, w)
released _ w = (crashed, w)

-- `unregister_dir` and `free_dir`.
unfoldable pub closedir : System → Ptr → Handler (Unit {0})
closedir sys dirp =
    with_dir sys sym_closedir dirp
      (λ dir w. released (free_dir dir) (record w { dirs = unregister_dir dirp w.dirs }))

unfoldable pub rewinddir : System → Ptr → Handler (Unit {0})
rewinddir sys dirp =
    with_dir sys sym_rewinddir dirp
      (λ dir w. (done tt, record w { dirs = write_dir dirp (record dir { index = 0 }) w.dirs }))

unfoldable pub telldir : System → Ptr → Handler ℕ
telldir sys dirp = with_dir sys sym_telldir dirp (λ dir. pure dir.index)

-- `if (loc >= 0 && (size_t)loc < dir->count) dir->index = (size_t)loc;`
unfoldable pub seek_index : ShimDir → ℤ → ShimDir
seek_index dir (pos loc) = if ltb loc dir.count then record dir { index = loc } else dir
seek_index dir (negsuc loc) = dir

unfoldable pub seekdir : System → Ptr → ℤ → Handler (Unit {0})
seekdir sys dirp loc =
    with_dir sys sym_seekdir dirp
      (λ dir w. (done tt, record w { dirs = write_dir dirp (seek_index dir loc) w.dirs }))

unfoldable pub dirfd : System → Ptr → Handler ℕ
dirfd sys dirp = with_dir sys sym_dirfd dirp (λ _. fail enotsup)
