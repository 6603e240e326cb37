-- ===== src/Registry.antt =====
-- The list of open directories in shim/ldpreload/remotefs_shim.c: `register_dir`, `lookup_dir`,
-- `unregister_dir`, `dir_next_entry`. The chain from `g_dirs` on is a list of nodes with their
-- addresses; a DIR* is an address.
pub mod Table
pub mod Sound
pub mod Threads
pub mod Streams
use s3ro.Base.{
  ℕ, suc, ◌+◌, Bool, true, false, Option, none, some, List, [], ◌∷◌, ltb, ◌==◌, if◌then◌else◌,
  get_elem?,
}
use mathlib.Core.Option
use s3ro.Dir.{Dirent, EntryPair, ShimDir}

abbrev pub Ptr : Type 0
Ptr = ℕ

abbrev pub Dirs : Type 0
Dirs = List (Ptr × ShimDir)

unfoldable pub register_dir : Ptr → ShimDir → Dirs → Dirs
register_dir p dir dirs = (p, dir) ∷ dirs

unfoldable pub lookup_dir : Ptr → Dirs → Option ShimDir
lookup_dir handle [] = none
lookup_dir handle ((cur, dir) ∷ next) = if cur == handle then some dir else lookup_dir handle next

unfoldable pub unregister_dir : Ptr → Dirs → Dirs
unregister_dir p [] = []
unregister_dir p ((cur, dir) ∷ next) = if cur == p then next else (cur, dir) ∷ unregister_dir p next

-- A write through the pointer that `lookup_dir` returned.
unfoldable pub write_dir : Ptr → ShimDir → Dirs → Dirs
write_dir p new [] = []
write_dir p new ((cur, dir) ∷ next) =
    if cur == p then (cur, new) ∷ next else (cur, dir) ∷ write_dir p new next

-- `dir->index++`, and the entry at the index before; `none` is NULL.
unfoldable pub next_pair : ShimDir → Option EntryPair × ShimDir
next_pair dir =
    if ltb dir.index dir.count
    then (get_elem? dir.entries dir.index, record dir { index = dir.index + 1 })
    else (none, dir)

unfoldable pub dir_next_entry : ShimDir → Option Dirent × ShimDir
unfolding next_pair
dir_next_entry dir = let (pair, dir') = next_pair dir in (Option.bind pair (λ p. p.d32), dir')

unfoldable pub dir_next_entry64 : ShimDir → Option Dirent × ShimDir
unfolding next_pair
dir_next_entry64 dir = let (pair, dir') = next_pair dir in (Option.bind pair (λ p. p.d64), dir')
