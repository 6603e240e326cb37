-- ===== src/Tests/Calls.antt =====
-- A sequence of calls on directories.
use s3ro.Base.{
  ◌<◌, ◌≡◌, refl, true, false, Option, none, some, List, [], ◌∷◌, Bytes, codes, arith, Bool-cases,
  inl, inr,
}
use s3ro.Base.Int.{pos}
use s3ro.Handlers.Directories.{opendir, readdir, seekdir, closedir}
use s3ro.Handlers.Directories.Sequences.{
  calls_opendir, calls_readdir, calls_seekdir, calls_closedir, at_start, then_call,
  Reachable-IsValid,
}
use s3ro.Registry.{Ptr, Dirs, lookup_dir, register_dir, unregister_dir}
use s3ro.Registry.Sound.{IsValid}
use s3ro.Registry.Table.{is_open}
use s3ro.World.{World, done}
use s3ro.Dir.{ShimDir, free_dir, populate_directory, add_entry, relative_name}
use s3ro.Dir.Release.{blocks_of_dir}
use s3ro.Handlers.{answered}
use s3ro.Handlers.Directories.Closing.{Reachable-closedir}
use s3ro.Http.{fetch_json}
use s3ro.Json.{parse_json_document, parse_object_at}
use s3ro.Path.{path_within_root, canonicalize_path}
use s3ro.Run.{ok}
use s3ro.Url.{url_encode}
use s3ro.Handlers.Directories.Observed.{
  Op, opens, reads, reads64, closes, tells, seeks, run, AllAllowed,
}
use s3ro.Handlers.Directories.Refinement.{run-AllAllowed}
use s3ro.Registry.Streams.{streams}
use s3ro.Tests.Fixtures.{tester, start_world, above}

below_above : (q : Ptr) (dirs : Dirs) → is_open q dirs ≡ true → q < above dirs
below_above q [] h = cc
below_above q ((p, d) ∷ dirs) h = ground (arith, below_above q dirs)

above_closed : (dirs : Dirs) → is_open (above dirs) dirs ≡ false
above_closed dirs = elim (Bool-cases (is_open (above dirs) dirs)) [
  | inl used ↦ absurd (omega (arith, below_above (above dirs) dirs used))
  | inr free ↦ free
]

abbrev docs : Option Bytes
docs = some (codes "/data/virtual/docs")

abbrev two_open : World
two_open = (opendir tester docs (opendir tester docs start_world).1).1

abbrev one_closed : World
one_closed = (closedir tester 1 (seekdir tester 2 (pos 1) (readdir tester 1 two_open).1).1).1

Reachable-IsValid_example : IsValid one_closed.dirs
Reachable-IsValid_example = Reachable-IsValid tester above_closed {w = one_closed} (
    then_call
      (then_call
        (then_call
          (then_call (then_call (at_start start_world refl) (calls_opendir docs refl))
            (calls_opendir docs refl))
          (calls_readdir 1 refl))
        (calls_seekdir 2 (pos 1) refl))
      (calls_closedir 1 refl))

-- The directory that was opened first.
abbrev first_dir : ShimDir
first_dir = elim (lookup_dir 1 two_open.dirs) [
  | none ↦ record { count = 0; index = 0; abs_path = []; rel_path = []; entries = [] }
  | some dir ↦ dir
]

first_found : lookup_dir 1 two_open.dirs ≡ some first_dir
unfolding lookup_dir opendir path_within_root canonicalize_path fetch_json url_encode
    populate_directory parse_json_document parse_object_at add_entry register_dir relative_name
first_found = refl

Reachable-closedir_example :
    (free_dir first_dir ≡ ok (blocks_of_dir first_dir))
    × (closedir tester 1 two_open
        ≡ (answered (done tt), record two_open { dirs = unregister_dir 1 two_open.dirs }))
Reachable-closedir_example =
    Reachable-closedir tester 1 {w = two_open} {dir = first_dir} above_closed
      (then_call (then_call (at_start start_world refl) (calls_opendir docs refl))
        (calls_opendir docs refl))
      first_found

abbrev session : List Op
session = opens docs ∷ reads 1 ∷ seeks 1 (pos 2) ∷ reads64 1 ∷ tells 1 ∷ closes 1 ∷ reads 1 ∷ []

run-AllAllowed_example :
    AllAllowed
      (run tester session start_world).0
      (streams start_world.dirs)
      (streams (run tester session start_world).1.dirs)
    × IsValid (run tester session start_world).1.dirs
run-AllAllowed_example = run-AllAllowed tester session start_world above_closed (tt, tt)
