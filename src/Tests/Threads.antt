-- ===== src/Tests/Threads.antt =====
-- Two threads that read one directory.
use s3ro.Base.{◌≡◌, ◌<◌, ◌+◌, refl, true, false, some, none, [], ◌∷◌, codes, arith, get_elem?}
use s3ro.Dir.{ShimDir, blank_pair}
use s3ro.Registry.Threads.{
  Shared, Interleaved, start, next, tests, passes, take_entry, idle, take_entry-bound,
  take_entry-outside,
}

abbrev two_left : ShimDir
two_left = record {
  count = 2;
  index = 1;
  abs_path = codes "/r";
  rel_path = [];
  entries = blank_pair ∷ blank_pair ∷ [];
}

abbrev tested : Shared
tested = record (idle 2 two_left) { behind = false ∷ true ∷ [] }

second_tests : Interleaved (idle 2 two_left) tested
unfolding passes
second_tests = next _ _ _ (start (idle 2 two_left)) (tests (idle 2 two_left) 1 refl refl)

take_entry-bound_example :
    (tested.dir.index < two_left.count + 1)
    × (tested.dir.count ≡ two_left.count)
    × (tested.dir.entries ≡ two_left.entries)
take_entry-bound_example = take_entry-bound 1 1 two_left tested (omega arith) second_tests refl

take_entry-outside_example :
    (s : Shared) × Interleaved (idle 2 two_left) s
    × (get_elem? s.behind 1 ≡ some true)
    × ((take_entry s.dir).0 ≡ none)
take_entry-outside_example = take_entry-outside two_left refl refl
