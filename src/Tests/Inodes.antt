-- ===== src/Tests/Inodes.antt =====
-- An entry of a listing next to the answer of stat.
use s3ro.Base.{◌≡◌, refl, true, inl, List, [], ◌∷◌, Bytes, codes, arith}
use s3ro.Dir.{ShimDir, blank_pair, add_entry, entry_path}
use s3ro.Dir.Listing.{pair_of, path_in}
use s3ro.Dir.Slots.{holding}
use s3ro.Path.Names.{render}
use s3ro.Remote.Inodes.{HoldsEntry, add_entry-ino}
use s3ro.Run.{ok}
use s3ro.Tests.Fixtures.{start_world, file_system, file_path}
use s3ro.Tests.Reports.{file_stat, reports}

abbrev names : List Bytes
names = codes "virtual" ∷ codes "data" ∷ []

abbrev opened : ShimDir
opened = record { count = 0; index = 0; abs_path = render names; rel_path = []; entries = [] }

abbrev with_child : ShimDir
with_child = holding opened (pair_of (render names) 0 (codes "a", true) ∷ blank_pair ∷ [])

adds :
    add_entry file_system.allocates
      (holding opened (blank_pair ∷ blank_pair ∷ []))
      0
      (codes "a")
      true
    ≡ ok with_child
unfolding add_entry path_in entry_path
adds = refl

add_entry-ino_example : HoldsEntry with_child [] (blank_pair ∷ []) (codes "a") file_stat.ino
add_entry-ino_example =
    add_entry-ino file_system start_world opened names (codes "a") file_path true [] blank_pair
      (blank_pair ∷ []) refl (refl, (refl, tt)) (inl (refl, refl)) (omega arith) adds reports
