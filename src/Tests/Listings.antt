-- ===== src/Tests/Listings.antt =====
-- Directories from opendir to closedir.
use s3ro.Base.{arith, ℕ, ◌<◌, ◌≡◌, ◌≢◌, refl, some, List, [], ◌∷◌, Bytes, codes, length}
use s3ro.Http.{fetch_json}
use s3ro.Url.{url_encode}
use mathlib.Core.Option
use s3ro.Base.Int.{pos}
use s3ro.Handlers.Directories.Positions.{read_on, seekdir-telldir, seekdir-rewinddir_end}
use s3ro.Dir.{
  free_dir, blank_pair, add_entry, relative_name, ShimDir, Dirent, populate_directory, Reader,
}
use s3ro.Dir.Leaving.{populate_left}
use s3ro.Dir.Leaving.Whole.{populate_directory-free_dir}
use s3ro.Dir.Release.{blocks_of_dir}
use s3ro.Handlers.{answered}
use s3ro.Handlers.Directories.{telldir, seekdir, rewinddir, opendir, reader_of, readdir}
use s3ro.Http.Writing.{joined}
use s3ro.Handlers.Directories.Opening.{listing_of, IsListing, opendir-read_until_null}
use s3ro.Handlers.Directories.Progress.{Lists, entries_of, opendir_total}
use s3ro.Meta.{RemoteMeta}
use s3ro.Dir.Listing.{read_children}
use s3ro.Handlers.Directories.Stream.{read_until_null}
use s3ro.Json.{parse_object_at, parse_json_document}
use s3ro.Path.{segment, Located, path_within_root, canonicalize_path}
use s3ro.Run.{ok, overrun, stuck}
use s3ro.World.{World, done}
use s3ro.Registry.{register_dir, lookup_dir, write_dir, dir_next_entry}
use s3ro.Tests.Fixtures.{
  listing, listing_head, listing_tail, first_piece, second_piece, tester, start_world,
}

abbrev empty_dir : ShimDir
empty_dir = record {
  count = 0;
  index = 0;
  abs_path = codes "/data/virtual/docs";
  rel_path = codes "docs";
  entries = [];
}

abbrev reader : Reader
reader = reader_of tester

abbrev filled_or_empty : ShimDir
filled_or_empty = elim (populate_directory reader (codes "docs") empty_dir listing) [
  | ok dir ↦ dir
  | _ ↦ empty_dir
]

listing_parses :
    parse_json_document tester.allocates tester.jsmn listing
    ≡ some (11, listing_head ∷ listing_tail)
unfolding parse_json_document
listing_parses = refl

listing_fills : populate_directory reader (codes "docs") empty_dir listing ≡ ok filled_or_empty
unfolding populate_directory parse_json_document add_entry parse_object_at relative_name segment
listing_fills = refl

populate_directory-free_dir_example :
    (populate_directory reader (codes "docs") empty_dir listing ≢ overrun)
    × (populate_directory reader (codes "docs") empty_dir listing ≢ stuck)
    × (free_dir (populate_left reader (codes "docs") empty_dir listing)
        ≡ ok (blocks_of_dir (populate_left reader (codes "docs") empty_dir listing)))
populate_directory-free_dir_example =
    populate_directory-free_dir reader (codes "docs") listing empty_dir refl refl

abbrev docs : Bytes
docs = codes "/data/virtual/docs/"

abbrev after_opendir : World
after_opendir = (opendir tester (some docs) start_world).1

opens : opendir tester (some docs) start_world ≡ (answered (done 1), after_opendir)
unfolding opendir path_within_root canonicalize_path fetch_json url_encode populate_directory
    parse_json_document add_entry parse_object_at relative_name segment
opens = refl

abbrev names : List Dirent → List Bytes
names [] = []
names (e ∷ es) = e.name ∷ names es

reads_names :
    names (read_until_null tester 10 1 after_opendir)
    ≡ codes "." ∷ codes ".." ∷ codes "a" ∷ codes "b.txt" ∷ []
unfolding opendir path_within_root canonicalize_path fetch_json url_encode populate_directory
    parse_json_document add_entry parse_object_at relative_name segment read_until_null readdir
    register_dir lookup_dir write_dir dir_next_entry Option.bind
reads_names = refl

opendir-read_until_null_example :
    (l : Located) × (path_within_root tester.process (some docs) ≡ ok l)
    × ((listing_of tester l start_world).status ≡ some 200)
    × (es : List Dirent) × IsListing tester l (joined (listing_of tester l start_world).pieces) es
    × ((calls : ℕ) → length es < calls → read_until_null tester calls 1 after_opendir ≡ es)
opendir-read_until_null_example = opendir-read_until_null tester (some docs) start_world opens

abbrev docs_located : Located
docs_located = record { abs = codes "/data/virtual/docs"; rel = codes "docs" }

docs_within : path_within_root tester.process (some docs) ≡ ok docs_located
unfolding path_within_root canonicalize_path
docs_within = refl

abbrev docs_metas : List RemoteMeta
docs_metas = elim (read_children reader listing (listing_head ∷ listing_tail) 2 1) [
  | some metas ↦ metas
  | _ ↦ []
]

docs_read : read_children reader listing (listing_head ∷ listing_tail) 2 1 ≡ some docs_metas
unfolding read_children parse_object_at
docs_read = refl

docs_Lists : Lists tester docs_located start_world
docs_Lists = record {
  curl = refl;
  memory = λ size. refl;
  status = refl;
  piece = first_piece;
  pieces = second_piece ∷ [];
  body = refl;
  count = 11;
  head = listing_head;
  tokens = listing_tail;
  parses = listing_parses;
  counts = refl;
  array = refl;
  metas = docs_metas;
  reads = docs_read;
}

opendir_total_example :
    (w' : World) × (opendir tester (some docs) start_world ≡ (answered (done 1), w'))
    × ((calls : ℕ)
        → length (entries_of tester docs_located start_world docs_Lists) < calls
        → read_until_null tester calls 1 w' ≡ entries_of tester docs_located start_world docs_Lists)
opendir_total_example = opendir_total tester (some docs) start_world docs_within docs_Lists

abbrev half_read : ShimDir
half_read = record {
  count = 2;
  index = 1;
  abs_path = codes "/data/virtual/docs";
  rel_path = codes "docs";
  entries = blank_pair ∷ blank_pair ∷ [];
}

abbrev all_read : ShimDir
all_read = record half_read { index = 2 }

abbrev half_world : World
half_world = record start_world { dirs = (1, half_read) ∷ [] }

abbrev end_world : World
end_world = record start_world { dirs = (1, all_read) ∷ [] }

half_found : lookup_dir 1 half_world.dirs ≡ some half_read
unfolding lookup_dir
half_found = refl

end_found : lookup_dir 1 end_world.dirs ≡ some all_read
unfolding lookup_dir
end_found = refl

seekdir-telldir_example :
    (telldir tester 1 half_world ≡ (answered (done 1), half_world))
    × (lookup_dir 1 (seekdir tester 1 (pos 1) (read_on tester 3 1 half_world)).1.dirs
        ≡ some half_read)
seekdir-telldir_example = seekdir-telldir tester 3 1 half_world half_found (omega arith)

seekdir-rewinddir_end_example :
    (telldir tester 1 end_world ≡ (answered (done 2), end_world))
    × (lookup_dir 1 (seekdir tester 1 (pos 2) (rewinddir tester 1 end_world).1).1.dirs
        ≡ some (record all_read { index = 0 }))
seekdir-rewinddir_end_example = seekdir-rewinddir_end tester 1 end_world end_found refl
