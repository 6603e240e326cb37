-- ===== src/Daemon/Listing.antt =====
-- About opendir and readdir on a directory that the daemon serves.
use s3ro.Base.{
  ℕ, suc, ◌+◌, ◌<◌, Option, true, false, some, List, [], ◌∷◌, Bytes, codes, map, ltb, length, ◌≡◌,
  refl, sym, ap, ◌∙◌, arith,
}
use mathlib.Core.Path.{subst}
use s3ro.Daemon.{IpcServer}
use s3ro.Daemon.Children.{
  Child, IsChild, shown, meta_of, entry_of, ShowsObjects, read_children-ShowsObjects,
  listed-children,
}
use s3ro.Dir.{Dirent, is_array}
use s3ro.Dir.Listing.{Listed, read_children}
use s3ro.Handlers.{answered}
use s3ro.Handlers.Directories.{reader_of, opendir}
use s3ro.Handlers.Directories.Opening.{listing_of}
use s3ro.Handlers.Directories.Progress.{Lists, entries_of, opendir_total}
use s3ro.Handlers.Directories.Stream.{dirents_from, read_until_null}
use s3ro.Http.Writing.{joined}
use s3ro.Json.{Token, parse_json_document}
use s3ro.Path.{Located, path_within_root}
use s3ro.Path.Names.{All}
use s3ro.Run.{ok}
use s3ro.World.{World, System, done}

-- The daemon answers the request for a directory with its children; now is its clock.
pub record Serves (sys : System) (l : Located) (w : World) (server : IpcServer) (now : Bytes)
    (children : List Child) : Type 0 where
  pub curl : sys.curl_init w.trace ≡ true
  pub memory : (size : ℕ) → sys.allocates size ≡ true
  pub status : (listing_of sys l w).status ≡ some 200
  pub piece : Bytes
  pub pieces : List Bytes
  pub body : (listing_of sys l w).pieces ≡ piece ∷ pieces
  pub count : ℕ
  pub head : Token
  pub tokens : List Token
  pub parses :
      parse_json_document sys.allocates sys.jsmn (joined (piece ∷ pieces))
      ≡ some (count, head ∷ tokens)
  pub counts : ltb count 1 ≡ false
  pub array : is_array head.type ≡ true
  pub size : head.size ≡ length children
  pub shows : ShowsObjects (joined (piece ∷ pieces)) (map (entry_of server now) children) tokens
  pub in_dir : All (IsChild l.rel) children

-- ".", ".." and the children.
abbrev pub whole : List Child → List Listed
whole children = (codes ".", true) ∷ (codes "..", true) ∷ map shown children

length-map {ℓ κ} :
    {A : Type ℓ} {B : Type κ} (f : A → B) (xs : List A) → length (map f xs) ≡ length xs
length-map f [] = refl
length-map f (x ∷ xs) = ap suc (length-map f xs)

module _ (sys : System) (l : Located) (w : World) (server : IpcServer) (now : Bytes)
    (children : List Child) (h : Serves sys l w server now children) where
  lists : Lists sys l w
  lists =
      let r = reader_of sys in
      let es = map (entry_of server now) children in
      let sizes : h.head.size ≡ length es =
        h.size ∙ sym (length-map (entry_of server now) children) in
      record {
        curl = h.curl;
        memory = h.memory;
        status = h.status;
        piece = h.piece;
        pieces = h.pieces;
        body = h.body;
        count = h.count;
        head = h.head;
        tokens = h.tokens;
        parses = h.parses;
        counts = h.counts;
        array = h.array;
        metas = map (meta_of r) es;
        reads =
            subst
              (λ (n : ℕ).
                read_children r (joined (h.piece ∷ h.pieces)) (h.head ∷ h.tokens) n 1
                ≡ some (map (meta_of r) es))
              (sym sizes)
              (read_children-ShowsObjects r (joined (h.piece ∷ h.pieces)) (h.head ∷ h.tokens) es 1
                h.shows);
      }

  entries_of-lists : entries_of sys l w lists ≡ dirents_from l.abs 0 (whole children)
  unfolding lists
  entries_of-lists =
      ap (λ (ls : List Listed). dirents_from l.abs 0 ((codes ".", true) ∷ (codes "..", true) ∷ ls))
        (listed-children (reader_of sys) server now l.rel children h.memory h.in_dir)

  length-dirents_from :
      (abs_path : Bytes) (index : ℕ) (ls : List Listed)
      → length (dirents_from abs_path index ls) ≡ length ls
  length-dirents_from abs_path index [] = refl
  length-dirents_from abs_path index (x ∷ ls) = ap suc (length-dirents_from abs_path (index + 1) ls)

  length-whole : length (dirents_from l.abs 0 (whole children)) ≡ length children + 2
  length-whole =
      length-dirents_from l.abs 0 (whole children) ∙ omega (arith, length-map shown children)

-- If path_within_root accepts the path, curl starts, there is memory, and the daemon answers the
-- request for the listing with status 200 and, in at least one piece, a body that parses to an
-- array of the entries that entryFromMeta makes of the children, each value with a token whose
-- text is the value itself, so that no string has an escape, each owner below 2^31 and each size
-- and mode below 2^63, each with a path shorter than PATH_MAX that is the directory's relative
-- path and, behind a '/', its name, which is not empty and has no '/', then opendir gives a
-- handle from which readdir reads, given one call more than there are entries, exactly ".", ".."
-- and the children under their names, directories as directories and files as files, and then
-- NULL.
pub opendir-children :
    (sys : System) (path : Option Bytes) (w : World) (server : IpcServer) (now : Bytes)
    (children : List Child) {l : Located}
    → path_within_root sys.process path ≡ ok l
    → Serves sys l w server now children
    → (w' : World) × (opendir sys path w ≡ (answered (done (sys.fresh w.dirs)), w'))
      × ((calls : ℕ)
          → length children + 2 < calls
          → read_until_null sys calls (sys.fresh w.dirs) w' ≡ dirents_from l.abs 0 (whole children))
opendir-children sys path w server now children {l} inside h =
    let served = lists sys l w server now children h in
    let same = entries_of-lists sys l w server now children h in
    let (w', opened, reads) = opendir_total sys path w inside served in
    let reads' =
      subst
        (λ (es : List Dirent).
          (calls : ℕ) → length es < calls → read_until_null sys calls (sys.fresh w.dirs) w' ≡ es)
        same reads in
    (
      w',
      opened,
      λ calls enough.
          reads' calls (omega (arith, enough, length-whole sys l w server now children h)),
    )
