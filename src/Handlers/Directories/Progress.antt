-- ===== src/Handlers/Directories/Progress.antt =====
-- About opendir when nothing it needs fails.
use mathlib.Core.Path.{subst}
use s3ro.Base.{
  sym, ◌<◌, ◌∙◌, ℕ, ◌+◌, true, false, Option, some, List, [], ◌∷◌, Bytes, codes, ltb, length, ◌≡◌,
  refl,
}
use s3ro.Dir.{Dirent, is_array}
use s3ro.Dir.Listing.{read_children}
use s3ro.Dir.Refusing.{populate_directory_total}
use s3ro.Handlers.{answered}
use s3ro.Handlers.Directories.{
  reader_of, new_dir, shim_dir_size, seed, seed_response, remote_opendir, opendir_at, opendir,
}
use s3ro.Handlers.Directories.Opening.{listing_of, IsListing, opendir-read_until_null}
use s3ro.Handlers.Directories.Stream.{dirents_from, read_until_null}
use s3ro.Dir.Populate.{whole_listing}
use s3ro.Http.Gathering.{fetch_json_total}
use s3ro.Http.Writing.{joined}
use s3ro.Json.{Token, parse_json_document}
use s3ro.Meta.{RemoteMeta}
use s3ro.Path.{Located, path_within_root}
use s3ro.Registry.{register_dir}
use s3ro.Remote.Outcomes.{url_of}
use s3ro.Run.{ok, ok-injective}
use s3ro.World.{World, System, request, done}

new_dir_total :
    (sys : System) (l : Located)
    → ((size : ℕ) → sys.allocates size ≡ true)
    → new_dir sys l
      ≡ some (record { count = 0; index = 0; abs_path = l.abs; rel_path = l.rel; entries = [] })
unfolding new_dir
new_dir_total sys l memory =
    rw (memory shim_dir_size, memory (length l.abs + 1), memory (length l.rel + 1)) refl

-- The daemon serves the listing of a directory.
pub record Lists (sys : System) (l : Located) (w : World) : Type 0 where
  pub curl : sys.curl_init w.trace ≡ true
  pub memory : (size : ℕ) → sys.allocates size ≡ true
  pub status : (listing_of sys l w).status ≡ some 200
  pub piece : Bytes
  pub pieces : List Bytes
  pub body : (listing_of sys l w).pieces ≡ piece ∷ pieces
  pub count : ℕ
  pub head : Token
  pub tokens : List Token
  pub parses :
      parse_json_document sys.allocates sys.jsmn (joined (piece ∷ pieces))
      ≡ some (count, head ∷ tokens)
  pub counts : ltb count 1 ≡ false
  pub array : is_array head.type ≡ true
  pub metas : List RemoteMeta
  pub reads :
      read_children (reader_of sys) (joined (piece ∷ pieces)) (head ∷ tokens) head.size 1
      ≡ some metas

remote_opendir_total :
    (sys : System) (l : Located) (w : World)
    → Lists sys l w
    → (w' : World) × (remote_opendir sys l w ≡ (done (sys.fresh w.dirs), w'))
unfolding remote_opendir seed_response seed
remote_opendir_total sys l w h =
    let (buf, e, body) =
      fetch_json_total sys h.memory (codes "/ls") l.abs w h.piece h.pieces h.curl h.body h.status in
    let (filled, populated) =
      populate_directory_total (reader_of sys) l.rel (joined (h.piece ∷ h.pieces))
        (record { count = 0; index = 0; abs_path = l.abs; rel_path = l.rel; entries = [] }) h.memory
        h.parses h.counts h.array h.reads in
    (
      record w {
        trace = request (url_of (codes "/ls") l.abs) ∷ w.trace;
        dirs = register_dir (sys.fresh w.dirs) filled w.dirs;
      },
      rw (e, new_dir_total sys l h.memory, body, populated) refl,
    )

-- The entries of that listing.
abbrev pub entries_of : (sys : System) (l : Located) (w : World) → Lists sys l w → List Dirent
entries_of sys l w h = dirents_from l.abs 0 (whole_listing (reader_of sys) l.rel h.metas)

-- Two listings of one body are the same.
same_listing :
    (sys : System) (l : Located) (w : World) {es : List Dirent}
    → IsListing sys l (joined (listing_of sys l w).pieces) es
    → (h : Lists sys l w) → es ≡ entries_of sys l w h
same_listing sys l w i h =
    let parses = rw h.body at i.parses in
    let reads = rw h.body at i.reads in
    let same : (i.head ≡ h.head) × (i.tokens ≡ h.tokens) =
      (cc (parses, h.parses), cc (parses, h.parses)) in
    let metas : i.metas ≡ h.metas = cc (rw (same.0, same.1) at reads, h.reads) in
    rw metas at i.entries

opens_at :
    (sys : System) (path : Option Bytes) (w : World) {l : Located}
    → path_within_root sys.process path ≡ ok l
    → Lists sys l w
    → (w' : World) × (opendir sys path w ≡ (answered (done (sys.fresh w.dirs)), w'))
unfolding opendir opendir_at
opens_at sys path w {l} inside h =
    let (w', e) = remote_opendir_total sys l w h in (w', rw (inside, e) refl)

-- If path_within_root accepts the path, curl starts, there is memory, the daemon answers the
-- request for the listing with status 200 and a body in at least one piece, and that body parses
-- to an array whose objects can be read, then opendir answers with the handle at the address that
-- malloc gives, and a program that calls readdir on it until NULL reads, given one call more than
-- there are entries, exactly ".", ".." and the children with a name in the order of the array.
pub opendir_total :
    (sys : System) (path : Option Bytes) (w : World) {l : Located}
    → path_within_root sys.process path ≡ ok l
    → (h : Lists sys l w)
    → (w' : World) × (opendir sys path w ≡ (answered (done (sys.fresh w.dirs)), w'))
      × ((calls : ℕ)
          → length (entries_of sys l w h) < calls
          → read_until_null sys calls (sys.fresh w.dirs) w' ≡ entries_of sys l w h)
opendir_total sys path w {l} inside h =
    let (w', opened) = opens_at sys path w inside h in
    let (l', inside', _, es, listing, reads) = opendir-read_until_null sys path w opened in
    let here : l' ≡ l = ok-injective (sym inside' ∙ inside) in
    let entries = same_listing sys l w (rw here at listing) h in
    (
      w',
      opened,
      subst
          (λ (es : List Dirent).
            (calls : ℕ) → length es < calls → read_until_null sys calls (sys.fresh w.dirs) w' ≡ es)
          entries reads,
    )
