-- ===== src/Handlers/Directories/Opening.antt =====
-- opendir, and what a program reads from the directory that it opens.
use s3ro.Base.{
  ℕ, ◌<◌, Option, none, some, List, ◌∷◌, ◌≡◌, refl, sym, ap, ◌∙◌, arith, length, ==_self, Bytes,
  codes,
}
use s3ro.Dir.Leaving.{populate_left}
use s3ro.Dir.{Block, free_dir, Dirent, ShimDir, populate_directory}
use s3ro.Dir.Listing.{read_children}
use s3ro.Dir.Populate.{whole_listing, populate_directory-lists, populate_directory-tokens}
use s3ro.Handlers.{answered, answer}
use s3ro.Handlers.Directories.{
  reader_of, new_dir, give_up, seed, seed_response, remote_opendir, opendir_at, opendir,
}
use s3ro.Handlers.Directories.Stream.{
  read_until_null, read_until_null-Remains, dirents_from, Remains-IsPopulated,
}
use s3ro.Http.Bodies.{fetch_json-Fetched}
use s3ro.Http.Writing.{joined}
use s3ro.Remote.Outcomes.{url_of, check_status-done}
use s3ro.Http.{content_bytes, fetch_json}
use s3ro.Json.{Token, parse_json_document}
use s3ro.Meta.{RemoteMeta}
use s3ro.Path.{Located, path_within_root}
use s3ro.Registry.{Ptr, lookup_dir, register_dir}
use s3ro.Registry.Table.{lookup_dir-register_dir}
use s3ro.Remote.{check_status}
use s3ro.Run.{Run, ok, refuse, overrun, stuck, stray}
use s3ro.World.{Transfer, World, System, Reply, done, after-done}

-- What stands behind a handle that opendir returned.
pub record Opened (sys : System) (l : Located) (json : Bytes) (p : Ptr) (w : World) : Type 0 where
  pub base : ShimDir
  pub filled : ShimDir
  pub paths : base.abs_path ≡ l.abs
  pub populated : populate_directory (reader_of sys) l.rel base json ≡ ok filled
  pub found : lookup_dir p w.dirs ≡ some filled

pub answer-answered :
    {A : Type 0} (r : Reply A × World) {a : Reply A} {w : World}
    → answer r ≡ (answered a, w)
    → r ≡ (a, w)
answer-answered (a, v) h = cc

give_up-done :
    (r : Run (List Block)) (w : World) {p : Ptr} {w' : World} → give_up r w ≡ (done p, w') → ⊥
unfolding give_up
give_up-done (ok freed) w h = cc
give_up-done refuse w h = cc
give_up-done overrun w h = cc
give_up-done stuck w h = cc
give_up-done stray w h = cc

seed-done :
    (sys : System) (left : ShimDir) (r : Run ShimDir) (w : World) {p : Ptr} {w' : World}
    → seed sys left r w ≡ (done p, w')
    → (filled : ShimDir) × (r ≡ ok filled) × (lookup_dir p w'.dirs ≡ some filled)
unfolding seed
seed-done sys left (ok filled) w {p} {w'} h =
    let at : sys.fresh w.dirs ≡ p = cc in
    let into : register_dir (sys.fresh w.dirs) filled w.dirs ≡ w'.dirs = ap (λ r. r.1.dirs) h in
    (
      filled,
      refl,
      rw (← into)
          (lookup_dir-register_dir (sys.fresh w.dirs) p filled w.dirs ∙ rw (at, ==_self p) refl),
    )
seed-done sys left refuse w h = absurd (give_up-done (free_dir left) w h)
seed-done sys left overrun w h = cc
seed-done sys left stuck w h = cc
seed-done sys left stray w h = cc

new_dir-paths :
    (sys : System) (l : Located) {dir : ShimDir} → new_dir sys l ≡ some dir → dir.abs_path ≡ l.abs
unfolding new_dir
new_dir-paths sys l h = ground arith

seed_response-Opened :
    (sys : System) (l : Located) (dir : Option ShimDir) (content : Option Bytes) (w : World)
    {p : Ptr} {w' : World}
    → dir ≡ new_dir sys l
    → seed_response sys l dir content w ≡ (done p, w')
    → Opened sys l (content_bytes content) p w'
unfolding seed_response
seed_response-Opened sys l none content w e h = cc
seed_response-Opened sys l (some dir) none w e h = cc
seed_response-Opened sys l (some dir) (some json) w e h =
    let (filled, populated, found) =
      seed-done sys (populate_left (reader_of sys) l.rel dir json)
        (populate_directory (reader_of sys) l.rel dir json) w h in
    record {
      base = dir;
      filled = filled;
      paths = new_dir-paths sys l (sym e);
      populated = populated;
      found = found;
    }

-- The response to the request for the listing of a directory.
abbrev pub listing_of : System → Located → World → Transfer
listing_of sys l w = sys.transfer w.trace (url_of (codes "/ls") l.abs)

remote_opendir-Opened :
    (sys : System) (l : Located) (w : World) {p : Ptr} {w' : World}
    → remote_opendir sys l w ≡ (done p, w')
    → ((listing_of sys l w).status ≡ some 200)
      × Opened sys l (joined (listing_of sys l w).pieces) p w'
unfolding remote_opendir
remote_opendir-Opened sys l w {p} {w'} h =
    let ((status, buf), w1, e, h1) = after-done (fetch_json sys (codes "/ls") l.abs w) _ h in
    let (_, w2, f, h2) = after-done (check_status status w1) _ h1 in
    let fetched = fetch_json-Fetched sys (codes "/ls") l.abs w e in
    let (fine, _) = check_status-done status w1 f in
    let opened = seed_response-Opened sys l (new_dir sys l) buf.content w2 refl h2 in
    (rw (fetched.asks, fine) at fetched.answers, rw (fetched.body, fetched.asks) at opened)

pub opendir_at-Opened :
    (sys : System) (r : Run Located) (w : World) {p : Ptr} {w' : World}
    → opendir_at sys r w ≡ (answered (done p), w')
    → (l : Located) × (r ≡ ok l)
      × ((listing_of sys l w).status ≡ some 200)
      × Opened sys l (joined (listing_of sys l w).pieces) p w'
unfolding opendir_at
opendir_at-Opened sys (ok l) w {p} {w'} h =
    let (fine, opened) =
      remote_opendir-Opened sys l w (answer-answered (remote_opendir sys l w) h) in
    (l, refl, fine, opened)
opendir_at-Opened sys refuse w h = ground arith
opendir_at-Opened sys overrun w h = ground arith
opendir_at-Opened sys stuck w h = ground arith
opendir_at-Opened sys stray w h = ground arith

-- The listing of a response: the names of the objects of its array.
pub record IsListing (sys : System) (l : Located) (json : Bytes) (es : List Dirent) : Type 0 where
  pub count : ℕ
  pub head : Token
  pub tokens : List Token
  pub metas : List RemoteMeta
  pub parses : parse_json_document sys.allocates sys.jsmn json ≡ some (count, head ∷ tokens)
  pub reads : read_children (reader_of sys) json (head ∷ tokens) head.size 1 ≡ some metas
  pub entries : es ≡ dirents_from l.abs 0 (whole_listing (reader_of sys) l.rel metas)

Opened-IsListing :
    (sys : System) (l : Located) (json : Bytes) {p : Ptr} {w : World}
    → Opened sys l json p w
    → (es : List Dirent) × IsListing sys l json es
      × ((calls : ℕ) → length es < calls → read_until_null sys calls p w ≡ es)
Opened-IsListing sys l json {p} {w} o =
    let r = reader_of sys in
    let (count, head, tokens, parses) = populate_directory-tokens r l.rel json o.base o.populated in
    let lists = populate_directory-lists r l.rel json o.base parses o.populated in
    let es = dirents_from o.base.abs_path 0 (whole_listing r l.rel lists.metas) in
    (
      es,
      record {
        count = count;
        head = head;
        tokens = tokens;
        metas = lists.metas;
        parses = parses;
        reads = lists.read;
        entries = ap (λ a. dirents_from a 0 (whole_listing r l.rel lists.metas)) o.paths;
      },
      λ calls enough.
          read_until_null-Remains sys p es calls w o.filled o.found (Remains-IsPopulated lists)
            enough,
    )

-- If opendir returns a handle of the shim's, path_within_root accepts the path, the daemon
-- answered the request for the listing with status 200, and a program that calls readdir on the
-- handle until NULL reads, given one call more than there are entries, exactly ".", ".." and the
-- children of the JSON array in the body of that answer for which relative_name finds memory and
-- a name that is not empty, in its order, each with its index as offset and, as inode, the hash
-- of the directory's path and the name with one '/' between them, cut to PATH_MAX - 1 bytes.
pub opendir-read_until_null :
    (sys : System) (path : Option Bytes) (w : World) {p : Ptr} {w' : World}
    → opendir sys path w ≡ (answered (done p), w')
    → (l : Located) × (path_within_root sys.process path ≡ ok l)
      × ((listing_of sys l w).status ≡ some 200)
      × (es : List Dirent) × IsListing sys l (joined (listing_of sys l w).pieces) es
      × ((calls : ℕ) → length es < calls → read_until_null sys calls p w' ≡ es)
unfolding opendir
opendir-read_until_null sys path w h =
    let (l, within, fine, opened) = opendir_at-Opened sys (path_within_root sys.process path) w h in
    let (es, listing, reads) = Opened-IsListing sys l (joined (listing_of sys l w).pieces) opened in
    (l, within, fine, es, listing, reads)
