-- ===== src/Daemon/Children.antt =====
-- About opendir on what the daemon answers /ls with: `handleList` of pkg/remotefs/ipc.go prints an
-- array of entries, one for each child.
use s3ro.Run.{ok}
use s3ro.Base.{
  ℕ, zero, suc, ◌+◌, ◌*◌, Bool, true, ◌&&◌, some, List, [], ◌∷◌, Bytes, map, ltb, length, drop, ◌≡◌,
  refl, arith,
}
use s3ro.Daemon.{FileMeta, PosixEntry, IpcServer, entry_from_meta, fields_of}
use s3ro.Dir.{Reader}
use s3ro.Dir.Listing.{Listed, read_children, list_name, listed}
use s3ro.Dir.Naming.{child_path, relative_name-child_path}
use s3ro.Json.{Token, object, blank_meta, parse_object_at}
use s3ro.Json.Entry.{put_all, ShowsAll}
use s3ro.Json.Fields.{parse_object_at-put_all}
use s3ro.Meta.{RemoteMeta}
use s3ro.Path.Names.{All, no_slash}

-- What the shim makes of an entry.
abbrev pub meta_of : Reader → PosixEntry → RemoteMeta
meta_of r e = put_all (fields_of e) (blank_meta r.g_uid r.g_gid)

-- The tokens of the entries, one object behind the other.
abbrev pub ShowsObjects : Bytes → List PosixEntry → List Token → Type 0
ShowsObjects json [] tokens = Unit
ShowsObjects json (e ∷ es) [] = ⊥
ShowsObjects json (e ∷ es) (head ∷ rest) =
    (head.type ≡ object)
    × (head.size ≡ length (fields_of e))
    × ShowsAll json (fields_of e) rest
    × ShowsObjects json es (drop (2 * length (fields_of e)) rest)

drop-past {ℓ} :
    {A : Type ℓ} (idx n : ℕ) (xs : List A) {x : A} {rest : List A}
    → drop idx xs ≡ x ∷ rest
    → drop (idx + 1 + n) xs ≡ drop n rest
drop-past zero n [] h = cc
drop-past zero n (y ∷ xs) {rest = rest} h =
    let next : zero + 1 + n ≡ suc n = omega arith in
    let same : xs ≡ rest = cc in rw (next, same) refl
drop-past (suc idx) n [] h = cc
drop-past (suc idx) n (y ∷ xs) h =
    let next : suc idx + 1 + n ≡ suc (idx + 1 + n) = omega arith in rw next (drop-past idx n xs h)

module _ (r : Reader) (json : Bytes) (tokens : List Token) where
  read_next :
      (e : PosixEntry) (es : List PosixEntry) (idx : ℕ) (here : List Token)
      → drop idx tokens ≡ here
      → ShowsObjects json (e ∷ es) here
      → (next : ℕ) × (parse_object_at r.g_uid r.g_gid json tokens idx ≡ ok (meta_of r e, next))
        × ShowsObjects json es (drop next tokens)
  read_next e es idx [] at shows = absurd shows
  read_next e es idx (head ∷ rest) at (is_object, size, fields, later) = (
    idx + 1 + 2 * length (fields_of e),
    parse_object_at-put_all r.g_uid r.g_gid json (fields_of e) tokens idx at is_object size fields,
    rw (drop-past idx (2 * length (fields_of e)) tokens at) later,
  )

  pub read_children-ShowsObjects :
      (es : List PosixEntry) (idx : ℕ)
      → ShowsObjects json es (drop idx tokens)
      → read_children r json tokens (length es) idx ≡ some (map (meta_of r) es)
  unfolding read_children
  read_children-ShowsObjects [] idx shows = refl
  read_children-ShowsObjects (e ∷ es) idx shows =
      let (next, reads, later) = read_next e es idx (drop idx tokens) refl shows in
      rw (reads, read_children) (rw (read_children-ShowsObjects es next later) refl)

-- A child of a directory, by its name in it.
pub record Child : Type 0 where
  pub name : Bytes
  pub meta : FileMeta

-- The store names it by its path from the root on; the name is one that a directory can hold.
pub record IsChild (dir_rel : Bytes) (c : Child) : Type 0 where
  pub path : c.meta.path ≡ child_path dir_rel c.name
  pub is_name : ltb 0 (length c.name) && no_slash c.name ≡ true

abbrev pub entry_of : IpcServer → (now : Bytes) → Child → PosixEntry
entry_of server now c = entry_from_meta server now c.meta

abbrev pub shown : Child → Listed
shown c = (c.name, c.meta.is_dir)

list_some :
    (name : Bytes) (is_dir : Bool) (rest : List Listed)
    → ltb 0 (length name) && no_slash name ≡ true
    → list_name (some name) is_dir rest ≡ (name, is_dir) ∷ rest
list_some [] is_dir rest h = absurd (ground arith)
list_some (c ∷ name) is_dir rest h = refl

and_right : (a b : Bool) → a && b ≡ true → b ≡ true
and_right a b h = ground arith

module _ (r : Reader) (server : IpcServer) (now dir_rel : Bytes) where
  pub listed-children :
      (cs : List Child)
      → ((size : ℕ) → r.allocates size ≡ true)
      → All (IsChild dir_rel) cs
      → listed r.allocates dir_rel (map (meta_of r) (map (entry_of server now) cs)) ≡ map shown cs
  unfolding entry_from_meta
  listed-children [] memory h = refl
  listed-children (c ∷ cs) memory (child, later) =
      let named =
        relative_name-child_path r.allocates dir_rel c.name memory
          (and_right (ltb 0 (length c.name)) (no_slash c.name) child.is_name) in
      rw (child.path, named, listed-children cs memory later)
        (list_some c.name c.meta.is_dir (map shown cs) child.is_name)
