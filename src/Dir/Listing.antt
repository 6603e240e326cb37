-- ===== src/Dir/Listing.antt =====
-- What a directory listing holds: the children that have a name, in the order of the array.
use s3ro.Base.{
  ℕ, zero, suc, ◌+◌, ◌%◌, ◌^◌, Bool, Option, none, some, List, [], ◌∷◌, Bytes, if◌then◌else◌, ◌-◌,
  ◌++◌, ◌||◌, codes, take, str_eq,
}
use s3ro.Dir.{dt_dir, dt_reg, Dirent, EntryPair, relative_name, dirent_size, Reader}
use s3ro.Hash.{hash_path}
use s3ro.Json.{Token, parse_object_at}
use s3ro.Path.{path_max}
use s3ro.Meta.{RemoteMeta}
use s3ro.Run.{Run, ok}

-- A name to list, and whether it is a directory.
abbrev pub Listed : Type 0
Listed = Bytes × Bool

-- The path of a name in a directory, as far as a buffer of PATH_MAX bytes holds it.
unfoldable pub path_in : Bytes → Bytes → Bytes
path_in abs_path name =
    let at_top = if str_eq abs_path (codes "/") then [] else abs_path in
    let inside = take (path_max - 1) (at_top ++ (b'/' ∷ name)) in
    let self = take (path_max - 1) abs_path in
    if str_eq name (codes ".") || str_eq name (codes "..") then self else inside

-- The entry at an index of a directory's listing: its inode is the hash of the path of the entry.
abbrev pub dirent_of : Bytes → ℕ → Listed → Dirent
dirent_of abs_path index (name, is_dir) = record {
  ino = hash_path (some (path_in abs_path name));
  off = index;
  reclen = dirent_size name % 2 ^ 16;
  dtype = if is_dir then dt_dir else dt_reg;
  name = name;
}

abbrev pub pair_of : Bytes → ℕ → Listed → EntryPair
pair_of abs_path index l = record {
  d32 = some (dirent_of abs_path index l);
  d64 = some (dirent_of abs_path index l);
}

abbrev pub pairs_from : Bytes → ℕ → List Listed → List EntryPair
pairs_from abs_path index [] = []
pairs_from abs_path index (l ∷ ls) = pair_of abs_path index l ∷ pairs_from abs_path (index + 1) ls

abbrev pub object_read : Run (RemoteMeta × ℕ) → Option (RemoteMeta × ℕ)
object_read (ok r) = some r
object_read _ = none

-- The objects of the array, one behind the other.
unfoldable pub read_children : Reader → Bytes → List Token → ℕ → ℕ → Option (List RemoteMeta)
read_children r json tokens zero idx = some []
read_children r json tokens (suc n) idx =
    elim (object_read (parse_object_at r.g_uid r.g_gid json tokens idx)) [
      | none ↦ none
      | some (meta, next) ↦ elim (read_children r json tokens n next) [
        | none ↦ none
        | some metas ↦ some (meta ∷ metas)
      ]
    ]

-- A child with a name is listed under it.
abbrev pub list_name : Option Bytes → Bool → List Listed → List Listed
list_name none is_dir rest = rest
list_name (some []) is_dir rest = rest
list_name (some (c ∷ name)) is_dir rest = (c ∷ name, is_dir) ∷ rest

abbrev pub listed : (ℕ → Bool) → Bytes → List RemoteMeta → List Listed
listed allocates rel_path [] = []
listed allocates rel_path (m ∷ ms) =
    list_name (relative_name allocates rel_path m.path) m.is_dir (listed allocates rel_path ms)
