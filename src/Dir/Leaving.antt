-- ===== src/Dir/Leaving.antt =====
-- What `populate_directory` leaves in the directory when it gives -1. An entry that cannot be made
-- leaves its pair blank.
pub mod Whole
use s3ro.Base.{
  ℕ, zero, suc, ◌+◌, ◌*◌, Bool, true, false, Option, none, some, List, [], ◌∷◌, ◌++◌, Bytes, codes,
  ltb, length, length-set, length-replicate, set, replicate, if◌then◌else◌, ◌≡◌, inl, inr, refl,
  sym, ap, ◌∙◌, arith, Bool-cases, Option-cases, append_assoc, length-append,
}
use s3ro.Dir.{
  dt_dir, dt_reg, EntryPair, ShimDir, Block, Reader, entry_path, entry_pair, add_entry,
  relative_name, place_entry, is_array, pair_size, blank_pair, free_copy, free_dir, free_entries,
  dirent_copy, dirent64_copy,
}
use s3ro.Dir.Release.{blocks_of_dir, copies_from, free_entries-next, get_elem?-middle}
use s3ro.Hash.{hash_path}
use s3ro.Json.{Token, parse_json_document, parse_object_at}
use s3ro.Meta.{RemoteMeta}
use s3ro.Run.{Run, ok, refuse, overrun, stuck, within_bounds, ◌>>=◌, >>=-eq-ok, ok-injective}

-- The directory where a call fails, or what the rest leaves.
abbrev pub left_of : {A : Type 0} → ShimDir → Run A → (A → ShimDir) → ShimDir
left_of dir (ok a) rest = rest a
left_of dir _ rest = dir

pub children_left : Reader → Bytes → Bytes → List Token → ℕ → ℕ → ShimDir → ℕ → ShimDir
children_left r rel_path json tokens zero idx dir slot = dir
children_left r rel_path json tokens (suc children) idx dir slot =
    left_of dir (parse_object_at r.g_uid r.g_gid json tokens idx) λ (meta, next).
      left_of dir
        (place_entry r.allocates dir slot (relative_name r.allocates rel_path meta.path)
          meta.is_dir)
        λ (dir', slot'). children_left r rel_path json tokens children next dir' slot'

-- From the array token on.
pub fill_left : Reader → Bytes → ShimDir → Bytes → Token → List Token → ShimDir
unfolding children_left
fill_left r rel_path dir json head tokens =
    let children = head.size in
    let total = children + 2 in
    let dir0 = record dir { entries = replicate total blank_pair; count = total; index = 0 } in
    if r.allocates (total * pair_size)
    then (left_of dir0 (add_entry r.allocates dir0 0 (codes ".") true) λ dir1.
        left_of dir1 (add_entry r.allocates dir1 1 (codes "..") true)
          λ dir2. children_left r rel_path json tokens children 1 dir2 2)
    else record dir { entries = [] }

pub tokens_left : Reader → Bytes → ShimDir → Bytes → ℕ → List Token → ShimDir
unfolding fill_left
tokens_left r rel_path dir json tok_count [] = dir
tokens_left r rel_path dir json tok_count (head ∷ tokens) =
    if ltb tok_count 1
    then dir
    else if is_array head.type
    then fill_left r rel_path dir json head (head ∷ tokens)
    else dir

unfoldable pub populate_left : Reader → Bytes → ShimDir → Bytes → ShimDir
unfolding tokens_left
populate_left r rel_path dir json = elim (parse_json_document r.allocates r.jsmn json) [
  | none ↦ dir
  | some (tok_count, tokens) ↦ tokens_left r rel_path dir json tok_count tokens
]
