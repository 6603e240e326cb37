-- ===== src/Dir.antt =====
-- Directory listings in shim/ldpreload/remotefs_shim.c: `relative_name`, `alloc_dirent`,
-- `alloc_dirent64`, `add_entry` and `populate_directory`.
pub mod Listing
pub mod Slots
pub mod Filling
pub mod Populate
pub mod Release
pub mod Refusing
pub mod Naming
pub mod Leaving
use s3ro.Base.{
  ℕ, zero, suc, ◌+◌, ◌*◌, ◌%◌, ◌^◌, Bool, true, false, ◌&&◌, ◌||◌, not, Option, none, some, List,
  [], ◌∷◌, ◌++◌, Bytes, codes, ltb, ◌==◌, if◌then◌else◌, length, set, replicate, drop, str_eq,
  starts_with, get_elem?,
}
use s3ro.Hash.{hash_path}
use s3ro.Json.{Token, TokenType, array, Tokenizer, parse_json_document, parse_object_at}
use s3ro.Path.{path_max, clip, segment}
use s3ro.Run.{Run, ok, refuse, overrun, stuck, ◌>>=◌, ◌>>◌, require, within_bounds}

-- DT_DIR and DT_REG.
pub data DirentType : Type 0 where
  dt_dir dt_reg : DirentType

-- struct dirent and struct dirent64, which agree on Linux x86-64.
pub record Dirent : Type 0 where
  pub ino : ℕ
  pub off : ℕ
  pub reclen : ℕ
  pub dtype : DirentType
  pub name : Bytes

-- struct dir_entry_pair; `none` is NULL.
pub record EntryPair : Type 0 where
  pub d32 : Option Dirent
  pub d64 : Option Dirent

-- struct shim_dir without `next`, which is the order of the list that it stands in.
pub record ShimDir : Type 0 where
  pub count : ℕ
  pub index : ℕ
  pub abs_path : Bytes
  pub rel_path : Bytes
  pub entries : List EntryPair

-- A copy of a string on the heap, by malloc or strdup.
abbrev pub copied : (ℕ → Bool) → Bytes → Option Bytes
copied allocates s = if allocates (length s + 1) then some s else none

-- `if (*rest == '/') rest++;`
abbrev pub skip_slash : Bytes → Bytes
skip_slash [] = []
skip_slash (c ∷ s) = if c == b'/' then s else c ∷ s

unfoldable pub relative_name : (ℕ → Bool) → Bytes → Bytes → Option Bytes
relative_name allocates [] entry_rel = copied allocates (segment entry_rel)
relative_name allocates (c ∷ dir_rel) entry_rel =
    if starts_with (c ∷ dir_rel) entry_rel
    then copied allocates (segment (skip_slash (drop (length (c ∷ dir_rel)) entry_rel)))
    else copied allocates entry_rel

-- `offsetof(struct dirent, d_name) + len + 1`.
abbrev pub dirent_size : Bytes → ℕ
dirent_size name = 19 + length name + 1

pub alloc_dirent : (ℕ → Bool) → Bytes → DirentType → ℕ → ℕ → Option Dirent
alloc_dirent allocates name dtype ino offset =
    if allocates (dirent_size name)
    then some (record {
      ino = ino;
      off = offset;
      reclen = dirent_size name % 2 ^ 16;
      dtype = dtype;
      name = name;
    })
    else none

pub alloc_dirent64 : (ℕ → Bool) → Bytes → DirentType → ℕ → ℕ → Option Dirent
alloc_dirent64 allocates name dtype ino offset =
    if allocates (dirent_size name)
    then some (record {
      ino = ino;
      off = offset;
      reclen = dirent_size name % 2 ^ 16;
      dtype = dtype;
      name = name;
    })
    else none

-- `full_path` of `add_entry`.
unfoldable pub entry_path : Bytes → Bytes → Bytes
entry_path abs_path name =
    if not (str_eq name (codes ".")) && not (str_eq name (codes ".."))
    then if str_eq abs_path (codes "/")
      then clip path_max (b'/' ∷ name)
      else clip path_max (abs_path ++ (b'/' ∷ name))
    else clip path_max abs_path

-- The two copies of an entry, if there is memory for both.
pub entry_pair : (ℕ → Bool) → Bytes → DirentType → ℕ → ℕ → Run EntryPair
unfolding alloc_dirent alloc_dirent64
entry_pair allocates name dtype ino index = elim (alloc_dirent allocates name dtype ino index) [
  | none ↦ refuse
  | some d32 ↦ elim (alloc_dirent64 allocates name dtype ino index) [
    | none ↦ refuse
    | some d64 ↦ ok (record { d32 = some d32; d64 = some d64 })
  ]
]

unfoldable pub add_entry : (ℕ → Bool) → ShimDir → ℕ → Bytes → Bool → Run ShimDir
unfolding entry_pair
add_entry allocates dir index name is_dir = do
  within_bounds (ltb index (length dir.entries))
  let dtype = if is_dir then dt_dir else dt_reg
  pair ← entry_pair allocates name dtype (hash_path (some (entry_path dir.abs_path name))) index
  ok (record dir { entries = set dir.entries index pair })

-- The reading of tokens that `populate_directory` shares with the whole process.
pub record Reader : Type 0 where
  pub allocates : ℕ → Bool
  pub jsmn : Tokenizer
  pub g_uid : ℕ
  pub g_gid : ℕ

-- `if (!name || name[0] == '\0') continue;` and what follows: the directory and the next slot.
pub place_entry : (ℕ → Bool) → ShimDir → ℕ → Option Bytes → Bool → Run (ShimDir × ℕ)
place_entry allocates dir slot none is_dir = ok (dir, slot)
place_entry allocates dir slot (some []) is_dir = ok (dir, slot)
place_entry allocates dir slot (some (c ∷ name)) is_dir = do
  dir' ← add_entry allocates dir slot (c ∷ name) is_dir
  ok (dir', slot + 1)

-- The loop over the children.
pub children_loop : Reader → Bytes → Bytes → List Token → ℕ → ℕ → ShimDir → ℕ → Run (ShimDir × ℕ)
unfolding place_entry
children_loop r rel_path json tokens zero idx dir slot = ok (dir, slot)
children_loop r rel_path json tokens (suc children) idx dir slot =
    parse_object_at r.g_uid r.g_gid json tokens idx >>= λ (meta, next).
    place_entry r.allocates dir slot (relative_name r.allocates rel_path meta.path) meta.is_dir
    >>= λ (dir', slot'). children_loop r rel_path json tokens children next dir' slot'

abbrev pub is_array : TokenType → Bool
is_array array = true
is_array _ = false

-- `sizeof(struct dir_entry_pair)`.
abbrev pub pair_size : ℕ
pair_size = 16

-- A pair as calloc leaves it.
abbrev pub blank_pair : EntryPair
blank_pair = record { d32 = none; d64 = none }

-- From the array token on.
pub fill_directory : Reader → Bytes → ShimDir → Bytes → Token → List Token → Run ShimDir
unfolding children_loop
fill_directory r rel_path dir json head tokens = do
  let children = head.size
  let total = children + 2
  require (r.allocates (total * pair_size))
  let dir0 = record dir { entries = replicate total blank_pair; count = total; index = 0 }
  dir1 ← add_entry r.allocates dir0 0 (codes ".") true
  dir2 ← add_entry r.allocates dir1 1 (codes "..") true
  (dir3, slot) ← children_loop r rel_path json tokens children 1 dir2 2
  ok (record dir3 { count = slot })

-- `tok_count < 1`, and the type of the first token.
pub populate_tokens : Reader → Bytes → ShimDir → Bytes → ℕ → List Token → Run ShimDir
unfolding fill_directory
populate_tokens r rel_path dir json tok_count [] = refuse
populate_tokens r rel_path dir json tok_count (head ∷ tokens) = do
  require (not (ltb tok_count 1))
  require (is_array head.type)
  fill_directory r rel_path dir json head (head ∷ tokens)

unfoldable pub populate_directory : Reader → Bytes → ShimDir → Bytes → Run ShimDir
unfolding populate_tokens
populate_directory r rel_path dir json = elim (parse_json_document r.allocates r.jsmn json) [
  | none ↦ refuse
  | some (tok_count, tokens) ↦ populate_tokens r rel_path dir json tok_count tokens
]

-- What a directory holds on the heap: the two copies of each entry, by its index, the array of
-- them, the two paths and the node itself.
pub data Block : Type 0 where
  dirent_copy dirent64_copy : ℕ → Block
  entry_array abs_path_copy rel_path_copy dir_node : Block

-- `free` of a pointer that may be NULL.
abbrev pub free_copy : Block → Option Dirent → List Block
free_copy block none = []
free_copy block (some d) = block ∷ []

-- The loop over the entries below the count.
unfoldable pub free_entries : ℕ → ℕ → List EntryPair → Run (List Block)
free_entries zero i entries = ok []
free_entries (suc n) i entries =
    let later = free_entries n (i + 1) entries in
    elim (get_elem? entries i) [
      | none ↦ overrun
      | some pair ↦ later >>= λ freed.
          ok (free_copy (dirent_copy i) pair.d32 ++ (free_copy (dirent64_copy i) pair.d64 ++ freed))
    ]

-- What free_dir gives back, in its order.
unfoldable pub free_dir : ShimDir → Run (List Block)
unfolding free_entries
free_dir dir = do
  freed ← free_entries dir.count 0 dir.entries
  ok (freed ++ (entry_array ∷ abs_path_copy ∷ rel_path_copy ∷ dir_node ∷ []))
