-- ===== src/Dir/Refusing.antt =====
-- About `populate_directory` that gives -1: it has a reason.
use s3ro.Base.{
  ℕ, zero, suc, ◌+◌, ◌*◌, Bool, true, false, Option, none, some, List, [], ◌∷◌, Bytes, codes, ltb,
  length, set, replicate, if◌then◌else◌, ◌≡◌, refl, sym, ◌∙◌, ◌⊎◌, inl, inr, Bool-cases,
  Option-cases, not,
}
use s3ro.Dir.{
  dt_dir, dt_reg, DirentType, EntryPair, ShimDir, Reader, dirent_size, entry_path, entry_pair,
  add_entry, relative_name, place_entry, children_loop, fill_directory, populate_tokens,
  populate_directory, is_array, pair_size, blank_pair,
}
use s3ro.Dir.Filling.{loop_next}
use s3ro.Dir.Populate.{fill_cases, populate_some, populate_none}
use s3ro.Meta.{RemoteMeta}
use s3ro.Dir.Listing.{read_children}
use s3ro.Hash.{hash_path}
use s3ro.Json.{Token, parse_json_document, parse_object_at}
use s3ro.Json.Ends.{read, malformed, misread, parse_object_at-ObjectEnd}
use s3ro.Run.{Run, ok, refuse, overrun, stuck, stray, ◌>>=◌, require}

-- Memory of some size is not there.
abbrev pub LacksMemory : (ℕ → Bool) → Type 0
LacksMemory allocates = (size : ℕ) × (allocates size ≡ false)

-- A run that refuses does so in its first half or in its second.
>>=-eq-refuse {ℓ κ} :
    {A : Type ℓ} {B : Type κ} (first : Run A) (rest : A → Run B)
    → first >>= rest ≡ refuse
    → (first ≡ refuse) ⊎ ((half : A) × (first ≡ ok half) × (rest half ≡ refuse))
>>=-eq-refuse (ok half) rest e = inr (half, refl, e)
>>=-eq-refuse refuse rest e = inl refl
>>=-eq-refuse overrun rest e = cc
>>=-eq-refuse stuck rest e = cc
>>=-eq-refuse stray rest e = cc

ok≢refuse {ℓ} : {A : Type ℓ} {a : A} → ok a ≡ refuse → ⊥
ok≢refuse h = cc

require-refuse : (b : Bool) → require b ≡ refuse → b ≡ false
require-refuse true h = cc
require-refuse false h = refl

entry_pair-refuse :
    (allocates : ℕ → Bool) (name : Bytes) (dtype : DirentType) (ino index : ℕ)
    → entry_pair allocates name dtype ino index ≡ refuse
    → LacksMemory allocates
unfolding entry_pair
entry_pair-refuse allocates name dtype ino index h =
    elim (Bool-cases (allocates (dirent_size name))) [
      | inl room ↦ absurd (cc (rw (room, entry_pair) at h))
      | inr full ↦ (dirent_size name, full)
    ]

add_entry-refuse :
    (allocates : ℕ → Bool) (dir : ShimDir) (index : ℕ) (name : Bytes) (is_dir : Bool)
    → add_entry allocates dir index name is_dir ≡ refuse
    → LacksMemory allocates
unfolding add_entry
add_entry-refuse allocates dir index name is_dir h =
    let dtype = if is_dir then dt_dir else dt_reg in
    let ino = hash_path (some (entry_path dir.abs_path name)) in
    let put : EntryPair → Run ShimDir =
      λ pair. ok (record dir { entries = set dir.entries index pair }) in
    elim (Bool-cases (ltb index (length dir.entries))) [
      | inr outside ↦ absurd (cc (rw outside at h))
      | inl inside ↦
          elim (>>=-eq-refuse (entry_pair allocates name dtype ino index) put (rw inside at h)) [
            | inl e ↦ entry_pair-refuse allocates name dtype ino index e
            | inr (pair, _, e) ↦ absurd (ok≢refuse e)
          ]
    ]

place_entry-refuse :
    (allocates : ℕ → Bool) (dir : ShimDir) (slot : ℕ) (name : Option Bytes) (is_dir : Bool)
    → place_entry allocates dir slot name is_dir ≡ refuse
    → LacksMemory allocates
unfolding place_entry
place_entry-refuse allocates dir slot none is_dir h = cc
place_entry-refuse allocates dir slot (some []) is_dir h = cc
place_entry-refuse allocates dir slot (some (c ∷ name)) is_dir h =
    let next : ShimDir → Run (ShimDir × ℕ) = λ dir'. ok (dir', slot + 1) in
    elim (>>=-eq-refuse (add_entry allocates dir slot (c ∷ name) is_dir) next h) [
      | inl e ↦ add_entry-refuse allocates dir slot (c ∷ name) is_dir e
      | inr (dir', _, e) ↦ absurd (ok≢refuse e)
    ]

>>=-eq-stray {ℓ κ} :
    {A : Type ℓ} {B : Type κ} (first : Run A) (rest : A → Run B)
    → first >>= rest ≡ stray
    → (first ≡ stray) ⊎ ((half : A) × (first ≡ ok half) × (rest half ≡ stray))
>>=-eq-stray (ok half) rest e = inr (half, refl, e)
>>=-eq-stray refuse rest e = cc
>>=-eq-stray overrun rest e = cc
>>=-eq-stray stuck rest e = cc
>>=-eq-stray stray rest e = inl refl

entry_pair-not_stray :
    (allocates : ℕ → Bool) (name : Bytes) (dtype : DirentType) (ino index : ℕ)
    → entry_pair allocates name dtype ino index ≡ stray
    → ⊥
unfolding entry_pair
entry_pair-not_stray allocates name dtype ino index h =
    elim (Bool-cases (allocates (dirent_size name))) [
      | inl room ↦ cc (rw (room, entry_pair) at h)
      | inr full ↦ cc (rw (full, entry_pair) at h)
    ]

add_entry-not_stray :
    (allocates : ℕ → Bool) (dir : ShimDir) (index : ℕ) (name : Bytes) (is_dir : Bool)
    → add_entry allocates dir index name is_dir ≡ stray
    → ⊥
unfolding add_entry
add_entry-not_stray allocates dir index name is_dir h =
    let dtype = if is_dir then dt_dir else dt_reg in
    let ino = hash_path (some (entry_path dir.abs_path name)) in
    let put : EntryPair → Run ShimDir =
      λ pair. ok (record dir { entries = set dir.entries index pair }) in
    elim (Bool-cases (ltb index (length dir.entries))) [
      | inr outside ↦ cc (rw outside at h)
      | inl inside ↦
          elim (>>=-eq-stray (entry_pair allocates name dtype ino index) put (rw inside at h)) [
            | inl e ↦ entry_pair-not_stray allocates name dtype ino index e
            | inr (pair, _, e) ↦ cc
          ]
    ]

place_entry-not_stray :
    (allocates : ℕ → Bool) (dir : ShimDir) (slot : ℕ) (name : Option Bytes) (is_dir : Bool)
    → place_entry allocates dir slot name is_dir ≡ stray
    → ⊥
unfolding place_entry
place_entry-not_stray allocates dir slot none is_dir h = cc
place_entry-not_stray allocates dir slot (some []) is_dir h = cc
place_entry-not_stray allocates dir slot (some (c ∷ name)) is_dir h =
    let next : ShimDir → Run (ShimDir × ℕ) = λ dir'. ok (dir', slot + 1) in
    elim (>>=-eq-stray (add_entry allocates dir slot (c ∷ name) is_dir) next h) [
      | inl e ↦ add_entry-not_stray allocates dir slot (c ∷ name) is_dir e
      | inr (dir', _, e) ↦ cc
    ]

module _ (r : Reader) (rel_path json : Bytes) where
  -- Reading some object goes behind the tokens that are set.
  abbrev pub Misreads : List Token → Type 0
  Misreads tokens = (idx : ℕ) × (parse_object_at r.g_uid r.g_gid json tokens idx ≡ stray)

  children_loop-refuse :
      (tokens : List Token) (n idx : ℕ) (dir : ShimDir) (slot : ℕ)
      → children_loop r rel_path json tokens n idx dir slot ≡ refuse
      → (read_children r json tokens n idx ≡ none) ⊎ LacksMemory r.allocates
  unfolding children_loop read_children
  children_loop-refuse tokens zero idx dir slot h = cc
  children_loop-refuse tokens (suc n) idx dir slot h =
      elim (parse_object_at-ObjectEnd r.g_uid r.g_gid json tokens idx) [
        | malformed bad ↦ inl (rw (bad, read_children) refl)
        | misread bad ↦ inl (rw (bad, read_children) refl)
        | read meta next e ↦
            let name = relative_name r.allocates rel_path meta.path in
            elim (>>=-eq-refuse (place_entry r.allocates dir slot name meta.is_dir)
              (λ (dir', slot'). children_loop r rel_path json tokens n next dir' slot')
              (sym (loop_next r rel_path json tokens n idx dir slot e) ∙ h)) [
                | inl f ↦ inr (place_entry-refuse r.allocates dir slot name meta.is_dir f)
                | inr ((dir', slot'), _, h1) ↦
                    elim (children_loop-refuse tokens n next dir' slot' h1) [
                      | inl unread ↦ inl (rw (e, read_children) (rw unread refl))
                      | inr full ↦ inr full
                    ]
              ]
      ]

  fill_directory-refuse :
      (dir : ShimDir) (head : Token) (tokens : List Token)
      → fill_directory r rel_path dir json head tokens ≡ refuse
      → (read_children r json tokens head.size 1 ≡ none) ⊎ LacksMemory r.allocates
  unfolding fill_directory
  fill_directory-refuse dir head tokens h =
      let total = head.size + 2 in
      let dir0 = record dir { entries = replicate total blank_pair; count = total; index = 0 } in
      let last : ShimDir × ℕ → Run ShimDir = λ (dir3, slot). ok (record dir3 { count = slot }) in
      let loop : ShimDir → Run ShimDir =
        λ dir2. children_loop r rel_path json tokens head.size 1 dir2 2 >>= last in
      let dots : ShimDir → Run ShimDir =
        λ dir1. add_entry r.allocates dir1 1 (codes "..") true >>= loop in
      elim (Bool-cases (r.allocates (total * pair_size))) [
        | inr full ↦ inr (total * pair_size, full)
        | inl room ↦
            elim (>>=-eq-refuse (add_entry r.allocates dir0 0 (codes ".") true) dots
              (rw room at h)) [
                | inl e ↦ inr (add_entry-refuse r.allocates dir0 0 (codes ".") true e)
                | inr (dir1, _, h1) ↦
                    elim (>>=-eq-refuse (add_entry r.allocates dir1 1 (codes "..") true) loop h1) [
                      | inl e ↦ inr (add_entry-refuse r.allocates dir1 1 (codes "..") true e)
                      | inr (dir2, _, h2) ↦
                          elim (>>=-eq-refuse
                            (children_loop r rel_path json tokens head.size 1 dir2 2) last h2) [
                              | inl e ↦ children_loop-refuse tokens head.size 1 dir2 2 e
                              | inr (_, _, e) ↦ absurd (ok≢refuse e)
                            ]
                    ]
              ]
      ]

  children_loop-stray :
      (tokens : List Token) (n idx : ℕ) (dir : ShimDir) (slot : ℕ)
      → children_loop r rel_path json tokens n idx dir slot ≡ stray
      → (read_children r json tokens n idx ≡ none) × Misreads tokens
  unfolding children_loop read_children
  children_loop-stray tokens zero idx dir slot h = cc
  children_loop-stray tokens (suc n) idx dir slot h =
      elim (parse_object_at-ObjectEnd r.g_uid r.g_gid json tokens idx) [
        | malformed bad ↦ absurd (cc (rw (bad, children_loop) at h))
        | misread bad ↦ (rw (bad, read_children) refl, (idx, bad))
        | read meta next e ↦
            let name = relative_name r.allocates rel_path meta.path in
            elim (>>=-eq-stray (place_entry r.allocates dir slot name meta.is_dir)
              (λ (dir', slot'). children_loop r rel_path json tokens n next dir' slot')
              (sym (loop_next r rel_path json tokens n idx dir slot e) ∙ h)) [
                | inl f ↦ absurd (place_entry-not_stray r.allocates dir slot name meta.is_dir f)
                | inr ((dir', slot'), _, h1) ↦
                    let (unread, where_bad) = children_loop-stray tokens n next dir' slot' h1 in
                    (rw (e, read_children) (rw unread refl), where_bad)
              ]
      ]

  fill_directory-stray :
      (dir : ShimDir) (head : Token) (tokens : List Token)
      → fill_directory r rel_path dir json head tokens ≡ stray
      → (read_children r json tokens head.size 1 ≡ none) × Misreads tokens
  unfolding fill_directory
  fill_directory-stray dir head tokens h =
      let total = head.size + 2 in
      let dir0 = record dir { entries = replicate total blank_pair; count = total; index = 0 } in
      let last : ShimDir × ℕ → Run ShimDir = λ (dir3, slot). ok (record dir3 { count = slot }) in
      let loop : ShimDir → Run ShimDir =
        λ dir2. children_loop r rel_path json tokens head.size 1 dir2 2 >>= last in
      let dots : ShimDir → Run ShimDir =
        λ dir1. add_entry r.allocates dir1 1 (codes "..") true >>= loop in
      elim (Bool-cases (r.allocates (total * pair_size))) [
        | inr full ↦ absurd (cc (rw full at h))
        | inl room ↦
            elim (>>=-eq-stray (add_entry r.allocates dir0 0 (codes ".") true) dots
              (rw room at h)) [
                | inl e ↦ absurd (add_entry-not_stray r.allocates dir0 0 (codes ".") true e)
                | inr (dir1, _, h1) ↦
                    elim (>>=-eq-stray (add_entry r.allocates dir1 1 (codes "..") true) loop h1) [
                      | inl e ↦ absurd (add_entry-not_stray r.allocates dir1 1 (codes "..") true e)
                      | inr (dir2, _, h2) ↦
                          elim (>>=-eq-stray
                            (children_loop r rel_path json tokens head.size 1 dir2 2) last h2) [
                              | inl e ↦ children_loop-stray tokens head.size 1 dir2 2 e
                              | inr (_, _, e) ↦ cc
                            ]
                    ]
              ]
      ]

  populate_tokens-stray :
      (dir : ShimDir) (count : ℕ) (tokens : List Token)
      → populate_tokens r rel_path dir json count tokens ≡ stray
      → Misreads tokens
  unfolding populate_tokens
  populate_tokens-stray dir count [] h = cc
  populate_tokens-stray dir count (head ∷ tokens) h = elim (Bool-cases (not (ltb count 1))) [
    | inr empty ↦ absurd (cc (rw empty at h))
    | inl some_token ↦ elim (Bool-cases (is_array head.type)) [
      | inr other ↦ absurd (cc (rw (some_token, other) at h))
      | inl array ↦ (fill_directory-stray dir head (head ∷ tokens) (rw (some_token, array) at h)).1
    ]
  ]

  -- A listing that reads behind the tokens has an object that misses one.
  pub populate_directory-stray :
      (dir : ShimDir)
      → populate_directory r rel_path dir json ≡ stray
      → (count : ℕ) × (tokens : List Token) × (parse_json_document r.allocates r.jsmn json
          ≡ some (count, tokens))
        × Misreads tokens
  populate_directory-stray dir h =
      elim (Option-cases (parse_json_document r.allocates r.jsmn json)) [
        | inl e ↦ absurd (cc (populate_none r rel_path json dir e))
        | inr ((count, tokens), e) ↦ (
          count,
          tokens,
          e,
          populate_tokens-stray dir count tokens (sym (populate_some r rel_path json dir e) ∙ h),
        )
      ]

  -- A body that is an array of objects is listed where there is memory.
  pub populate_directory_total :
      (dir : ShimDir) {count : ℕ} {head : Token} {tokens : List Token} {metas : List RemoteMeta}
      → ((size : ℕ) → r.allocates size ≡ true)
      → parse_json_document r.allocates r.jsmn json ≡ some (count, head ∷ tokens)
      → ltb count 1 ≡ false
      → is_array head.type ≡ true
      → read_children r json (head ∷ tokens) head.size 1 ≡ some metas
      → (filled : ShimDir) × (populate_directory r rel_path dir json ≡ ok filled)
  unfolding populate_tokens
  populate_directory_total dir {count} {head} {tokens} memory parses counts array reads =
      elim (fill_cases r rel_path json dir head tokens) [
        | inr (filled, e, _) ↦
            (filled, populate_some r rel_path json dir parses ∙ rw (counts, array) e)
        | inl (true, e) ↦
            let (unread, _) = fill_directory-stray dir head (head ∷ tokens) e in
            absurd (cc (reads, unread))
        | inl (false, e) ↦ elim (fill_directory-refuse dir head (head ∷ tokens) e) [
          | inl unread ↦ absurd (cc (reads, unread))
          | inr (size, full) ↦ absurd (cc (memory size, full))
        ]
      ]
