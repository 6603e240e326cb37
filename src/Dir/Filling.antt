-- ===== src/Dir/Filling.antt =====
-- The loop of `populate_directory` over the children.
use s3ro.Base.{
  ℕ, Bool, true, false, zero, suc, ◌+◌, ◌≤◌, some, List, [], ◌∷◌, ◌++◌, Bytes, length, replicate,
  ◌≡◌, refl, ◌∙◌, arith, ◌⊎◌, inl, inr, append_assoc, length-append,
}
use s3ro.Dir.{EntryPair, ShimDir, relative_name, Reader, place_entry, children_loop, blank_pair}
use s3ro.Json.{Token, parse_object_at}
use s3ro.Json.Ends.{read, malformed, misread, parse_object_at-ObjectEnd}
use s3ro.Meta.{RemoteMeta}
use s3ro.Run.{ok, refuse, stray, halted, ◌>>=◌}
use s3ro.Dir.Listing.{pair_of, read_children, list_name, listed}
use s3ro.Dir.Slots.{holding, Filled, place_unnamed, list_unnamed, place_named, name_cases}

module _ (r : Reader) (rel_path json : Bytes) (tokens : List Token) where
  loop_malformed :
      (n idx : ℕ) (dir : ShimDir) (slot : ℕ)
      → parse_object_at r.g_uid r.g_gid json tokens idx ≡ refuse
      → children_loop r rel_path json tokens (suc n) idx dir slot ≡ refuse
  unfolding children_loop
  loop_malformed n idx dir slot e = rw (e, children_loop)

  loop_misread :
      (n idx : ℕ) (dir : ShimDir) (slot : ℕ)
      → parse_object_at r.g_uid r.g_gid json tokens idx ≡ stray
      → children_loop r rel_path json tokens (suc n) idx dir slot ≡ stray
  unfolding children_loop
  loop_misread n idx dir slot e = rw (e, children_loop)

  pub loop_next :
      (n idx : ℕ) (dir : ShimDir) (slot : ℕ) {meta : RemoteMeta} {next : ℕ}
      → parse_object_at r.g_uid r.g_gid json tokens idx ≡ ok (meta, next)
      → children_loop r rel_path json tokens (suc n) idx dir slot ≡ (
          place_entry r.allocates dir slot
            (relative_name r.allocates rel_path meta.path)
            meta.is_dir
          >>= λ (dir', slot'). children_loop r rel_path json tokens n next dir' slot')
  unfolding children_loop
  loop_next n idx dir slot e = rw (e, children_loop)

  read_next :
      (n idx : ℕ) {meta : RemoteMeta} {next : ℕ} {metas : List RemoteMeta}
      → parse_object_at r.g_uid r.g_gid json tokens idx ≡ ok (meta, next)
      → read_children r json tokens n next ≡ some metas
      → read_children r json tokens (suc n) idx ≡ some (meta ∷ metas)
  unfolding read_children
  read_next n idx e f = rw (e, read_children) (rw f refl)

  abbrev pub LoopResult : (n idx : ℕ) → ShimDir → List EntryPair → ℕ → ℕ → Type 0
  LoopResult n idx dir front free slot =
      let result =
        children_loop r rel_path json tokens n idx
          (holding dir (front ++ replicate free blank_pair)) slot in
      ((wild : Bool) × (result ≡ halted wild))
      ⊎ Filled r rel_path json tokens n idx dir front slot result

  module _ (n idx next slot free : ℕ) (dir : ShimDir) (front : List EntryPair) (meta : RemoteMeta)
      (parses : parse_object_at r.g_uid r.g_gid json tokens idx ≡ ok (meta, next)) where
    -- A child with no name.
    skip_child :
        list_name (relative_name r.allocates rel_path meta.path) meta.is_dir [] ≡ []
        → LoopResult n next dir front free slot
        → LoopResult (suc n) idx dir front free slot
    skip_child e (inl (wild, f)) = inl (
      wild,
      loop_next n idx (holding dir (front ++ replicate free blank_pair)) slot parses
          ∙ rw (place_unnamed r.allocates _ slot _ meta.is_dir e) f,
    )
    skip_child e (inr f) =
        let same =
          list_unnamed (relative_name r.allocates rel_path meta.path) meta.is_dir
            (listed r.allocates rel_path f.metas) e in
        inr (record {
          metas = meta ∷ f.metas;
          spare = f.spare;
          end = f.end;
          read = read_next n idx parses f.read;
          ends = rw same f.ends;
          is_ok =
              loop_next n idx (holding dir (front ++ replicate free blank_pair)) slot parses
              ∙ rw (place_unnamed r.allocates _ slot _ meta.is_dir e, same) f.is_ok;
        })

    -- A child that is listed in the next slot.
    list_child :
        (c : ℕ) (s : Bytes)
        → relative_name r.allocates rel_path meta.path ≡ some (c ∷ s)
        → slot ≡ length front
        → LoopResult n next dir
            (front ++ (pair_of dir.abs_path slot (c ∷ s, meta.is_dir) ∷ []))
            free
            (slot + 1)
        → LoopResult (suc n) idx dir front (suc free) slot
    list_child c s e at_end later =
        elim (place_named r.allocates dir c s meta.is_dir front free slot at_end) [
          | inl full ↦ inl (
            false,
            loop_next n idx (holding dir (front ++ replicate (suc free) blank_pair)) slot parses
                ∙ rw (e, full) refl,
          )
          | inr placed ↦ elim later [
            | inl (wild, f) ↦ inl (
              wild,
              loop_next n idx (holding dir (front ++ replicate (suc free) blank_pair)) slot parses
                  ∙ rw (e, placed) f,
            )
            | inr f ↦ inr (record {
              metas = meta ∷ f.metas;
              spare = f.spare;
              end = f.end;
              read = read_next n idx parses f.read;
              ends = rw e (omega (arith, f.ends));
              is_ok =
                  loop_next n idx (holding dir (front ++ replicate (suc free) blank_pair)) slot
                    parses
                  ∙ rw (e, placed) (f.is_ok ∙ rw append_assoc refl);
            })
          ]
        ]

  pub children_loop_cases :
      (n idx : ℕ) (dir : ShimDir) (front : List EntryPair) (free slot : ℕ)
      → n ≤ free
      → slot ≡ length front
      → LoopResult n idx dir front free slot
  unfolding children_loop read_children
  children_loop_cases zero idx dir front free slot room at_end = inr (record {
    metas = [];
    spare = free;
    end = slot;
    read = refl;
    ends = omega arith;
    is_ok = refl;
  })
  children_loop_cases (suc n) idx dir front zero slot room at_end = absurd (omega arith)
  children_loop_cases (suc n) idx dir front (suc free) slot room at_end =
      let start = holding dir (front ++ replicate (suc free) blank_pair) in
      elim (parse_object_at-ObjectEnd r.g_uid r.g_gid json tokens idx) [
        | malformed bad ↦ inl (false, loop_malformed n idx start slot bad)
        | misread bad ↦ inl (true, loop_misread n idx start slot bad)
        | read meta next parses ↦ elim (name_cases (relative_name r.allocates rel_path meta.path)) [
          | inl unnamed ↦
              skip_child n idx next slot (suc free) dir front meta parses (unnamed meta.is_dir)
                (children_loop_cases n next dir front (suc free) slot (omega arith) at_end)
          | inr (c, s, e) ↦ list_child n idx next slot free dir front meta parses c s e at_end (
              children_loop_cases n next dir
                (front ++ (pair_of dir.abs_path slot (c ∷ s, meta.is_dir) ∷ [])) free (slot + 1)
                (omega arith)
                (omega (
                  arith,
                  length-append front (pair_of dir.abs_path slot (c ∷ s, meta.is_dir) ∷ []),
                )))
        ]
      ]
