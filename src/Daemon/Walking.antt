-- ===== src/Daemon/Walking.antt =====
-- That the walk of the store ends.
use s3ro.Base.{
  ℕ, zero, suc, ◌+◌, ◌<◌, ◌≤◌, Bool, true, List, [], ◌∷◌, Bytes, length, ◌≡◌, ◌≢◌, refl, arith, inl,
  inr, Bool-cases,
}
use s3ro.Daemon.{FileMeta}
use s3ro.Daemon.Files.{Found, found, missing, broken, ObjectStore}
use s3ro.Daemon.Warming.{
  Metas, put_meta, Walk, walked, stopped, unfinished, and_then, enter_item, visit, visit_found,
  populate_metadata,
}
use s3ro.Path.Names.{All}

-- A directory has a longer path than the one that holds it, and no path is longer than a limit.
abbrev pub Deepens : (limit : ℕ) → (rel : Bytes) → FileMeta → Type 0
Deepens limit rel item =
    item.is_dir ≡ true → (length rel < length item.path) × (length item.path ≤ limit)

abbrev pub Bounded : (limit : ℕ) → ObjectStore → Type 0
Bounded limit store =
    (rel : Bytes) (items : List FileMeta)
    → store.list rel ≡ found items
    → All (Deepens limit rel) items

module _ (walk : Bytes → Metas → Walk) where
  enter_item-ends :
      (item : FileMeta) (dst : Metas)
      → (item.is_dir ≡ true → (dst : Metas) → walk item.path dst ≢ unfinished)
      → enter_item walk item dst ≢ unfinished
  enter_item-ends item dst h e = elim (Bool-cases item.is_dir) [
    | inl is_dir ↦ h is_dir dst (rw is_dir at e)
    | inr is_file ↦ cc (rw is_file at e)
  ]

  and_then-ends :
      (first : Walk) (next : Metas → Walk)
      → first ≢ unfinished
      → ((dst : Metas) → next dst ≢ unfinished)
      → and_then first next ≢ unfinished
  and_then-ends (walked dst) next h k e = k dst e
  and_then-ends stopped next h k e = cc
  and_then-ends unfinished next h k e = h refl

  visit-ends :
      (items : List FileMeta) (dst : Metas)
      → All (λ item. item.is_dir ≡ true → (dst : Metas) → walk item.path dst ≢ unfinished) items
      → visit walk items dst ≢ unfinished
  unfolding visit
  visit-ends [] dst h e = cc
  visit-ends (item ∷ items) dst h e =
      and_then-ends (enter_item walk item (put_meta dst item)) (visit walk items)
        (enter_item-ends item (put_meta dst item) h.0) (λ d. visit-ends items d h.1) e

module _ (cancelled : Bytes → Bool) (store : ObjectStore) (limit : ℕ)
    (bounded : Bounded limit store) where
  deeper :
      (rounds : ℕ) (rel : Bytes) (items : List FileMeta)
      → ((rel' : Bytes) (dst : Metas)
          → length rel' ≤ limit
          → limit < length rel' + rounds
          → populate_metadata rounds cancelled store rel' dst ≢ unfinished)
      → limit < length rel + suc rounds
      → All (Deepens limit rel) items
      → All
          (λ item.
            item.is_dir ≡ true
            → (dst : Metas) → populate_metadata rounds cancelled store item.path dst ≢ unfinished)
          items
  deeper rounds rel [] ends room h = tt
  deeper rounds rel (item ∷ items) ends room h = (
    λ is_dir dst.
        let (longer, short) = h.0 is_dir in ends item.path dst short (omega (arith, longer, room)),
    deeper rounds rel items ends room h.1,
  )

  found_ends :
      (walk : Bytes → Metas → Walk) (rel : Bytes) (dst : Metas) (reply : Found (List FileMeta))
      → ((items : List FileMeta) → reply ≡ found items → visit walk items dst ≢ unfinished)
      → visit_found walk reply dst ≢ unfinished
  found_ends walk rel dst (found items) h e = h items refl e
  found_ends walk rel dst missing h e = cc
  found_ends walk rel dst broken h e = cc

  -- If every directory in a listing has a path longer than that of the directory listed, and none
  -- is longer than a limit, populateMetadata ends: the calls in calls on a path are at most the
  -- limit less the length of the path and one more.
  pub populate_metadata-ends :
      (rounds : ℕ) (rel : Bytes) (dst : Metas)
      → length rel ≤ limit
      → limit < length rel + rounds
      → populate_metadata rounds cancelled store rel dst ≢ unfinished
  unfolding populate_metadata
  populate_metadata-ends zero rel dst short room e = absurd (omega (arith, short, room))
  populate_metadata-ends (suc rounds) rel dst short room e = elim (Bool-cases (cancelled rel)) [
    | inl is_done ↦ cc (rw is_done at e)
    | inr goes ↦
        let below = populate_metadata rounds cancelled store in
        found_ends below rel dst (store.list rel)
          (λ items listed. visit-ends below items dst (
            deeper rounds rel items (populate_metadata-ends rounds) room
              (bounded rel items listed)))
          (rw goes at e)
  ]
