-- ===== src/Daemon/Warmth.antt =====
-- About Stat behind WarmMetadataCache.
use s3ro.Base.{
  ℕ, zero, suc, Bool, none, some, [], ◌∷◌, Bytes, ◌≡◌, refl, sym, ap, ◌∙◌, ◌⊎◌, inl, inr,
  Bool-cases,
}
use mathlib.Core.Option.{some-injective}
use s3ro.Daemon.{FileMeta}
use s3ro.Daemon.Covering.{Lists, Covered}
use s3ro.Daemon.Covering.Reaching.{visit_found-Covered}
use s3ro.Daemon.Covering.Visiting.{put_meta-origin}
use s3ro.Daemon.Files.{
  found, ObjectStore, FileSystem, directory_at, sanitize, cached_meta, stat_relative, stat_path,
}
use s3ro.Daemon.Warming.{
  Metas, put_meta, Walk, walked, stopped, unfinished, populate_metadata, warmed,
  warm_metadata_cache,
}

populate_metadata-Covered :
    (rounds : ℕ) (cancelled : Bytes → Bool) (store : ObjectStore) (rel : Bytes) (dst d : Metas)
    → populate_metadata rounds cancelled store rel dst ≡ walked d
    → Covered store rel dst d
unfolding populate_metadata
populate_metadata-Covered zero cancelled store rel dst d e = absurd (cc)
populate_metadata-Covered (suc rounds) cancelled store rel dst d e =
    elim (Bool-cases (cancelled rel)) [
      | inl is_done ↦ absurd (cc (rw is_done at e))
      | inr goes ↦
          visit_found-Covered store (populate_metadata rounds cancelled store)
            (populate_metadata-Covered rounds cancelled store) rel dst d (store.list rel) refl
            (rw goes at e)
    ]

abbrev root_only : Metas
root_only = put_meta (λ k. none) (directory_at [])

warmed-some :
    (fs : FileSystem) (w : Walk) {fs' : FileSystem}
    → warmed fs w ≡ some fs'
    → (d : Metas) × (w ≡ walked d) × (fs' ≡ record fs { meta = some d })
warmed-some fs (walked d) e = (d, refl, sym (some-injective _ _ e))
warmed-some fs stopped e = absurd (cc)
warmed-some fs unfinished e = absurd (cc)

-- Where the cache has the entry, the store is not asked.
stat_relative-cached :
    (fs : FileSystem) (rel : Bytes) {m : FileMeta}
    → cached_meta fs rel ≡ some m
    → (m' : FileMeta) × (stat_relative fs rel ≡ found m')
      × ((m' ≡ m) ⊎ ((rel ≡ []) × (m' ≡ directory_at [])))
unfolding stat_relative
stat_relative-cached fs [] e = (directory_at [], refl, inr (refl, refl))
stat_relative-cached fs (c ∷ rel) {m} e = (m, rw (e, stat_relative) refl, inl refl)

-- What Stat gives: the root, or an item of the store's under this path.
pub record Known (store : ObjectStore) (rel : Bytes) (m : FileMeta) : Type 0 where
  pub path : m.path ≡ rel
  pub origin : (m ≡ directory_at []) ⊎ Lists store [] m

Known-cached :
    (store : ObjectStore) (d : Metas) (rel : Bytes) (m : FileMeta)
    → Covered store [] root_only d
    → d rel ≡ some m
    → Known store rel m
Known-cached store d rel m c e = elim (c.from_list rel m e) [
  | inr (at_rel, lists) ↦ record { path = at_rel; origin = inr lists }
  | inl first ↦ elim (put_meta-origin (λ k. none) (directory_at []) rel m first) [
    | inl nothing ↦ absurd (cc)
    | inr (at_rel, root) ↦ record { path = at_rel; origin = inl root }
  ]
]

stat_path-relative :
    (fs : FileSystem) (local rel : Bytes)
    → sanitize fs.tools fs.local_root local ≡ some rel
    → stat_path fs local ≡ stat_relative fs rel
unfolding stat_path
stat_path-relative fs local rel e = rw (e, stat_path) refl

stat_relative-Known :
    (fs : FileSystem) (store : ObjectStore) (d : Metas) (rel : Bytes) (m : FileMeta)
    → Covered store [] root_only d
    → fs.meta ≡ some d
    → d rel ≡ some m
    → (m' : FileMeta) × (stat_relative fs rel ≡ found m') × Known store rel m'
stat_relative-Known fs store d rel m c warm e =
    let cached : cached_meta fs rel ≡ some m = rw warm e in
    let (m', gives, which) = stat_relative-cached fs rel cached in
    (
      m',
      gives,
      elim which [
        | inl same ↦ rw same (Known-cached store d rel m c e)
        | inr (top, root) ↦ record { path = ap (λ x. x.path) root ∙ sym top; origin = inl root }
      ],
    )

-- If WarmMetadataCache ends without an error, and an item stands in the listing of a directory
-- that listings lead to from the root, then whatever becomes of the store afterwards, Stat of a
-- path that sanitize makes the item's path of finds a file with that path, which is the root or
-- stood in such a listing.
pub warm_metadata_cache-stat_path :
    (rounds : ℕ) (cancelled : Bytes → Bool) (fs : FileSystem) (item : FileMeta) (local : Bytes)
    (later : ObjectStore) {fs' : FileSystem}
    → warm_metadata_cache rounds cancelled fs ≡ some fs'
    → Lists fs.store [] item
    → sanitize fs.tools fs.local_root local ≡ some item.path
    → (m : FileMeta) × (stat_path (record fs' { store = later }) local ≡ found m)
      × Known fs.store item.path m
unfolding warm_metadata_cache
warm_metadata_cache-stat_path rounds cancelled fs item local later e lists cleans =
    let (d, walks, same) = warmed-some fs _ e in
    let c = populate_metadata-Covered rounds cancelled fs.store [] root_only d walks in
    let (m, holds) = c.covers item lists in
    let fs2 : FileSystem = record fs { meta = some d; store = later } in
    let (m', gives, known) = stat_relative-Known fs2 fs.store d item.path m c refl holds in
    rw same (m', stat_path-relative fs2 local item.path cleans ∙ gives, known)
