-- ===== src/Cache/Sound.antt =====
-- About the second locked part of LoadOrCreate: what is evicted, and what is left.
use s3ro.Base.{
  ◌+◌, ◌<◌, ◌≤◌, ◌==◌, ==→eq, none, some, List, [], ◌∷◌, ◌++◌, Bytes, ltb, str_eq, if◌then◌else◌,
  ◌≡◌, ◌≢◌, refl, ap, ◌∙◌, arith, ◌⊎◌, inl, inr, Bool-cases,
}
use s3ro.Cache.{
  CacheEntry, Cache, occurs, Call, failed, cached, panicked, ensure_capacity, push_entry, commit,
}
use s3ro.Cache.Order.{total, Tracks}
use s3ro.Cache.Eviction.{Evicted, evict_loop-Evicted}
use s3ro.Cache.Moving.{Tracks-push}

-- Entries and order agree, and the sizes are within the budget, where there is one.
pub record IsSound (c : Cache) : Type 0 where
  pub tracks : Tracks c.entries c.order c.used
  pub budget : (c.max_bytes ≡ 0) ⊎ (c.used ≤ c.max_bytes)

-- The keys from some place on are kept, the others gone, and the new one is in front.
pub record Committed (key : Bytes) (entry : CacheEntry) (c c' : Cache) : Type 0 where
  pub gone : List Bytes
  pub kept : List Bytes
  pub parts : c.order ≡ gone ++ kept
  pub order : c'.order ≡ kept ++ (key ∷ [])
  pub needed :
      (gone ≡ [])
      ⊎ ((before : List Bytes) × (last : Bytes) × (gone ≡ before ++ (last ∷ []))
          × (c.max_bytes < total c.entries (last ∷ kept) + entry.size))
  pub entries :
      (k : Bytes)
      → c'.entries k
        ≡ (if str_eq key k then some entry else if occurs k gone then none else c.entries k)
  pub sound : IsSound c'

-- The entry does not fit the whole budget, and everything was evicted for it.
pub record TooBig (entry : CacheEntry) (c c' : Cache) : Type 0 where
  pub limited : c.max_bytes ≢ 0
  pub over : c.max_bytes < entry.size
  pub emptied : c'.order ≡ []
  pub unused : c'.used ≡ 0
  pub sound : IsSound c'

abbrev pub CommitEnd : Bytes → CacheEntry → Cache → Call → Type 0
CommitEnd key entry c (cached c') = Committed key entry c c'
CommitEnd key entry c (failed c') = TooBig entry c c'
CommitEnd key entry c panicked = ⊥

module _ (key : Bytes) (entry : CacheEntry) (c : Cache) (sound : IsSound c)
    (missing : c.entries key ≡ none) where
  without_limit : c.max_bytes ≡ 0 → CommitEnd key entry c (push_entry key entry (cached c))
  without_limit none_set = record {
    gone = [];
    kept = c.order;
    parts = refl;
    order = refl;
    needed = inl refl;
    entries = λ k. refl;
    sound = record {
      tracks = Tracks-push c.entries key entry c.order c.used sound.tracks missing;
      budget = inl none_set;
    };
  }

  fits :
      (c1 : Cache)
      → Evicted entry.size c c.order c1
      → c1.used + entry.size ≤ c.max_bytes
      → CommitEnd key entry c (push_entry key entry (cached c1))
  fits c1 h room =
      let still : c1.entries key ≡ none = h.only key ∙ rw missing (ground arith) in
      record {
        gone = h.gone;
        kept = c1.order;
        parts = h.parts;
        order = refl;
        needed = h.needed;
        entries = λ k. ap (λ o. if str_eq key k then some entry else o) (h.only k);
        sound = record {
          tracks = Tracks-push c1.entries key entry c1.order c1.used h.tracks still;
          budget = inr (omega (arith, room, h.budget));
        };
      }

  too_big :
      (c1 : Cache)
      → c.max_bytes ≢ 0
      → Evicted entry.size c c.order c1
      → c.max_bytes < c1.used + entry.size
      → CommitEnd key entry c (push_entry key entry (failed c1))
  too_big c1 limited h over = elim h.room [
    | inr room ↦ absurd (omega (arith, room, over))
    | inl empty ↦
        let unused : c1.used ≡ 0 = h.tracks.counts ∙ ap (total c1.entries) empty in
        record {
          limited = limited;
          over = omega (arith, over, unused);
          emptied = empty;
          unused = unused;
          sound = record { tracks = h.tracks; budget = inr (omega (arith, unused)) };
        }
  ]

  -- If the entries, the order and the sizes of a cache agree, its used bytes are within the
  -- budget, and it has no entry for the key, then LoadOrCreate, once it has fetched, either
  -- evicts the oldest entries, none where the new one fits, or else so many that with the last of
  -- them still there the new one would not fit, keeps the others in their order, and puts the new
  -- one in front of them; or it fails, then the new entry alone is larger than the budget and
  -- every other has been evicted. It does not panic, and the cache is sound behind it.
  pub commit-CommitEnd : CommitEnd key entry c (commit key entry c)
  unfolding commit ensure_capacity
  commit-CommitEnd = elim (Bool-cases (c.max_bytes == 0)) [
    | inl free ↦ rw free (without_limit (==→eq c.max_bytes 0 free))
    | inr bounded ↦
        let (c1, run, h) = evict_loop-Evicted entry.size c.order c refl sound.tracks in
        rw (bounded, run)
          (elim (Bool-cases (ltb c1.max_bytes (c1.used + entry.size))) [
            | inl over ↦ rw over (too_big c1 (λ free. ground arith) h (ground (arith, h.budget)))
            | inr room ↦ rw room (fits c1 h (ground (arith, h.budget)))
          ])
  ]
