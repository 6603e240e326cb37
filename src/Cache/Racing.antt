-- ===== src/Cache/Racing.antt =====
-- About two loads of one key at the same time. LoadOrCreate lets go of the lock while it fetches.
use s3ro.Base.{
  str_eq_self, ℕ, ◌+◌, ◌-◌, ◌<◌, ◌≤◌, true, false, ◌==◌, none, some, List, [], ◌∷◌, ◌++◌, Bytes,
  ltb, ◌≡◌, refl, ap, ◌∙◌, arith,
}
use s3ro.Cache.{
  CacheEntry, assign, Cache, new_cache, Call, failed, cached, panicked, evict_loop, ensure_capacity,
  commit, look_up, push_entry,
}

-- What push_entry leaves.
abbrev stored : Bytes → CacheEntry → Cache → Cache
stored key entry c = record c {
  entries = assign c.entries key (some entry);
  order = c.order ++ (key ∷ []);
  used = c.used + entry.size;
}

-- The second locked part of a load that missed before, behind another call.
abbrev pub then_commit : Bytes → CacheEntry → Call → Call
then_commit key entry (cached c) = commit key entry c
then_commit key entry (failed c) = commit key entry c
then_commit key entry panicked = panicked

evict_loop-fits :
    (need : ℕ) (order : List Bytes) (c : Cache)
    → ltb c.max_bytes (c.used + need) ≡ false
    → evict_loop need order c ≡ some c
unfolding evict_loop
evict_loop-fits need [] c h = refl
evict_loop-fits need (_ ∷ _) c h = rw h refl

commit-fits :
    (key : Bytes) (entry : CacheEntry) (c : Cache)
    → (c.max_bytes == 0) ≡ false
    → ltb c.max_bytes (c.used + entry.size) ≡ false
    → commit key entry c ≡ push_entry key entry (cached c)
unfolding commit ensure_capacity
commit-fits key entry c bounded h = rw (bounded, evict_loop-fits entry.size c.order c h, h) refl

-- The second of two elements of the list that is evicted has no entry.
evict_loop-lost :
    (need : ℕ) (key : Bytes) (entry : CacheEntry) (c : Cache)
    → c.entries key ≡ some entry
    → ltb c.max_bytes (c.used + need) ≡ true
    → ltb c.max_bytes (c.used - entry.size + need) ≡ true
    → evict_loop need (key ∷ key ∷ []) c ≡ none
unfolding evict_loop
evict_loop-lost need key entry c e first second = rw (first, e, second, str_eq_self key) refl

commit-lost :
    (key other : Bytes) (entry newer : CacheEntry) (c : Cache)
    → (c.max_bytes == 0) ≡ false
    → c.order ≡ key ∷ key ∷ []
    → c.entries key ≡ some entry
    → ltb c.max_bytes (c.used + newer.size) ≡ true
    → ltb c.max_bytes (c.used - entry.size + newer.size) ≡ true
    → commit other newer c ≡ panicked
unfolding commit ensure_capacity
commit-lost key other entry newer c bounded twice e first second =
    let lost : evict_loop newer.size c.order c ≡ none =
      ap (λ o. evict_loop newer.size o c) twice
      ∙ evict_loop-lost newer.size key entry c e first second in
    rw (bounded, lost) refl

-- If two calls of LoadOrCreate miss the same key on an empty cache before either inserts it,
-- twice the object's size is within the budget, and an object that fits the budget but not beside
-- the first is loaded next, then ensureCapacity panics.
pub commit_twice :
    (max_bytes : ℕ) (key other : Bytes) (entry newer : CacheEntry)
    → entry.size + entry.size ≤ max_bytes
    → newer.size ≤ max_bytes
    → max_bytes < entry.size + newer.size
    → (look_up key (new_cache max_bytes) ≡ none)
      × (then_commit other newer (then_commit key entry (commit key entry (new_cache max_bytes)))
          ≡ panicked)
unfolding look_up
commit_twice max_bytes key other entry newer both fits full =
    let s = entry.size in
    let bounded : (max_bytes == 0) ≡ false = ground arith in
    let one : ltb max_bytes (0 + s) ≡ false = ground arith in
    let two : ltb max_bytes (0 + s + s) ≡ false = ground arith in
    let three : ltb max_bytes (0 + s + s + newer.size) ≡ true = ground arith in
    let four : ltb max_bytes (0 + s + s - s + newer.size) ≡ true = ground arith in
    let c1 = commit-fits key entry (new_cache max_bytes) bounded one in
    let c2 = commit-fits key entry (stored key entry (new_cache max_bytes)) bounded two in
    let end =
      commit-lost key other entry newer (stored key entry (stored key entry (new_cache max_bytes)))
        bounded refl (rw (str_eq_self key) refl) three four in
    (
      refl,
      ap (λ r. then_commit other newer (then_commit key entry r)) c1
          ∙ ap (then_commit other newer) c2
          ∙ end,
    )
