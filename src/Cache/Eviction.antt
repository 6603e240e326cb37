-- ===== src/Cache/Eviction.antt =====
-- About `ensureCapacity` and what LoadOrCreate does behind it: the entries that were used longest ago
-- go, and no more of them than are needed.
use s3ro.Base.{
  ℕ, ◌+◌, ◌<◌, ◌≤◌, Bool, true, false, ◌||◌, Option, none, some, List, [], ◌∷◌, ◌++◌, Bytes, ltb,
  ltb→lt, str_eq, if◌then◌else◌, ◌≡◌, refl, sym, ap, ◌∙◌, arith, ◌⊎◌, inl, inr, append_assoc,
  Bool-cases,
}
use s3ro.Cache.{CacheEntry, assign, Cache, occurs, evict_entry, evict_loop}
use s3ro.Cache.Order.{
  total, Tracks, Tracks-evict, total-assign, or_false, occurs-append, str_eq_comm,
}

-- What the loop leaves: the keys from some place on. The last key that went had to go.
pub record Evicted (need : ℕ) (c : Cache) (order : List Bytes) (c' : Cache) : Type 0 where
  pub gone : List Bytes
  pub parts : order ≡ gone ++ c'.order
  pub tracks : Tracks c'.entries c'.order c'.used
  pub budget : c'.max_bytes ≡ c.max_bytes
  pub room : (c'.order ≡ []) ⊎ (c'.used + need ≤ c.max_bytes)
  pub needed :
      (gone ≡ [])
      ⊎ ((before : List Bytes) × (last : Bytes) × (gone ≡ before ++ (last ∷ []))
          × (c.max_bytes < total c.entries (last ∷ c'.order) + need))
  pub only : (k : Bytes) → c'.entries k ≡ (if occurs k gone then none else c.entries k)

ltb-false→le : (a b : ℕ) → ltb a b ≡ false → b ≤ a
ltb-false→le a b h = ground arith

not_needed :
    (need : ℕ) (c : Cache) (order : List Bytes)
    → c.order ≡ order
    → Tracks c.entries order c.used
    → (order ≡ []) ⊎ (c.used + need ≤ c.max_bytes)
    → Evicted need c order c
not_needed need c order at t room = record {
  gone = [];
  parts = sym at;
  tracks = rw at t;
  budget = refl;
  room = rw at room;
  needed = inl refl;
  only = λ k. refl;
}

neither :
    (a b : Bool) (x : Option CacheEntry)
    → (if b then none else (if a then none else x)) ≡ (if a || b then none else x)
neither true true x = refl
neither true false x = refl
neither false true x = refl
neither false false x = refl

-- One more key in front of those that went.
evict_first :
    (need : ℕ) (c : Cache) (key : Bytes) (rest : List Bytes) (entry : CacheEntry) {c' : Cache}
    → Tracks c.entries (key ∷ rest) c.used
    → c.entries key ≡ some entry
    → c.max_bytes < c.used + need
    → Evicted need (evict_entry c rest key entry) rest c'
    → Evicted need c (key ∷ rest) c'
evict_first need c key rest entry {c'} t e full h =
    let first_needed : h.gone ≡ [] → c.max_bytes < total c.entries (key ∷ c'.order) + need =
      λ none_gone.
        let all : rest ≡ c'.order = h.parts ∙ ap (λ (g : List Bytes). g ++ c'.order) none_gone in
        omega (arith, full, t.counts, ap (total c.entries) all) in
    let later_needed : (before : List Bytes) (last : Bytes)
        → h.gone ≡ before ++ (last ∷ [])
        → c.max_bytes < total (assign c.entries key none) (last ∷ c'.order) + need
        → c.max_bytes < total c.entries (last ∷ c'.order) + need =
      λ before last is_gone over.
        let split : rest ≡ before ++ (last ∷ c'.order) =
          h.parts
          ∙ ap (λ (g : List Bytes). g ++ c'.order) is_gone
          ∙ append_assoc before (last ∷ []) c'.order in
        let apart = or_false (occurs key before) (occurs key (last ∷ c'.order)) (
          sym (occurs-append key before (last ∷ c'.order))
          ∙ sym (ap (occurs key) split)
          ∙ t.distinct.0) in
        rw (total-assign c.entries key none (last ∷ c'.order) apart.1) at over in
    record {
      gone = key ∷ h.gone;
      parts = ap (◌∷◌ key) h.parts;
      tracks = h.tracks;
      budget = h.budget;
      room = h.room;
      needed = inr (elim h.needed [
        | inl none_gone ↦ ([], key, ap (◌∷◌ key) none_gone, first_needed none_gone)
        | inr (before, last, is_gone, over) ↦
            (key ∷ before, last, ap (◌∷◌ key) is_gone, later_needed before last is_gone over)
      ]);
      only = λ k.
          h.only k
          ∙ neither (str_eq key k) (occurs k h.gone) (c.entries k)
          ∙ ap (λ (b : Bool). if b || occurs k h.gone then none else c.entries k)
              (str_eq_comm key k);
    }

pub evict_loop-Evicted :
    (need : ℕ) (order : List Bytes) (c : Cache)
    → c.order ≡ order
    → Tracks c.entries order c.used
    → (c' : Cache) × (evict_loop need order c ≡ some c') × Evicted need c order c'
unfolding evict_loop
evict_loop-Evicted need [] c at t = (c, refl, not_needed need c [] at t (inl refl))
evict_loop-Evicted need (key ∷ rest) c at t =
    let ((entry, e), _) = t.held in
    elim (Bool-cases (ltb c.max_bytes (c.used + need))) [
      | inr small ↦ (
        c,
        rw small refl,
        not_needed need c (key ∷ rest) at t (inr (ltb-false→le c.max_bytes (c.used + need) small)),
      )
      | inl full ↦
          let (c1, run, h) =
            evict_loop-Evicted need rest (evict_entry c rest key entry) refl
              (Tracks-evict c.entries key rest c.used t e) in
          (
            c1,
            rw (full, e) run,
            evict_first need c key rest entry t e (ltb→lt c.max_bytes (c.used + need) full) h,
          )
    ]
