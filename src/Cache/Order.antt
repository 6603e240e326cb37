-- ===== src/Cache/Order.antt =====
-- About the entries of the cache and the order of their keys.
use s3ro.Base.{
  ℕ, ◌+◌, ◌-◌, Bool, true, false, ◌||◌, Option, none, some, List, [], ◌∷◌, ◌++◌, Bytes, str_eq, ◌≡◌,
  refl, sym, ap, ◌∙◌, arith, inl, inr, Bool-cases,
}
use s3ro.Cache.{CacheEntry, Entries, assign, occurs}

-- No key stands twice.
abbrev pub Distinct : List Bytes → Type 0
Distinct [] = Unit
Distinct (k ∷ ks) = (occurs k ks ≡ false) × Distinct ks

-- Each key has an entry.
abbrev pub AreHeld : Entries → List Bytes → Type 0
AreHeld entries [] = Unit
AreHeld entries (k ∷ ks) = ((entry : CacheEntry) × (entries k ≡ some entry)) × AreHeld entries ks

abbrev pub size_at : Option CacheEntry → ℕ
size_at none = 0
size_at (some entry) = entry.size

abbrev pub total : Entries → List Bytes → ℕ
total entries [] = 0
total entries (k ∷ ks) = size_at (entries k) + total entries ks

-- The keys of the entries are those of the order, each once, and the sizes add up.
pub record Tracks (entries : Entries) (order : List Bytes) (used : ℕ) : Type 0 where
  pub distinct : Distinct order
  pub held : AreHeld entries order
  pub listed : (k : Bytes) (entry : CacheEntry) → entries k ≡ some entry → occurs k order ≡ true
  pub counts : used ≡ total entries order

pub or_false : (a b : Bool) → a || b ≡ false → (a ≡ false) × (b ≡ false)
or_false a b h = (ground arith, ground arith)

pub total-assign :
    (entries : Entries) (key : Bytes) (value : Option CacheEntry) (ks : List Bytes)
    → occurs key ks ≡ false
    → total (assign entries key value) ks ≡ total entries ks
total-assign entries key value [] h = refl
total-assign entries key value (k ∷ ks) h =
    let (other, later) = or_false (str_eq key k) (occurs key ks) h in
    rw (other, total-assign entries key value ks later) refl

pub AreHeld-assign :
    (entries : Entries) (key : Bytes) (value : Option CacheEntry) (ks : List Bytes)
    → occurs key ks ≡ false
    → AreHeld entries ks
    → AreHeld (assign entries key value) ks
AreHeld-assign entries key value [] h held = tt
AreHeld-assign entries key value (k ∷ ks) h held =
    let (other, later) = or_false (str_eq key k) (occurs key ks) h in
    ((held.0.0, rw other (held.0.1)), AreHeld-assign entries key value ks later held.1)

-- An entry that is left after one was deleted is another.
pub assign-none :
    (entries : Entries) (key k : Bytes) {entry : CacheEntry}
    → assign entries key none k ≡ some entry
    → (str_eq key k ≡ false) × (entries k ≡ some entry)
assign-none entries key k h = elim (Bool-cases (str_eq key k)) [
  | inl same ↦ absurd (cc (rw same at h))
  | inr other ↦ (other, rw other at h)
]

pub str_eq_comm : (a b : Bytes) → str_eq a b ≡ str_eq b a
str_eq_comm [] [] = refl
str_eq_comm [] (_ ∷ _) = refl
str_eq_comm (_ ∷ _) [] = refl
str_eq_comm (x ∷ a) (y ∷ b) = ground (arith, str_eq_comm a b)

pub occurs-append :
    (key : Bytes) (xs ys : List Bytes) → occurs key (xs ++ ys) ≡ (occurs key xs || occurs key ys)
occurs-append key [] ys = refl
occurs-append key (x ∷ xs) ys = ground (arith, occurs-append key xs ys)

-- The first key is evicted.
pub Tracks-evict :
    (entries : Entries) (key : Bytes) (rest : List Bytes) (used : ℕ) {entry : CacheEntry}
    → Tracks entries (key ∷ rest) used
    → entries key ≡ some entry
    → Tracks (assign entries key none) rest (used - entry.size)
Tracks-evict entries key rest used {entry} t e =
    let size : size_at (entries key) ≡ entry.size = ap size_at e in
    let left = total-assign entries key none rest t.distinct.0 in
    record {
      distinct = t.distinct.1;
      held = AreHeld-assign entries key none rest t.distinct.0 t.held.1;
      listed = λ k found h.
          let (other, there) = assign-none entries key k h in
          let in_order = t.listed k found there in rw (sym (str_eq_comm key k) ∙ other) at in_order;
      counts = omega (arith, size, left, t.counts);
    }
