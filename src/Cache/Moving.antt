-- ===== src/Cache/Moving.antt =====
-- About an entry that is taken out, put in front, or moved there.
use mathlib.Core.Path.{fun_ext}
use s3ro.Base.{
  str_eq_self, ℕ, ◌+◌, ◌-◌, Bool, true, false, ◌||◌, none, some, List, [], ◌∷◌, ◌++◌, Bytes, str_eq,
  str_eq→eq, if◌then◌else◌, ◌≡◌, refl, sym, ap, ◌∙◌, arith, inl, inr, Bool-cases,
}
use s3ro.Cache.{CacheEntry, Entries, assign, occurs, without, move_to_front}
use s3ro.Cache.Order.{
  Distinct, AreHeld, size_at, total, Tracks, str_eq_comm, or_false, occurs-append, total-assign,
  AreHeld-assign, assign-none,
}

-- In an order without doubles the first element with a key is the frontmost one.
without-distinct :
    (key k : Bytes) (ks : List Bytes)
    → occurs k ks ≡ false
    → without key (k ∷ ks) ≡ (if str_eq key k then ks else k ∷ without key ks)
unfolding without
without-distinct key k ks h = elim (Bool-cases (str_eq key k)) [
  | inl same ↦
      let absent : occurs key ks ≡ false =
        ap (λ (b : Bytes). occurs b ks) (str_eq→eq key k same) ∙ h in
      rw (absent, same) refl
  | inr other ↦ elim (Bool-cases (occurs key ks)) [
    | inl later ↦ rw (later, other) refl
    | inr absent ↦ rw (absent, other) refl
  ]
]

without_nil : (key : Bytes) → without key [] ≡ []
unfolding without
without_nil key = refl

occurs-without :
    (key q : Bytes) (ks : List Bytes)
    → Distinct ks
    → occurs q (without key ks) ≡ (if str_eq key q then false else occurs q ks)
occurs-without key q [] h = rw (without_nil key) (ground arith)
occurs-without key q (k ∷ ks) h =
    let later = occurs-without key q ks h.1 in
    elim (Bool-cases (str_eq key k)) [
      | inl same ↦
          let is_k = str_eq→eq key k same in
          rw (without-distinct key k ks h.0, same)
            (elim (Bool-cases (str_eq key q)) [
              | inl here ↦
                  rw here
                    (sym (ap (λ (b : Bytes). occurs b ks) (sym is_k ∙ str_eq→eq key q here)) ∙ h.0)
              | inr away ↦
                  let apart : str_eq q k ≡ false =
                    str_eq_comm q k ∙ sym (ap (λ (b : Bytes). str_eq b q) is_k) ∙ away in
                  rw (away, apart) refl
            ])
      | inr other ↦
          rw (without-distinct key k ks h.0, other)
            (elim (Bool-cases (str_eq key q)) [
              | inl here ↦
                  let apart : str_eq q k ≡ false =
                    sym (ap (λ (b : Bytes). str_eq b k) (str_eq→eq key q here)) ∙ other in
                  rw (here, apart) (later ∙ rw here refl)
              | inr away ↦ rw away (ap (λ (b : Bool). str_eq q k || b) (later ∙ rw away refl))
            ])
    ]

Distinct-without : (key : Bytes) (ks : List Bytes) → Distinct ks → Distinct (without key ks)
Distinct-without key [] h = rw (without_nil key) tt
Distinct-without key (k ∷ ks) h = elim (Bool-cases (str_eq key k)) [
  | inl same ↦ rw (without-distinct key k ks h.0, same) h.1
  | inr other ↦
      rw (without-distinct key k ks h.0, other)
        (occurs-without key k ks h.1 ∙ rw other h.0, Distinct-without key ks h.1)
]

AreHeld-without :
    (entries : Entries) (key : Bytes) (ks : List Bytes)
    → Distinct ks
    → AreHeld entries ks
    → AreHeld (assign entries key none) (without key ks)
AreHeld-without entries key [] h held = rw (without_nil key) tt
AreHeld-without entries key (k ∷ ks) h held = elim (Bool-cases (str_eq key k)) [
  | inl same ↦
      let absent : occurs key ks ≡ false =
        ap (λ (b : Bytes). occurs b ks) (str_eq→eq key k same) ∙ h.0 in
      rw (without-distinct key k ks h.0, same) (AreHeld-assign entries key none ks absent held.1)
  | inr other ↦
      rw (without-distinct key k ks h.0, other)
        ((held.0.0, rw other (held.0.1)), AreHeld-without entries key ks h.1 held.1)
]

total-without :
    (entries : Entries) (key : Bytes) (ks : List Bytes)
    → Distinct ks
    → occurs key ks ≡ true
    → total (assign entries key none) (without key ks) + size_at (entries key) ≡ total entries ks
total-without entries key [] h there = cc
total-without entries key (k ∷ ks) h there = elim (Bool-cases (str_eq key k)) [
  | inl same ↦
      let is_k = str_eq→eq key k same in
      let absent : occurs key ks ≡ false = ap (λ (b : Bytes). occurs b ks) is_k ∙ h.0 in
      let size = ap (λ (b : Bytes). size_at (entries b)) is_k in
      rw (without-distinct key k ks h.0, same)
        (omega (arith, total-assign entries key none ks absent, size))
  | inr other ↦
      let later = total-without entries key ks h.1 (rw other at there) in
      rw (without-distinct key k ks h.0, other) (rw other (omega (arith, later)))
]

pub Tracks-remove :
    (entries : Entries) (key : Bytes) (order : List Bytes) (used : ℕ) {entry : CacheEntry}
    → Tracks entries order used
    → entries key ≡ some entry
    → Tracks (assign entries key none) (without key order) (used - entry.size)
Tracks-remove entries key order used {entry} t e =
    let size : size_at (entries key) ≡ entry.size = ap size_at e in
    let sum = total-without entries key order t.distinct (t.listed key entry e) in
    record {
      distinct = Distinct-without key order t.distinct;
      held = AreHeld-without entries key order t.distinct t.held;
      listed = λ k found h.
          let (other, there) = assign-none entries key k h in
          occurs-without key k order t.distinct ∙ rw other (t.listed k found there);
      counts = omega (arith, size, sum, t.counts);
    }

occurs_unheld :
    (entries : Entries) (key : Bytes) (ks : List Bytes)
    → AreHeld entries ks
    → entries key ≡ none
    → occurs key ks ≡ false
occurs_unheld entries key [] held h = refl
occurs_unheld entries key (k ∷ ks) held h = elim (Bool-cases (str_eq key k)) [
  | inl same ↦ absurd (cc (str_eq→eq key k same, held.0.1))
  | inr other ↦ rw other (occurs_unheld entries key ks held.1 h)
]

Distinct-snoc :
    (ks : List Bytes) (key : Bytes)
    → Distinct ks
    → occurs key ks ≡ false
    → Distinct (ks ++ (key ∷ []))
Distinct-snoc [] key h absent = (refl, tt)
Distinct-snoc (k ∷ ks) key h absent =
    let (other, later) = or_false (str_eq key k) (occurs key ks) absent in
    (
      occurs-append k ks (key ∷ []) ∙ rw (h.0, str_eq_comm k key, other) refl,
      Distinct-snoc ks key h.1 later,
    )

AreHeld-snoc :
    (entries : Entries) (ks : List Bytes) (key : Bytes) {entry : CacheEntry}
    → AreHeld entries ks
    → entries key ≡ some entry
    → AreHeld entries (ks ++ (key ∷ []))
AreHeld-snoc entries [] key {entry} held e = ((entry, e), tt)
AreHeld-snoc entries (k ∷ ks) key held e = (held.0, AreHeld-snoc entries ks key held.1 e)

total-snoc :
    (entries : Entries) (ks : List Bytes) (key : Bytes)
    → total entries (ks ++ (key ∷ [])) ≡ total entries ks + size_at (entries key)
total-snoc entries [] key = omega arith
total-snoc entries (k ∷ ks) key = omega (arith, total-snoc entries ks key)

pub Tracks-push :
    (entries : Entries) (key : Bytes) (entry : CacheEntry) (order : List Bytes) (used : ℕ)
    → Tracks entries order used
    → entries key ≡ none
    → Tracks (assign entries key (some entry)) (order ++ (key ∷ [])) (used + entry.size)
Tracks-push entries key entry order used t e =
    let absent = occurs_unheld entries key order t.held e in
    let new = assign entries key (some entry) in
    let here : new key ≡ some entry = rw (str_eq_self key) refl in
    record {
      distinct = Distinct-snoc order key t.distinct absent;
      held =
          AreHeld-snoc new order key (AreHeld-assign entries key (some entry) order absent t.held)
            here;
      listed = λ k found h. occurs-append k order (key ∷ []) ∙ (elim (Bool-cases (str_eq key k)) [
        | inl same ↦ rw (str_eq_comm k key, same) (ground arith)
        | inr other ↦ rw (t.listed k found (rw other at h)) refl
      ]);
      counts = omega (
        arith,
        total-snoc new order key,
        total-assign entries key (some entry) order absent,
        ap size_at here,
        t.counts,
      );
    }

assign_back :
    (entries : Entries) (key : Bytes) (entry : CacheEntry)
    → entries key ≡ some entry
    → assign (assign entries key none) key (some entry) ≡ entries
assign_back entries key entry e = fun_ext λ k. elim (Bool-cases (str_eq key k)) [
  | inl same ↦ rw same (sym e ∙ ap entries (str_eq→eq key k same))
  | inr other ↦ rw other refl
]

pub Tracks-move_to_front :
    (entries : Entries) (key : Bytes) (order : List Bytes) (used : ℕ) {entry : CacheEntry}
    → Tracks entries order used
    → entries key ≡ some entry
    → Tracks entries (move_to_front key order) used
Tracks-move_to_front entries key order used {entry} t e =
    let gone = Tracks-remove entries key order used t e in
    let missing : assign entries key none key ≡ none = rw (str_eq_self key) refl in
    let back =
      Tracks-push (assign entries key none) key entry (without key order) (used - entry.size) gone
        missing in
    let sum = total-without entries key order t.distinct (t.listed key entry e) in
    let whole : used - entry.size + entry.size ≡ used =
      omega (arith, sum, t.counts, ap size_at e) in
    rw (assign_back entries key entry e, whole) at back
