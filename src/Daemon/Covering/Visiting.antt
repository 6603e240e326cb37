-- ===== src/Daemon/Covering/Visiting.antt =====
-- About the loop over the items of a directory, and what lies below them.
use s3ro.Base.{
  true, none, some, List, [], ◌∷◌, Bytes, str_eq, str_eq→eq, str_eq_self, ◌≡◌, refl, sym, ap, ◌∙◌,
  ◌⊎◌, inl, inr, Bool-cases,
}
use s3ro.Daemon.{FileMeta}
use s3ro.Daemon.Files.{ObjectStore}
use s3ro.Daemon.Warming.{
  Metas, put_meta, Walk, walked, stopped, unfinished, and_then, enter_item, visit,
}
use s3ro.Daemon.Covering.{Member, Lists, Holds, Covered}

-- The same of the items of one directory.
pub record Visited (store : ObjectStore) (items : List FileMeta) (dst d : Metas) : Type 0 where
  pub keeps : (k : Bytes) → Holds (dst k) → Holds (d k)
  pub holds : (item : FileMeta) → Member item items → Holds (d item.path)
  pub covers :
      (sub item : FileMeta)
      → Member sub items
      → sub.is_dir ≡ true
      → Lists store sub.path item
      → Holds (d item.path)
  pub from_list :
      (k : Bytes) (m : FileMeta)
      → d k ≡ some m
      → (dst k ≡ some m)
        ⊎ ((m.path ≡ k)
            × (Member m items
                ⊎ ((sub : FileMeta) × Member sub items
                    × (sub.is_dir ≡ true)
                    × Lists store sub.path m)))

pub put_meta-Holds :
    (dst : Metas) (item : FileMeta) (k : Bytes) → Holds (dst k) → Holds (put_meta dst item k)
put_meta-Holds dst item k (m, e) = elim (Bool-cases (str_eq item.path k)) [
  | inl same ↦ (item, rw same refl)
  | inr other ↦ (m, rw other e)
]

put_meta-at : (dst : Metas) (item : FileMeta) → Holds (put_meta dst item item.path)
put_meta-at dst item = (item, rw (str_eq_self item.path) refl)

pub put_meta-origin :
    (dst : Metas) (item : FileMeta) (k : Bytes) (m : FileMeta)
    → put_meta dst item k ≡ some m
    → (dst k ≡ some m) ⊎ ((m.path ≡ k) × (m ≡ item))
put_meta-origin dst item k m e = elim (Bool-cases (str_eq item.path k)) [
  | inl same ↦
      let is_item : m ≡ item = cc (rw same at e) in
      inr (ap (λ x. x.path) is_item ∙ str_eq→eq item.path k same, is_item)
  | inr other ↦ inl (rw other at e)
]

and_then-walked :
    (first : Walk) (next : Metas → Walk) {d : Metas}
    → and_then first next ≡ walked d
    → (d1 : Metas) × (first ≡ walked d1) × (next d1 ≡ walked d)
and_then-walked (walked d1) next e = (d1, refl, e)
and_then-walked stopped next e = absurd (cc)
and_then-walked unfinished next e = absurd (cc)

metas_of : Walk → Metas
metas_of (walked d) = d
metas_of stopped = λ k. none
metas_of unfinished = λ k. none

pub walked-injective : {a b : Metas} → walked a ≡ walked b → a ≡ b
unfolding metas_of
walked-injective e = ap metas_of e

-- The same of one item.
record Entered (store : ObjectStore) (sub : FileMeta) (dst d : Metas) : Type 0 where
  keeps : (k : Bytes) → Holds (dst k) → Holds (d k)
  covers : (item : FileMeta) → sub.is_dir ≡ true → Lists store sub.path item → Holds (d item.path)
  from_list :
      (k : Bytes) (m : FileMeta)
      → d k ≡ some m
      → (dst k ≡ some m) ⊎ ((sub.is_dir ≡ true) × (m.path ≡ k) × Lists store sub.path m)

module _ (store : ObjectStore) (walk : Bytes → Metas → Walk)
    (covering : (rel : Bytes) (dst d : Metas)
      → walk rel dst ≡ walked d
      → Covered store rel dst d) where
  enter_item-Entered :
      (sub : FileMeta) (dst : Metas) {d : Metas}
      → enter_item walk sub dst ≡ walked d
      → Entered store sub dst d
  enter_item-Entered sub dst {d} e = elim (Bool-cases sub.is_dir) [
    | inl is_dir ↦
        let c = covering sub.path dst d (rw is_dir at e) in
        record {
          keeps = c.keeps;
          covers = λ item _ lists. c.covers item lists;
          from_list = λ k m h. elim (c.from_list k m h) [
            | inl before ↦ inl before
            | inr (at_k, lists) ↦ inr (is_dir, at_k, lists)
          ];
        }
    | inr is_file ↦
        let same = walked-injective (rw is_file at e) in
        record {
          keeps = λ k h. rw same at h;
          covers = λ item is_dir lists. absurd (cc);
          from_list = λ k m h. inl (rw (sym same) at h);
        }
  ]

  pub visit-Visited :
      (items : List FileMeta) (dst : Metas) {d : Metas}
      → visit walk items dst ≡ walked d
      → Visited store items dst d
  unfolding visit
  visit-Visited [] dst {d} e =
      let same = walked-injective e in
      record {
        keeps = λ k h. rw same at h;
        holds = λ item h. absurd h;
        covers = λ s item h is_dir lists. absurd h;
        from_list = λ k m h. inl (rw (sym same) at h);
      }
  visit-Visited (sub ∷ items) dst {d} e =
      let (d1, entered, later) =
        and_then-walked (enter_item walk sub (put_meta dst sub)) (visit walk items) e in
      let c = enter_item-Entered sub (put_meta dst sub) entered in
      let v = visit-Visited items d1 later in
      record {
        keeps = λ k h. v.keeps k (c.keeps k (put_meta-Holds dst sub k h));
        holds = λ item h. elim h [
          | inl same ↦ rw same (v.keeps sub.path (c.keeps sub.path (put_meta-at dst sub)))
          | inr there ↦ v.holds item there
        ];
        covers = λ s item h is_dir lists. elim h [
          | inl same ↦ v.keeps item.path (c.covers item (rw same at is_dir) (rw same at lists))
          | inr there ↦ v.covers s item there is_dir lists
        ];
        from_list = λ k m h. elim (v.from_list k m h) [
          | inr (at_k, inl there) ↦ inr (at_k, inl (inr there))
          | inr (at_k, inr (s, there, is_dir, lists)) ↦
              inr (at_k, inr (s, inr there, is_dir, lists))
          | inl before ↦ elim (c.from_list k m before) [
            | inr (is_dir, at_k, lists) ↦ inr (at_k, inr (sub, inl refl, is_dir, lists))
            | inl earlier ↦ elim (put_meta-origin dst sub k m earlier) [
              | inl first ↦ inl first
              | inr (at_k, same) ↦ inr (at_k, inl (inl same))
            ]
          ]
        ];
      }
