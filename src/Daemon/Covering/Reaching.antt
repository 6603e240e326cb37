-- ===== src/Daemon/Covering/Reaching.antt =====
-- From the items of one directory to those of all that are reached from it.
use s3ro.Base.{List, [], Bytes, ◌≡◌, sym, ap, ◌∙◌, inl, inr}
use s3ro.Daemon.{FileMeta}
use s3ro.Daemon.Files.{Found, found, missing, broken, ObjectStore}
use s3ro.Daemon.Warming.{Metas, Walk, walked, visit_found}
use s3ro.Daemon.Covering.{Member, Reached, here, inside, Holds, Covered}
use s3ro.Daemon.Covering.Visiting.{Visited, visit-Visited, walked-injective}

items_of : Found (List FileMeta) → List FileMeta
items_of (found items) = items
items_of missing = []
items_of broken = []

pub found-injective :
    {xs ys : List FileMeta} → ◌≡◌ {A = Found (List FileMeta)} (found xs) (found ys) → xs ≡ ys
unfolding items_of
found-injective e = ap items_of e

Holds-Reached :
    (store : ObjectStore) (rel : Bytes) (items : List FileMeta) (dst d : Metas) {directory : Bytes}
    → store.list rel ≡ found items
    → Visited store items dst d
    → (item : FileMeta) → Reached store rel directory
    → (is : List FileMeta) → store.list directory ≡ found is
    → Member item is
    → Holds (d item.path)
Holds-Reached store rel items dst d listed v item here is e member =
    let same : is ≡ items = found-injective (sym e ∙ listed) in v.holds item (rw same at member)
Holds-Reached store rel items dst d listed v item (inside is' sub e' there is_dir reached) is e
      member =
    let same : is' ≡ items = found-injective (sym e' ∙ listed) in
    v.covers sub item (rw same at there) is_dir
      (record { directory = _; items = is; reached = reached; listed = e; member = member })

Visited-Covered :
    (store : ObjectStore) (rel : Bytes) (items : List FileMeta) (dst d : Metas)
    → store.list rel ≡ found items
    → Visited store items dst d
    → Covered store rel dst d
Visited-Covered store rel items dst d listed v = record {
  keeps = v.keeps;
  covers = λ item lists.
      Holds-Reached store rel items dst d listed v item lists.reached lists.items lists.listed
        lists.member;
  from_list = λ k m h. elim (v.from_list k m h) [
    | inl before ↦ inl before
    | inr (at_k, inl there) ↦ inr (
      at_k,
      record { directory = rel; items = items; reached = here; listed = listed; member = there },
    )
    | inr (at_k, inr (sub, there, is_dir, lists)) ↦ inr (
      at_k,
      record {
        directory = lists.directory;
        items = lists.items;
        reached = inside items sub listed there is_dir lists.reached;
        listed = lists.listed;
        member = lists.member;
      },
    )
  ];
}

-- Nothing is listed from a directory that is not there.
none_listed_inside :
    (store : ObjectStore) (rel : Bytes) {directory : Bytes}
    → store.list rel ≡ missing
    → Reached store rel directory
    → (items : List FileMeta) → store.list directory ≡ found items
    → ⊥
none_listed_inside store rel nothing here items e =
    let clash : missing ≡ found items = sym nothing ∙ e in cc
none_listed_inside store rel nothing (inside is sub e there is_dir reached) items e' =
    let clash : missing ≡ found is = sym nothing ∙ e in cc

unchanged-Covered :
    (store : ObjectStore) (rel : Bytes) (dst : Metas)
    → store.list rel ≡ missing
    → Covered store rel dst dst
unchanged-Covered store rel dst nothing = record {
  keeps = λ k h. h;
  covers = λ item lists.
      absurd (none_listed_inside store rel nothing lists.reached lists.items lists.listed);
  from_list = λ k m h. inl h;
}

pub visit_found-Covered :
    (store : ObjectStore) (walk : Bytes → Metas → Walk)
    → ((rel : Bytes) (dst d : Metas) → walk rel dst ≡ walked d → Covered store rel dst d)
    → (rel : Bytes) (dst d : Metas) (reply : Found (List FileMeta)) → store.list rel ≡ reply
    → visit_found walk reply dst ≡ walked d
    → Covered store rel dst d
visit_found-Covered store walk covering rel dst d (found items) listed e =
    Visited-Covered store rel items dst d listed (visit-Visited store walk covering items dst e)
visit_found-Covered store walk covering rel dst d missing listed e =
    rw (sym (walked-injective e)) (unchanged-Covered store rel dst listed)
visit_found-Covered store walk covering rel dst d broken listed e = absurd (cc)
