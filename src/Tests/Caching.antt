-- ===== src/Tests/Caching.antt =====
-- A cache of ten bytes with a file of six in it.
use s3ro.Base.{◌≡◌, refl, none, some, [], ◌∷◌, ◌++◌, Bytes, codes, arith}
use s3ro.Cache.{
  CacheEntry, assign, Cache, new_cache, cached, panicked, file_of, evict_loop, ensure_capacity,
  commit, look_up, load_or_create, touch,
}
use s3ro.Cache.Sound.{IsSound, CommitEnd, commit-CommitEnd}
use s3ro.Cache.Calls.{
  Reachable, started, loads, touches, Reachable-Sound, Survives, Reachable-Survives,
}
use s3ro.Cache.Racing.{then_commit, commit_twice}

abbrev key_path : Bytes → Bytes
key_path key = codes "/c/" ++ key

abbrev entry_a : CacheEntry
entry_a = record { path = codes "/c/a"; size = 6 }

abbrev entry_b : CacheEntry
entry_b = record { path = codes "/c/b"; size = 5 }

abbrev with_a : Cache
with_a = record {
  max_bytes = 10;
  entries = assign (λ k. none) (codes "a") (some entry_a);
  order = codes "a" ∷ [];
  used = 6;
  removed = [];
}

with_a-Reachable : Reachable key_path 10 with_a
unfolding load_or_create look_up commit ensure_capacity evict_loop
with_a-Reachable = loads (codes "a") (file_of 6) started refl

commit-CommitEnd_example : CommitEnd (codes "b") entry_b with_a (commit (codes "b") entry_b with_a)
commit-CommitEnd_example =
    commit-CommitEnd (codes "b") entry_b with_a (Reachable-Sound with_a-Reachable) refl

-- The older file makes room.
evicted_run :
    commit (codes "b") entry_b with_a
    ≡ cached (record {
      max_bytes = 10;
      entries = assign (assign with_a.entries (codes "a") none) (codes "b") (some entry_b);
      order = codes "b" ∷ [];
      used = 5;
      removed = codes "/c/a" ∷ [];
    })
unfolding commit ensure_capacity evict_loop
evicted_run = refl

Reachable-Survives_example :
    IsSound (touch (codes "a") with_a)
    × Survives
        (load_or_create (key_path (codes "b")) (codes "b") (file_of 5) (touch (codes "a") with_a))
Reachable-Survives_example =
    Reachable-Survives (codes "b") (file_of 5) (touches (codes "a") with_a-Reachable)

commit_twice_example :
    (look_up (codes "a") (new_cache 12) ≡ none)
    × (then_commit
          (codes "c")
          (record { path = codes "/c/c"; size = 8 })
          (then_commit (codes "a") entry_a (commit (codes "a") entry_a (new_cache 12)))
        ≡ panicked)
commit_twice_example =
    commit_twice 12 (codes "a") (codes "c") entry_a (record { path = codes "/c/c"; size = 8 })
      (omega arith) (omega arith) (omega arith)
