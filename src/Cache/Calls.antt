-- ===== src/Cache/Calls.antt =====
-- About any sequence of calls of the cache, one behind the other.
use s3ro.Base.{ℕ, none, some, Bytes, ◌≡◌, refl, arith, inl, inr, Option-cases}
use s3ro.Cache.{
  CacheEntry, Cache, new_cache, Call, failed, cached, panicked, Fetch, not_opened, not_read,
  file_of, fetched, commit, look_up, load_or_create, touch, remove, move_to_front,
}
use s3ro.Cache.Moving.{Tracks-remove, Tracks-move_to_front}
use s3ro.Cache.Sound.{IsSound, CommitEnd, commit-CommitEnd}

-- What the calls of one process lead to; `key_path` is keyPath.
pub data Reachable (key_path : Bytes → Bytes) (max_bytes : ℕ) : Cache → Type 0 where
  started : Reachable key_path max_bytes (new_cache max_bytes)
  loads :
      {c c' : Cache} (key : Bytes) (fetch : Fetch)
      → Reachable key_path max_bytes c
      → load_or_create (key_path key) key fetch c ≡ cached c'
      → Reachable key_path max_bytes c'
  fails :
      {c c' : Cache} (key : Bytes) (fetch : Fetch)
      → Reachable key_path max_bytes c
      → load_or_create (key_path key) key fetch c ≡ failed c'
      → Reachable key_path max_bytes c'
  touches :
      {c : Cache} (key : Bytes)
      → Reachable key_path max_bytes c
      → Reachable key_path max_bytes (touch key c)
  removes :
      {c : Cache} (key : Bytes)
      → Reachable key_path max_bytes c
      → Reachable key_path max_bytes (remove key c)

-- The state behind a call, which did not panic.
abbrev pub Survives : Call → Type 0
Survives (cached c) = IsSound c
Survives (failed c) = IsSound c
Survives panicked = ⊥

new_cache-IsSound : (max_bytes : ℕ) → IsSound (new_cache max_bytes)
new_cache-IsSound max_bytes = record {
  tracks = record { distinct = tt; held = tt; listed = λ k entry h. cc; counts = refl };
  budget = inr (omega arith);
}

moved-IsSound :
    (key : Bytes) (c : Cache) {entry : CacheEntry}
    → IsSound c
    → c.entries key ≡ some entry
    → IsSound (record c { order = move_to_front key c.order })
moved-IsSound key c s e = record {
  tracks = Tracks-move_to_front c.entries key c.order c.used s.tracks e;
  budget = s.budget;
}

CommitEnd-Survives :
    (key : Bytes) (entry : CacheEntry) (c : Cache) (r : Call) → CommitEnd key entry c r → Survives r
CommitEnd-Survives key entry c (cached c') h = h.sound
CommitEnd-Survives key entry c (failed c') h = h.sound
CommitEnd-Survives key entry c panicked h = h

fetched-Survives :
    (path key : Bytes) (fetch : Fetch) (c : Cache)
    → IsSound c
    → c.entries key ≡ none
    → Survives (fetched path key fetch c)
fetched-Survives path key not_opened c s missing = s
fetched-Survives path key not_read c s missing = record { tracks = s.tracks; budget = s.budget }
fetched-Survives path key (file_of size) c s missing =
    let entry : CacheEntry = record { path = path; size = size } in
    CommitEnd-Survives key entry c (commit key entry c) (commit-CommitEnd key entry c s missing)

load_or_create-miss :
    (path key : Bytes) (fetch : Fetch) (c : Cache)
    → c.entries key ≡ none
    → load_or_create path key fetch c ≡ fetched path key fetch c
unfolding load_or_create look_up
load_or_create-miss path key fetch c missing = rw (missing, load_or_create, look_up) refl

load_or_create-hit :
    (path key : Bytes) (fetch : Fetch) (c : Cache) {entry : CacheEntry}
    → c.entries key ≡ some entry
    → load_or_create path key fetch c ≡ cached (record c { order = move_to_front key c.order })
unfolding load_or_create look_up
load_or_create-hit path key fetch c e = rw (e, load_or_create, look_up) refl

load_or_create-Survives :
    (path key : Bytes) (fetch : Fetch) (c : Cache)
    → IsSound c
    → Survives (load_or_create path key fetch c)
load_or_create-Survives path key fetch c s = elim (Option-cases (c.entries key)) [
  | inl missing ↦
      rw (load_or_create-miss path key fetch c missing)
        (fetched-Survives path key fetch c s missing)
  | inr (entry, e) ↦ rw (load_or_create-hit path key fetch c e) (moved-IsSound key c s e)
]

touch-miss : (key : Bytes) (c : Cache) → c.entries key ≡ none → touch key c ≡ c
unfolding touch look_up
touch-miss key c missing = rw (missing, touch, look_up) refl

touch-hit :
    (key : Bytes) (c : Cache) {entry : CacheEntry}
    → c.entries key ≡ some entry
    → touch key c ≡ record c { order = move_to_front key c.order }
unfolding touch look_up
touch-hit key c e = rw (e, touch, look_up) refl

touch-IsSound : (key : Bytes) (c : Cache) → IsSound c → IsSound (touch key c)
touch-IsSound key c s = elim (Option-cases (c.entries key)) [
  | inl missing ↦ rw (touch-miss key c missing) s
  | inr (entry, e) ↦ rw (touch-hit key c e) (moved-IsSound key c s e)
]

remove-IsSound : (key : Bytes) (c : Cache) → IsSound c → IsSound (remove key c)
unfolding remove
remove-IsSound key c s = elim (Option-cases (c.entries key)) [
  | inl missing ↦ rw missing s
  | inr (entry, e) ↦ rw e (record {
    tracks = Tracks-remove c.entries key c.order c.used s.tracks e;
    budget = elim s.budget [ inl free ↦ inl free | inr room ↦ inr (omega (arith, room)) ];
  })
]

pub Reachable-Sound :
    {key_path : Bytes → Bytes} {max_bytes : ℕ} {c : Cache}
    → Reachable key_path max_bytes c
    → IsSound c
Reachable-Sound {max_bytes = max_bytes} started = new_cache-IsSound max_bytes
Reachable-Sound {key_path} (loads {c} key fetch before h) =
    rw h at (load_or_create-Survives (key_path key) key fetch c (Reachable-Sound before))
Reachable-Sound {key_path} (fails {c} key fetch before h) =
    rw h at (load_or_create-Survives (key_path key) key fetch c (Reachable-Sound before))
Reachable-Sound (touches {c} key before) = touch-IsSound key c (Reachable-Sound before)
Reachable-Sound (removes {c} key before) = remove-IsSound key c (Reachable-Sound before)

-- After any sequence of calls of LoadOrCreate, Touch and Remove on a new cache, one behind the
-- other and with any outcome of their fetches, each key of the entries stands in the order
-- exactly once and no other does, the sizes of the entries add up to `used`, and that is within
-- the budget, if there is one; and the next LoadOrCreate does not panic, and leaves the cache so
-- again.
pub Reachable-Survives :
    {key_path : Bytes → Bytes} {max_bytes : ℕ} {c : Cache} (key : Bytes) (fetch : Fetch)
    → Reachable key_path max_bytes c
    → IsSound c × Survives (load_or_create (key_path key) key fetch c)
Reachable-Survives {key_path} {c = c} key fetch before =
    let s = Reachable-Sound before in (s, load_or_create-Survives (key_path key) key fetch c s)
