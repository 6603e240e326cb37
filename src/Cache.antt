-- ===== src/Cache.antt =====
-- The daemon's disk cache: `Cache` of pkg/cache/cache.go, with LoadOrCreate, ensureCapacity, Touch and
-- Remove. Sizes are not negative; a budget that is not positive is 0 and means no limit.
pub mod Order
pub mod Eviction
pub mod Moving
pub mod Sound
pub mod Calls
pub mod Racing
use s3ro.Base.{
  ℕ, ◌+◌, ◌-◌, Bool, true, false, ◌||◌, Option, none, some, List, [], ◌∷◌, ◌++◌, Bytes, ltb, ◌==◌,
  if◌then◌else◌, str_eq,
}

-- cacheEntry. Its list element is the frontmost one with its key: it is pushed when the entry is made.
pub record CacheEntry : Type 0 where
  pub path : Bytes
  pub size : ℕ

abbrev pub Entries : Type 0
Entries = Bytes → Option CacheEntry

abbrev pub assign : Entries → Bytes → Option CacheEntry → Entries
assign entries key value k = if str_eq key k then value else entries k

-- `order` is the list of keys from Back to Front, and `removed` what os.Remove was called on.
pub record Cache : Type 0 where
  pub max_bytes : ℕ
  pub entries : Entries
  pub order : List Bytes
  pub used : ℕ
  pub removed : List Bytes

abbrev pub new_cache : (max_bytes : ℕ) → Cache
new_cache max_bytes = record {
  max_bytes = max_bytes;
  entries = λ k. none;
  order = [];
  used = 0;
  removed = [];
}

abbrev pub occurs : Bytes → List Bytes → Bool
occurs key [] = false
occurs key (k ∷ ks) = str_eq key k || occurs key ks

-- list.Remove of the frontmost element with a key.
pub without : Bytes → List Bytes → List Bytes
without key [] = []
without key (k ∷ ks) =
    let later = without key ks in
    if occurs key ks then k ∷ later else if str_eq key k then ks else k ∷ later

-- list.MoveToFront.
abbrev pub move_to_front : Bytes → List Bytes → List Bytes
move_to_front key order = without key order ++ (key ∷ [])

-- A call that ends: an error, or a result. A nil pointer panics instead.
pub data Call : Type 0 where
  failed cached : Cache → Call
  panicked : Call

abbrev pub evict_entry : Cache → (rest : List Bytes) → Bytes → CacheEntry → Cache
evict_entry c rest key entry = record c {
  entries = assign c.entries key none;
  order = rest;
  used = c.used - entry.size;
  removed = entry.path ∷ c.removed;
}

-- The loop of ensureCapacity over the elements from Back on.
unfoldable pub evict_loop : (need : ℕ) → List Bytes → Cache → Option Cache
evict_loop need [] c = some c
evict_loop need (key ∷ rest) c =
    let later = λ (entry : CacheEntry). evict_loop need rest (evict_entry c rest key entry) in
    if ltb c.max_bytes (c.used + need)
    then (elim (c.entries key) [ none ↦ none | some entry ↦ later entry ])
    else some c

-- Behind the loop.
abbrev pub has_room : (need : ℕ) → Option Cache → Call
has_room need none = panicked
has_room need (some c) = if ltb c.max_bytes (c.used + need) then failed c else cached c

unfoldable pub ensure_capacity : (need : ℕ) → Cache → Call
unfolding evict_loop
ensure_capacity need c =
    if c.max_bytes == 0 then cached c else has_room need (evict_loop need c.order c)

abbrev pub push_entry : Bytes → CacheEntry → Call → Call
push_entry key entry panicked = panicked
push_entry key entry (failed c) = failed (record c { removed = entry.path ∷ c.removed })
push_entry key entry (cached c) = cached (record c {
  entries = assign c.entries key (some entry);
  order = c.order ++ (key ∷ []);
  used = c.used + entry.size;
})

-- The second locked part of LoadOrCreate, behind a fetch that gave a file of a size.
unfoldable pub commit : Bytes → CacheEntry → Cache → Call
unfolding ensure_capacity
commit key entry c = push_entry key entry (ensure_capacity entry.size c)

abbrev pub touched : Bytes → Cache → Option CacheEntry → Option Cache
touched key c none = none
touched key c (some entry) = some (record c { order = move_to_front key c.order })

-- The first locked part: a hit moves the entry to the front; `none` is a miss.
unfoldable pub look_up : Bytes → Cache → Option Cache
unfolding without
look_up key c = touched key c (c.entries key)

-- What becomes of the file of the cache: os.OpenFile fails, `fetch` or Stat does, or it has a size.
pub data Fetch : Type 0 where
  not_opened not_read : Fetch
  file_of : ℕ → Fetch

abbrev pub fetched : (key_path : Bytes) → Bytes → Fetch → Cache → Call
fetched key_path key not_opened c = failed c
fetched key_path key not_read c = failed (record c { removed = key_path ∷ c.removed })
fetched key_path key (file_of size) c = commit key (record { path = key_path; size = size }) c

-- One call with no other in between; `fetch` is only asked on a miss.
unfoldable pub load_or_create : (key_path : Bytes) → Bytes → Fetch → Cache → Call
unfolding look_up commit
load_or_create key_path key fetch c = elim (look_up key c) [
  | some c' ↦ cached c'
  | none ↦ fetched key_path key fetch c
]

unfoldable pub touch : Bytes → Cache → Cache
unfolding look_up
touch key c = elim (look_up key c) [ some c' ↦ c' | none ↦ c ]

abbrev pub dropped : Bytes → Cache → Option CacheEntry → Cache
dropped key c none = c
dropped key c (some entry) = record c {
  entries = assign c.entries key none;
  order = without key c.order;
  used = c.used - entry.size;
  removed = entry.path ∷ c.removed;
}

unfoldable pub remove : Bytes → Cache → Cache
unfolding without
remove key c = dropped key c (c.entries key)
