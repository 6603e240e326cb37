-- ===== src/Handlers/Directories/Observed.antt =====
-- The directory functions as a program sees them: the calls it makes, what it observes, and what a
-- specification in terms of streams allows it to observe.
use s3ro.Base.{ℕ, Option, none, some, List, [], ◌∷◌, Bytes, ltb, if◌then◌else◌, length, ◌<◌, ◌≡◌}
use s3ro.Base.Int.{ℤ, pos, negsuc}
use s3ro.Dir.{Dirent}
use s3ro.Handlers.{Answer, answered, delegated, delegated_open}
use s3ro.Handlers.Directories.{
  Copied, read_into, ebadf, opendir, readdir, readdir64, readdir_r, readdir64_r, closedir,
  rewinddir, telldir, seekdir,
}
use s3ro.Registry.{Ptr}
use s3ro.Registry.Streams.{Stream, Streams, update, next_of, advance}
use s3ro.World.{World, System, done, failed, crashed}

pub data Op : Type 0 where
  opens : Option Bytes → Op
  reads reads64 reads_r reads64_r closes rewinds tells : Ptr → Op
  seeks : Ptr → ℤ → Op

-- `foreign` is a call that the shim leaves to libc, `not_opened` one of opendir that gives no handle
-- of the shim's, and `broke` the end of the process in a call on a handle, or `overran` if that is a
-- copy into the caller's struct.
pub data Seen : Type 0 where
  opened : Ptr → Seen
  not_opened : Seen
  gave : Ptr → Option Dirent → Seen
  closed rewound foreign broke overran : Ptr → Seen
  told : Ptr → ℕ → Seen
  sought : Ptr → ℤ → Seen

-- What a program sees of a call on a handle.
abbrev pub on_handle : {A : Type 0} → Ptr → (A → Seen) → Answer A × World → Seen × World
on_handle p seen (answered (done a), w) = (seen a, w)
on_handle p seen (answered failed, w) = (foreign p, w)
on_handle p seen (answered crashed, w) = (broke p, w)
on_handle p seen (delegated _, w) = (foreign p, w)
on_handle p seen (delegated_open _ _ _, w) = (foreign p, w)

-- The same of readdir_r and readdir64_r.
abbrev pub on_copy : Ptr → Answer Copied × World → Seen × World
on_copy p (answered (done (read_into entry)), w) = (gave p entry, w)
on_copy p (answered (done ebadf), w) = (foreign p, w)
on_copy p (answered failed, w) = (foreign p, w)
on_copy p (answered crashed, w) = (overran p, w)
on_copy p (delegated _, w) = (foreign p, w)
on_copy p (delegated_open _ _ _, w) = (foreign p, w)

abbrev pub of_opendir : Answer Ptr × World → Seen × World
of_opendir (answered (done p), w) = (opened p, w)
of_opendir (_, w) = (not_opened, w)

unfoldable pub perform : System → Op → World → Seen × World
perform sys (opens path) w = of_opendir (opendir sys path w)
perform sys (reads p) w = on_handle p (gave p) (readdir sys p w)
perform sys (reads64 p) w = on_handle p (gave p) (readdir64 sys p w)
perform sys (reads_r p) w = on_copy p (readdir_r sys p w)
perform sys (reads64_r p) w = on_copy p (readdir64_r sys p w)
perform sys (closes p) w = on_handle p (λ _. closed p) (closedir sys p w)
perform sys (rewinds p) w = on_handle p (λ _. rewound p) (rewinddir sys p w)
perform sys (tells p) w = on_handle p (told p) (telldir sys p w)
perform sys (seeks p loc) w = on_handle p (λ _. sought p loc) (seekdir sys p loc w)

-- A program: its calls in order, and what it has seen.
unfoldable pub run : System → List Op → World → List Seen × World
unfolding perform
run sys [] w = ([], w)
run sys (op ∷ ops) w =
    let (seen, w') = perform sys op w in let (later, w'') = run sys ops w' in (seen ∷ later, w'')

abbrev pub move_to : Stream → ℤ → Stream
move_to s (pos loc) = if ltb loc (length s.entries) then record s { place = loc } else s
move_to s (negsuc loc) = s

-- What may be seen between two states of the streams.
abbrev pub Allowed : Seen → Streams → Streams → Type 0
Allowed (opened p) f f' =
    (entries : List Dirent) × (f p ≡ none)
    × (f' ≡ update f p (some (record { entries = entries; place = 0 })))
Allowed not_opened f f' = f' ≡ f
Allowed (gave p entry) f f' =
    (s : Stream) × (f p ≡ some s) × (entry ≡ next_of s) × (f' ≡ update f p (some (advance s)))
Allowed (closed p) f f' = (s : Stream) × (f p ≡ some s) × (f' ≡ update f p none)
Allowed (rewound p) f f' =
    (s : Stream) × (f p ≡ some s) × (f' ≡ update f p (some (record s { place = 0 })))
Allowed (told p place) f f' = (s : Stream) × (f p ≡ some s) × (place ≡ s.place) × (f' ≡ f)
Allowed (sought p loc) f f' =
    (s : Stream) × (f p ≡ some s) × (f' ≡ update f p (some (move_to s loc)))
Allowed (foreign p) f f' = (f p ≡ none) × (f' ≡ f)
Allowed (broke p) f f' = ⊥
Allowed (overran p) f f' =
    (s : Stream) × (f p ≡ some s)
    × ((entry : Dirent) × (next_of s ≡ some entry) × (255 < length entry.name))
    × (f' ≡ update f p (some (advance s)))

-- The same of a whole run.
abbrev pub AllAllowed : List Seen → Streams → Streams → Type 0
AllAllowed [] f f' = f' ≡ f
AllAllowed (seen ∷ later) f f' = (f1 : Streams) × Allowed seen f f1 × AllAllowed later f1 f'
