-- ===== src/Handlers/Contents.antt =====
-- About the descriptors that open and open64 return for a path below the root.
use s3ro.Base.{
  ℕ, zero, suc, Option, none, some, ◌∷◌, Bytes, ◌≡◌, sym, ap, ◌∙◌, ◌⊎◌, inl, inr, Bool-cases,
  Option-cases,
}
use s3ro.Handlers.{
  answered, answer, at_root, handle_open_common, reopen, open_file, open64, mode_argument,
  open64_fallback,
}
use s3ro.Handlers.Depth.{CachesOutside}
use s3ro.Remote.{remote_open_file}
use s3ro.Remote.Opened.{Opened, remote_open_file-Opened}
use s3ro.World.{World, System, Symbol, sym_open, closed, opened, unlinked, Reply, done}

answer-done :
    (r : Reply ℕ × World) {fd : ℕ} {w' : World}
    → answer r ≡ (answered (done fd), w')
    → r ≡ (done fd, w')
answer-done r h = cc

-- The real open of a path outside the root.
reopen-real :
    (sys : System) (fuel : ℕ) (path : Bytes) (flags : ℕ) (w : World) {fd : ℕ} {w' : World}
    → at_root sys (some path) ≡ none
    → reopen sys fuel path flags w ≡ (done fd, w')
    → (sys.real_open w.trace path flags ≡ some fd)
      × (w' ≡ record w { trace = opened path flags ∷ w.trace })
unfolding reopen handle_open_common
reopen-real sys zero path flags w outside h = cc
reopen-real sys (suc fuel) path flags w outside h = elim (Bool-cases (sys.resolved sym_open)) [
  | inr missing ↦ absurd (cc (rw (outside, missing) at h))
  | inl found ↦ elim (Option-cases (sys.real_open w.trace path flags)) [
    | inl e ↦ absurd (cc (rw (outside, found, e) at h))
    | inr (fd', e) ↦
        let got = rw (outside, found, e) at h in (e ∙ cc (got), sym (ap (λ t. t.1) got))
  ]
]

-- A file below the root that was opened: the way to it, and the real descriptor of the temporary
-- file, which has no name any more.
pub record OpenedBelow (sys : System) (fuel : ℕ) (path : Option Bytes) (flags : ℕ) (w : World)
    (fd : ℕ) (w' : World) : Type 0 where
  pub abs_path : Bytes
  pub inside : at_root sys path ≡ some abs_path
  pub way : Opened sys (reopen sys fuel) abs_path flags w fd w'
  pub real : sys.real_open (closed way.temp ∷ way.w2.trace) way.name 0 ≡ some fd
  pub events : w'.trace ≡ unlinked way.name ∷ opened way.name 0 ∷ closed way.temp ∷ way.w2.trace

opened_below :
    (sys : System) (fuel : ℕ) (path : Option Bytes) (abs_path : Bytes) (flags : ℕ) (w : World)
    {fd : ℕ} {w' : World}
    → CachesOutside sys
    → at_root sys path ≡ some abs_path
    → remote_open_file sys (reopen sys fuel) abs_path flags w ≡ (done fd, w')
    → OpenedBelow sys fuel path flags w fd w'
opened_below sys fuel path abs_path flags w caches inside h =
    let way = remote_open_file-Opened sys (reopen sys fuel) abs_path flags w h in
    let v = record way.w2 { trace = closed way.temp ∷ way.w2.trace } in
    let (real, is_w3) =
      reopen-real sys fuel way.name 0 v (caches way.w1.trace _ way.temp way.name way.made)
        way.reopens in
    record {
      abs_path = abs_path;
      inside = inside;
      way = way;
      real = real;
      events = ap (λ u. u.trace) way.ends ∙ ap (λ u. unlinked way.name ∷ u.trace) is_w3;
    }

common-OpenedBelow :
    (sys : System) (fuel : ℕ) (sym : Symbol) (path : Option Bytes) (flags : ℕ)
    (with_mode : Option ℕ) (w : World) {fd : ℕ} {w' : World}
    → CachesOutside sys
    → handle_open_common sys (reopen sys fuel) sym path flags with_mode w ≡ (answered (done fd), w')
    → OpenedBelow sys fuel path flags w fd w'
unfolding handle_open_common
common-OpenedBelow sys fuel sym path flags with_mode w caches h =
    elim (Option-cases (at_root sys path)) [
      | inl outside ↦ elim (Bool-cases (sys.resolved sym)) [
        | inl found ↦ absurd (cc (rw (outside, found) at h))
        | inr missing ↦ absurd (cc (rw (outside, missing) at h))
      ]
      | inr (abs_path, inside) ↦
          opened_below sys fuel path abs_path flags w caches inside (answer-done _ (rw inside at h))
    ]

-- If no name that mkstemp gives lies below the root, and open or open64 answers with a
-- descriptor, then the path lies below the root, the flags ask for no write, stat says that it is
-- no directory, mkstemp made a temporary file, the daemon answered /cat for the path with status
-- 200, the bytes written to the temporary file's descriptor since are exactly the body of that
-- answer, and the descriptor is what the real open gives for the temporary file, which was closed
-- before and is unlinked behind it.
pub open_file-OpenedBelow :
    (sys : System) (fuel : ℕ) (path : Option Bytes) (flags mode : ℕ) (w : World) {fd : ℕ}
    {w' : World}
    → CachesOutside sys
    → (open_file sys fuel path flags mode w ≡ (answered (done fd), w'))
      ⊎ (open64 sys fuel path flags mode w ≡ (answered (done fd), w'))
    → OpenedBelow sys fuel path flags w fd w'
unfolding open_file open64
open_file-OpenedBelow sys fuel path flags mode w caches (inl h) =
    common-OpenedBelow sys fuel sym_open path flags (mode_argument flags mode) w caches h
open_file-OpenedBelow sys fuel path flags mode w caches (inr h) =
    common-OpenedBelow sys fuel (open64_fallback sys) path flags (mode_argument flags mode) w caches
      h
