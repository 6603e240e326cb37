-- ===== src/Handlers/Directories/Failing.antt =====
-- About opendir that gives NULL, and its errno.
use s3ro.Base.{
  List, false, Option, none, some, Bytes, codes, ◌≡◌, refl, sym, ap, ◌⊎◌, inl, inr, Bool-cases,
}
use s3ro.Dir.Leaving.{populate_left}
use s3ro.Dir.{Block, free_dir, ShimDir, populate_directory}
use s3ro.Handlers.{answered, fall_back, located}
use s3ro.Handlers.Directories.Opening.{answer-answered}
use s3ro.Handlers.Directories.{
  reader_of, new_dir, give_up, seed, seed_response, remote_opendir, opendir_at,
}
use s3ro.Http.{fetch_json}
use s3ro.Http.Bodies.{fetch_json-Fetched}
use s3ro.Path.{Located}
use s3ro.Registry.{Ptr}
use s3ro.Remote.{check_status}
use s3ro.Remote.Outcomes.{IsFailure, fetch_json-IsFailure, check_status-IsFailure}
use s3ro.Run.{Run, ok, refuse, overrun, stuck, stray}
use s3ro.World.{World, System, failed, eio, enomem, sym_opendir, after-failed}

give_up-failed :
    (r : Run (List Block)) (w : World) {w' : World} → give_up r w ≡ (failed, w') → w'.errno ≡ eio
unfolding give_up
give_up-failed (ok freed) w h = ap (λ t. t.1.errno) (sym h)
give_up-failed refuse w h = cc
give_up-failed overrun w h = cc
give_up-failed stuck w h = cc
give_up-failed stray w h = cc

seed-failed :
    (sys : System) (left : ShimDir) (r : Run ShimDir) (w : World) {w' : World}
    → seed sys left r w ≡ (failed, w')
    → w'.errno ≡ eio
unfolding seed
seed-failed sys left (ok filled) w h = cc
seed-failed sys left refuse w h = give_up-failed (free_dir left) w h
seed-failed sys left overrun w h = cc
seed-failed sys left stuck w h = cc
seed-failed sys left stray w h = cc

seed_response-failed :
    (sys : System) (l : Located) (dir : Option ShimDir) (content : Option Bytes) (w : World)
    {w' : World}
    → seed_response sys l dir content w ≡ (failed, w')
    → (w'.errno ≡ eio) ⊎ (w'.errno ≡ enomem)
unfolding seed_response
seed_response-failed sys l none content w h = inr (ap (λ t. t.1.errno) (sym h))
seed_response-failed sys l (some dir) none w h = cc
seed_response-failed sys l (some dir) (some json) w h = inl (
    seed-failed sys (populate_left (reader_of sys) l.rel dir json)
      (populate_directory (reader_of sys) l.rel dir json) w h)

remote_opendir-failed :
    (sys : System) (l : Located) (w : World) {w' : World}
    → remote_opendir sys l w ≡ (failed, w')
    → IsFailure sys (codes "/ls") l.abs w w'
unfolding remote_opendir
remote_opendir-failed sys l w h = elim (after-failed (fetch_json sys (codes "/ls") l.abs w) _ h) [
  | inl e ↦ fetch_json-IsFailure sys (codes "/ls") l.abs w e
  | inr ((status, buf), w1, e, h1) ↦
      let fetched = fetch_json-Fetched sys (codes "/ls") l.abs w e in
      elim (after-failed (check_status status w1) _ h1) [
        | inl f ↦ check_status-IsFailure sys (codes "/ls") l.abs w fetched f
        | inr (_, w2, _, h2) ↦ elim (seed_response-failed sys l (new_dir sys l) buf.content w2 h2) [
          | inl io ↦ inl io
          | inr memory ↦ inr (inl memory)
        ]
      ]
]

-- NULL for a path outside the root, where the real function is missing too.
fall_back-failed :
    (sys : System) (w : World) {w' : World}
    → fall_back {A = Ptr} sys sym_opendir w ≡ (answered failed, w')
    → (sys.resolved sym_opendir ≡ false) × (w' ≡ w)
fall_back-failed sys w h = elim (Bool-cases (sys.resolved sym_opendir)) [
  | inl there ↦ absurd (cc (rw there at h))
  | inr missing ↦ (missing, sym (ap (λ t. t.1) h))
]

-- Why opendir gave NULL.
abbrev pub OpendirFailure : System → Run Located → World → World → Type 0
OpendirFailure sys r w w' =
    ((located r ≡ none) × (sys.resolved sym_opendir ≡ false) × (w' ≡ w))
    ⊎ ((l : Located) × (r ≡ ok l) × IsFailure sys (codes "/ls") l.abs w w')

pub opendir_at-failed :
    (sys : System) (r : Run Located) (w : World) {w' : World}
    → opendir_at sys r w ≡ (answered failed, w')
    → OpendirFailure sys r w w'
unfolding opendir_at
opendir_at-failed sys (ok l) w h =
    inr (l, refl, remote_opendir-failed sys l w (answer-answered (remote_opendir sys l w) h))
opendir_at-failed sys refuse w h =
    let (missing, same) = fall_back-failed sys w h in inl (refl, missing, same)
opendir_at-failed sys overrun w h =
    let (missing, same) = fall_back-failed sys w h in inl (refl, missing, same)
opendir_at-failed sys stuck w h =
    let (missing, same) = fall_back-failed sys w h in inl (refl, missing, same)
opendir_at-failed sys stray w h =
    let (missing, same) = fall_back-failed sys w h in inl (refl, missing, same)
