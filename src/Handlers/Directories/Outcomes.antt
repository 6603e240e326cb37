-- ===== src/Handlers/Directories/Outcomes.antt =====
-- About opendir: what each of its outcomes does to the list of open directories.
use s3ro.Base.{List, false, Option, none, some, Bytes, codes, ◌≡◌, refl, ap, ◌∙◌}
use s3ro.Dir.Leaving.{populate_left}
use s3ro.Dir.{Block, free_dir, ShimDir, Reader, populate_directory}
use s3ro.Dir.Populate.{populate_directory-tokens, populate_directory-lists}
use s3ro.Handlers.Directories.{reader_of, new_dir, give_up, seed, seed_response, remote_opendir}
use s3ro.Http.{fetch_json}
use s3ro.Http.Views.{fetch_json-Keeps}
use s3ro.Path.{Located}
use s3ro.Registry.{Ptr, Dirs, register_dir}
use s3ro.Registry.Sound.{IsSound, IsSound-IsPopulated, IsValid, IsValid-register_dir}
use s3ro.Registry.Table.{is_open}
use s3ro.Remote.{check_status}
use s3ro.Remote.Views.{check_status-Keeps}
use s3ro.Run.{Run, ok, refuse, overrun, stuck, stray}
use s3ro.World.{World, System, Reply, done, failed, crashed, M, after}
use s3ro.World.Views.{Keeps, IsQuiet}

-- malloc gives an address at which nothing else stands.
abbrev pub GivesFresh : System → Type 0
GivesFresh sys = (dirs : Dirs) → is_open (sys.fresh dirs) dirs ≡ false

abbrev pub dirs_view : World → Dirs
dirs_view w = w.dirs

pub dirs_view-IsQuiet : IsQuiet dirs_view
dirs_view-IsQuiet = record {
  on_errno = λ e w. refl;
  on_request = λ url w. refl;
  on_wrote = λ fd s w. refl;
  on_rewound = λ fd w. refl;
}

-- A handle stands for a new sound directory at its start; any other outcome leaves the list alone.
abbrev pub OpenOutcome : System → World → Reply Ptr × World → Type 0
OpenOutcome sys w (done p, w') =
    (filled : ShimDir) × IsSound filled
    × (filled.index ≡ 0)
    × (p ≡ sys.fresh w.dirs)
    × (w'.dirs ≡ register_dir p filled w.dirs)
OpenOutcome sys w (failed, w') = w'.dirs ≡ w.dirs
OpenOutcome sys w (crashed, w') = w'.dirs ≡ w.dirs

after-OpenOutcome :
    {A : Type 0} (sys : System) (w : World) (r : Reply A × World) (f : A → M Ptr)
    → Keeps dirs_view w r
    → ((a : A) (v : World) → v.dirs ≡ w.dirs → OpenOutcome sys w (f a v))
    → OpenOutcome sys w (after r f)
after-OpenOutcome sys w (done a, v) f h k = k a v h
after-OpenOutcome sys w (failed, v) f h k = h
after-OpenOutcome sys w (crashed, v) f h k = h

populated-start :
    (r : Reader) (rel_path json : Bytes) (dir : ShimDir) {filled : ShimDir}
    → populate_directory r rel_path dir json ≡ ok filled
    → IsSound filled × (filled.index ≡ 0)
populated-start r rel_path json dir e =
    let (count, head, tokens, parses) = populate_directory-tokens r rel_path json dir e in
    let lists = populate_directory-lists r rel_path json dir parses e in
    (IsSound-IsPopulated lists, lists.rewound)

module _ (sys : System) (w : World) where
  give_up-OpenOutcome :
      (r : Run (List Block)) (v : World) → v.dirs ≡ w.dirs → OpenOutcome sys w (give_up r v)
  unfolding give_up
  give_up-OpenOutcome (ok freed) v same = same
  give_up-OpenOutcome refuse v same = same
  give_up-OpenOutcome overrun v same = same
  give_up-OpenOutcome stuck v same = same
  give_up-OpenOutcome stray v same = same

  seed-OpenOutcome :
      (left : ShimDir) (r : Run ShimDir) (v : World)
      → v.dirs ≡ w.dirs
      → ((filled : ShimDir) → r ≡ ok filled → IsSound filled × (filled.index ≡ 0))
      → OpenOutcome sys w (seed sys left r v)
  unfolding seed
  seed-OpenOutcome left (ok filled) v same start =
      let (sound, at_start) = start filled refl in
      (filled, sound, at_start, ap sys.fresh same, ap (register_dir (sys.fresh v.dirs) filled) same)
  seed-OpenOutcome left refuse v same start = give_up-OpenOutcome (free_dir left) v same
  seed-OpenOutcome left overrun v same start = same
  seed-OpenOutcome left stuck v same start = same
  seed-OpenOutcome left stray v same start = same

  seed_response-OpenOutcome :
      (l : Located) (dir : Option ShimDir) (content : Option Bytes) (v : World)
      → v.dirs ≡ w.dirs
      → OpenOutcome sys w (seed_response sys l dir content v)
  unfolding seed_response
  seed_response-OpenOutcome l none content v same = same
  seed_response-OpenOutcome l (some dir) none v same = same
  seed_response-OpenOutcome l (some dir) (some json) v same =
      seed-OpenOutcome (populate_left (reader_of sys) l.rel dir json)
        (populate_directory (reader_of sys) l.rel dir json) v same
        (λ filled e. populated-start (reader_of sys) l.rel json dir e)

pub remote_opendir-OpenOutcome :
    (sys : System) (l : Located) (w : World) → OpenOutcome sys w (remote_opendir sys l w)
unfolding remote_opendir
remote_opendir-OpenOutcome sys l w =
    after-OpenOutcome sys w (fetch_json sys (codes "/ls") l.abs w) _
      (fetch_json-Keeps dirs_view dirs_view-IsQuiet sys (codes "/ls") l.abs w)
      λ (status, buf) v same.
        after-OpenOutcome sys w (check_status status v) _
          (check_status-Keeps dirs_view dirs_view-IsQuiet status v ∙ same)
          λ _ v' same'. seed_response-OpenOutcome sys w l (new_dir sys l) buf.content v' same'

pub OpenOutcome-IsValid :
    (sys : System) (w : World) (r : Reply Ptr × World)
    → GivesFresh sys
    → OpenOutcome sys w r
    → IsValid w.dirs
    → IsValid r.1.dirs
OpenOutcome-IsValid sys w (done p, v) new (filled, sound, _, at, same) valid =
    rw (same, at) (IsValid-register_dir (sys.fresh w.dirs) filled w.dirs (new w.dirs) sound valid)
OpenOutcome-IsValid sys w (failed, v) new same valid = rw same valid
OpenOutcome-IsValid sys w (crashed, v) new same valid = rw same valid
