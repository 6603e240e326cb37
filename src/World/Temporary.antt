-- ===== src/World/Temporary.antt =====
-- The temporary files that a run leaves: made by mkstemp, and not unlinked since.
use s3ro.Base.{refl, List, [], ◌∷◌, Bytes, str_eq, if◌then◌else◌, ◌≡◌}
use s3ro.World.Views.{IsQuiet, Keeps}
use s3ro.World.{World, Event, made_temp, unlinked, Reply, done, failed, crashed, M, after}

abbrev pub remove : Bytes → List Bytes → List Bytes
remove name [] = []
remove name (other ∷ names) = if str_eq name other then names else other ∷ remove name names

abbrev pub temp_files : List Event → List Bytes
temp_files [] = []
temp_files (made_temp name ∷ trace) = name ∷ temp_files trace
temp_files (unlinked name ∷ trace) = remove name (temp_files trace)
temp_files (_ ∷ trace) = temp_files trace

abbrev pub temp_view : World → List Bytes
temp_view w = temp_files w.trace

pub temp_view-IsQuiet : IsQuiet temp_view
temp_view-IsQuiet = record {
  on_errno = λ e w. refl;
  on_request = λ url w. refl;
  on_wrote = λ fd s w. refl;
  on_rewound = λ fd w. refl;
}

-- Neither makes nor unlinks one, or does both.
abbrev pub Tidy : {B : Type 0} → World → B × World → Type 0
Tidy w r = Keeps temp_view w r

-- The same of a run that does not crash.
abbrev pub TidyReturn : {A : Type 0} → World → Reply A × World → Type 0
TidyReturn w (done a, w') = temp_files w'.trace ≡ temp_files w.trace
TidyReturn w (failed, w') = temp_files w'.trace ≡ temp_files w.trace
TidyReturn w (crashed, w') = Unit

pub after-TidyReturn :
    {A B : Type 0} (w : World) (r : Reply A × World) (f : A → M B)
    → Tidy w r
    → ((a : A) (v : World) → Tidy w (a, v) → TidyReturn w (f a v))
    → TidyReturn w (after r f)
after-TidyReturn w (done a, v) f h k = k a v h
after-TidyReturn w (failed, v) f h k = h
after-TidyReturn w (crashed, v) f h k = tt
