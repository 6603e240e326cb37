-- ===== src/Handlers/Directories/Closing.antt =====
-- About closedir, and what it gives back.
use s3ro.Base.{some, ◌≡◌, refl}
use s3ro.Dir.{ShimDir, free_dir}
use s3ro.Dir.Release.{blocks_of_dir, free_dir-all}
use s3ro.Handlers.{answered}
use s3ro.Handlers.Directories.{closedir, with_dir}
use s3ro.Handlers.Directories.Outcomes.{GivesFresh}
use s3ro.Handlers.Directories.Sequences.{Reachable, Reachable-IsValid}
use s3ro.Registry.{Ptr, lookup_dir, unregister_dir}
use s3ro.Registry.Sound.{IsValid-lookup_dir}
use s3ro.Run.{ok}
use s3ro.World.{World, System, done}

-- If malloc gives an address at which no open directory stands, then after any sequence of calls
-- of the directory functions, free_dir on an open directory reads no entry outside the array and
-- gives back all that the directory holds, the copies in every slot of the array included, each
-- once, and closedir on it answers 0 and takes it out of the list.
pub Reachable-closedir :
    (sys : System) (p : Ptr) {w : World} {dir : ShimDir}
    → GivesFresh sys
    → Reachable sys w
    → lookup_dir p w.dirs ≡ some dir
    → (free_dir dir ≡ ok (blocks_of_dir dir))
      × (closedir sys p w ≡ (answered (done tt), record w { dirs = unregister_dir p w.dirs }))
unfolding closedir
Reachable-closedir sys p {w} {dir} new reachable found =
    let sound = IsValid-lookup_dir p w.dirs (Reachable-IsValid sys new reachable) found in
    let all = free_dir-all dir sound.full sound.spare in
    (all, rw (found, closedir, with_dir) (rw all refl))
