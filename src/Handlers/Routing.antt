-- ===== src/Handlers/Routing.antt =====
-- Where the functions on paths send a call.
use Prim.Native.Nat.{bit_and}
use s3ro.Base.{
  ℕ, true, false, Option, none, some, ◌≡◌, refl, sym, ap, ◌∙◌, ◌⊎◌, Bytes, codes, ◌==◌, starts_with,
}
use s3ro.Meta.{hydrate_stat, hydrate_stat64}
use s3ro.Path.{DirFd, at_fdcwd}
use s3ro.Path.Canonical.{IsCwd}
use s3ro.Path.Resolving.{resolve_absolute-path_within_root}
use s3ro.Remote.{
  remote_stat_path, remote_stat64_path, remote_open_file, reads_only, allow_open_flags,
}
use s3ro.World.{M, World, System, sym_stat, sym_stat64, sym_fstatat, failed, erofs}
use s3ro.Handlers.{
  Answer, answered, Handler, route, answer, at_root, at_root_from, located, fall_back, handle_stat,
  handle_lstat, handle_stat64, open64, fstatat, open_file, openat, access, faccessat, w_ok,
}

at_root_from-at_root :
    (sys : System) (fd : DirFd) (path : Bytes)
    → IsCwd sys.process.cwd
    → (fd ≡ at_fdcwd) ⊎ (starts_with (codes "/") path ≡ true)
    → at_root_from sys fd (some path) ≡ at_root sys (some path)
at_root_from-at_root sys fd path w h =
    ap located (resolve_absolute-path_within_root sys.process fd path w h)

route-none :
    {A : Type 0} {place : Option Bytes} (outside : Handler A) (remote : Bytes → M A) (w : World)
    → place ≡ none
    → route place outside remote w ≡ outside w
route-none outside remote w h = rw (h)

route-some :
    {A : Type 0} {place : Option Bytes} (outside : Handler A) (remote : Bytes → M A) (w : World)
    {abs : Bytes}
    → place ≡ some abs
    → route place outside remote w ≡ answer (remote abs w)
route-some outside remote w h = rw (h)

-- If getcwd gives an absolute path or fails, the descriptor is AT_FDCWD or the path is absolute,
-- and the path lies below the root, then lstat, stat64 and fstatat do what stat does.
pub fstatat-handle_stat :
    (sys : System) (fd : DirFd) (path : Bytes) (w : World) {abs : Bytes}
    → IsCwd sys.process.cwd
    → (fd ≡ at_fdcwd) ⊎ (starts_with (codes "/") path ≡ true)
    → at_root sys (some path) ≡ some abs
    → (handle_lstat sys (some path) w ≡ handle_stat sys (some path) w)
      × (handle_stat64 sys (some path) w ≡ handle_stat sys (some path) w)
      × (fstatat sys fd (some path) w ≡ handle_stat sys (some path) w)
unfolding fstatat handle_stat handle_stat64 handle_lstat remote_stat64_path remote_stat_path
    hydrate_stat hydrate_stat64
fstatat-handle_stat sys fd path w c h inside = (
  refl,
  route-some (fall_back sys sym_stat64) (remote_stat64_path sys) w inside
      ∙ sym (route-some (fall_back sys sym_stat) (remote_stat_path sys) w inside),
  route-some (fall_back sys sym_fstatat) (remote_stat_path sys) w
        (at_root_from-at_root sys fd path c h ∙ inside)
      ∙ sym (route-some (fall_back sys sym_stat) (remote_stat_path sys) w inside),
)

-- The refusal of a call that would write.
abbrev pub refused : {A : Type 0} → World → Answer A × World
refused w = (answered failed, record w { errno = erofs })

openat-erofs :
    (sys : System) (fuel : ℕ) (fd : DirFd) (path : Bytes) (flags mode : ℕ) (w : World) {abs : Bytes}
    → IsCwd sys.process.cwd
    → (fd ≡ at_fdcwd) ⊎ (starts_with (codes "/") path ≡ true)
    → at_root sys (some path) ≡ some abs
    → reads_only flags ≡ false
    → (open_file sys fuel (some path) flags mode w ≡ refused w)
      × (open64 sys fuel (some path) flags mode w ≡ refused w)
      × (openat sys fuel fd (some path) flags mode w ≡ refused w)
unfolding open_file open64 openat remote_open_file allow_open_flags
openat-erofs sys fuel fd path flags mode w c h inside writes = (
  rw (inside, writes),
  rw (inside, writes),
  rw (at_root_from-at_root sys fd path c h, inside, writes),
)

faccessat-erofs :
    (sys : System) (fd : DirFd) (path : Bytes) (mode : ℕ) (w : World) {abs : Bytes}
    → IsCwd sys.process.cwd
    → (fd ≡ at_fdcwd) ⊎ (starts_with (codes "/") path ≡ true)
    → at_root sys (some path) ≡ some abs
    → (bit_and mode w_ok == 0) ≡ false
    → (access sys (some path) mode w ≡ refused w)
      × (faccessat sys fd (some path) mode w ≡ refused w)
unfolding access faccessat
faccessat-erofs sys fd path mode w c h inside writes =
    (rw (inside, writes), rw (at_root_from-at_root sys fd path c h, inside, writes))

-- If getcwd gives an absolute path or fails, the descriptor is AT_FDCWD or the path is absolute,
-- the path lies below the root, allow_open_flags finds a flag that writes, and the mode asked of
-- access has W_OK, then open, open64, openat, access and faccessat all fail with EROFS, and
-- nothing else happens.
pub writes-erofs :
    (sys : System) (fuel : ℕ) (fd : DirFd) (path : Bytes) (flags mode wanted : ℕ) (w : World)
    {abs : Bytes}
    → IsCwd sys.process.cwd
    → (fd ≡ at_fdcwd) ⊎ (starts_with (codes "/") path ≡ true)
    → at_root sys (some path) ≡ some abs
    → reads_only flags ≡ false
    → (bit_and wanted w_ok == 0) ≡ false
    → (open_file sys fuel (some path) flags mode w ≡ refused w)
      × (open64 sys fuel (some path) flags mode w ≡ refused w)
      × (openat sys fuel fd (some path) flags mode w ≡ refused w)
      × (access sys (some path) wanted w ≡ refused w)
      × (faccessat sys fd (some path) wanted w ≡ refused w)
writes-erofs sys fuel fd path flags mode wanted w c h inside writes wants =
    let (by_open, by_open64, by_openat) =
      openat-erofs sys fuel fd path flags mode w c h inside writes in
    let (by_access, by_faccessat) = faccessat-erofs sys fd path wanted w c h inside wants in
    (by_open, by_open64, by_openat, by_access, by_faccessat)
