-- ===== src/Handlers/StatNames.antt =====
-- The names of stat that shim/ldpreload/remotefs_shim.c exports. `xstat` is `__xstat`, `lxstat` is
-- `__lxstat`, `fxstatat` is `__fxstatat`, and so with 64.
use s3ro.Base.{ℕ, Option, Bytes}
use s3ro.Handlers.{Handler, handle_stat, handle_lstat, handle_stat64, fstatat}
use s3ro.Meta.{Stat}
use s3ro.Path.{DirFd}
use s3ro.World.{System}

unfoldable pub stat : System → Option Bytes → Handler Stat
unfolding handle_stat
stat sys path = handle_stat sys path

unfoldable pub lstat : System → Option Bytes → Handler Stat
unfolding handle_lstat
lstat sys path = handle_lstat sys path

unfoldable pub xstat : System → ℕ → Option Bytes → Handler Stat
unfolding handle_stat
xstat sys ver path = handle_stat sys path

unfoldable pub lxstat : System → ℕ → Option Bytes → Handler Stat
unfolding handle_lstat
lxstat sys ver path = handle_lstat sys path

unfoldable pub stat64 : System → Option Bytes → Handler Stat
unfolding handle_stat64
stat64 sys path = handle_stat64 sys path

unfoldable pub lstat64 : System → Option Bytes → Handler Stat
unfolding handle_stat64
lstat64 sys path = handle_stat64 sys path

unfoldable pub xstat64 : System → ℕ → Option Bytes → Handler Stat
unfolding handle_stat64
xstat64 sys ver path = handle_stat64 sys path

unfoldable pub lxstat64 : System → ℕ → Option Bytes → Handler Stat
unfolding handle_stat64
lxstat64 sys ver path = handle_stat64 sys path

unfoldable pub fxstatat : System → ℕ → DirFd → Option Bytes → Handler Stat
unfolding fstatat
fxstatat sys ver fd path = fstatat sys fd path
