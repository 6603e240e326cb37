-- ===== src/Config/Symbols.antt =====
-- `init_real_symbols` of shim/ldpreload/remotefs_shim.c: the names that dlsym is asked for.
use s3ro.Base.{Bool, Bytes, codes}
use s3ro.World.{Symbol}

unfoldable pub symbol_name : Symbol → Bytes
symbol_name Symbol.sym_stat = codes "stat"
symbol_name Symbol.sym_lstat = codes "lstat"
symbol_name Symbol.sym_stat64 = codes "stat64"
symbol_name Symbol.sym_lstat64 = codes "lstat64"
symbol_name Symbol.sym_xstat = codes "__xstat"
symbol_name Symbol.sym_lxstat = codes "__lxstat"
symbol_name Symbol.sym_xstat64 = codes "__xstat64"
symbol_name Symbol.sym_lxstat64 = codes "__lxstat64"
symbol_name Symbol.sym_fxstatat = codes "__fxstatat"
symbol_name Symbol.sym_fstatat = codes "fstatat"
symbol_name Symbol.sym_open = codes "open"
symbol_name Symbol.sym_open64 = codes "open64"
symbol_name Symbol.sym_openat = codes "openat"
symbol_name Symbol.sym_opendir = codes "opendir"
symbol_name Symbol.sym_readdir = codes "readdir"
symbol_name Symbol.sym_readdir64 = codes "readdir64"
symbol_name Symbol.sym_readdir64_r = codes "readdir64_r"
symbol_name Symbol.sym_readdir_r = codes "readdir_r"
symbol_name Symbol.sym_closedir = codes "closedir"
symbol_name Symbol.sym_rewinddir = codes "rewinddir"
symbol_name Symbol.sym_telldir = codes "telldir"
symbol_name Symbol.sym_seekdir = codes "seekdir"
symbol_name Symbol.sym_dirfd = codes "dirfd"
symbol_name Symbol.sym_access = codes "access"
symbol_name Symbol.sym_faccessat = codes "faccessat"
symbol_name Symbol.sym_statx = codes "statx"

-- `dlsym name` is whether dlsym(RTLD_NEXT, name) finds the function; the result is whether the
-- pointer is not NULL.
unfoldable pub init_real_symbols : (Bytes → Bool) → Symbol → Bool
unfolding symbol_name
init_real_symbols dlsym sym = dlsym (symbol_name sym)
