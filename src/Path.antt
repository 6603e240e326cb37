-- ===== src/Path.antt =====
-- Path handling of shim/ldpreload/remotefs_shim.c: `canonicalize_path`, `dirfd_path`,
-- `resolve_absolute` and `path_within_root`. A string is the list of its bytes; a buffer
-- `char b[n]` that holds a string is the string, with each write checked against `n`.
pub mod Names
pub mod Loop
pub mod Spelling
pub mod Canonical
pub mod Absolute
pub mod Below
pub mod Within
pub mod Resolving
use s3ro.Base.{
  ℕ, zero, suc, ◌+◌, ◌-◌, ◌/◌, Bool, true, false, ◌&&◌, ◌||◌, Option, none, some, List, [], ◌∷◌,
  ◌++◌, Bytes, codes, ltb, leb, ◌==◌, if◌then◌else◌, length, take, drop, str_eq, starts_with,
}
use s3ro.Run.{Run, ok, refuse, overrun, stuck, ◌>>=◌, ◌>>◌, require, within_bounds}

-- PATH_MAX of limits.h on Linux.
abbrev pub path_max : ℕ
path_max = 4096

-- `strncpy(dst, s, n - 1); dst[n - 1] = '\0'` and `snprintf(dst, n, "%s", s)`.
abbrev pub clip : ℕ → Bytes → Bytes
clip n s = take (n - 1) s

-- `while (*p == '/') p++;`
pub skip_slashes : Bytes → Bytes
skip_slashes [] = []
skip_slashes (c ∷ p) = if c == b'/' then skip_slashes p else c ∷ p

-- `while (*p != '\0' && *p != '/') p++;`: the bytes passed over, and where `p` stops.
unfoldable pub segment : Bytes → Bytes
segment [] = []
segment (c ∷ p) = if c == b'/' then [] else c ∷ segment p

pub after_segment : Bytes → Bytes
after_segment [] = []
after_segment (c ∷ p) = if c == b'/' then c ∷ p else after_segment p

-- `result[0 .. res_len)` and `stack[0 .. top)`, the latter with `stack[top - 1]` first.
pub record Builder : Type 0 where
  pub result : Bytes
  pub stack : List ℕ

-- `memcpy(result + res_len, bytes, n); res_len += n;`
abbrev pub append_result : Bytes → Bytes → Run Bytes
append_result result bytes = do
  within_bounds (leb (length result + length bytes) path_max)
  ok (result ++ bytes)

-- `result[res_len] = '\0';`
abbrev pub terminate : Bytes → Run (Unit {0})
terminate result = within_bounds (ltb (length result) path_max)

-- `stack[top++] = (int)res_len;`
abbrev pub push_stack : List ℕ → ℕ → Run (List ℕ)
push_stack stack n = do within_bounds (ltb (length stack) (path_max / 2)); ok (n ∷ stack)

-- An ordinary segment.
pub push_segment : Bytes → Builder → Run Builder
push_segment seg b = do
  base ← if ltb 1 (length b.result) then append_result b.result (b'/' ∷ []) else ok b.result
  require (ltb (length base + length seg) path_max)
  result ← append_result base seg
  terminate result
  stack ← push_stack b.stack (length result)
  ok (record { result = result; stack = stack })

-- The segment "..": `if (top > 1) { top--; res_len = stack[top - 1]; result[res_len] = '\0'; }`
pub pop_segment : Bytes → List ℕ → Run Builder
pop_segment result (n ∷ m ∷ stack) = do
  terminate (take m result)
  ok (record { result = take m result; stack = m ∷ stack })
pop_segment result stack = ok (record { result = result; stack = stack })

-- The body of the loop, from `seg_len` on.
pub segment_step : Bytes → Builder → Run Builder
unfolding push_segment pop_segment
segment_step seg b =
    if length seg == 0
    then ok b
    else if length seg == 1 && starts_with (codes ".") seg
    then ok b
    else if length seg == 2 && starts_with (codes "..") seg
    then pop_segment b.result b.stack
    else push_segment seg b

-- `while (*p != '\0') { ... }`. Each round passes over a byte, so `length p` rounds are enough.
pub canon_loop : ℕ → Bytes → Builder → Run Builder
canon_loop zero p b = stuck
canon_loop (suc fuel) p b = elim (skip_slashes p) [
  | [] ↦ ok b
  | c ∷ q ↦ segment_step (segment (c ∷ q)) b >>= λ b'. canon_loop fuel (after_segment (c ∷ q)) b'
]

-- `scratch`: an absolute path, or the working directory (NULL if getcwd fails) and the path.
unfoldable pub scratch : Option Bytes → Bytes → Run Bytes
scratch cwd path =
    if starts_with (codes "/") path
    then ok (clip path_max path)
    else elim cwd [ none ↦ refuse | some dir ↦ ok (clip path_max (dir ++ (b'/' ∷ path))) ]

-- After the loop.
pub finish : Bytes → ℕ → Run Bytes
finish result out_len = do
  whole ← if length result == 0 then append_result result (b'/' ∷ []) else ok result
  terminate whole
  require (ltb (length whole) out_len)
  ok (clip out_len whole)

abbrev pub initial : Builder
initial = record { result = b'/' ∷ []; stack = 1 ∷ [] }

unfoldable pub canonicalize_path : Option Bytes → Option Bytes → ℕ → Run Bytes
unfolding canon_loop scratch finish skip_slashes segment after_segment segment_step
canonicalize_path cwd none out_len = refuse
canonicalize_path cwd (some path) out_len = do
  require (ltb 0 out_len)
  s ← scratch cwd path
  b ← canon_loop (suc (length s)) s initial
  finish b.result out_len

-- What the paths need of the process: getcwd and readlink("/proc/self/fd/N"), NULL and -1 as `none`.
-- `at_fdcwd` is AT_FDCWD.
pub record Process : Type 0 where
  pub cwd : Option Bytes
  pub readlink_fd : ℕ → Option Bytes
  pub root : Bytes

-- A directory descriptor argument.
pub data DirFd : Type 0 where
  at_fdcwd : DirFd
  descriptor : ℕ → DirFd

pub dirfd_path : Process → DirFd → ℕ → Run Bytes
dirfd_path p at_fdcwd out_len = refuse
dirfd_path p (descriptor fd) out_len = do
  require (ltb 0 out_len)
  elim (p.readlink_fd fd) [
    | none ↦ refuse
    | some link ↦ canonicalize_path p.cwd (some (clip path_max link)) out_len
  ]

-- The relative path behind a directory descriptor.
pub resolve_at : Process → DirFd → Bytes → ℕ → Run Bytes
unfolding dirfd_path
resolve_at p at_fdcwd path out_len = canonicalize_path p.cwd (some path) out_len
resolve_at p fd path out_len = do
  base ← dirfd_path p fd path_max
  let combined = base ++ (b'/' ∷ path)
  require (ltb (length combined) path_max)
  canonicalize_path p.cwd (some combined) out_len

unfoldable pub resolve_absolute : Process → DirFd → Option Bytes → ℕ → Run Bytes
unfolding resolve_at
resolve_absolute p fd none out_len = refuse
resolve_absolute p fd (some path) out_len =
    if starts_with (codes "/") path
    then canonicalize_path p.cwd (some path) out_len
    else resolve_at p fd path out_len

-- Both outputs of `path_within_root`; callers pass buffers of PATH_MAX bytes.
pub record Located : Type 0 where
  pub abs : Bytes
  pub rel : Bytes

-- From `norm_len` on: `rest` is `normalized + root_len`.
unfoldable pub locate : Bytes → Bytes → Run Bytes
locate root [] = ok []
locate root (c ∷ rest) =
    if c == b'/' then ok rest else if ltb 1 (length root) then refuse else ok (c ∷ rest)

-- The comparison with REMOTEFS_ROOT.
unfoldable pub below_root : Bytes → Bytes → Run Located
unfolding locate
below_root root normalized = do
  require (starts_with root normalized)
  rel ← locate root (drop (length root) normalized)
  ok (record { abs = clip path_max normalized; rel = clip path_max rel })

unfoldable pub path_within_root : Process → Option Bytes → Run Located
unfolding below_root
path_within_root p path = canonicalize_path p.cwd path path_max >>= below_root p.root
