-- ===== src/Lib.antt =====
-- s3ro lets programs read an object store as if it were a directory tree. This library is about the
-- shim of shim/ldpreload/remotefs_shim.c, a shared library in front of libc: a call on a path below
-- REMOTEFS_ROOT is answered by HTTP requests to a daemon on this machine, any other is handed to
-- the real function.
--
-- The parts, from the inside to the outside:
--   Path      canonicalize_path, dirfd_path, resolve_absolute, path_within_root. A string is the list
--             of its bytes without the NUL (and no byte of it is 0); a buffer is the string in it, and
--             each write is checked against its size. Path/Names is the specification, by lists of
--             names; Path/Loop the loop against it; Path/Canonical, Path/Absolute and Path/Within the
--             results.
--   Config    what shim_init_once takes from the environment. Config/Once has the static variables,
--             shim_init_once, ensure_initialized and `entered`, a handler with ensure_initialized
--             at its head, as each function that takes a path has it; Config/Life the calls of a process from the
--             moment the library is loaded, of which those that take a path start it.
--   Hash      hash_path, modulo 2^64.
--   Url       url_encode and the URL of a request; Url/Decode is how a server reads a query value.
--   Json      parse_json_document, token_equals, parse_long, parse_object_at.
--   Meta      struct remote_meta, derive_mode, hydrate_stat, hydrate_stat64, hydrate_statx.
--   World     errno, the record of what the shim did, and the parameters.
--   Http      buffer_write, file_write, perform_http_request, fetch_json.
--   Remote    fetch_remote_meta, remote_stat_path, allow_open_flags, download_into_temp,
--             remote_open_file.
--   Dir       relative_name, alloc_dirent, add_entry, populate_directory, free_dir. Dir/Leaving has
--             what populate_directory leaves in the directory when it fails, for opendir to free.
--   Registry  the list from g_dirs on: register_dir, lookup_dir, unregister_dir, dir_next_entry;
--             Registry/Threads has the steps of threads inside dir_next_entry.
--   Handlers  the functions in front of libc's: those on paths, and in Handlers/Directories those on
--             directories. `open` is `open_file`; Handlers/StatNames has the exported names of stat.
--   Daemon    what the daemon prints for a file: entryFromMeta of pkg/remotefs/ipc.go. Daemon/Files
--             has its file system over an object store, pkg/remotefs/fs.go, and the handlers of
--             /stat and /ls: sanitize, Stat, ReadDir, handleStat, handleList; Daemon/Warming the walk
--             of the store at the start, WarmMetadataCache and populateMetadata.
--   Cache     the daemon's disk cache, pkg/cache/cache.go.
--
-- The shim and the daemon meet in the text of a response. Daemon/Children says which text shows
-- given files, Daemon/Stats and Daemon/Listing what the shim makes of it, with Dir/Naming and
-- Remote/Answering; Daemon/Serving puts stat of the shim in front of handleStat. Daemon/Agreement is
-- about the paths of the two, Daemon/Coherence about Stat and ReadDir,
-- Daemon/Walking, Daemon/Covering and Daemon/Warmth about the walk. The cache is apart: Cache/Order, Cache/Eviction and Cache/Moving are about its
-- entries and their order, Cache/Sound about one insertion, Cache/Calls about any number of calls
-- and Cache/Racing about two at a time. `order` begins at the back, where ensureCapacity evicts, and
-- its loop goes through that list once.
--
-- The other modules below these are about the definitions of their parents: Path/Resolving and
-- Handlers/Routing about the functions with a directory descriptor, Config/Root, Config/Within and Config/Started about the start and the root it
-- gives, Json/Fields about the objects that the daemon prints, Json/Ends
-- about those that it does not, Http/Bodies, Http/Writing and
-- Remote/Outcomes about responses, Registry/Sound and Handlers/Directories/Sequences about the
-- state of the open directories, Dir/Release, Dir/Leaving/Whole and Handlers/Directories/Closing
-- about what is given back, Path/Below about below_root, Remote/Parsing about the body of a
-- response, Views (in World, Http and Remote) about what requests leave alone, Temporary about
-- temporary files, Contents and Opened about what an opened file holds, Progress, Http/Gathering
-- and Dir/Refusing about calls that nothing hinders, Failing, Undelivered, Outcomes and Ending
-- about calls that fail, Remote/Inodes about inodes in listings, Remote/Reopening and
-- Handlers/Depth about the depth of `open` in `open`. Base/Bits is about bit_and and bit_or. Tests
-- has runs of the definitions, and the theorems at concrete inputs.
--
-- The directory functions have a specification of their own: Registry/Streams forgets how the open
-- directories are kept and leaves, for each handle, a listing and a place in it;
-- Handlers/Directories/Observed says what a program may observe of such streams, call after call,
-- and Handlers/Directories/Fitting and Handlers/Directories/Refinement compare the functions with
-- it.
--
-- Outcomes. Run (Run.antt) has `refuse` for false, NULL and -1, `overrun` for a write outside a
-- buffer, `stray` for a read of a token that jsmn has not set, and `stuck` for a loop that has used
-- up its rounds. Reply (World.antt) has `failed` for -1 or NULL, with errno in the World, and
-- `crashed` for a read of NULL, outside an array or of a token not set, and for a write outside the
-- caller's struct dirent.
--
-- Rounds. The loop of canonicalize_path has a round for each byte of the path and one more;
-- file_write one for each byte; parse_json_document nine, for the capacities 32 to 4096. `open`
-- inside remote_open_file is the shim's own again and takes a depth. The rounds of
-- populate_metadata are the nesting of its calls, which the code does not bound.
--
-- Parameters: getcwd, readlink, the clock, mkstemp, write, lseek, the real open, the address that
-- malloc returns, which sizes malloc has memory for, dlsym's answers, libcurl (the pieces of a body
-- that it hands to the write callback, and the status) and the tokenizer jsmn, of which jsmn.h is a
-- copy. isalnum, strtoll, strncmp and the like are those of the C locale. Constants are those of
-- Linux on x86-64.
--
-- Threads. Each handler runs alone, but for dir_next_entry in Registry/Threads: it holds no lock
-- between its test and its read. The list from g_dirs on is only touched under g_dir_lock.
--
-- Not modelled: what mkdir and libcurl's set-up do (that shim_init_once calls them is an event),
-- pthread_once and the mutex themselves, when the buffers of a single call (bodies, tokens, URLs) are
-- freed, jsmn.h, and of the Go programs all but Daemon and Cache:
-- ReadFile, the store behind the S3 client, and the serving of requests by net/http.
-- Sizes in Cache are natural numbers, so sums of more than 2^63 bytes are left out.
mod Base
mod Run
pub mod Config
pub mod Path
pub mod Url
pub mod Hash
pub mod Meta
pub mod Json
pub mod Dir
pub mod Registry
pub mod World
pub mod Http
pub mod Remote
pub mod Handlers
pub mod Daemon
pub mod Cache
mod Tests
