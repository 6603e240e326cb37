-- ===== src/Tests/Fixtures.antt =====
-- A system for the tests: a daemon that answers each request with one listing, and a memory, a disk
-- and a clock that never fail.
use s3ro.Registry.{Dirs}
use s3ro.Base.{
  ℕ, ltb, suc, true, none, some, List, [], ◌∷◌, Bytes, codes, leb, length, if◌then◌else◌, str_eq,
}
use s3ro.Json.{Token, object, array, string, primitive, parsed, nomem, inval, Tokenizer}
use s3ro.Path.{Process}
use s3ro.World.{World, System, unset}

-- The text of the listing, in two pieces.
abbrev pub first_piece : Bytes
first_piece = codes "[{\"Path\":\"docs/a\",\"IsDir\":true},"

abbrev pub second_piece : Bytes
second_piece = codes "{\"Path\":\"docs/b.txt\",\"Size\":12}]"

abbrev pub listing : Bytes
listing = codes "[{\"Path\":\"docs/a\",\"IsDir\":true},{\"Path\":\"docs/b.txt\",\"Size\":12}]"

abbrev pub listing_head : Token
listing_head = record { type = array; start = 0; end = 64; size = 2 }

abbrev pub listing_tail : List Token
listing_tail =
    record { type = object; start = 1; end = 31; size = 2 }
    ∷ record { type = string; start = 3; end = 7; size = 1 }
    ∷ record { type = string; start = 10; end = 16; size = 0 }
    ∷ record { type = string; start = 19; end = 24; size = 1 }
    ∷ record { type = primitive; start = 26; end = 30; size = 0 }
    ∷ record { type = object; start = 32; end = 63; size = 2 }
    ∷ record { type = string; start = 34; end = 38; size = 1 }
    ∷ record { type = string; start = 41; end = 51; size = 0 }
    ∷ record { type = string; start = 54; end = 58; size = 1 }
    ∷ record { type = primitive; start = 60; end = 62; size = 0 }
    ∷ []

abbrev pub tokenize : Tokenizer
tokenize json cap =
    if str_eq json listing
    then if leb 11 cap then parsed 11 (listing_head ∷ listing_tail) else nomem
    else inval

abbrev pub process : Process
process = record {
  cwd = some (codes "/home/me");
  readlink_fd = λ fd. none;
  root = codes "/data/virtual";
}

-- An address above all that are in use.
abbrev pub above : Dirs → ℕ
above [] = 1
above ((p, _) ∷ dirs) = let a = above dirs in if ltb p a then a else suc p

-- write(2) takes at most four bytes at a time.
abbrev pub tester : System
tester = record {
  process = process;
  g_uid = 1000;
  g_gid = 1000;
  cache_dir = codes "/tmp";
  allocates = λ n. true;
  curl_init = λ trace. true;
  transfer = λ trace url. record { pieces = first_piece ∷ second_piece ∷ []; status = some 200 };
  jsmn = tokenize;
  clock = λ trace n. record { sec = 1; nsec = 0 };
  mkstemp = λ trace template. some (9, template);
  write = λ trace fd s. if leb (length s) 4 then length s else 4;
  lseek = λ trace fd. true;
  fresh = above;
  resolved = λ sym. true;
  real_open = λ trace path flags. some 10;
}

abbrev pub start_world : World
start_world = record { errno = unset; trace = []; dirs = [] }

-- A system with one file, which the daemon answers both /stat and /cat with.
abbrev pub file_text : Bytes
file_text = codes "{\"Path\":\"a\",\"Size\":5}"

abbrev pub file_tokens : List Token
file_tokens =
    record { type = object; start = 0; end = 21; size = 2 }
    ∷ record { type = string; start = 2; end = 6; size = 1 }
    ∷ record { type = string; start = 9; end = 10; size = 0 }
    ∷ record { type = string; start = 13; end = 17; size = 1 }
    ∷ record { type = primitive; start = 19; end = 20; size = 0 }
    ∷ []

abbrev pub temp_name : Bytes
temp_name = codes "/tmp/cache-a1b2c3"

abbrev pub file_system : System
file_system = record tester {
  jsmn = λ json cap. parsed 5 file_tokens;
  mkstemp = λ trace template. some (9, temp_name);
  transfer = λ trace url. record { pieces = file_text ∷ []; status = some 200 };
}

abbrev pub file_path : Bytes
file_path = codes "/data/virtual/a"
