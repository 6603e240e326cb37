-- ===== src/Tests/Served.antt =====
-- A directory and a file as the daemon serves them.
use s3ro.Base.{
  ℕ, ◌+◌, ◌<◌, ◌≡◌, refl, true, false, none, some, List, [], ◌∷◌, ◌++◌, Bytes, codes, map, length,
  leb, if◌then◌else◌,
}
use s3ro.Daemon.{FileMeta, IpcServer, entry_from_meta, default_mode, fields_of}
use s3ro.Daemon.Children.{Child, entry_of}
use s3ro.Daemon.Listing.{Serves, whole, opendir-children}
use s3ro.Daemon.Stats.{ServesEntry}
use s3ro.Handlers.{answered, at_root}
use s3ro.Handlers.Directories.{opendir}
use s3ro.Handlers.Directories.Stream.{dirents_from, read_until_null}
use s3ro.Json.{Token, string, object, array, primitive, parsed, nomem, parse_json_document}
use s3ro.Json.Decimal.{decimal}
use s3ro.Path.{Located, path_within_root, canonicalize_path}
use s3ro.Run.{ok}
use s3ro.World.{World, System, done}
use s3ro.Tests.Fixtures.{tester, start_world}
use s3ro.Tests.Showing.{shows_all→ShowsAll, shows_objects→ShowsObjects}

abbrev pub server : IpcServer
server = record { uid = 500; gid = 50; user = codes "u"; group = codes "g" }

abbrev pub printed_at : Bytes
printed_at = codes "2024-02-02T03:04:05Z"

abbrev sub_dir : FileMeta
sub_dir = record {
  path = codes "docs/a";
  size = 0;
  etag = [];
  last_modified = some (codes "2024-01-02T03:04:05Z");
  is_dir = true;
}

abbrev pub text_file : FileMeta
text_file = record {
  path = codes "docs/b.txt";
  size = 12;
  etag = codes "e1";
  last_modified = none;
  is_dir = false;
}

abbrev children : List Child
children =
    record { name = codes "a"; meta = sub_dir }
    ∷ record { name = codes "b.txt"; meta = text_file }
    ∷ []

abbrev first_half : Bytes
first_half =
    codes
      "[{\"Path\":\"docs/a\",\"Size\":0,\"ETag\":\"\",\"LastModified\":\"2024-01-02T03:04:05Z\",\"IsDir\":true,\"Mode\":16744,\"UID\":500,\"GID\":50,\"User\":\"u\",\"Group\":\"g\"},{\"P"

abbrev second_half : Bytes
second_half =
    codes
      "ath\":\"docs/b.txt\",\"Size\":12,\"ETag\":\"e1\",\"LastModified\":\"2024-02-02T03:04:05Z\",\"IsDir\":false,\"Mode\":33056,\"UID\":500,\"GID\":50,\"User\":\"u\",\"Group\":\"g\"}]"

abbrev array_token : Token
array_token = record { type = array; start = 0; end = 295; size = 2 }

abbrev array_tokens : List Token
array_tokens =
    record { type = object; start = 1; end = 143; size = 10 }
    ∷ record { type = string; start = 3; end = 7; size = 1 }
    ∷ record { type = string; start = 10; end = 16; size = 0 }
    ∷ record { type = string; start = 19; end = 23; size = 1 }
    ∷ record { type = primitive; start = 25; end = 26; size = 0 }
    ∷ record { type = string; start = 28; end = 32; size = 1 }
    ∷ record { type = string; start = 35; end = 35; size = 0 }
    ∷ record { type = string; start = 38; end = 50; size = 1 }
    ∷ record { type = string; start = 53; end = 73; size = 0 }
    ∷ record { type = string; start = 76; end = 81; size = 1 }
    ∷ record { type = primitive; start = 83; end = 87; size = 0 }
    ∷ record { type = string; start = 89; end = 93; size = 1 }
    ∷ record { type = primitive; start = 95; end = 100; size = 0 }
    ∷ record { type = string; start = 102; end = 105; size = 1 }
    ∷ record { type = primitive; start = 107; end = 110; size = 0 }
    ∷ record { type = string; start = 112; end = 115; size = 1 }
    ∷ record { type = primitive; start = 117; end = 119; size = 0 }
    ∷ record { type = string; start = 121; end = 125; size = 1 }
    ∷ record { type = string; start = 128; end = 129; size = 0 }
    ∷ record { type = string; start = 132; end = 137; size = 1 }
    ∷ record { type = string; start = 140; end = 141; size = 0 }
    ∷ record { type = object; start = 144; end = 294; size = 10 }
    ∷ record { type = string; start = 146; end = 150; size = 1 }
    ∷ record { type = string; start = 153; end = 163; size = 0 }
    ∷ record { type = string; start = 166; end = 170; size = 1 }
    ∷ record { type = primitive; start = 172; end = 174; size = 0 }
    ∷ record { type = string; start = 176; end = 180; size = 1 }
    ∷ record { type = string; start = 183; end = 185; size = 0 }
    ∷ record { type = string; start = 188; end = 200; size = 1 }
    ∷ record { type = string; start = 203; end = 223; size = 0 }
    ∷ record { type = string; start = 226; end = 231; size = 1 }
    ∷ record { type = primitive; start = 233; end = 238; size = 0 }
    ∷ record { type = string; start = 240; end = 244; size = 1 }
    ∷ record { type = primitive; start = 246; end = 251; size = 0 }
    ∷ record { type = string; start = 253; end = 256; size = 1 }
    ∷ record { type = primitive; start = 258; end = 261; size = 0 }
    ∷ record { type = string; start = 263; end = 266; size = 1 }
    ∷ record { type = primitive; start = 268; end = 270; size = 0 }
    ∷ record { type = string; start = 272; end = 276; size = 1 }
    ∷ record { type = string; start = 279; end = 280; size = 0 }
    ∷ record { type = string; start = 283; end = 288; size = 1 }
    ∷ record { type = string; start = 291; end = 292; size = 0 }
    ∷ []

abbrev server_system : System
server_system = record tester {
  transfer = λ trace url. record { pieces = first_half ∷ second_half ∷ []; status = some 200 };
  jsmn = λ json cap. if leb 43 cap then parsed 43 (array_token ∷ array_tokens) else nomem;
}

abbrev docs_path : Bytes
docs_path = codes "/data/virtual/docs"

abbrev docs_located : Located
docs_located = record { abs = docs_path; rel = codes "docs" }

docs_within : path_within_root server_system.process (some docs_path) ≡ ok docs_located
unfolding path_within_root canonicalize_path
docs_within = refl

docs_parse :
    parse_json_document server_system.allocates server_system.jsmn
      (first_half ++ (second_half ++ []))
    ≡ some (43, array_token ∷ array_tokens)
unfolding parse_json_document
docs_parse = refl

docs_Serves : Serves server_system docs_located start_world server printed_at children
unfolding decimal entry_from_meta default_mode
docs_Serves = record {
  curl = refl;
  memory = λ size. refl;
  status = refl;
  piece = first_half;
  pieces = second_half ∷ [];
  body = refl;
  count = 43;
  head = array_token;
  tokens = array_tokens;
  parses = docs_parse;
  counts = refl;
  array = refl;
  size = refl;
  shows =
      shows_objects→ShowsObjects (first_half ++ (second_half ++ []))
        (map (entry_of server printed_at) children) array_tokens refl;
  in_dir = (record { path = refl; is_name = refl }, (record { path = refl; is_name = refl }, tt));
}

opendir-children_example :
    (w' : World) × (opendir server_system (some docs_path) start_world ≡ (answered (done 1), w'))
    × ((calls : ℕ)
        → length children + 2 < calls
        → read_until_null server_system calls 1 w' ≡ dirents_from docs_path 0 (whole children))
opendir-children_example =
    opendir-children server_system (some docs_path) start_world server printed_at children
      docs_within docs_Serves

abbrev file_json : Bytes
file_json =
    codes
      "{\"Path\":\"docs/b.txt\",\"Size\":12,\"ETag\":\"e1\",\"LastModified\":\"2024-02-02T03:04:05Z\",\"IsDir\":false,\"Mode\":33056,\"UID\":500,\"GID\":50,\"User\":\"u\",\"Group\":\"g\"}"

abbrev file_head : Token
file_head = record { type = object; start = 0; end = 150; size = 10 }

abbrev file_fields : List Token
file_fields =
    record { type = string; start = 2; end = 6; size = 1 }
    ∷ record { type = string; start = 9; end = 19; size = 0 }
    ∷ record { type = string; start = 22; end = 26; size = 1 }
    ∷ record { type = primitive; start = 28; end = 30; size = 0 }
    ∷ record { type = string; start = 32; end = 36; size = 1 }
    ∷ record { type = string; start = 39; end = 41; size = 0 }
    ∷ record { type = string; start = 44; end = 56; size = 1 }
    ∷ record { type = string; start = 59; end = 79; size = 0 }
    ∷ record { type = string; start = 82; end = 87; size = 1 }
    ∷ record { type = primitive; start = 89; end = 94; size = 0 }
    ∷ record { type = string; start = 96; end = 100; size = 1 }
    ∷ record { type = primitive; start = 102; end = 107; size = 0 }
    ∷ record { type = string; start = 109; end = 112; size = 1 }
    ∷ record { type = primitive; start = 114; end = 117; size = 0 }
    ∷ record { type = string; start = 119; end = 122; size = 1 }
    ∷ record { type = primitive; start = 124; end = 126; size = 0 }
    ∷ record { type = string; start = 128; end = 132; size = 1 }
    ∷ record { type = string; start = 135; end = 136; size = 0 }
    ∷ record { type = string; start = 139; end = 144; size = 1 }
    ∷ record { type = string; start = 147; end = 148; size = 0 }
    ∷ []

abbrev pub stat_system : System
stat_system = record tester {
  transfer = λ trace url. record { pieces = file_json ∷ []; status = some 200 };
  jsmn = λ json cap. if leb 21 cap then parsed 21 (file_head ∷ file_fields) else nomem;
}

abbrev pub text_path : Bytes
text_path = codes "/data/virtual/docs/b.txt"

pub text_inside : at_root stat_system (some text_path) ≡ some text_path
unfolding path_within_root canonicalize_path
text_inside = refl

text_parse :
    parse_json_document stat_system.allocates stat_system.jsmn (file_json ++ [])
    ≡ some (21, file_head ∷ file_fields)
unfolding parse_json_document
text_parse = refl

pub text_ServesEntry :
    ServesEntry stat_system text_path start_world (entry_from_meta server printed_at text_file)
unfolding decimal entry_from_meta default_mode
text_ServesEntry = record {
  describes = record {
    curl = refl;
    memory = λ size. refl;
    status = refl;
    piece = file_json;
    pieces = [];
    body = refl;
    count = 21;
    tokens = file_head ∷ file_fields;
    parses = text_parse;
    counts = refl;
  };
  head = file_head;
  tokens = file_fields;
  begins = refl;
  is_object = refl;
  size = refl;
  shows =
      shows_all→ShowsAll (file_json ++ []) (fields_of (entry_from_meta server printed_at text_file))
        file_fields refl;
}
