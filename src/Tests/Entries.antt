-- ===== src/Tests/Entries.antt =====
-- An entry of the daemon's that is read back.
use s3ro.Base.{◌≡◌, ◌+◌, ◌*◌, refl, true, List, [], ◌∷◌, Bytes, codes}
use s3ro.Base.Int.{pos}
use s3ro.Json.{array, Token, string, object, primitive, blank_meta, parse_object_at}
use s3ro.Json.Decimal.{decimal}
use s3ro.Run.{ok}
use s3ro.Json.Entry.{Field, has_path, has_size, has_dir, has_other, put_all, ShowsAll}
use s3ro.Json.Fields.{parse_object_at-put_all}

abbrev text : Bytes
text = codes "[{\"Path\":\"d/a\",\"ETag\":\"\",\"Size\":1205,\"IsDir\":true}]"

abbrev fields : List Field
fields = has_path (codes "d/a") ∷ has_other (codes "ETag") [] ∷ has_size 1205 ∷ has_dir true ∷ []

abbrev field_tokens : List Token
field_tokens =
    record { type = string; start = 3; end = 7; size = 1 }
    ∷ record { type = string; start = 10; end = 13; size = 0 }
    ∷ record { type = string; start = 16; end = 20; size = 1 }
    ∷ record { type = string; start = 23; end = 23; size = 0 }
    ∷ record { type = string; start = 26; end = 30; size = 1 }
    ∷ record { type = primitive; start = 32; end = 36; size = 0 }
    ∷ record { type = string; start = 38; end = 43; size = 1 }
    ∷ record { type = primitive; start = 45; end = 49; size = 0 }
    ∷ []

abbrev entry_tokens : List Token
entry_tokens =
    record { type = array; start = 0; end = 51; size = 1 }
    ∷ record { type = object; start = 1; end = 50; size = 4 }
    ∷ field_tokens

shows : ShowsAll text fields field_tokens
unfolding decimal
shows = (
  record {
    is_string = refl;
    keys = record { len = refl; bytes = refl };
    values = record { len = refl; bytes = refl };
    fitting = refl;
  },
  (
    record {
      is_string = refl;
      keys = record { len = refl; bytes = refl };
      values = record { len = refl; bytes = refl };
      fitting = refl;
    },
    (
      record {
        is_string = refl;
        keys = record { len = refl; bytes = refl };
        values = record { len = refl; bytes = refl };
        fitting = refl;
      },
      (
        record {
          is_string = refl;
          keys = record { len = refl; bytes = refl };
          values = record { len = refl; bytes = refl };
          fitting = refl;
        },
        tt,
      ),
    ),
  ),
)

reads_entry :
    parse_object_at 1000 100 text entry_tokens 1
    ≡ ok (put_all fields (blank_meta 1000 100), 1 + 1 + 2 * 4)
reads_entry = parse_object_at-put_all 1000 100 text fields entry_tokens 1 refl refl refl shows

reads_back : put_all fields (blank_meta 1000 100) ≡ record {
  path = codes "d/a";
  size = pos 1205;
  mode = pos 0;
  uid = pos 1000;
  gid = pos 100;
  is_dir = true;
}
reads_back = refl
