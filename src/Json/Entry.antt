-- ===== src/Json/Entry.antt =====
-- The objects that the daemon prints, by their fields, and the tokens that show them.
use s3ro.Base.{
  ℕ, ◌^◌, ◌-◌, ◌||◌, not, Bool, true, List, [], ◌∷◌, Bytes, codes, if◌then◌else◌, length, str_eq,
  ltb, ◌≡◌,
}
use s3ro.Base.Int.{pos}
use s3ro.Json.{Token, string, token_text}
use s3ro.Json.Decimal.{decimal}
use s3ro.Meta.{RemoteMeta}
use s3ro.Path.{path_max}

-- A field of an object: one that the shim reads, or one under another name with any text.
pub data Field : Type 0 where
  has_path : Bytes → Field
  has_size has_mode has_uid has_gid : ℕ → Field
  has_dir : Bool → Field
  has_other : Bytes → Bytes → Field

abbrev pub key_of : Field → Bytes
key_of (has_path path) = codes "Path"
key_of (has_size n) = codes "Size"
key_of (has_mode n) = codes "Mode"
key_of (has_uid n) = codes "UID"
key_of (has_gid n) = codes "GID"
key_of (has_dir b) = codes "IsDir"
key_of (has_other key text) = key

abbrev pub text_of : Field → Bytes
text_of (has_path path) = path
text_of (has_size n) = decimal 19 n
text_of (has_mode n) = decimal 19 n
text_of (has_uid n) = decimal 19 n
text_of (has_gid n) = decimal 19 n
text_of (has_dir b) = if b then codes "true" else codes "false"
text_of (has_other key text) = text

abbrev pub is_known : Bytes → Bool
is_known key =
    str_eq key (codes "Path")
    || str_eq key (codes "Size")
    || str_eq key (codes "Mode")
    || str_eq key (codes "UID")
    || str_eq key (codes "GID")
    || str_eq key (codes "IsDir")

-- The values that the fields of struct remote_meta have room for.
abbrev pub fits : Field → Bool
fits (has_path path) = ltb (length path) path_max
fits (has_size n) = ltb n (2 ^ 63)
fits (has_mode n) = ltb n (2 ^ 63)
fits (has_uid n) = ltb n (2 ^ 31)
fits (has_gid n) = ltb n (2 ^ 31)
fits (has_dir b) = true
fits (has_other key text) = not (is_known key)

-- What a field says.
abbrev pub put : Field → RemoteMeta → RemoteMeta
put (has_path path) meta = record meta { path = path }
put (has_size n) meta = record meta { size = pos n }
put (has_mode n) meta = record meta { mode = pos n }
put (has_uid n) meta = record meta { uid = pos n }
put (has_gid n) meta = record meta { gid = pos n }
put (has_dir b) meta = record meta { is_dir = b }
put (has_other key text) meta = meta

abbrev pub put_all : List Field → RemoteMeta → RemoteMeta
put_all [] meta = meta
put_all (field ∷ fields) meta = put_all fields (put field meta)

-- A token spans a text.
pub record Spans (json : Bytes) (tok : Token) (text : Bytes) : Type 0 where
  pub len : tok.end - tok.start ≡ length text
  pub bytes : token_text json tok ≡ text

-- The two tokens of a field.
pub record ShowsField (json : Bytes) (field : Field) (key val : Token) : Type 0 where
  pub is_string : key.type ≡ string
  pub keys : Spans json key (key_of field)
  pub values : Spans json val (text_of field)
  pub fitting : fits field ≡ true

-- The tokens begin with those of the fields.
abbrev pub ShowsAll : Bytes → List Field → List Token → Type 0
ShowsAll json [] tokens = Unit
ShowsAll json (field ∷ fields) (key ∷ val ∷ tokens) =
    ShowsField json field key val × ShowsAll json fields tokens
ShowsAll json (_ ∷ _) [] = ⊥
ShowsAll json (_ ∷ _) (_ ∷ []) = ⊥
