-- ===== src/Json.antt =====
-- The reading of the daemon's JSON in shim/ldpreload/remotefs_shim.c: `parse_json_document`,
-- `token_equals`, `parse_long` and `parse_object_at`. The tokenizer jsmn is a parameter.
pub mod Document
pub mod Decimal
pub mod Entry
pub mod Fields
pub mod Ends
use s3ro.Base.{
  ℕ, zero, suc, ◌+◌, ◌-◌, ◌*◌, ◌^◌, Bool, true, false, ◌&&◌, ◌||◌, Option, none, some, List, [],
  ◌∷◌, Bytes, codes, ltb, leb, ◌==◌, if◌then◌else◌, length, take, drop, get_or, str_eq,
}
use s3ro.Base.Int.{ℤ, pos, negsuc, negate, to_signed}
use s3ro.Meta.{RemoteMeta}
use s3ro.Path.{path_max}
use s3ro.Run.{Run, ok, refuse, stray}

pub data TokenType : Type 0 where
  undefined object array string primitive : TokenType

-- jsmntok_t, as far as the shim reads it: the bytes from `start` up to `end`.
pub record Token : Type 0 where
  pub type : TokenType
  pub start : ℕ
  pub end : ℕ
  pub size : ℕ

-- What jsmn_parse returns: the count and the tokens, or an error.
pub data Parsed : Type 0 where
  parsed : ℕ → List Token → Parsed
  nomem inval part : Parsed

-- jsmn_parse on a text, with room for a number of tokens.
abbrev pub Tokenizer : Type 0
Tokenizer = Bytes → ℕ → Parsed

-- `sizeof(jsmntok_t)`: an enum and four ints.
abbrev pub token_size : ℕ
token_size = 20

-- The loop of `parse_json_document`; `none` is the result -1. A round that goes on doubles `tok_cap`.
pub document_loop : (ℕ → Bool) → Tokenizer → Bytes → ℕ → ℕ → Option (ℕ × List Token)
document_loop allocates jsmn json zero tok_cap = none
document_loop allocates jsmn json (suc fuel) tok_cap =
    if allocates (token_size * tok_cap)
    then (elim (jsmn json tok_cap) [
      | parsed n tokens ↦ some (n, tokens)
      | nomem ↦
          if ltb 4096 (tok_cap * 2)
          then none
          else document_loop allocates jsmn json fuel (tok_cap * 2)
      | inval ↦ none
      | part ↦ none
    ])
    else none

-- The capacities are 32, 64, ... 4096, so nine rounds are never used up.
unfoldable pub parse_json_document : (ℕ → Bool) → Tokenizer → Bytes → Option (ℕ × List Token)
unfolding document_loop
parse_json_document allocates jsmn json = document_loop allocates jsmn json 9 32

-- `json + tok->start`, `tok->end - tok->start` bytes.
abbrev pub token_text : Bytes → Token → Bytes
token_text json tok = take (tok.end - tok.start) (drop tok.start json)

pub token_equals : Bytes → Token → Bytes → Bool
token_equals json tok s = tok.end - tok.start == length s && str_eq (token_text json tok) s

-- strtoll(s, NULL, 10): white space, a sign, digits; the value stops at the ends of long long.
abbrev pub is_digit : ℕ → Bool
is_digit c = leb b'0' c && leb c b'9'

abbrev pub is_space : ℕ → Bool
is_space c = c == b' ' || (leb 9 c && leb c 13)

pub digits_value : ℕ → Bytes → ℕ
digits_value acc [] = acc
digits_value acc (c ∷ s) = if is_digit c then digits_value (acc * 10 + (c - b'0')) s else acc

pub skip_spaces : Bytes → Bytes
skip_spaces [] = []
skip_spaces (c ∷ s) = if is_space c then skip_spaces s else c ∷ s

abbrev pub clamp_pos : ℕ → ℤ
clamp_pos n = if ltb n (2 ^ 63) then pos n else pos (2 ^ 63 - 1)

abbrev pub clamp_neg : ℕ → ℤ
clamp_neg n = if leb n (2 ^ 63) then negate n else negsuc (2 ^ 63 - 1)

pub signed_value : Bytes → ℤ
signed_value [] = pos 0
signed_value (c ∷ s) =
    if c == b'-'
    then clamp_neg (digits_value 0 s)
    else if c == b'+'
    then clamp_pos (digits_value 0 s)
    else clamp_pos (digits_value 0 (c ∷ s))

unfoldable pub strtoll : Bytes → ℤ
unfolding digits_value skip_spaces signed_value
strtoll s = signed_value (skip_spaces s)

-- `char tmp[64]`.
unfoldable pub parse_long : Bytes → Token → ℤ
unfolding strtoll
parse_long json tok = strtoll (take 63 (token_text json tok))

-- One field of a POSIXEntry, by the name of its key.
pub set_field : Bytes → Token → Token → RemoteMeta → RemoteMeta
unfolding token_equals parse_long
set_field json key val tmp =
    if token_equals json key (codes "Path")
    then record tmp { path = take (path_max - 1) (token_text json val) }
    else if token_equals json key (codes "Size")
    then record tmp { size = parse_long json val }
    else if token_equals json key (codes "Mode")
    then record tmp { mode = parse_long json val }
    else if token_equals json key (codes "UID")
    then record tmp { uid = to_signed 31 (parse_long json val) }
    else if token_equals json key (codes "GID")
    then record tmp { gid = to_signed 31 (parse_long json val) }
    else if token_equals json key (codes "IsDir")
    then record tmp { is_dir = get_or json val.start 0 == b't' || get_or json val.start 0 == b'T' }
    else tmp

abbrev pub is_string : TokenType → Bool
is_string string = true
is_string _ = false

abbrev pub is_object : TokenType → Bool
is_object object = true
is_object _ = false

-- The loop over the fields, from `tokens + idx` on. `jsmn` in its default mode also takes an object
-- with a key and no value, such as {"Path"}; the C code then reads behind the tokens that are set.
pub fields_loop : Bytes → ℕ → List Token → ℕ → RemoteMeta → Run (RemoteMeta × ℕ)
unfolding set_field
fields_loop json zero tokens idx tmp = ok (tmp, idx)
fields_loop json (suc fields) [] idx tmp = stray
fields_loop json (suc fields) (key ∷ []) idx tmp = if is_string key.type then stray else refuse
fields_loop json (suc fields) (key ∷ val ∷ tokens) idx tmp =
    if is_string key.type
    then fields_loop json fields tokens (idx + 2) (set_field json key val tmp)
    else refuse

-- `struct remote_meta tmp = {0}` with the owner of the process.
abbrev pub blank_meta : ℕ → ℕ → RemoteMeta
blank_meta g_uid g_gid = record {
  path = [];
  size = pos 0;
  mode = pos 0;
  uid = to_signed 31 (pos g_uid);
  gid = to_signed 31 (pos g_gid);
  is_dir = false;
}

pub parse_tokens_at : ℕ → ℕ → Bytes → List Token → ℕ → Run (RemoteMeta × ℕ)
unfolding fields_loop
parse_tokens_at g_uid g_gid json [] idx = stray
parse_tokens_at g_uid g_gid json (tok ∷ tokens) idx =
    if is_object tok.type
    then fields_loop json tok.size tokens (idx + 1) (blank_meta g_uid g_gid)
    else refuse

-- The meta and `next_idx`. The tokens are those that are set.
unfoldable pub parse_object_at : ℕ → ℕ → Bytes → List Token → ℕ → Run (RemoteMeta × ℕ)
unfolding parse_tokens_at
parse_object_at g_uid g_gid json tokens idx = parse_tokens_at g_uid g_gid json (drop idx tokens) idx
