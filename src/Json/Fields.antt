-- ===== src/Json/Fields.antt =====
-- About `parse_object_at` on the fields of an entry, as the daemon prints them.
use s3ro.Base.{
  ℕ, zero, suc, ◌+◌, ◌*◌, ◌^◌, ◌-◌, ◌%◌, ◌<◌, ◌==◌, ◌||◌, not, Bool, true, false, List, [], ◌∷◌,
  Bytes, codes, if◌then◌else◌, length, take, drop, get_or, str_eq, str_eq→eq, ==_self, lt→ltb,
  ltb→lt, take-of_le, ◌≡◌, refl, ap, ◌∙◌, arith, inl, inr, Bool-cases,
}
use s3ro.Base.Int.{pos, to_signed}
use s3ro.Json.{
  Token, object, token_text, token_equals, parse_long, set_field, fields_loop, blank_meta,
  parse_tokens_at, parse_object_at,
}
use s3ro.Json.Entry.{
  Field, has_path, has_size, has_mode, has_uid, has_gid, has_dir, has_other, key_of, is_known, put,
  put_all, Spans, ShowsField, ShowsAll,
}
use s3ro.Json.Decimal.{decimal, parse_long-decimal}
use s3ro.Run.{ok}
use s3ro.Meta.{RemoteMeta}
use s3ro.Path.{path_max}

token_equals-Spans :
    (json : Bytes) (tok : Token) (key name : Bytes)
    → Spans json tok key
    → token_equals json tok name ≡ str_eq key name
unfolding token_equals
token_equals-Spans json tok key name h = elim (Bool-cases (str_eq key name)) [
  | inl same ↦
      let lengths : (length key == length name) ≡ true =
        rw (str_eq→eq key name same) (==_self (length name)) in
      rw (h.bytes, h.len, same, lengths) refl
  | inr other ↦ rw (h.bytes, h.len, other) (ground arith)
]

get_or-head :
    (json : Bytes) (start n c : ℕ) (text : Bytes)
    → take n (drop start json) ≡ c ∷ text
    → get_or json start 0 ≡ c
get_or-head json start zero c text h = cc
get_or-head [] zero (suc n) c text h = cc
get_or-head [] (suc start) (suc n) c text h = cc
get_or-head (x ∷ json) zero (suc n) c text h = cc
get_or-head (x ∷ json) (suc start) (suc n) c text h = get_or-head json start (suc n) c text h

to_signed-small : (n : ℕ) → n < 2 ^ 31 → to_signed 31 (pos n) ≡ pos n
to_signed-small n small =
    let whole : n % 2 ^ 32 ≡ n = omega (arith, small) in rw (whole, lt→ltb n (2 ^ 31) small) refl

six_false :
    (a b c d e f : Bool)
    → not (a || b || c || d || e || f) ≡ true
    → (a ≡ false) × (b ≡ false) × (c ≡ false) × (d ≡ false) × (e ≡ false) × (f ≡ false)
six_false a b c d e f h = ground arith

none_known :
    (key : Bytes)
    → not (is_known key) ≡ true
    → (str_eq key (codes "Path") ≡ false)
      × (str_eq key (codes "Size") ≡ false)
      × (str_eq key (codes "Mode") ≡ false)
      × (str_eq key (codes "UID") ≡ false)
      × (str_eq key (codes "GID") ≡ false)
      × (str_eq key (codes "IsDir") ≡ false)
none_known key h =
    six_false (str_eq key (codes "Path")) (str_eq key (codes "Size")) (str_eq key (codes "Mode"))
      (str_eq key (codes "UID")) (str_eq key (codes "GID")) (str_eq key (codes "IsDir")) h

module _ (json : Bytes) (key val : Token) (tmp : RemoteMeta) where
  key_is :
      {field : Field} (name : Bytes)
      → ShowsField json field key val
      → token_equals json key name ≡ str_eq (key_of field) name
  key_is {field} name h = token_equals-Spans json key (key_of field) name h.keys

  number : (n : ℕ) → token_text json val ≡ decimal 19 n → n < 2 ^ 63 → parse_long json val ≡ pos n
  number n printed small = parse_long-decimal json val n printed small

  owner :
      (n : ℕ)
      → token_text json val ≡ decimal 19 n
      → n < 2 ^ 31
      → to_signed 31 (parse_long json val) ≡ pos n
  owner n printed small = rw (number n printed (omega (arith, small))) (to_signed-small n small)

  flag :
      (b : Bool)
      → token_text json val ≡ (if b then codes "true" else codes "false")
      → (get_or json val.start 0 == b't' || get_or json val.start 0 == b'T') ≡ b
  flag true h = rw (get_or-head json val.start (val.end - val.start) b't' (codes "rue") h) refl
  flag false h = rw (get_or-head json val.start (val.end - val.start) b'f' (codes "alse") h) refl

  set_field-put :
      (field : Field) → ShowsField json field key val → set_field json key val tmp ≡ put field tmp
  unfolding set_field
  set_field-put (has_path path) h = rw (key_is (codes "Path") h) (
      ap (λ p. record tmp { path = p })
        (ap (take (path_max - 1)) h.values.bytes
          ∙ take-of_le (path_max - 1) path
              (omega (arith, ltb→lt (length path) path_max h.fitting))))
  set_field-put (has_size n) h =
      rw (key_is (codes "Path") h, key_is (codes "Size") h)
        (ap (λ z. record tmp { size = z }) (number n h.values.bytes (ltb→lt n (2 ^ 63) h.fitting)))
  set_field-put (has_mode n) h =
      rw (key_is (codes "Path") h, key_is (codes "Size") h, key_is (codes "Mode") h)
        (ap (λ z. record tmp { mode = z }) (number n h.values.bytes (ltb→lt n (2 ^ 63) h.fitting)))
  set_field-put (has_uid n) h =
      rw
        (
          key_is (codes "Path") h,
          key_is (codes "Size") h,
          key_is (codes "Mode") h,
          key_is (codes "UID") h,
        )
        (ap (λ z. record tmp { uid = z }) (owner n h.values.bytes (ltb→lt n (2 ^ 31) h.fitting)))
  set_field-put (has_gid n) h =
      rw
        (
          key_is (codes "Path") h,
          key_is (codes "Size") h,
          key_is (codes "Mode") h,
          key_is (codes "UID") h,
          key_is (codes "GID") h,
        )
        (ap (λ z. record tmp { gid = z }) (owner n h.values.bytes (ltb→lt n (2 ^ 31) h.fitting)))
  set_field-put (has_dir b) h =
      rw
        (
          key_is (codes "Path") h,
          key_is (codes "Size") h,
          key_is (codes "Mode") h,
          key_is (codes "UID") h,
          key_is (codes "GID") h,
          key_is (codes "IsDir") h,
        )
        (ap (λ b. record tmp { is_dir = b }) (flag b h.values.bytes))
  set_field-put (has_other k text) h =
      let (a, b, c, d, e, f) = none_known k h.fitting in
      rw
        (
          key_is (codes "Path") h,
          key_is (codes "Size") h,
          key_is (codes "Mode") h,
          key_is (codes "UID") h,
          key_is (codes "GID") h,
          key_is (codes "IsDir") h,
          a,
          b,
          c,
          d,
          e,
          f,
        )
        refl

fields_loop-put_all :
    (json : Bytes) (fields : List Field) (tokens : List Token) (idx : ℕ) (tmp : RemoteMeta)
    → ShowsAll json fields tokens
    → fields_loop json (length fields) tokens idx tmp
      ≡ ok (put_all fields tmp, idx + 2 * length fields)
unfolding fields_loop
fields_loop-put_all json [] tokens idx tmp h = ap (λ i. ok (tmp, i)) (omega arith)
fields_loop-put_all json (field ∷ fields) [] idx tmp h = absurd h
fields_loop-put_all json (field ∷ fields) (_ ∷ []) idx tmp h = absurd h
fields_loop-put_all json (field ∷ fields) (key ∷ val ∷ tokens) idx tmp h =
    rw (h.0.is_string, set_field-put json key val tmp field h.0)
      (fields_loop-put_all json fields tokens (idx + 2) (put field tmp) h.1
        ∙ ap (λ i. ok (put_all fields (put field tmp), i)) (omega arith))

-- If the tokens from an index on begin with an object and the pairs of tokens that span the keys
-- and values of its fields, printed as the daemon prints them (numbers in decimal, true and
-- false), in any order and with any other fields between, and the path is shorter than its
-- buffer, the size and mode are below 2^63 and the owners below 2^31, then parse_object_at gives
-- exactly what the fields say, the process's own owner where they are silent, and the index
-- behind the last token.
pub parse_object_at-put_all :
    (g_uid g_gid : ℕ) (json : Bytes) (fields : List Field) (tokens : List Token) (idx : ℕ)
    {head : Token} {rest : List Token}
    → drop idx tokens ≡ head ∷ rest
    → head.type ≡ object
    → head.size ≡ length fields
    → ShowsAll json fields rest
    → parse_object_at g_uid g_gid json tokens idx
      ≡ ok (put_all fields (blank_meta g_uid g_gid), idx + 1 + 2 * length fields)
unfolding parse_object_at parse_tokens_at
parse_object_at-put_all g_uid g_gid json fields tokens idx here is_object size shows =
    rw (here, is_object, size)
      (fields_loop-put_all json fields _ (idx + 1) (blank_meta g_uid g_gid) shows)
