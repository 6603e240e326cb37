-- ===== src/Json/Ends.antt =====
-- About each end of `parse_object_at`.
use s3ro.Base.{ℕ, zero, suc, ◌+◌, List, [], ◌∷◌, Bytes, drop, ◌≡◌, refl, inl, inr, Bool-cases}
use s3ro.Json.{
  Token, is_string, is_object, set_field, fields_loop, blank_meta, parse_tokens_at, parse_object_at,
}
use s3ro.Meta.{RemoteMeta}
use s3ro.Run.{Run, ok, refuse, stray}

pub data ObjectEnd (r : Run (RemoteMeta × ℕ)) : Type 0 where
  read : (meta : RemoteMeta) (next : ℕ) → r ≡ ok (meta, next) → ObjectEnd r
  malformed : r ≡ refuse → ObjectEnd r
  misread : r ≡ stray → ObjectEnd r

fields_loop-ObjectEnd :
    (json : Bytes) (fields : ℕ) (tokens : List Token) (idx : ℕ) (tmp : RemoteMeta)
    → ObjectEnd (fields_loop json fields tokens idx tmp)
unfolding fields_loop
fields_loop-ObjectEnd json zero tokens idx tmp = read tmp idx refl
fields_loop-ObjectEnd json (suc fields) [] idx tmp = misread refl
fields_loop-ObjectEnd json (suc fields) (key ∷ []) idx tmp =
    elim (Bool-cases (is_string key.type)) [
      | inl text ↦ misread (rw text refl)
      | inr other ↦ malformed (rw other refl)
    ]
fields_loop-ObjectEnd json (suc fields) (key ∷ val ∷ tokens) idx tmp =
    elim (Bool-cases (is_string key.type)) [
      | inl text ↦
          rw text (fields_loop-ObjectEnd json fields tokens (idx + 2) (set_field json key val tmp))
      | inr other ↦ malformed (rw other refl)
    ]

parse_tokens_at-ObjectEnd :
    (g_uid g_gid : ℕ) (json : Bytes) (tokens : List Token) (idx : ℕ)
    → ObjectEnd (parse_tokens_at g_uid g_gid json tokens idx)
unfolding parse_tokens_at
parse_tokens_at-ObjectEnd g_uid g_gid json [] idx = misread refl
parse_tokens_at-ObjectEnd g_uid g_gid json (tok ∷ tokens) idx =
    elim (Bool-cases (is_object tok.type)) [
      | inl object ↦
          rw object (fields_loop-ObjectEnd json tok.size tokens (idx + 1) (blank_meta g_uid g_gid))
      | inr other ↦ malformed (rw other refl)
    ]

pub parse_object_at-ObjectEnd :
    (g_uid g_gid : ℕ) (json : Bytes) (tokens : List Token) (idx : ℕ)
    → ObjectEnd (parse_object_at g_uid g_gid json tokens idx)
unfolding parse_object_at
parse_object_at-ObjectEnd g_uid g_gid json tokens idx =
    parse_tokens_at-ObjectEnd g_uid g_gid json (drop idx tokens) idx
