-- ===== src/Dir/Populate.antt =====
-- About `populate_directory`: the listing it fills, and the bounds of its array.
use s3ro.Base.{
  ℕ, suc, ◌+◌, ◌*◌, Bool, true, false, not, none, some, List, [], ◌∷◌, ◌++◌, Bytes, codes, ltb,
  length, replicate, ◌≡◌, ◌≢◌, refl, sym, ◌∙◌, arith, ◌⊎◌, inl, inr, Bool-cases, Option-cases,
}
use s3ro.Dir.{
  ShimDir, Reader, blank_pair, fill_directory, populate_tokens, populate_directory, pair_size,
  is_array,
}
use s3ro.Json.{Token, parse_json_document}
use s3ro.Meta.{RemoteMeta}
use s3ro.Run.{ok, refuse, halted, >>=-halted, overrun, stuck, ok-injective}
use s3ro.Dir.Listing.{Listed, pair_of, pairs_from, read_children, listed}
use s3ro.Dir.Slots.{add_entry_cases}
use s3ro.Dir.Filling.{children_loop_cases}

-- "." and "..", and the children.
abbrev pub whole_listing : Reader → Bytes → List RemoteMeta → List Listed
whole_listing r rel_path metas =
    (codes ".", true) ∷ (codes "..", true) ∷ listed r.allocates rel_path metas

-- The directory holds a listing of the objects of the array.
pub record IsPopulated (r : Reader) (rel_path json : Bytes) (head : Token) (tokens : List Token)
    (dir filled : ShimDir) : Type 0 where
  pub metas : List RemoteMeta
  pub spare : ℕ
  pub read : read_children r json (head ∷ tokens) head.size 1 ≡ some metas
  pub counts : filled.count ≡ length (whole_listing r rel_path metas)
  pub rewound : filled.index ≡ 0
  pub abs_path : filled.abs_path ≡ dir.abs_path
  pub lists :
      filled.entries
      ≡ pairs_from dir.abs_path 0 (whole_listing r rel_path metas) ++ replicate spare blank_pair

module _ (r : Reader) (rel_path json : Bytes) (dir : ShimDir) (head : Token)
    (tokens : List Token) where
  pub fill_cases :
      ((wild : Bool) × (fill_directory r rel_path dir json head (head ∷ tokens) ≡ halted wild))
      ⊎ ((filled : ShimDir) × (fill_directory r rel_path dir json head (head ∷ tokens) ≡ ok filled)
          × IsPopulated r rel_path json head tokens dir filled)
  unfolding fill_directory
  fill_cases =
      let n = head.size in
      let base = record dir { count = suc (suc n); index = 0 } in
      let two : n + 2 ≡ suc (suc n) = omega arith in
      let dot = pair_of dir.abs_path 0 (codes ".", true) in
      let dots = pair_of dir.abs_path 1 (codes "..", true) in
      elim (Bool-cases (r.allocates ((n + 2) * pair_size))) [
        | inr full ↦ inl (false, rw full refl)
        | inl room ↦
            elim (add_entry_cases r.allocates base (codes ".") true [] blank_pair
              (blank_pair ∷ replicate n blank_pair) 0 refl) [
                | inl e ↦ inl (false, rw (room, two, e) refl)
                | inr e ↦
                    elim (add_entry_cases r.allocates base (codes "..") true (dot ∷ []) blank_pair
                      (replicate n blank_pair) 1 refl) [
                        | inl f ↦ inl (false, rw (room, two, e, f) refl)
                        | inr f ↦
                            elim (children_loop_cases r rel_path json (head ∷ tokens) n 1 base
                              (dot ∷ dots ∷ []) n 2 (omega arith) refl) [
                                | inl (wild, g) ↦
                                    inl (wild, rw (room, two, e, f, g) (>>=-halted wild _))
                                | inr g ↦ inr (
                                  record base {
                                    count = g.end;
                                    entries =
                                        pairs_from dir.abs_path 0 (whole_listing r rel_path g.metas)
                                        ++ replicate g.spare blank_pair;
                                  },
                                  rw (room, two, e, f, g.is_ok) refl,
                                  record {
                                    metas = g.metas;
                                    spare = g.spare;
                                    read = g.read;
                                    counts = omega (arith, g.ends);
                                    rewound = refl;
                                    abs_path = refl;
                                    lists = refl;
                                  },
                                )
                              ]
                      ]
              ]
      ]

  populate_tokens_cases :
      (count : ℕ)
      → ((wild : Bool) × (populate_tokens r rel_path dir json count (head ∷ tokens) ≡ halted wild))
        ⊎ ((filled : ShimDir) × (populate_tokens r rel_path dir json count (head ∷ tokens)
              ≡ ok filled)
            × IsPopulated r rel_path json head tokens dir filled)
  unfolding populate_tokens
  populate_tokens_cases count = elim (Bool-cases (not (ltb count 1))) [
    | inr empty ↦ inl (false, rw empty refl)
    | inl some_token ↦ elim (Bool-cases (is_array head.type)) [
      | inr other ↦ inl (false, rw (some_token, other) refl)
      | inl array ↦ rw (some_token, array) fill_cases
    ]
  ]

tokens-safe :
    (r : Reader) (rel_path json : Bytes) (dir : ShimDir) (count : ℕ) (tokens : List Token)
    → (populate_tokens r rel_path dir json count tokens ≢ overrun)
      × (populate_tokens r rel_path dir json count tokens ≢ stuck)
unfolding populate_tokens
tokens-safe r rel_path json dir count [] = ground arith
tokens-safe r rel_path json dir count (head ∷ tokens) =
    elim (populate_tokens_cases r rel_path json dir head tokens count) [
      | inl (true, e) ↦ (λ f. cc, λ f. cc)
      | inl (false, e) ↦ (λ f. cc, λ f. cc)
      | inr (filled, e, _) ↦ (λ f. cc, λ f. cc)
    ]

pub populate_some :
    (r : Reader) (rel_path json : Bytes) (dir : ShimDir) {count : ℕ} {tokens : List Token}
    → parse_json_document r.allocates r.jsmn json ≡ some (count, tokens)
    → populate_directory r rel_path dir json ≡ populate_tokens r rel_path dir json count tokens
unfolding populate_directory
populate_some r rel_path json dir e = rw (e, populate_directory)

pub populate_none :
    (r : Reader) (rel_path json : Bytes) (dir : ShimDir)
    → parse_json_document r.allocates r.jsmn json ≡ none
    → populate_directory r rel_path dir json ≡ refuse
unfolding populate_directory
populate_none r rel_path json dir e = rw (e, populate_directory)

-- No write outside the array, and no round too many.
pub populate_directory-safe :
    (r : Reader) (rel_path json : Bytes) (dir : ShimDir)
    → (populate_directory r rel_path dir json ≢ overrun)
      × (populate_directory r rel_path dir json ≢ stuck)
populate_directory-safe r rel_path json dir =
    elim (Option-cases (parse_json_document r.allocates r.jsmn json)) [
      | inl e ↦ rw (populate_none r rel_path json dir e) (ground arith)
      | inr ((count, tokens), e) ↦
          rw (populate_some r rel_path json dir e) (tokens-safe r rel_path json dir count tokens)
    ]

-- If parse_json_document gives tokens of which the first is head, and populate_directory fills
-- the directory, then the entries are ".", ".." and the children with a name, in the order of the
-- array, and blank pairs behind them; count is the number of the entries, index is 0, and the
-- path is kept.
pub populate_directory-lists :
    (r : Reader) (rel_path json : Bytes) (dir : ShimDir) {count : ℕ} {head : Token}
    {tokens : List Token} {filled : ShimDir}
    → parse_json_document r.allocates r.jsmn json ≡ some (count, head ∷ tokens)
    → populate_directory r rel_path dir json ≡ ok filled
    → IsPopulated r rel_path json head tokens dir filled
populate_directory-lists r rel_path json dir {count} {head} {tokens} {filled} e f =
    elim (populate_tokens_cases r rel_path json dir head tokens count) [
      | inl (true, g) ↦ absurd (cc (populate_some r rel_path json dir e))
      | inl (false, g) ↦ absurd (cc (populate_some r rel_path json dir e))
      | inr (filled', g, populated) ↦
          let same : filled' ≡ filled =
            ok-injective (sym g ∙ sym (populate_some r rel_path json dir e) ∙ f) in
          rw (← same) populated
    ]

-- A response that could be listed has a token for its array.
pub populate_directory-tokens :
    (r : Reader) (rel_path json : Bytes) (dir : ShimDir) {filled : ShimDir}
    → populate_directory r rel_path dir json ≡ ok filled
    → (count : ℕ) × (head : Token) × (tokens : List Token) × (parse_json_document r.allocates r.jsmn
          json
        ≡ some (count, head ∷ tokens))
unfolding populate_tokens
populate_directory-tokens r rel_path json dir h =
    elim (Option-cases (parse_json_document r.allocates r.jsmn json)) [
      | inl e ↦ absurd (cc (populate_none r rel_path json dir e))
      | inr ((count, []), e) ↦ absurd (cc (populate_some r rel_path json dir e))
      | inr ((count, head ∷ tokens), e) ↦ (count, head, tokens, e)
    ]
