-- ===== src/Json/Document.antt =====
-- About `parse_json_document` and the number of tokens of a document.
use s3ro.Base.{
  ℕ, suc, ◌*◌, ◌≤◌, ◌<◌, Bool, true, false, none, some, List, Bytes, ltb, leb, if◌then◌else◌,
  length, ◌≡◌, refl, ◌∙◌, arith, inl, inr, Bool-cases,
}
use s3ro.Json.{Token, parsed, nomem, Tokenizer, token_size, document_loop, parse_json_document}

-- What jsmn documents of a well-formed text: it asks for more tokens until all of them fit.
pub record Tokenizes (jsmn : Tokenizer) (json : Bytes) (tokens : List Token) : Type 0 where
  pub enough : (cap : ℕ) → length tokens ≤ cap → jsmn json cap ≡ parsed (length tokens) tokens
  pub short : (cap : ℕ) → cap < length tokens → jsmn json cap ≡ nomem

module _ (allocates : ℕ → Bool) (jsmn : Tokenizer) (json : Bytes) (tokens : List Token)
    (memory : (n : ℕ) → allocates n ≡ true) (documented : Tokenizes jsmn json tokens) where
  -- One round.
  retry :
      (fuel cap : ℕ)
      → document_loop allocates jsmn json (suc fuel) cap ≡ (
          if leb (length tokens) cap
          then some (length tokens, tokens)
          else if ltb 4096 (cap * 2)
          then none
          else document_loop allocates jsmn json fuel (cap * 2))
  unfolding document_loop
  retry fuel cap = elim (Bool-cases (leb (length tokens) cap)) [
    | inl fits ↦
        rw (fits, memory (token_size * cap), documented.enough cap (ground arith), document_loop)
          refl
    | inr small ↦
        rw (small, memory (token_size * cap), documented.short cap (ground arith), document_loop)
          refl
  ]

  -- What the loop comes to.
  abbrev Settles : ℕ → ℕ → Type 0
  Settles fuel cap =
      document_loop allocates jsmn json fuel cap
      ≡ (if leb (length tokens) 4096 then some (length tokens, tokens) else none)

  double : (fuel cap : ℕ) → cap * 2 ≤ 4096 → Settles fuel (cap * 2) → Settles (suc fuel) cap
  double fuel cap below later = retry fuel cap ∙ elim (Bool-cases (leb (length tokens) cap)) [
    | inl fits ↦ let fits' : leb (length tokens) 4096 ≡ true = ground arith in rw (fits, fits') refl
    | inr small ↦ let room : ltb 4096 (cap * 2) ≡ false = ground arith in rw (small, room) later
  ]

  last : (fuel : ℕ) → Settles (suc fuel) 4096
  last fuel = retry fuel 4096

  -- If memory is never short, and jsmn gives the tokens of a text once there is room for them and
  -- asks for more before, parse_json_document returns them if there are at most 4096, and fails
  -- if there are more.
  pub parse_json_document-limit :
      parse_json_document allocates jsmn json
      ≡ (if leb (length tokens) 4096 then some (length tokens, tokens) else none)
  unfolding parse_json_document
  parse_json_document-limit = double 8 32 (omega arith) (
      double 7 64 (omega arith) (
        double 6 128 (omega arith) (
          double 5 256 (omega arith) (
            double 4 512 (omega arith)
              (double 3 1024 (omega arith) (double 2 2048 (omega arith) (last 1)))))))
