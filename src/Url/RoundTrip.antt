-- ===== src/Url/RoundTrip.antt =====
-- About `url_encode` and the reading of its output, and the size of the URL.
use mathlib.Core.Option
use s3ro.Base.{
  ℕ, zero, suc, ◌+◌, ◌-◌, ◌*◌, ◌/◌, ◌%◌, ◌<◌, ◌≤◌, Bool, true, false, ◌&&◌, [], ◌∷◌, ◌++◌, Bytes,
  codes, ◌==◌, length, none, some, ◌≡◌, refl, ap, ◌∙◌, arith, length-append, inl, inr, Bool-cases,
  take-of_le,
}
use s3ro.Path.{path_max}
use s3ro.Path.Names.{All}
use s3ro.Url.{is_safe, hex, encode_byte, encode_loop, request_url}
use s3ro.Url.Decode.{plain, high, low, query_value, hex_value, decode_from, decode}

-- A byte is below 256.
abbrev pub AreBytes : Bytes → Type 0
AreBytes = All (λ c. c < 256)

reads_back : ℕ → Bool
reads_back i = elim (hex_value (hex i)) [ none ↦ false | some v ↦ v == i ]

-- The digits below a bound, one after the other.
digits_read : ℕ → Bool
digits_read zero = true
digits_read (suc digit) = reads_back digit && digits_read digit

sixteen_read : digits_read 16 ≡ true
unfolding digits_read reads_back hex_value hex
sixteen_read = refl

digits_read-reads_back :
    (bound : ℕ) {i : ℕ} → i < bound → digits_read bound ≡ true → reads_back i ≡ true
unfolding digits_read
digits_read-reads_back zero below h = absurd (omega arith)
digits_read-reads_back (suc digit) {i} below h =
    ground (arith, digits_read-reads_back digit {i = i})

hex_value-hex : (i : ℕ) → i < 16 → hex_value (hex i) ≡ some i
unfolding reads_back
hex_value-hex i below =
    let reads = digits_read-reads_back 16 below sixteen_read in ground (arith, reads)

decode-high :
    (c : ℕ) {v : ℕ} (s : Bytes)
    → hex_value c ≡ some v
    → decode_from high (c ∷ s) ≡ decode_from (low v) s
unfolding decode_from
decode-high c s e = rw (e, decode_from)

decode-low :
    (h c : ℕ) {v : ℕ} (s : Bytes)
    → hex_value c ≡ some v
    → decode_from (low h) (c ∷ s) ≡ Option.map (◌∷◌ (h * 16 + v)) (decode_from plain s)
unfolding decode_from
decode-low h c s e = rw (e, decode_from)

decode-escape : (s : Bytes) → decode_from plain (b'%' ∷ s) ≡ decode_from high s
unfolding decode_from
decode-escape s = refl

decode-escaped :
    (c : ℕ) (s : Bytes)
    → c < 256
    → decode_from plain (b'%' ∷ hex (c / 16 % 16) ∷ hex (c % 16) ∷ s)
      ≡ Option.map (◌∷◌ c) (decode_from plain s)
decode-escaped c s h =
    let value : c / 16 % 16 * 16 + c % 16 ≡ c = omega arith in
    decode-escape (hex (c / 16 % 16) ∷ hex (c % 16) ∷ s)
    ∙ decode-high (hex (c / 16 % 16)) (hex (c % 16) ∷ s) (hex_value-hex (c / 16 % 16) (omega arith))
    ∙ decode-low (c / 16 % 16) (hex (c % 16)) s (hex_value-hex (c % 16) (omega arith))
    ∙ rw value

decode-safe :
    (c : ℕ) (s : Bytes)
    → is_safe c ≡ true
    → decode_from plain (c ∷ s) ≡ Option.map (◌∷◌ c) (decode_from plain s)
unfolding decode_from is_safe
decode-safe c s h = ground arith

decode-encode_byte :
    (c : ℕ) (s : Bytes)
    → c < 256
    → decode_from plain (encode_byte c ++ s) ≡ Option.map (◌∷◌ c) (decode_from plain s)
unfolding encode_byte
decode-encode_byte c s h = elim (Bool-cases (is_safe c)) [
  | inl safe ↦ rw safe (decode-safe c s safe)
  | inr other ↦ rw other (decode-escaped c s h)
]

-- The encoding of a text reads back as the text, whatever its bytes.
pub decode-encode_loop : (s : Bytes) → AreBytes s → decode (encode_loop s) ≡ some s
unfolding decode encode_loop
decode-encode_loop [] h = refl
decode-encode_loop (c ∷ s) h =
    decode-encode_byte c (encode_loop s) h.0 ∙ ap (Option.map (◌∷◌ c)) (decode-encode_loop s h.1)

length-encode_byte : (c : ℕ) → length (encode_byte c) ≤ 3
unfolding encode_byte
length-encode_byte c = ground arith

-- The buffer of three bytes for each byte and one for the NUL is never left.
pub encode_loop_fits : (s : Bytes) → length (encode_loop s) + 1 ≤ length s * 3 + 1
unfolding encode_loop
encode_loop_fits [] = omega arith
encode_loop_fits (c ∷ s) =
    omega (
      arith,
      encode_loop_fits s,
      length-encode_byte c,
      length-append (encode_byte c) (encode_loop s),
    )

-- No byte of an encoding ends a value.
query_value-safe : (c : ℕ) (s : Bytes) → is_safe c ≡ true → query_value (c ∷ s) ≡ c ∷ query_value s
unfolding query_value is_safe
query_value-safe c s h = ground arith

query_value-hex : (i : ℕ) (s : Bytes) → i < 16 → query_value (hex i ∷ s) ≡ hex i ∷ query_value s
unfolding query_value hex
query_value-hex i s h = ground (arith, h)

query_value-percent : (s : Bytes) → query_value (b'%' ∷ s) ≡ b'%' ∷ query_value s
unfolding query_value
query_value-percent s = refl

query_value-encode_byte :
    (c : ℕ) (s : Bytes)
    → c < 256
    → query_value (encode_byte c ++ s) ≡ encode_byte c ++ query_value s
unfolding encode_byte
query_value-encode_byte c s h = elim (Bool-cases (is_safe c)) [
  | inl safe ↦ rw safe (query_value-safe c s safe)
  | inr other ↦ rw other (
      query_value-percent (hex (c / 16 % 16) ∷ hex (c % 16) ∷ s)
      ∙ ap (◌∷◌ b'%') (
          query_value-hex (c / 16 % 16) (hex (c % 16) ∷ s) (omega arith)
          ∙ ap (◌∷◌ (hex (c / 16 % 16))) (query_value-hex (c % 16) s (omega arith))))
]

query_value-encode_loop : (s : Bytes) → AreBytes s → query_value (encode_loop s) ≡ encode_loop s
unfolding encode_loop query_value
query_value-encode_loop [] h = refl
query_value-encode_loop (c ∷ s) h =
    query_value-encode_byte c (encode_loop s) h.0
    ∙ ap (◌++◌ (encode_byte c)) (query_value-encode_loop s h.1)

-- If the endpoint and three times the path leave room for 17 bytes in the URL buffer, and the
-- path consists of bytes, the URL is the endpoint with a query, whose value a server reads whole,
-- up to the next '&', ';' or '#', and decodes to the path.
pub request_url-decode :
    (endpoint path : Bytes)
    → AreBytes path
    → length endpoint + length path * 3 + 17 < path_max * 2
    → (value : Bytes) × (request_url endpoint (encode_loop path)
        ≡ codes "http://unix" ++ (endpoint ++ (codes "?path=" ++ value)))
      × (query_value value ≡ value)
      × (decode (query_value value) ≡ some path)
unfolding request_url
request_url-decode endpoint path h fits =
    let value = encode_loop path in
    (
      value,
      take-of_le (path_max * 2 - 1) (codes "http://unix" ++ (endpoint ++ (codes "?path=" ++ value)))
          (omega (arith, length-append endpoint (codes "?path=" ++ value), encode_loop_fits path)),
      query_value-encode_loop path h,
      ap decode (query_value-encode_loop path h) ∙ decode-encode_loop path h,
    )
