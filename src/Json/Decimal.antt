-- ===== src/Json/Decimal.antt =====
-- About `parse_long` on a number in decimal digits.
use Prim.Native.Nat.{◌/◌}
use s3ro.Base.{
  ℕ, ◌==◌, zero, suc, ◌+◌, ◌*◌, ◌^◌, ◌%◌, ◌≤◌, ◌<◌, true, false, [], ◌∷◌, ◌++◌, Bytes, ltb,
  if◌then◌else◌, length, ◌≡◌, refl, ap, ◌∙◌, arith, inl, inr, Bool-cases, length-append, take-of_le,
  lt→ltb,
}
use s3ro.Base.Int.{pos}
use s3ro.Json.{
  Token, token_text, is_digit, is_space, digits_value, skip_spaces, signed_value, strtoll,
  parse_long,
}
use s3ro.Path.Names.{All}

abbrev IsDigit : ℕ → Type 0
IsDigit c = is_digit c ≡ true

-- The digits of a number that has at most so many.
unfoldable pub decimal : ℕ → ℕ → Bytes
decimal zero n = []
decimal (suc places) n =
    let front = decimal places (n / 10) in
    if ltb n 10 then (b'0' + n) ∷ [] else front ++ ((b'0' + n % 10) ∷ [])

-- The first number with more.
abbrev pub beyond : ℕ → ℕ
beyond zero = 1
beyond (suc places) = 10 * beyond places

IsDigit-add : (d : ℕ) → d < 10 → IsDigit (b'0' + d)
IsDigit-add d lt = ground arith

All-append_one : (s : Bytes) (c : ℕ) → All IsDigit s → IsDigit c → All IsDigit (s ++ (c ∷ []))
All-append_one [] c h hc = (hc, tt)
All-append_one (x ∷ s) c h hc = (h.0, All-append_one s c h.1 hc)

decimal-digits : (places n : ℕ) → All IsDigit (decimal places n)
unfolding decimal
decimal-digits zero n = tt
decimal-digits (suc places) n = elim (Bool-cases (ltb n 10)) [
  | inl one ↦ rw one (IsDigit-add n (ground arith), tt)
  | inr more ↦ rw more (
      All-append_one (decimal places (n / 10)) (b'0' + n % 10) (decimal-digits places (n / 10))
        (IsDigit-add (n % 10) (omega arith)))
]

decimal-short : (places n : ℕ) → length (decimal places n) ≤ places
unfolding decimal
decimal-short zero n = omega arith
decimal-short (suc places) n = elim (Bool-cases (ltb n 10)) [
  | inl one ↦ rw one (omega arith)
  | inr more ↦ rw more (
      omega (
        arith,
        decimal-short places (n / 10),
        length-append (decimal places (n / 10)) ((b'0' + n % 10) ∷ []),
      ))
]

digits_value-append :
    (s t : Bytes) (acc : ℕ)
    → All IsDigit s
    → digits_value acc (s ++ t) ≡ digits_value (digits_value acc s) t
unfolding digits_value
digits_value-append [] t acc h = refl
digits_value-append (c ∷ s) t acc h = rw h.0 (digits_value-append s t _ h.1)

digits_value-one : (acc d : ℕ) → d < 10 → digits_value acc ((b'0' + d) ∷ []) ≡ acc * 10 + d
unfolding digits_value
digits_value-one acc d lt = rw (IsDigit-add d lt) (omega arith)

digits_value-decimal : (places n : ℕ) → n < beyond places → digits_value 0 (decimal places n) ≡ n
unfolding decimal digits_value
digits_value-decimal zero n lt = omega (arith, lt)
digits_value-decimal (suc places) n lt = elim (Bool-cases (ltb n 10)) [
  | inl one ↦ rw one (digits_value-one 0 n (ground arith) ∙ omega arith)
  | inr more ↦ rw more (
      digits_value-append (decimal places (n / 10)) ((b'0' + n % 10) ∷ []) 0
        (decimal-digits places (n / 10))
      ∙ digits_value-one _ (n % 10) (omega arith)
      ∙ rw (digits_value-decimal places (n / 10) (omega (arith, lt))) (omega arith))
]

-- A digit is neither white space nor a sign.
signed_value-digits :
    (s : Bytes) {n : ℕ} → All IsDigit s → digits_value 0 s ≡ n → n < 2 ^ 63 → strtoll s ≡ pos n
unfolding strtoll skip_spaces signed_value digits_value
signed_value-digits [] h e small = ap pos e
signed_value-digits (c ∷ s) h e small =
    let here = h.0 in
    let no_space : is_space c ≡ false = ground arith in
    let no_minus : (c == b'-') ≡ false = ground arith in
    let no_plus : (c == b'+') ≡ false = ground arith in
    rw (no_space, no_minus, no_plus, e, lt→ltb _ (2 ^ 63) small) refl

-- A number that is printed with at most 63 digits reads as itself.
pub parse_long-decimal :
    (json : Bytes) (tok : Token) (n : ℕ)
    → token_text json tok ≡ decimal 19 n
    → n < 2 ^ 63
    → parse_long json tok ≡ pos n
unfolding parse_long
parse_long-decimal json tok n printed small =
    rw (printed, take-of_le 63 (decimal 19 n) (omega (arith, decimal-short 19 n)))
      (signed_value-digits (decimal 19 n) (decimal-digits 19 n)
        (digits_value-decimal 19 n (omega (arith, small))) small)
