-- ===== src/Url/Decode.antt =====
-- How a server reads a query value: "%XY" is a byte, '+' is a space.
use s3ro.Base.{
  ℕ, ◌+◌, ◌-◌, ◌*◌, ◌&&◌, ◌||◌, Option, none, some, [], ◌∷◌, Bytes, leb, ◌==◌, if◌then◌else◌,
}
use mathlib.Core.Option

-- Where a query value ends: at the next parameter, or at the fragment.
unfoldable pub query_value : Bytes → Bytes
query_value [] = []
query_value (c ∷ s) =
    let rest = query_value s in if c == b'&' || c == b';' || c == b'#' then [] else c ∷ rest

unfoldable pub hex_value : ℕ → Option ℕ
hex_value c =
    if leb b'0' c && leb c b'9'
    then some (c - b'0')
    else if leb b'A' c && leb c b'F'
    then some (c - b'A' + 10)
    else if leb b'a' c && leb c b'f'
    then some (c - b'a' + 10)
    else none

-- Between bytes, behind '%', and behind the first digit.
pub data Mode : Type 0 where
  plain : Mode
  high : Mode
  low : ℕ → Mode

unfoldable pub decode_from : Mode → Bytes → Option Bytes
unfolding hex_value
decode_from plain [] = some []
decode_from high [] = none
decode_from (low h) [] = none
decode_from plain (c ∷ s) =
    let escape = decode_from high s in
    let next = decode_from plain s in
    if c == b'%' then escape else Option.map (◌∷◌ (if c == b'+' then b' ' else c)) next
decode_from high (c ∷ s) = elim (hex_value c) [ none ↦ none | some h ↦ decode_from (low h) s ]
decode_from (low h) (c ∷ s) = elim (hex_value c) [
  | none ↦ none
  | some l ↦ Option.map (◌∷◌ (h * 16 + l)) (decode_from plain s)
]

unfoldable pub decode : Bytes → Option Bytes
unfolding decode_from
decode = decode_from plain
