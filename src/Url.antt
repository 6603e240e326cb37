-- ===== src/Url.antt =====
-- `url_encode` of shim/ldpreload/remotefs_shim.c, and the text of the request's URL.
pub mod Decode
pub mod RoundTrip
use s3ro.Base.{
  ℕ, suc, ◌+◌, ◌*◌, ◌/◌, ◌%◌, Bool, true, false, ◌&&◌, ◌||◌, List, [], ◌∷◌, ◌++◌, Bytes, codes, leb,
  ◌==◌, if◌then◌else◌, length, get_or, Option, none, some,
}
use s3ro.Path.{path_max, clip}

-- `isalnum` of the C locale.
abbrev pub isalnum : ℕ → Bool
isalnum c = (leb b'0' c && leb c b'9') || (leb b'A' c && leb c b'Z') || (leb b'a' c && leb c b'z')

-- The bytes that stand for themselves.
pub is_safe : ℕ → Bool
is_safe c = isalnum c || c == b'/' || c == b'-' || c == b'_' || c == b'.' || c == b'~'

-- `hex[i]`.
pub hex : ℕ → ℕ
hex i = get_or (codes "0123456789ABCDEF") i 0

-- The bytes that one round of the loop writes.
pub encode_byte : ℕ → Bytes
unfolding is_safe hex
encode_byte c = if is_safe c then c ∷ [] else b'%' ∷ hex (c / 16 % 16) ∷ hex (c % 16) ∷ []

pub encode_loop : Bytes → Bytes
unfolding encode_byte
encode_loop [] = []
encode_loop (c ∷ s) = encode_byte c ++ encode_loop s

-- `allocates n` is whether malloc finds n bytes; NULL is `none`.
unfoldable pub url_encode : (ℕ → Bool) → Bytes → Option Bytes
unfolding encode_loop
url_encode allocates input =
    if allocates (length input * 3 + 1) then some (encode_loop input) else none

-- `char url[PATH_MAX * 2]; snprintf(url, sizeof(url), "http://unix%s?path=%s", endpoint, encoded);`
unfoldable pub request_url : Bytes → Bytes → Bytes
request_url endpoint encoded =
    clip (path_max * 2) (codes "http://unix" ++ (endpoint ++ (codes "?path=" ++ encoded)))
