-- ===== src/Url.antt =====
-- The escaping functions of usr.sbin/httpd/httpd.c: `url_decode`, `url_encode` and `escape_html`.
-- A C string is the list of its bytes; `url_decode` writes in place, behind its read position, so
-- its result is what it wrote. Allocation is assumed to succeed.
pub mod Decode
pub mod Encode
pub mod Html
use fuzz_httpd.Base.{
  ℕ, ◌+◌, ◌-◌, ◌*◌, ◌/◌, ◌%◌, Bool, ◌&&◌, ◌||◌, List, [], ◌∷◌, ◌++◌, ◌≡◌, refl, Option, none, some,
  Bytes, codes, leb, ◌==◌, if◌then◌else◌, is_digit, is_upper, is_xdigit,
}
use mathlib.Core.Option

-- `strtoul(hex, NULL, 16)` of one digit
unfoldable pub hex_value : ℕ → ℕ
unfolding is_digit is_upper
hex_value c = if is_digit c then c - b'0' else if is_upper c then c - 55 else c - 87

unfoldable pub url_decode : Bytes → Option Bytes
url_decode [] = some []
url_decode (c ∷ a ∷ b ∷ s) =
    let decoded = Option.map (λ t. (hex_value a * 16 + hex_value b) ∷ t) (url_decode s) in
    let copied = Option.map (λ t. c ∷ t) (url_decode (a ∷ b ∷ s)) in
    if c == b'%' then (if is_xdigit a && is_xdigit b then decoded else none) else copied
url_decode (c ∷ s) =
    let copied = Option.map (λ t. c ∷ t) (url_decode s) in if c == b'%' then none else copied

-- `hex[n]`, the table "0123456789ABCDEF"
unfoldable pub hex_digit : ℕ → ℕ
hex_digit n = if leb n 9 then b'0' + n else 55 + n

unfoldable pub must_encode : ℕ → Bool
must_encode c =
    c == b' '
    || c == b'#'
    || c == b'%'
    || c == b'?'
    || c == b'"'
    || c == b'&'
    || c == b'<'
    || leb c 0x1f
    || leb 0x7f c

-- what one round of the loop of `url_encode` appends
unfoldable pub encode_byte : ℕ → Bytes
encode_byte c =
    if must_encode c then b'%' ∷ hex_digit (c / 16) ∷ hex_digit (c % 16) ∷ [] else c ∷ []

unfoldable pub url_encode : Bytes → Bytes
unfolding encode_byte must_encode hex_digit
url_encode [] = []
url_encode (c ∷ s) = encode_byte c ++ url_encode s

-- what one round of the loop of `escape_html` appends
unfoldable pub escape_byte : ℕ → Bytes
escape_byte c =
    if c == b'<'
    then codes "&lt;"
    else if c == b'>'
    then codes "&gt;"
    else if c == b'&'
    then codes "&amp;"
    else c ∷ []

unfoldable pub escape_html : Bytes → Bytes
unfolding escape_byte
escape_html [] = []
escape_html (c ∷ s) = escape_byte c ++ escape_html s
