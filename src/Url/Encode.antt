-- ===== src/Url/Encode.antt =====
-- What `url_encode` of httpd.c may write, and the room that it needs.
use fuzz_httpd.Base.{
  ℕ, ◌+◌, ◌*◌, ◌/◌, ◌%◌, ◌≤◌, ◌<◌, ◌≢◌, false, [], ◌∷◌, ◌≡◌, arith, Bytes, All, All-append, IsByte,
  length, length-append,
}
use fuzz_httpd.Url.{hex_digit, must_encode, encode_byte, url_encode}

-- A byte that may stand in a request line, in a header and between the quotes of the log as it is:
-- printable, and no space, quote, `#`, `?`, `&` or `<`.
pub record IsUrlSafe (c : ℕ) : Type 0 where
  above_space : 0x20 < c
  below_del : c < 0x7f
  no_quote : c ≢ b'"'
  no_hash : c ≢ b'#'
  no_question : c ≢ b'?'
  no_amp : c ≢ b'&'
  no_less : c ≢ b'<'

hex_digit-IsUrlSafe : (n : ℕ) → n < 16 → IsUrlSafe (hex_digit n)
unfolding hex_digit
hex_digit-IsUrlSafe n h = ground arith

plain-IsUrlSafe : (c : ℕ) → must_encode c ≡ false → IsUrlSafe c
unfolding must_encode
plain-IsUrlSafe c h = ground arith

encode_byte-IsUrlSafe : (c : ℕ) → IsByte c → All IsUrlSafe (encode_byte c)
unfolding encode_byte
encode_byte-IsUrlSafe c h =
    ground (arith, plain-IsUrlSafe c, hex_digit-IsUrlSafe (c / 16), hex_digit-IsUrlSafe (c % 16))

-- Whatever bytes are encoded, the result holds printable bytes only, and no space, quote, `#`, `?`,
-- `&` or `<`: it cannot end a line or a quoted part.
pub url_encode-IsUrlSafe : (s : Bytes) → All IsByte s → All IsUrlSafe (url_encode s)
unfolding url_encode
url_encode-IsUrlSafe [] h = tt
url_encode-IsUrlSafe (c ∷ s) (hc, hs) =
    All-append IsUrlSafe (encode_byte c) (url_encode s) (encode_byte-IsUrlSafe c hc)
      (url_encode-IsUrlSafe s hs)

length-encode_byte : (c : ℕ) → length (encode_byte c) ≤ 3
unfolding encode_byte
length-encode_byte c = ground arith

-- The text and its NUL fit into the `3 * (strlen(src) + 1)` bytes that `url_encode` allocates.
pub length-url_encode : (s : Bytes) → length (url_encode s) < 3 * (length s + 1)
unfolding url_encode
length-url_encode [] = omega arith
length-url_encode (c ∷ s) =
    omega (
      arith,
      length-append (encode_byte c) (url_encode s),
      length-encode_byte c,
      length-url_encode s,
    )
