-- ===== src/Tests/Url.antt =====
-- Runs of the escaping functions, and their theorems at concrete texts.
use fuzz_httpd.Base.{◌≡◌, refl, some, none, codes, arith, is_xdigit}
use fuzz_httpd.Url.{url_decode, url_encode, hex_value}
use fuzz_httpd.Url.Decode.{url_decode-url_encode}

decode_sample : url_decode (codes "/a%20b%2Fc") ≡ some (codes "/a b/c")
unfolding url_decode hex_value is_xdigit
decode_sample = refl

decode_bad : url_decode (codes "/a%2") ≡ none
unfolding url_decode hex_value is_xdigit
decode_bad = refl

encode_sample : url_encode (codes "a b%") ≡ codes "a%20b%25"
unfolding url_encode
encode_sample = refl

url_decode-url_encode_example : url_decode (url_encode (codes "a b/%?")) ≡ some (codes "a b/%?")
url_decode-url_encode_example = url_decode-url_encode (codes "a b/%?") (omega arith)
