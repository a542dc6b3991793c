-- ===== src/Tests/Expand.antt =====
-- Macros with a client and a pattern's substrings.
use fuzz_httpd.Base.{ℕ, ◌≡◌, ◌+◌, refl, [], ◌∷◌, some, Bytes, codes, arith}
use fuzz_httpd.Tests.Fixtures.{session}
use fuzz_httpd.Expand.{expand_string, server_expand_http}
use fuzz_httpd.Expand.Fits.{Fits, server_expand_http-Fits}
use fuzz_httpd.Expand.Replaced.{Replaced, expand_string-Replaced, fitting}

abbrev digit : ℕ → Bytes
digit n = (b'0' + n) ∷ []

uri :
    server_expand_http digit session (codes "$REQUEST_SCHEME://x$REQUEST_URI") 100
    ≡ some (codes "http://x/a/../b%2520c?q=1")
unfolding server_expand_http
uri = refl

-- The first substring is a percent sign, which is encoded as %25; then %2 is replaced in it.
twice :
    server_expand_http digit
      (record session { clt_srv_match = codes "m" ∷ codes "%" ∷ codes "x" ∷ [] })
      (codes "%1-%2")
      100
    ≡ some (codes "x5-x")
unfolding server_expand_http
twice = refl

-- $HTTP_HOST that does not fit: the text is cut before it.
cut_host :
    server_expand_http digit
      (record session { http_host = some (codes "www.example.org") })
      (codes "//$HTTP_HOST/")
      15
    ≡ some (codes "//")
unfolding server_expand_http
cut_host = refl

expand_string-Replaced_example :
    (t : Bytes) × (Replaced (codes "$A") (codes "b") (codes "x$Ay$A") t
      × (expand_string (codes "x$Ay$A") 9 (codes "$A") (codes "b") ≡ fitting 9 t))
expand_string-Replaced_example =
    expand_string-Replaced 9 (codes "$A") (codes "b") (omega arith) (codes "x$Ay$A")

server_expand_http-Fits_example :
    Fits 100 (server_expand_http digit session (codes "$REQUEST_URI") 100)
server_expand_http-Fits_example = server_expand_http-Fits digit session (codes "$REQUEST_URI") 100
