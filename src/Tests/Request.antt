-- ===== src/Tests/Request.antt =====
-- Requests that are read line by line, and the theorems on them, with a line splitter in the place of
-- `evbuffer_readln`.
use fuzz_httpd.Base.{
  ℕ, suc, ◌+◌, ◌<◌, Bool, true, false, ◌&&◌, List, [], ◌∷◌, ◌++◌, ◌≡◌, ◌≢◌, refl, Option, none,
  some, Bytes, codes, cut_later, char_at, drop, length, Lacks, All, ◌==◌, if◌then◌else◌, Bool-cases,
  inl, inr, arith, length-drop,
}
use fuzz_httpd.Http.{HttpMethod}
use fuzz_httpd.Request.{headers_read, server_read_http, abort_http}
use fuzz_httpd.RequestLine.{Client, http_version_num}
use fuzz_httpd.Request.Print.{IsHeader}
use fuzz_httpd.Request.RoundTrip.{whole_text, Parsed, server_read_http-whole_text}
use fuzz_httpd.Request.FirstLine.{first_state}

unfoldable pub crlf_line : Bytes → Option (Bytes × Bytes)
crlf_line [] = none
crlf_line (c ∷ s) =
    if c == 13 && char_at s 0 == 10 then some ([], drop 1 s) else cut_later c (crlf_line s)

later_shorter :
    (c : ℕ) (o : Option (Bytes × Bytes)) (n : ℕ)
    → ((l r : Bytes) → o ≡ some (l, r) → length r < n)
    → (l r : Bytes) → cut_later c o ≡ some (l, r)
    → length r < suc n
later_shorter c none n h l r e = cc
later_shorter c (some (a, b)) n h l r e = ground (arith, h a b refl)

pub crlf_line-shorter : (s l r : Bytes) → crlf_line s ≡ some (l, r) → length r < length s
unfolding crlf_line
crlf_line-shorter [] l r e = cc
crlf_line-shorter (c ∷ s) l r e = elim (Bool-cases (c == 13 && char_at s 0 == 10)) [
  | inl here ↦ ground (arith, rw here at e, length-drop 1 s)
  | inr later ↦ later_shorter c (crlf_line s) (length s) (crlf_line-shorter s) l r (rw later at e)
]

pub crlf_line-finds : (l r : Bytes) → Lacks 13 l → crlf_line (l ++ 13 ∷ 10 ∷ r) ≡ some (l, r)
unfolding crlf_line
crlf_line-finds [] r h = refl
crlf_line-finds (c ∷ l) r (hc, h) = ground (arith, crlf_line-finds l r h)

versions :
    (http_version_num (codes "HTTP/1.7") ≡ some 11) × (http_version_num (codes "HTTP/2.0") ≡ some 0)
unfolding http_version_num
versions = (refl, refl)

-- A request without a method that the server knows is refused.
unknown_method :
    server_read_http crlf_line (first_state (codes "FETCH / HTTP/1.1\r\n\r\n")) ≡ abort_http 400
unfolding server_read_http crlf_line fuzz_httpd.Http.server_httpmethod_byname fuzz_httpd.Base.cut
unknown_method = refl

abbrev upload : Bytes
upload = codes "POST /a HTTP/1.1\r\nContent-Length: 5\r\n\r\nhello"

abbrev host_only : List (Bytes × Bytes)
host_only = (codes "Host", codes "a.org") ∷ []

host_only-IsHeader : All IsHeader host_only
unfolding fuzz_httpd.Base.str_case_eq
host_only-IsHeader = (
  ((omega arith, omega arith), (omega arith, omega arith), omega arith, refl, refl, refl, refl),
  tt,
)

server_read_http-whole_text_example :
    (c : Client) × (server_read_http crlf_line (
        first_state
          (whole_text HttpMethod.get (codes "/x") (some (codes "q=1")) host_only (codes "more")))
      ≡ headers_read c)
    × Parsed HttpMethod.get (codes "/x") (some (codes "q=1")) host_only (codes "more") c
unfolding fuzz_httpd.Http.server_httpmethod_byid
server_read_http-whole_text_example =
    server_read_http-whole_text crlf_line crlf_line-finds HttpMethod.get (codes "/x")
      (some (codes "q=1")) host_only (codes "more") (cc) (cc) (omega arith) (omega arith)
      host_only-IsHeader (omega arith)
