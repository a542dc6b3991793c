-- ===== src/Tests/Abort.antt =====
-- Pages for errors.
use fuzz_httpd.Base.{
  ℕ, ◌+◌, ◌/◌, ◌%◌, ◌≡◌, refl, true, false, [], ◌∷◌, Option, none, some, Bytes, codes, arith,
  str_eq, if◌then◌else◌,
}
use fuzz_httpd.Abort.{replace_var, error_body, find_errdoc, server_abort_http}
use fuzz_httpd.Abort.Pages.{Closes, count_dollar, server_abort_http-Closes}
use fuzz_httpd.Abort.Silent.{reply_of, server_abort_http-silent}
use fuzz_httpd.Reply.{Config}
use fuzz_httpd.Tests.Fixtures.{server, session}

abbrev three_digits : ℕ → Bytes
three_digits n = (b'0' + n / 100) ∷ (b'0' + n / 10 % 10) ∷ (b'0' + n % 10) ∷ []

three_digits-plain : (n : ℕ) → count_dollar (three_digits n) ≡ 0
three_digits-plain n = ground arith

abbrev errdoc : Bytes → Option Bytes
errdoc path =
    if str_eq path (codes "/errdocs/err.html")
    then some (codes "<p>$RESPONSE_CODE $HTTP_ERROR $RESPONSE_CODE")
    else none

abbrev as_is : Bytes → Bytes
as_is text = text

abbrev config : Config
config = record {
  server_hsts = false;
  server_tls = false;
  hsts_max_age = 0;
  hsts_subdomains = false;
  hsts_preload = false;
}

template :
    error_body three_digits errdoc as_is 100 404
      (codes "Not Found")
      (find_errdoc three_digits errdoc as_is 100 server 404)
    ≡ some (codes "<p>404 Not Found 404")
unfolding error_body fuzz_httpd.Abort.read_errdoc
template = refl

server_abort_http-Closes_example : Closes (
    server_abort_http three_digits errdoc as_is 100 true
      (some (codes "now"))
      config
      404
      none
      session)
server_abort_http-Closes_example =
    server_abort_http-Closes three_digits errdoc as_is 100 three_digits-plain true
      (some (codes "now")) config 404 none session

server_abort_http-silent_example :
    reply_of (
      server_abort_http three_digits errdoc as_is 100 true
        (some (codes "now"))
        config
        404
        (some (codes "/secret"))
        session)
    ≡ reply_of (
        server_abort_http three_digits errdoc as_is 100 true
          (some (codes "now"))
          config
          404
          none
          session)
server_abort_http-silent_example =
    server_abort_http-silent three_digits errdoc as_is 100 true (some (codes "now")) config 404
      (some (codes "/secret")) none session refl
