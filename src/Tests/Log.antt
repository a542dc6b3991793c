-- ===== src/Tests/Log.antt =====
-- The access log.
use fuzz_httpd.Base.{
  ℕ, ◌+◌, ◌/◌, ◌%◌, ◌≡◌, refl, true, [], ◌∷◌, ◌++◌, none, some, Bytes, codes, arith, ◌==◌,
  if◌then◌else◌,
}
use fuzz_httpd.Log.{combined, common, server_log_http}
use fuzz_httpd.Log.Lines.{Logged, server_log_http-Logged}
use fuzz_httpd.Log.Texts.{count_lines}
use fuzz_httpd.Server.{Session}
use fuzz_httpd.Tests.Fixtures.{request, session}

abbrev three_digits : ℕ → Bytes
three_digits n = (b'0' + n / 100) ∷ (b'0' + n / 10 % 10) ∷ (b'0' + n % 10) ∷ []

three_digits-plain : (n : ℕ) → count_lines (three_digits n) ≡ 0
three_digits-plain n = ground arith

-- `\n` for the end of a line
abbrev shown : Bytes → Bytes
shown [] = []
shown (c ∷ s) = if c == 10 then codes "\\n" ++ shown s else c ∷ shown s

shown-plain : (s : Bytes) → count_lines (shown s) ≡ 0
shown-plain [] = refl
shown-plain (c ∷ s) = ground (arith, shown-plain s)

abbrev forged : Session
forged = record session {
  clt_remote_user = some (codes "a\nb");
  desc = record request { http_path = some (codes "/x\n") };
}

line :
    server_log_http shown three_digits none true common
      (some (codes "now"))
      forged
      200
      123
      (codes "old\n")
    ≡ some (codes "old\nwww 10.0.0.1 - a\\nb [now] \"GET /x%0A?q=1 HTTP/1.0\" 200 123\n")
unfolding server_log_http fuzz_httpd.Url.hex_digit fuzz_httpd.Http.find_id
line = refl

server_log_http-Logged_example : Logged true combined (codes "old\n") (
    server_log_http shown three_digits none true combined
      (some (codes "now"))
      forged
      200
      123
      (codes "old\n"))
server_log_http-Logged_example =
    server_log_http-Logged shown three_digits none shown-plain three_digits-plain true combined
      (some (codes "now")) forged 200 123 (codes "old\n") refl refl refl refl
