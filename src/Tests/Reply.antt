-- ===== src/Tests/Reply.antt =====
-- Replies with a few headers.
use fuzz_httpd.Base.{
  ℕ, ◌+◌, ◌≡◌, refl, false, true, [], ◌∷◌, ◌++◌, some, none, Option, Bytes, codes,
}
use fuzz_httpd.Http.{HttpMethod, server_httperror_byid}
use fuzz_httpd.RequestLine.{http_header}
use fuzz_httpd.Reply.{Config, ReplyState, write_head, server_response_http}
use fuzz_httpd.Reply.Text.{head_text, write_head-head_text}
use fuzz_httpd.Reply.Head.{sends_body, server_response_http-reply_text}

abbrev write : Bytes → Bytes → Option Bytes
write out b = some (out ++ b)

abbrev append_lem : (a b : Bytes) → write a b ≡ some (a ++ b)
append_lem a b = refl

abbrev conf : Config
conf = record {
  server_hsts = false;
  server_tls = false;
  hsts_max_age = 0;
  hsts_subdomains = false;
  hsts_preload = false;
}

abbrev state : ReplyState
state = record {
  http_version = codes "HTTP/1.1";
  http_rescode = [];
  http_resmesg = [];
  http_headers = [];
  resp_method = HttpMethod.get;
  clt_persist = true;
  clt_toread = http_header;
  clt_done = true;
  output = [];
}

abbrev digit : ℕ → Bytes
digit n = (b'0' + n) ∷ []

found : server_httperror_byid 200 ≡ some (codes "OK")
unfolding server_httperror_byid
found = refl

written_head : write_head write state ≡ some ([] ++ head_text state)
written_head = write_head-head_text write append_lem state

server_response_http-reply_text_example :
    (r' : ReplyState) × (server_response_http write digit true conf
        (some (codes "now"))
        (some (codes "then"))
        200
        (some (codes "text/plain"))
        (some 5)
        state
      ≡ some (r', sends_body (some 5) HttpMethod.get))
    × (r'.output
        ≡ codes "HTTP/1.1 "
          ++ (digit 200
              ++ codes
                  " OK\r\nConnection: keep-alive\r\nContent-Length: 5\r\nContent-Type: text/plain\r\nDate: now\r\nLast-Modified: then\r\nServer: OpenBSD httpd\r\n\r\n"))
server_response_http-reply_text_example =
    server_response_http-reply_text write append_lem digit conf (codes "now") (codes "then")
      (codes "text/plain") 200 (some 5) (codes "OK") none none state found refl
