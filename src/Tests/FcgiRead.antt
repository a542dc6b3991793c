-- ===== src/Tests/FcgiRead.antt =====
-- A FastCGI response in two pieces.
use fuzz_httpd.Base.{
  ℕ, ◌+◌, ◌≡◌, refl, false, true, [], ◌∷◌, ◌++◌, some, none, List, Option, Bytes, codes, arith,
}
use fuzz_httpd.Http.{HttpMethod}
use fuzz_httpd.RequestLine.{http_header}
use fuzz_httpd.Reply.{Config, ReplyState}
use fuzz_httpd.FcgiRead.{server_fcgi_read, FcgiReading, waits, aborted, fuel_gone}
use fuzz_httpd.FcgiHead.{evbuffer_getline, FcgiClient, read_header, fcgi_end_request, fcgi_stdout}
use fuzz_httpd.FcgiRead.Arrival.{and_then, server_fcgi_read-append}
use fuzz_httpd.FcgiRead.Loop.{Ends, server_fcgi_read-Ends}
use fuzz_httpd.FcgiRead.Records.{
  Message, between, handle_all, messages_text, server_fcgi_read-messages_text,
}

abbrev write : Bytes → Bytes → Option Bytes
write out b = some (out ++ b)

abbrev digit : ℕ → Bytes
digit n = (b'0' + n) ∷ []

abbrev conf : Config
conf = record {
  server_hsts = false;
  server_tls = false;
  hsts_max_age = 0;
  hsts_subdomains = false;
  hsts_preload = false;
}

abbrev reply : ReplyState
reply = record {
  http_version = codes "HTTP/1.1";
  http_rescode = [];
  http_resmesg = [];
  http_headers = [];
  resp_method = HttpMethod.get;
  clt_persist = true;
  clt_toread = http_header;
  clt_done = true;
  output = [];
}

abbrev client : FcgiClient
client = record {
  clt_fcgi = record {
    state = read_header;
    toread = 8;
    padding_len = 0;
    type = 0;
    chunked = true;
    end = 0;
    status = 200;
    headersdone = false;
    headerssent = false;
  };
  reply = reply;
  http_method = HttpMethod.get;
  clt_srvevb = [];
  clt_chunk = 0;
  errors = [];
  resets = 0;
}

-- a record of three bytes, cut in its header
abbrev first : Bytes
first = 1 ∷ fcgi_stdout ∷ 0 ∷ 1 ∷ []

abbrev second : Bytes
second = 0 ∷ 3 ∷ 0 ∷ 0 ∷ codes "A\r\n"

server_fcgi_read-append_example :
    server_fcgi_read write digit digit true conf (some (codes "now")) (first ++ second) client
    ≡ and_then
        (server_fcgi_read write digit digit true conf (some (codes "now")) first client)
        (server_fcgi_read write digit digit true conf (some (codes "now")) second)
server_fcgi_read-append_example =
    server_fcgi_read-append write digit digit true conf (some (codes "now")) first second client
      (omega arith)

server_fcgi_read-Ends_example :
    Ends
      (server_fcgi_read write digit digit true conf (some (codes "now")) (first ++ second) client)
server_fcgi_read-Ends_example =
    server_fcgi_read-Ends write digit digit true conf (some (codes "now")) (first ++ second) client
      (omega arith)

abbrev message : ℕ → Bytes → Message
message type content = record {
  version = 1;
  type = type;
  id = 1;
  content = content;
  padding = 0 ∷ 0 ∷ [];
  reserved = 0;
}

-- headers, content and the end
abbrev messages : List Message
messages =
    message fcgi_stdout (codes "A: b\r\n\r\n")
    ∷ message fcgi_stdout (codes "hello")
    ∷ message fcgi_end_request []
    ∷ []

server_fcgi_read-messages_text_example :
    server_fcgi_read write digit digit true conf
      (some (codes "now"))
      (messages_text messages)
      (between client)
    ≡ handle_all write digit digit true conf (some (codes "now")) messages (between client)
server_fcgi_read-messages_text_example =
    server_fcgi_read-messages_text write digit digit true conf (some (codes "now")) messages client
      ((omega arith, omega arith), ((omega arith, omega arith), ((omega arith, omega arith), tt)))

abbrev output_of : FcgiReading → Option Bytes
output_of (waits c) = some c.reply.output
output_of (aborted code) = none
output_of fuel_gone = none

-- a client that has its header already
abbrev streaming : FcgiClient
streaming = record client {
  clt_fcgi = record client.clt_fcgi { headersdone = true; headerssent = true };
}

chunks_text :
    output_of (
      server_fcgi_read write digit digit true conf none
        (messages_text (message fcgi_stdout (codes "hello") ∷ message fcgi_end_request [] ∷ []))
        streaming)
    ≡ some (codes "5\r\nhello\r\n0\r\n\r\n")
unfolding server_fcgi_read
chunks_text = refl

-- A line that is not complete in its record goes out before any header.
early_text :
    output_of (
      server_fcgi_read write digit digit true conf none
        (messages_text (message fcgi_stdout (codes "A: b") ∷ []))
        client)
    ≡ some (codes "4\r\nA: b\r\n")
unfolding server_fcgi_read
early_text = refl

append_lem : (a b : Bytes) → write a b ≡ some (a ++ b)
append_lem a b = refl

no_end_of_line : evbuffer_getline (codes "A: b") ≡ none
unfolding evbuffer_getline
no_end_of_line = refl
