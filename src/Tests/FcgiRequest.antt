-- ===== src/Tests/FcgiRequest.antt =====
-- The start of a FastCGI request.
use fuzz_httpd.Base.{
  ℕ, ◌+◌, ◌≡◌, ◌≤◌, refl, Bool, true, false, ◌&&◌, &&-eq_true, List, [], ◌∷◌, ◌++◌, Option, none,
  some, Bytes, codes, arith, length, leb, leb→le,
}
use fuzz_httpd.Expand.{or_empty}
use fuzz_httpd.Fcgi.{fcgi_content_size, param_bytes}
use fuzz_httpd.FcgiRequest.{
  Pair, begin_request, find_script, header_name, server_fcgi, start_body, variables,
}
use fuzz_httpd.FcgiRequest.Names.{OfClient, header_name-OfClient}
use fuzz_httpd.FcgiRequest.Stream.{AllFit, ParamStream, given, pairs_bytes, server_fcgi-Stream}
use fuzz_httpd.Server.{ServerConfig, Session}
use fuzz_httpd.Tests.Fixtures.{platform, request, server, session}

abbrev write : Bytes → Bytes → Option Bytes
write out b = some (out ++ b)

proxy : header_name (codes "x-Forwarded:for") ≡ codes "HTTP_X_FORWARDED_FOR"
unfolding header_name
proxy = refl

content_type : header_name (codes "content-TYPE") ≡ codes "CONTENT_TYPE"
unfolding header_name
content_type = refl

header_name-OfClient_example : OfClient (header_name (codes "Remote-User"))
header_name-OfClient_example = header_name-OfClient (codes "Remote-User")

-- A script that exists as a file, and more behind it.
abbrev scripts : ServerConfig
scripts = record server { root = codes "/htdocs" }

abbrev is_script : Bytes → Bool
is_script path = fuzz_httpd.Base.str_eq path (codes "/htdocs/a.cgi")

split_path :
    find_script is_script scripts (codes "/a.cgi/more")
    ≡ record { info = codes "/more"; script = codes "/htdocs/a.cgi"; script_name = codes "/a.cgi" }
unfolding find_script
split_path = refl

abbrev asked : Session
asked = record session {
  desc = record request { http_path = some (codes "/a.cgi/more") };
  http_path_orig = some (codes "/a.cgi/more");
  clt_srv_conf = scripts;
}

abbrev pairs_of : List Pair → List (Bytes × Bytes)
pairs_of [] = []
pairs_of ((name, value) ∷ pairs) = (name, or_empty value) ∷ pairs_of pairs

abbrev sent_pairs : List (Bytes × Bytes)
sent_pairs = pairs_of (variables write platform.number is_script asked (codes "/a.cgi/more"))

abbrev all_fit : List (Bytes × Bytes) → Bool
all_fit [] = true
all_fit ((name, value) ∷ pairs) =
    leb (length (param_bytes name value)) fcgi_content_size && all_fit pairs

all_fit-AllFit : (pairs : List (Bytes × Bytes)) → all_fit pairs ≡ true → AllFit pairs
all_fit-AllFit [] h = tt
all_fit-AllFit ((name, value) ∷ pairs) h =
    let (fit, more) =
      &&-eq_true (leb (length (param_bytes name value)) fcgi_content_size) (all_fit pairs) h in
    (leb→le (length (param_bytes name value)) fcgi_content_size fit, all_fit-AllFit pairs more)

has_values :
    variables write platform.number is_script asked (codes "/a.cgi/more") ≡ given sent_pairs
unfolding variables
has_values = refl

fits : all_fit sent_pairs ≡ true
unfolding variables param_bytes fuzz_httpd.Fcgi.param_length
fits = refl

server_fcgi-Stream_example :
    (wire : Bytes) × (ParamStream (pairs_bytes sent_pairs) wire
      × (server_fcgi write platform.number is_script true asked
          ≡ start_body write platform.number is_script asked (begin_request ++ wire)))
server_fcgi-Stream_example =
    server_fcgi-Stream write (λ a b. refl) platform.number is_script asked (codes "/a.cgi/more")
      sent_pairs refl has_values (all_fit-AllFit sent_pairs fits)
