-- ===== src/Tests/Response.antt =====
-- Requests, hosts and what answers them.
use fuzz_httpd.Base.{
  ◌≡◌, refl, true, [], ◌∷◌, none, some, Option, Bytes, codes, replicate, is_xdigit,
}
use fuzz_httpd.Host.{HostPort, server_http_parsehost}
use fuzz_httpd.Response.{Answer, aborts, serves, undefined, find_host, server_response}
use fuzz_httpd.Response.Guards.{Allowed, server_response-Allowed}
use fuzz_httpd.Response.Hosts.{IsBadRequest, no_path, server_response-Bad}
use fuzz_httpd.Server.{ServerConfig, Session}
use fuzz_httpd.Tests.Fixtures.{platform, server, session}
use fuzz_httpd.Url.{url_decode, hex_value}

abbrev array : Bytes
array = replicate 16 0

abbrev served_path : Answer → Option Bytes
served_path (serves c) = c.desc.http_path
served_path (aborts code msg c) = none
served_path undefined = none

served : served_path (server_response platform (server ∷ []) array session) ≡ some (codes "/b c")
unfolding server_response url_decode hex_value is_xdigit
served = refl

decoded : url_decode (codes "/a/../b%20c") ≡ some (codes "/a/../b c")
unfolding url_decode hex_value is_xdigit
decoded = refl

server_response-Allowed_example :
    Allowed platform session.desc.http_headers
      (server_response platform (server ∷ []) array session)
server_response-Allowed_example = server_response-Allowed platform (server ∷ []) array session refl

abbrev pathless : Session
pathless = record session { desc = record session.desc { http_path = none } }

server_response-Bad_example : IsBadRequest platform (server_response platform [] array pathless)
server_response-Bad_example = server_response-Bad platform [] array pathless (no_path refl)

abbrev pattern : ServerConfig
pattern = record server { name = codes "^a"; flag_server_match = true }

abbrev parsed : HostPort
parsed = record { host = codes "b"; portval = none }

parses : server_http_parsehost (codes "b") 32 ≡ some parsed
unfolding server_http_parsehost
parses = refl

no_server : find_host platform (server ∷ []) parsed ≡ none
unfolding find_host
no_server = refl
