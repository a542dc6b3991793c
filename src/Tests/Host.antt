-- ===== src/Tests/Host.antt =====
-- Host headers and their parts.
use fuzz_httpd.Base.{◌≡◌, refl, [], ◌∷◌, ◌++◌, some, none, codes, arith}
use fuzz_httpd.Host.{server_http_parsehost}
use fuzz_httpd.Host.Parts.{host_port, host_text, server_http_parsehost-host_text}

bad_port : server_http_parsehost (codes "a.org:x") 255 ≡ none
unfolding server_http_parsehost fuzz_httpd.Base.strtonum
bad_port = refl

server_http_parsehost-host_text_example :
    server_http_parsehost (host_text (codes "a.org") (some (codes "8080"))) 255
    ≡ host_port (codes "a.org") (some (codes "8080"))
server_http_parsehost-host_text_example =
    server_http_parsehost-host_text (codes "a.org") (some (codes "8080")) 255 (omega arith)
      (omega arith) (omega arith)
