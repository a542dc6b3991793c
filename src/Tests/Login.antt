-- ===== src/Tests/Login.antt =====
-- A client that sends its name and password.
use fuzz_httpd.Base.{◌≡◌, ◌↔◌, refl, [], ◌∷◌, none, some, Option, Bytes, codes, str_eq, arith}
use fuzz_httpd.Kv.{Kvtree, Kv, case_compare, kv_find}
use fuzz_httpd.Login.{accepted, refused, read_lines, server_http_authenticate}
use fuzz_httpd.Login.Listed.{Listed, server_http_authenticate-Listed}
use fuzz_httpd.Login.Granted.{ValueListed, server_http_authenticate-ValueListed}

abbrev header : Kv
header = record {
  kv_key = codes "Authorization";
  kv_value = some (codes "Basic x");
  kv_children = [];
}

abbrev headers : Kvtree
headers = header ∷ []

abbrev decode : Bytes → Option Bytes
decode text = some (codes "me:pw")

abbrev file : Bytes
file = codes "you:a\nme:pw\n"

found : kv_find headers (codes "Authorization") ≡ some header
unfolding kv_find case_compare
found = refl

let_in : (server_http_authenticate decode str_eq (some file) headers none).ret ≡ accepted
unfolding server_http_authenticate kv_find case_compare
let_in = refl

kept_out :
    (server_http_authenticate decode str_eq (some (codes "me:p\n")) headers none).ret ≡ refused
unfolding server_http_authenticate kv_find case_compare
kept_out = refl

server_http_authenticate-Listed_example :
    ((server_http_authenticate decode str_eq (some file) headers none).ret ≡ accepted
      ↔ Listed str_eq (codes "me") (codes "pw") (read_lines file))
    × ((server_http_authenticate decode str_eq (some file) headers none).clt_remote_user
        ≡ some (codes "me"))
server_http_authenticate-Listed_example =
    server_http_authenticate-Listed decode str_eq (codes "me") (codes "pw") headers header
      (codes "x") (codes "me:pw") none found refl refl (omega arith) refl
      (omega arith, (omega arith, tt)) file

server_http_authenticate-ValueListed_example :
    (ba : Kv) × (value : Bytes) × ((kv_find headers (codes "Authorization") ≡ some ba)
      × ((ba.kv_value ≡ some value) × ValueListed decode str_eq (some file) value))
server_http_authenticate-ValueListed_example =
    server_http_authenticate-ValueListed decode str_eq (some file) headers none let_in
