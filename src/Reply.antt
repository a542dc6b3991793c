-- ===== src/Reply.antt =====
-- The head of a reply: `server_response_http`, `server_writeresponse_http`, `server_writeheader_http`
-- and `server_headers` of usr.sbin/httpd/server_http.c. `none` is -1; what was written by then is not
-- followed further. libevent's `bufferevent_write` and `printf` of a number are parameters, and so are
-- whether `server_log_http` succeeds and the dates of `server_http_time`. Allocation is assumed to
-- succeed.
pub mod Text
pub mod Head
use fuzz_httpd.Base.{
  ℕ, ◌≡◌, refl, Bool, true, false, ◌&&◌, ◌||◌, List, [], ◌∷◌, ◌++◌, Option, none, some, Bytes,
  codes, if◌then◌else◌, ◌==◌,
}
use fuzz_httpd.Http.{HttpMethod, server_httperror_byid}
use fuzz_httpd.Kv.{Child, Kv, Kvtree, KvRef, kv_add, kv_set}
use fuzz_httpd.RequestLine.{ClientToread, http_header, nothing}

-- `m` and then `k`, if `m` succeeded
abbrev pub then_do {ℓ κ} : {A : Type ℓ} {B : Type κ} → Option A → (A → Option B) → Option B
then_do none k = none
then_do (some a) k = k a

-- what of the configuration goes into a reply
pub record Config : Type 0 where
  pub server_hsts : Bool
  pub server_tls : Bool
  pub hsts_max_age : ℕ
  pub hsts_subdomains : Bool
  pub hsts_preload : Bool

-- `struct client` and its `clt_descresp`
pub record ReplyState : Type 0 where
  pub http_version : Bytes
  pub http_rescode : Bytes
  pub http_resmesg : Bytes
  pub http_headers : Kvtree
  pub resp_method : HttpMethod
  pub clt_persist : Bool
  pub clt_toread : ClientToread
  pub clt_done : Bool
  pub output : Bytes

-- The header lines of a tree: each node's key with its own value and with those of its children.
abbrev pub child_lines :
    Bytes → List Child → List (Bytes × Option Bytes) → List (Bytes × Option Bytes)
child_lines key [] rest = rest
child_lines key (c ∷ cs) rest = (key, c.child_value) ∷ child_lines key cs rest

unfoldable pub header_lines : Kvtree → List (Bytes × Option Bytes)
header_lines [] = []
header_lines (kv ∷ keys) =
    (kv.kv_key, kv.kv_value) ∷ child_lines kv.kv_key kv.kv_children (header_lines keys)

abbrev pub hsts_value : (ℕ → Bytes) → Config → Bytes
hsts_value number conf =
    codes "max-age="
    ++ (number conf.hsts_max_age
        ++ ((if conf.hsts_subdomains then codes "; includeSubDomains" else [])
            ++ (if conf.hsts_preload then codes "; preload" else [])))

-- `kv_add`, which succeeds
abbrev pub add : Bytes → Bytes → Kvtree → Kvtree
add key value keys = (kv_add keys (some key) (some value)).0

abbrev pub set_added : Kvtree × Option KvRef → Bytes → Kvtree
set_added (keys, none) value = keys
set_added (keys, some kv) value = kv_set keys kv value

-- `kv_add` with no value, and `kv_set`
abbrev pub add_set : Bytes → Bytes → Kvtree → Kvtree
add_set key value keys = set_added (kv_add keys (some key) none) value

abbrev pub add_connection : Bool → Kvtree → Kvtree
add_connection persist keys =
    add (codes "Connection") (if persist then codes "keep-alive" else codes "close") keys

abbrev pub add_hsts : (ℕ → Bytes) → Config → Kvtree → Kvtree
add_hsts number conf keys =
    if conf.server_hsts && conf.server_tls
    then add_set (codes "Strict-Transport-Security") (hsts_value number conf) keys
    else keys

-- `size >= 0` is `some`.
abbrev pub add_length : (ℕ → Bytes) → Option ℕ → Kvtree → Kvtree
add_length number none keys = keys
add_length number (some size) keys = add_set (codes "Content-Length") (number size) keys

abbrev pub is_head : HttpMethod → Bool
is_head HttpMethod.head = true
is_head _ = false

-- `size <= 0`
abbrev pub is_bodiless : Option ℕ → Bool
is_bodiless none = true
is_bodiless (some size) = size == 0

module _ (bufferevent_write : Bytes → Bytes → Option Bytes) where
  -- `server_bufferevent_print` of texts, one after another
  abbrev pub print_all : List Bytes → Bytes → Option Bytes
  print_all [] out = some out
  print_all (s ∷ texts) out = then_do (bufferevent_write out s) (print_all texts)

  unfoldable pub server_writeresponse_http : ReplyState → Bytes → Option Bytes
  server_writeresponse_http r out =
      print_all (r.http_version ∷ codes " " ∷ r.http_rescode ∷ codes " " ∷ r.http_resmesg ∷ []) out

  -- A header with no value has no end of line.
  unfoldable pub server_writeheader_http : Bytes × Option Bytes → Bytes → Option Bytes
  server_writeheader_http (key, none) out = print_all (key ∷ []) out
  server_writeheader_http (key, some value) out =
      print_all (key ∷ codes ": " ∷ value ∷ codes "\r\n" ∷ []) out

  -- With a callback for a header
  abbrev pub each_header :
      (Bytes × Option Bytes → Bytes → Option Bytes)
      → List (Bytes × Option Bytes)
      → Bytes
      → Option Bytes
  each_header hdr_cb [] out = some out
  each_header hdr_cb (h ∷ hs) out = then_do (hdr_cb h out) (each_header hdr_cb hs)

  unfoldable pub server_headers :
      (Bytes × Option Bytes → Bytes → Option Bytes) → Kvtree → Bytes → Option Bytes
  unfolding header_lines
  server_headers hdr_cb keys out = each_header hdr_cb (header_lines keys) out

  -- the completed header
  unfoldable pub write_head : ReplyState → Option Bytes
  unfolding server_writeresponse_http server_headers server_writeheader_http
  write_head r = then_do (server_writeresponse_http r r.output) λ out1.
      then_do (bufferevent_write out1 (codes "\r\n")) λ out2.
        then_do (server_headers server_writeheader_http r.http_headers out2)
          λ out3. bufferevent_write out3 (codes "\r\n")

  -- behind the completed header: whether a body follows
  abbrev pub end_head : Option ℕ → ReplyState → ReplyState × Bool
  end_head size r =
      if is_bodiless size || is_head r.resp_method
      then (
        record r {
          clt_toread = (if r.clt_persist then http_header else nothing);
          clt_done = false;
        },
        false,
      )
      else (r, true)

  module _ (number : ℕ → Bytes) (logged : Bool) (conf : Config) (now modified : Option Bytes) where
    -- The headers, in the order in which they are added
    abbrev pub all_headers : Bool → Bytes → Option ℕ → Bytes → Bytes → Kvtree → Kvtree
    all_headers persist media size mtime date keys = add (codes "Date") date (
        add_hsts number conf (
          add (codes "Last-Modified") mtime (
            add_length number size (
              add_set (codes "Content-Type") media
                (add_connection persist (add (codes "Server") (codes "OpenBSD httpd") keys))))))

    abbrev pub reply_state : ℕ → Bytes → Bytes → Option ℕ → Bytes → Bytes → ReplyState → ReplyState
    reply_state code error media size mtime date r = record r {
      http_rescode = number code;
      http_resmesg = error;
      http_headers = all_headers r.clt_persist media size mtime date r.http_headers;
    }

    -- `media` is "type/subtype", or `none` for NULL. The result is 1 if a body follows, else 0.
    unfoldable pub server_response_http :
        ℕ → Option Bytes → Option ℕ → ReplyState → Option (ReplyState × Bool)
    unfolding write_head
    server_response_http code media size r = then_do media λ m.
        then_do (server_httperror_byid code) λ error.
          if logged
          then (then_do modified λ mtime. then_do now λ date.
              let r' = reply_state code error m size mtime date r in
              then_do (write_head r') λ out. some (end_head size (record r' { output = out })))
          else none
