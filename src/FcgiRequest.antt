-- ===== src/FcgiRequest.antt =====
-- The start of a FastCGI request: `server_fcgi` and `server_fcgi_writeheader` of
-- usr.sbin/httpd/server_fcgi.c, up to the call that passes the body on. libevent's `bufferevent_write`, the
-- decimal numbers of `printf`, and what `stat` finds are parameters, and so is whether the connection
-- is made. Allocation is assumed to succeed.
pub mod Names
pub mod Buffer
pub mod Stream
use fuzz_httpd.Base.{
  ℕ, ◌+◌, ◌-◌, Bool, true, false, not, ◌||◌, List, [], ◌∷◌, ◌++◌, Option, none, some, Bytes, codes,
  drop, is_alpha, is_digit, is_empty, length, ltb, str_case_eq, str_eq, take, to_upper, ◌==◌,
  if◌then◌else◌,
}
use fuzz_httpd.Abort.{httpd_servername}
use fuzz_httpd.Expand.{or_empty, with_query}
use fuzz_httpd.Fcgi.{
  Added, RecordHeader, ServerFcgiParam, fcgi_add_param, fcgi_add_stdin, header_bytes,
}
use fuzz_httpd.Http.{method_id, server_httpmethod_byid}
use fuzz_httpd.Path.Strip.{path_info, server_root_strip}
use fuzz_httpd.Reply.{header_lines}
use fuzz_httpd.RequestLine.{ClientToread, left}
use fuzz_httpd.Response.{is_http11}
use fuzz_httpd.Server.{ServerConfig, Session}

-- a variable with its value; `none` is NULL
abbrev pub Pair : Type 0
Pair = Bytes × Option Bytes

-- the bytes of a name that stay as they are, next to letters and digits
abbrev pub token_marks : Bytes
token_marks = codes "!#$%&'*+.^_`|~"

abbrev pub is_in : ℕ → Bytes → Bool
is_in c [] = false
is_in c (d ∷ s) = c == d || is_in c s

-- a round of the loop over the name
unfoldable pub env_byte : ℕ → ℕ
unfolding is_alpha is_digit to_upper
env_byte c =
    if is_alpha c then to_upper c else if is_in c token_marks || is_digit c then c else b'_'

unfoldable pub env_bytes : Bytes → Bytes
unfolding env_byte
env_bytes [] = []
env_bytes (c ∷ s) = env_byte c ∷ env_bytes s

-- the name of the variable for a header
unfoldable pub header_name : Bytes → Bytes
unfolding env_bytes str_case_eq
header_name key =
    if str_case_eq key (codes "Content-Length") || str_case_eq key (codes "Content-Type")
    then env_bytes key
    else env_bytes (codes "HTTP_" ++ key)

-- The variables for the headers, in the order of `server_headers`.
abbrev pub header_pairs : List Pair → List Pair
header_pairs [] = []
header_pairs ((key, value) ∷ headers) = (header_name key, value) ∷ header_pairs headers

abbrev pub config_pairs : List (Bytes × Bytes) → List Pair
config_pairs [] = []
config_pairs ((name, value) ∷ params) = (name, some value) ∷ config_pairs params

abbrev pub pair_if : Bool → Bytes → Option Bytes → List Pair
pair_if true name value = (name, value) ∷ []
pair_if false name value = []

abbrev pub pair_of : Bytes → Option Bytes → List Pair
pair_of name none = []
pair_of name (some value) = (name, some value) ∷ []

-- the first, or else the second
abbrev pub alias_of : Option Bytes → Option Bytes → Option Bytes
alias_of none other = other
alias_of (some alias) other = some alias

-- REQUEST_URI; `none` is NULL, which goes to `strlen` or to `printf`.
abbrev pub uri_of : Option Bytes → Option Bytes → Option Bytes
uri_of none query = none
uri_of (some path) query = some (with_query path query)

-- What the path says: the value of PATH_INFO, the script and the value of SCRIPT_NAME.
pub record Script : Type 0 where
  pub info : Bytes
  pub script : Bytes
  pub script_name : Bytes

unfoldable pub find_script : (Bytes → Bool) → ServerConfig → Bytes → Script
unfolding path_info server_root_strip
find_script exists srv_conf alias =
    let stripped = server_root_strip alias srv_conf.strip in
    let script = srv_conf.root ++ stripped in
    let found = path_info exists script in
    let scriptlen = (if ltb found (length srv_conf.root) then length srv_conf.root else found) in
    record {
      info = (if ltb scriptlen (length script) then drop scriptlen script else []);
      script = (if ltb scriptlen (length script) then take scriptlen script else script);
      script_name =
          take (scriptlen + (length alias - length stripped) - length srv_conf.root) alias;
    }

-- BEGIN_REQUEST for a responder
abbrev pub begin_request : Bytes
begin_request =
    header_bytes
      (record { version = 1; type = 1; id = 1; content_len = 8; padding_len = 0; reserved = 0 })
    ++ 0 ∷ 1 ∷ 0 ∷ 0 ∷ 0 ∷ 0 ∷ 0 ∷ 0 ∷ []

-- the header of the PARAMS records
abbrev pub params_header : ℕ → RecordHeader
params_header len = record {
  version = 1;
  type = 4;
  id = 1;
  content_len = len;
  padding_len = 0;
  reserved = 0;
}

abbrev pub no_param : ServerFcgiParam
no_param = record { total_len = 0; header = params_header 0; content = [] }

-- How the calls of `fcgi_add_param` end. `null_read` is `strlen` of NULL.
pub data Params : Type 0 where
  added : ServerFcgiParam → Bytes → Params
  add_fails : Params
  null_read : Params

-- What the request has started: what was written, whether the body is passed on
-- (`server_read_httpcontent`), and what is set for the reply.
pub record Started : Type 0 where
  pub sent : Bytes
  pub passes_body : Bool
  pub chunked : Bool
  pub clt_persist : ℕ

-- The abort is that with 500; a message is none where it is that of `errno`.
pub data FcgiStart : Type 0 where
  starts : Started → FcgiStart
  fcgi_aborts : Option Bytes → FcgiStart
  undefined : FcgiStart

-- `clt_toread != 0`
abbrev pub has_more : ClientToread → Bool
has_more (left n) = not (n == 0)
has_more _ = true

-- a write whose result is not tested
abbrev pub or_same : Bytes → Option Bytes → Bytes
or_same out none = out
or_same out (some out') = out'

module _ (bufferevent_write : Bytes → Bytes → Option Bytes) where
  abbrev pub on_added : (ServerFcgiParam → Bytes → Params) → Added → Params
  on_added next a = if a.succeeded then next a.param a.sent else add_fails

  -- `fcgi_add_param` for one variable after another
  unfoldable pub add_params : List Pair → ServerFcgiParam → Bytes → Params
  unfolding fcgi_add_param
  add_params [] p out = added p out
  add_params ((name, none) ∷ pairs) p out = null_read
  add_params ((name, some value) ∷ pairs) p out =
      on_added (add_params pairs) (fcgi_add_param bufferevent_write p name value out)

  abbrev pub with_end : ServerFcgiParam → Option Bytes → Option Bytes
  with_end p none = none
  with_end p (some out) = bufferevent_write out (header_bytes (record p.header { content_len = 0 }))

  -- the last record, and the empty one
  unfoldable pub end_params : ServerFcgiParam → Bytes → Option Bytes
  end_params p out = with_end p (
      if p.total_len == 0
      then some out
      else bufferevent_write out (header_bytes p.header ++ take p.header.content_len p.content))

module _ (bufferevent_write : Bytes → Bytes → Option Bytes) (number : ℕ → Bytes)
    (exists : Bytes → Bool) where
  -- The variables, in the order of the calls.
  unfoldable pub variables : Session → Bytes → List Pair
  unfolding find_script header_name server_root_strip server_httpmethod_byid header_lines
  variables c alias =
      let srv_conf = c.clt_srv_conf in
      let s = find_script exists srv_conf alias in
      (codes "PATH_INFO", some s.info)
        ∷ (codes "SCRIPT_NAME", some s.script_name)
        ∷ (codes "SCRIPT_FILENAME", some (server_root_strip s.script srv_conf.fcgistrip))
        ∷ (codes "QUERY_STRING", some (or_empty (alias_of c.http_query_alias c.desc.http_query)))
        ∷ (codes "DOCUMENT_ROOT", some (server_root_strip srv_conf.root srv_conf.fcgistrip))
        ∷ (codes "DOCUMENT_URI", some alias)
        ∷ (codes "GATEWAY_INTERFACE", some (codes "CGI/1.1"))
        ∷ pair_if srv_conf.flag_auth (codes "REMOTE_USER") c.clt_remote_user
      ++ (header_pairs (header_lines c.desc.http_headers)
          ++ (pair_if srv_conf.flag_tls (codes "HTTPS") (some (codes "on"))
              ++ ((if srv_conf.flag_tls
                    then pair_of (codes "TLS_PEER_VERIFY") srv_conf.tls_verify
                    else [])
                  ++ (config_pairs srv_conf.fcgiparams
                      ++ (codes "REMOTE_ADDR", some (or_empty c.clt_ss.text))
                        ∷ (codes "REMOTE_PORT", some (number c.clt_port))
                        ∷ (
                          codes "REQUEST_METHOD",
                          some (server_httpmethod_byid (method_id c.desc.http_method)),
                        )
                        ∷ (codes "REQUEST_URI", uri_of c.http_path_orig c.desc.http_query)
                        ∷ (codes "SERVER_ADDR", some (or_empty c.clt_srv_ss.text))
                        ∷ (codes "SERVER_PORT", some (number c.clt_srv_ss.socket_port))
                        ∷ (codes "SERVER_NAME", some srv_conf.name)
                        ∷ (codes "SERVER_PROTOCOL", c.desc.http_version)
                        ∷ (codes "SERVER_SOFTWARE", some httpd_servername)
                        ∷ []))))

  abbrev pub start_body : Session → Bytes → FcgiStart
  start_body c out = starts (record {
    sent =
        (if has_more c.clt_toread
          then out
          else or_same out (fcgi_add_stdin bufferevent_write none out));
    passes_body = has_more c.clt_toread;
    chunked = is_http11 c.desc.http_version;
    clt_persist = (if is_http11 c.desc.http_version then c.clt_persist else 0);
  })

  abbrev pub with_sent : Session → Option Bytes → FcgiStart
  with_sent c none = fcgi_aborts (some (codes "failed to write to client evbuffer"))
  with_sent c (some out) = start_body c out

  abbrev pub with_params : Session → Params → FcgiStart
  with_params c (added p out) = with_sent c (end_params bufferevent_write p out)
  with_params c add_fails = fcgi_aborts (some (codes "failed to encode param"))
  with_params c null_read = undefined

  abbrev pub with_begin : Session → Bytes → Option Bytes → FcgiStart
  with_begin c alias none = fcgi_aborts (some (codes "failed to write to evbuffer"))
  with_begin c alias (some out) =
      with_params c (add_params bufferevent_write (variables c alias) no_param out)

  abbrev pub with_alias : Session → Option Bytes → FcgiStart
  with_alias c none = undefined
  with_alias c (some alias) = with_begin c alias (bufferevent_write [] begin_request)

  -- The connection to the server is new, so nothing was written to it.
  unfoldable pub server_fcgi : Bool → Session → FcgiStart
  unfolding add_params end_params variables fcgi_add_stdin
  server_fcgi connected c =
      if connected
      then with_alias c (alias_of c.http_path_alias c.desc.http_path)
      else fcgi_aborts none
