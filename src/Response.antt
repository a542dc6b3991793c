-- ===== src/Response.antt =====
-- What answers a request: `server_response` and `server_http_host` of usr.sbin/httpd/server_http.c.
-- `fnmatch`, `b64_pton` and `crypt_checkpass` of the C library, `str_find` and `str_match` of
-- patterns.c, the decimal numbers of `printf` and the file system are parameters. Allocation is
-- assumed to succeed.
pub mod Guards
pub mod Hosts
use fuzz_httpd.Base.{
  ℕ, ◌+◌, ◌<◌, ◌%◌, ◌^◌, Bool, true, false, not, ◌&&◌, ◌||◌, List, [], ◌∷◌, ◌++◌, Option, none,
  some, Bytes, c_str, codes, cut, drop, leb, length, ltb, str_case_eq, str_eq, ◌==◌, if◌then◌else◌,
}
use fuzz_httpd.Expand.{server_expand_http}
use fuzz_httpd.Host.{HostPort, server_http_parsehost}
use fuzz_httpd.Kv.{Kv, kv_find}
use fuzz_httpd.Location.{Located, server_getlocation}
use fuzz_httpd.Login.{Authentication, Checked, accepted, refused, overrun, server_http_authenticate}
use fuzz_httpd.Path.{Canonical, canonical, canonicalize_path, null, out_of_fuel}
use fuzz_httpd.Reply.{then_do}
use fuzz_httpd.RequestLine.{ClientToread, left}
use fuzz_httpd.Server.{Address, Family, ServerConfig, Session, inet, inet6, other_family}
use fuzz_httpd.Url.{url_decode}

-- What `str_find` finds, or an error in the pattern.
pub data StrFound : Type 0 where
  str_found str_not_found str_error : StrFound

-- What the functions call outside these files, and HOST_NAME_MAX + 1. `behind` is the text behind the
-- NUL of a path.
pub record Platform : Type 0 where
  pub fnmatch : Bytes → Bytes → Bool
  pub str_find : Bytes → Bytes → StrFound
  pub str_match : Bytes → Bytes → Option (List Bytes)
  pub b64_pton : Bytes → Option Bytes
  pub crypt_checkpass : Bytes → Bytes → Bool
  pub number : ℕ → Bytes
  pub can_open : Bytes → Bool
  pub is_there : Bytes → Bytes → Bool
  pub read_file : Bytes → Option Bytes
  pub behind : Bytes
  pub hostname_size : ℕ

-- `server_abort_http` with a status and a message, or `server_file`. `undefined` is the read behind the
-- array of `server_http_authenticate`.
pub data Answer : Type 0 where
  aborts : ℕ → Option Bytes → Session → Answer
  serves : Session → Answer
  undefined : Answer

-- A step that goes on, or `goto fail`. The session of `fails` is that before the step.
pub data Stage : Type 0 where
  goes fails : Session → Stage

abbrev pub then_go : Stage → (Session → Answer) → Answer
then_go (goes c) next = next c
then_go (fails c) next = aborts 400 (some (codes "bad request")) c

abbrev pub or_fail : Session → Option Session → Stage
or_fail c none = fails c
or_fail c (some c') = goes c'

abbrev pub canonical_text : Canonical → Option Bytes
canonical_text (canonical path) = some path
canonical_text null = none
canonical_text Canonical.overrun = none
canonical_text out_of_fuel = none

abbrev pub set_path : Bytes → Bytes → Session → Session
set_path orig path c = record c {
  desc = record c.desc { http_path = some path };
  http_path_orig = some orig;
}

-- The path is decoded and brought into canonical form; `array` is what the local array `path` holds.
unfoldable pub find_path : Bytes → Session → Stage
unfolding url_decode canonicalize_path
find_path array c = or_fail c (
    then_do c.desc.http_path λ orig. then_do (url_decode orig) λ decoded.
      then_do (canonical_text (canonicalize_path (c_str decoded) array))
        λ path. some (set_path orig path c))

-- the value of a header that has one
abbrev pub header_value : Option Kv → Option Bytes
header_value none = none
header_value (some kv) = kv.kv_value

abbrev pub is_text : Bytes → Option Bytes → Bool
is_text text none = false
is_text text (some value) = str_case_eq text value

-- `strcmp(desc->http_version, "HTTP/1.1") == 0`
abbrev pub is_http11 : Option Bytes → Bool
is_http11 none = false
is_http11 (some version) = str_eq version (codes "HTTP/1.1")

abbrev pub is_none : Option Bytes → Bool
is_none none = true
is_none (some s) = false

-- `clt_persist++`
abbrev pub once_more : ℕ → ℕ
once_more n = (n + 1) % 2 ^ 32

-- Whether the connection is persistent.
unfoldable pub set_persist : Option Bytes → Session → Stage
unfolding kv_find str_case_eq
set_persist host c =
    let connection = header_value (kv_find c.desc.http_headers (codes "Connection")) in
    if is_http11 c.desc.http_version
    then if is_none host
      then fails c
      else goes (record c {
        clt_persist = (if is_text (codes "close") connection then 0 else once_more c.clt_persist);
      })
    else goes (record c {
      clt_persist =
          (if is_text (codes "keep-alive") connection then once_more c.clt_persist else 0);
    })

-- whether a request waits for a body
abbrev pub has_body : ClientToread → Bool
has_body (left n) = ltb 0 n
has_body _ = false

-- `clt_toread > 0 && (size_t)clt_toread > maxrequestbody`
abbrev pub is_too_large : ℕ → ClientToread → Bool
is_too_large limit (left n) = ltb 0 n && ltb limit n
is_too_large limit _ = false

abbrev pub is_port : Option ℕ → ℕ → Bool
is_port none port = true
is_port (some portval) port = portval == port

-- the numbers that stay within `maxrequests`, and what ends pipelining
abbrev pub limit_persist : Session → Session
limit_persist c =
    let n = if leb c.clt_srv_conf.maxrequests c.clt_persist then 0 else c.clt_persist in
    record c { clt_persist = (if c.clt_pipelining && has_body c.clt_toread then 0 else n) }

-- The array `path` once a text was written to it: the text, its NUL, and what stood behind.
abbrev pub written : Bytes → Bytes → Bytes
written text array = text ++ 0 ∷ drop (length text + 1) array

abbrev pub set_located : Located → Session → Session
set_located r c = record c { clt_srv_conf = r.clt_srv_conf; clt_srv_match = r.clt_srv_match }

-- `strchr(path, '?')`
abbrev pub split_query : Bytes → Option (Bytes × Bytes) → Bytes × Option Bytes
split_query path none = (path, none)
split_query path (some (before, query)) = (before, some query)

module _ (sys : Platform) where
  -- `errstr == NULL`
  abbrev pub no_error : StrFound → Bool
  no_error str_found = true
  no_error str_not_found = true
  no_error str_error = false

  abbrev pub matches_host : ServerConfig → Bytes → Bool
  matches_host srv_conf hostname =
      if srv_conf.flag_server_match
      then no_error (sys.str_find hostname srv_conf.name)
      else sys.fnmatch srv_conf.name hostname

  -- The loop over `srv_hosts`; `none` where it comes to the end.
  unfoldable pub find_host : List ServerConfig → HostPort → Option ServerConfig
  find_host [] h = none
  find_host (srv_conf ∷ hosts) h =
      if not srv_conf.flag_location
        && (matches_host srv_conf h.host && is_port h.portval srv_conf.port)
      then some srv_conf
      else find_host hosts h

  -- `strlcpy` to an array of `hostname_size` bytes
  abbrev pub strlcpy : Bytes → Option Bytes
  strlcpy text = if leb sys.hostname_size (length text) then none else some text

  abbrev pub with_socket_port : Family → ℕ → Bytes → Option Bytes
  with_socket_port inet port text = strlcpy (text ++ b':' ∷ sys.number port)
  with_socket_port inet6 port text = strlcpy (b'[' ∷ text ++ b']' ∷ b':' ∷ sys.number port)
  with_socket_port other_family port text = none

  -- Only the two families have a text.
  unfoldable pub server_http_host : Address → Option Bytes
  server_http_host ss = then_do ss.text (λ text.
      if ss.socket_port == 80 then some text else with_socket_port ss.family ss.socket_port text)

  abbrev pub replace_conf : Option ServerConfig → Session → Session
  replace_conf none c = c
  replace_conf (some srv_conf) c = record c { clt_srv_conf = srv_conf }

  abbrev pub set_host : Session → Bytes → Session
  set_host c hostname = record (limit_persist c) { http_host = some hostname; resp_is_set = true }

  -- The configuration of the host, and its name. When the loop comes to its end, `srv_conf` is NULL
  -- too, so the name is that of the header.
  unfoldable pub choose_host : List ServerConfig → Option Bytes → Session → Stage
  unfolding server_http_parsehost server_http_host find_host
  choose_host hosts none c =
      or_fail c (then_do (server_http_host c.clt_srv_ss) λ name. some (set_host c name))
  choose_host hosts (some host) c = or_fail c (
      then_do (server_http_parsehost host sys.hostname_size) λ h.
        let c' = replace_conf (find_host hosts h) c in
        then_do (strlcpy host) λ name. some (set_host c' name))

  -- `server_getlocation`, and the abort where it fails
  abbrev pub at_location : List ServerConfig → Bytes → (Session → Answer) → Session → Answer
  at_location hosts path next c =
      let r =
        server_getlocation sys.fnmatch sys.str_match sys.can_open sys.is_there sys.behind hosts
          c.clt_srv_conf path c.clt_srv_match in
      let c' = set_located r c in
      elim r.ret [ none ↦ aborts 500 (some path) c' | some srv_conf ↦ next c' ]

  -- `canonicalize_path` in one array, where each byte is read before it is written: the array holds
  -- the text that is read.
  abbrev pub rewrite : Bytes → Session → Stage
  rewrite array c = or_fail c (
      then_do (server_expand_http sys.number c c.clt_srv_conf.path (length array)) λ expanded.
        let (path, query) = split_query expanded (cut b'?' expanded) in
        then_do (canonical_text (canonicalize_path (c_str path) (written path array)))
          λ alias. some (record c { http_query_alias = query; http_path_alias = some alias }))

  abbrev pub path_of : Option Bytes → Bytes
  path_of none = []
  path_of (some path) = path

  -- the optional rewrite, and the search for the updated location
  abbrev pub rewritten : List ServerConfig → Bytes → (Session → Answer) → Session → Answer
  rewritten hosts array next c =
      if c.clt_srv_conf.flag_path_rewrite
      then then_go (rewrite array c) (λ c'. at_location hosts (path_of c'.http_path_alias) next c')
      else next c

  abbrev pub set_login : Authentication → Session → Session
  set_login a c = record c {
    clt_remote_user = a.clt_remote_user;
    desc = record c.desc { http_headers = a.http_headers };
  }

  abbrev pub on_login : Checked → Session → Answer
  on_login accepted c = serves c
  on_login refused c = aborts 401 (some c.clt_srv_conf.auth_realm) c
  on_login overrun c = undefined

  -- behind the choice of the location: the limits and what guards it
  unfoldable pub guarded : Session → Answer
  unfolding server_http_authenticate
  guarded c =
      let a =
        server_http_authenticate sys.b64_pton sys.crypt_checkpass
          (sys.read_file c.clt_srv_conf.auth_htpasswd) c.desc.http_headers c.clt_remote_user in
      if is_too_large c.clt_srv_conf.maxrequestbody c.clt_toread
      then aborts 413 (some (codes "request body too large")) c
      else if c.clt_srv_conf.flag_block
      then aborts c.clt_srv_conf.return_code c.clt_srv_conf.return_uri c
      else if c.clt_srv_conf.flag_auth
      then on_login a.ret (set_login a c)
      else serves c

  -- `clt_srv_conf` is the server's own configuration at the call, `array` what the local array `path`
  -- holds.
  unfoldable pub server_response : List ServerConfig → Bytes → Session → Answer
  unfolding find_path set_persist choose_host server_getlocation server_expand_http
      canonicalize_path guarded
  server_response hosts array c =
      let host = header_value (kv_find c.desc.http_headers (codes "Host")) in
      then_go (find_path array c) λ c1. then_go (set_persist host c1) λ c2.
        then_go (choose_host hosts host c2)
          λ c3. at_location hosts (path_of c3.desc.http_path) (rewritten hosts array guarded) c3
