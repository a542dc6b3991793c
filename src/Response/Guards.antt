-- ===== src/Response/Guards.antt =====
-- What `server_response` of server_http.c lets through to `server_file`.
use fuzz_httpd.Base.{
  ◌≡◌, ◌⊎◌, inl, inr, refl, subst, ap, true, false, List, [], ◌∷◌, Option, none, some, Bytes,
  if-intro, Lacks, c_str, codes, cut, length, ◌==◌, arith,
}
use fuzz_httpd.Kv.{Kvtree, kv_find}
use fuzz_httpd.Location.{server_getlocation}
use fuzz_httpd.Login.{Checked, accepted, refused, overrun, server_http_authenticate}
use fuzz_httpd.Path.{Canonical, canonical, null, out_of_fuel, canonicalize_path}
use fuzz_httpd.Path.Always.{Named, canonicalize_path-Named}
use fuzz_httpd.Path.Safe.{AreNames}
use fuzz_httpd.Path.Spec.{render}
use fuzz_httpd.Reply.{then_do}
use fuzz_httpd.Response.{
  Answer, aborts, serves, undefined, Stage, goes, fails, Platform, then_go, or_fail, at_location,
  choose_host, find_path, guarded, header_value, is_http11, is_none, is_too_large, on_login,
  path_of, replace_conf, find_host, rewrite, rewritten, server_response, set_persist, split_query,
  written, canonical_text, set_located, server_http_host, strlcpy, set_login, set_path,
}
use fuzz_httpd.Host.{server_http_parsehost}
use fuzz_httpd.Expand.{server_expand_http}
use fuzz_httpd.Server.{Session, ServerConfig}
use fuzz_httpd.Url.{url_decode}

Lacks-c_str : (s : Bytes) → Lacks 0 (c_str s)
Lacks-c_str [] = tt
Lacks-c_str (c ∷ s) =
    if-intro (Lacks 0) (c == 0) [] (c ∷ c_str s) (λ _. tt) (λ e. (ground (arith, e), Lacks-c_str s))

-- A path of names from the root.
abbrev pub IsNamed : Option Bytes → Type 0
IsNamed path = (st : List Bytes) × (path ≡ some (render st)) × AreNames st

-- The request path is one, so is the path it was rewritten to, if it was; the headers are `keys`.
abbrev pub Ready : Kvtree → Session → Type 0
Ready keys c =
    IsNamed c.desc.http_path
    × ((c.http_path_alias ≡ none) ⊎ IsNamed c.http_path_alias)
    × (c.desc.http_headers ≡ keys)

pub data StageReady (keys : Kvtree) : Stage → Type 0 where
  ready : (c : Session) → Ready keys c → StageReady keys (goes c)
  off : (c : Session) → StageReady keys (fails c)

or_fail-StageReady :
    {A : Type 0} (keys : Kvtree) (c : Session) (o : Option A) (k : A → Option Session)
    → ((a : A) → o ≡ some a → StageReady keys (or_fail c (k a)))
    → StageReady keys (or_fail c (then_do o k))
or_fail-StageReady keys c none k h = off c
or_fail-StageReady keys c (some a) k h = h a refl

-- a step behind `canonicalize_path`
canonical-StageReady :
    (keys : Kvtree) (c : Session) (r : Canonical) (k : Bytes → Option Session)
    → Named r
    → ((path : Bytes) → IsNamed (some path) → StageReady keys (or_fail c (k path)))
    → StageReady keys (or_fail c (then_do (canonical_text r) k))
canonical-StageReady keys c (canonical path) k (st, e, names) h = h path (st, ap some e, names)
canonical-StageReady keys c null k n h = off c
canonical-StageReady keys c Canonical.overrun k n h = off c
canonical-StageReady keys c out_of_fuel k n h = off c

find_path-StageReady :
    (array : Bytes) (c : Session)
    → c.http_path_alias ≡ none
    → StageReady c.desc.http_headers (find_path array c)
unfolding find_path
find_path-StageReady array c fresh =
    or_fail-StageReady c.desc.http_headers c c.desc.http_path _ (λ orig _.
      or_fail-StageReady c.desc.http_headers c (url_decode orig) _ (λ decoded _.
        canonical-StageReady c.desc.http_headers c (canonicalize_path (c_str decoded) array) _
          (canonicalize_path-Named (c_str decoded) array (Lacks-c_str decoded))
          (λ path named. ready (set_path orig path c) (named, inl fresh, refl))))

set_persist-StageReady :
    (keys : Kvtree) (host : Option Bytes) (c : Session)
    → Ready keys c
    → StageReady keys (set_persist host c)
unfolding set_persist
set_persist-StageReady keys host c h =
    if-intro (StageReady keys) (is_http11 c.desc.http_version) _ _
      (λ _. if-intro (StageReady keys) (is_none host) (fails c) _ (λ _. off c) (λ _. ready _ h))
      (λ _. ready _ h)

module _ (sys : Platform) where
  -- The credentials in the headers `keys` were accepted for the file of the location.
  abbrev pub LoggedIn : Kvtree → Session → Type 0
  LoggedIn keys c =
      (old : Option Bytes) × ((server_http_authenticate sys.b64_pton sys.crypt_checkpass
          (sys.read_file c.clt_srv_conf.auth_htpasswd) keys old).ret
        ≡ accepted)

  -- What is served has a path of names, is within the limit of its location, and its location neither
  -- blocks it nor asks for a login that the headers `keys` do not give.
  abbrev pub Allowed : Kvtree → Answer → Type 0
  Allowed keys (serves c) =
      IsNamed c.desc.http_path
      × (((c.http_path_alias ≡ none) ⊎ IsNamed c.http_path_alias)
          × ((is_too_large c.clt_srv_conf.maxrequestbody c.clt_toread ≡ false)
              × ((c.clt_srv_conf.flag_block ≡ false)
                  × (c.clt_srv_conf.flag_auth ≡ true → LoggedIn keys c))))
  Allowed keys (aborts code msg c) = Unit
  Allowed keys undefined = Unit

  abbrev guard : Session → Answer
  guard = guarded sys

  login-Allowed :
      (keys : Kvtree) (r : Checked) (c : Session)
      → IsNamed c.desc.http_path
      → (c.http_path_alias ≡ none) ⊎ IsNamed c.http_path_alias
      → is_too_large c.clt_srv_conf.maxrequestbody c.clt_toread ≡ false
      → c.clt_srv_conf.flag_block ≡ false
      → (r ≡ accepted → LoggedIn keys c)
      → Allowed keys (on_login sys r c)
  login-Allowed keys accepted c h k small open_ l = (h, (k, (small, (open_, λ _. l refl))))
  login-Allowed keys refused c h k small open_ l = tt
  login-Allowed keys overrun c h k small open_ l = tt

  guarded-Allowed : (keys : Kvtree) (c : Session) → Ready keys c → Allowed keys (guard c)
  unfolding guarded
  guarded-Allowed keys c (h, k, same) =
      let a =
        server_http_authenticate sys.b64_pton sys.crypt_checkpass
          (sys.read_file c.clt_srv_conf.auth_htpasswd) c.desc.http_headers c.clt_remote_user in
      if-intro (Allowed keys) (is_too_large c.clt_srv_conf.maxrequestbody c.clt_toread)
        (aborts 413 (some (codes "request body too large")) c) _ (λ _. tt)
        (λ small.
          if-intro (Allowed keys) c.clt_srv_conf.flag_block
            (aborts c.clt_srv_conf.return_code c.clt_srv_conf.return_uri c) _ (λ _. tt)
            (λ unblocked.
              if-intro (Allowed keys) c.clt_srv_conf.flag_auth
                (on_login sys a.ret (set_login sys a c)) (serves c)
                (λ _.
                  login-Allowed keys a.ret (set_login sys a c) h k small unblocked
                    (λ e. subst (λ x. LoggedIn x c) same (c.clt_remote_user, e)))
                (λ free.
                  (h, (k, (small, (unblocked, λ asks. absurd (ground (arith, free, asks)))))))))

  by_location :
      (keys : Kvtree) (path : Bytes) (next : Session → Answer) (o : Option ServerConfig)
      (c : Session)
      → Ready keys c
      → ((d : Session) → Ready keys d → Allowed keys (next d))
      → Allowed keys (elim o [ none ↦ aborts 500 (some path) c | some srv_conf ↦ next c ])
  by_location keys path next none c h n = tt
  by_location keys path next (some srv_conf) c h n = n c h

  replaced :
      (keys : Kvtree) (o : Option ServerConfig) (c : Session)
      → Ready keys c
      → Ready keys (replace_conf sys o c)
  replaced keys none c h = h
  replaced keys (some srv_conf) c h = h

  located-Allowed :
      (keys : Kvtree) (hosts : List ServerConfig) (path : Bytes) (next : Session → Answer)
      (c : Session)
      → Ready keys c
      → ((d : Session) → Ready keys d → Allowed keys (next d))
      → Allowed keys (at_location sys hosts path next c)
  located-Allowed keys hosts path next c h n =
      let r =
        server_getlocation sys.fnmatch sys.str_match sys.can_open sys.is_there sys.behind hosts
          c.clt_srv_conf path c.clt_srv_match in
      by_location keys path next r.ret (set_located r c) h n

  then_go-Allowed :
      (keys : Kvtree) (s : Stage) (next : Session → Answer)
      → StageReady keys s
      → ((d : Session) → Ready keys d → Allowed keys (next d))
      → Allowed keys (then_go s next)
  then_go-Allowed keys (goes c) next (ready d h) n = n c h
  then_go-Allowed keys (fails c) next h n = tt

  rewrite-StageReady :
      (keys : Kvtree) (array : Bytes) (c : Session)
      → Ready keys c
      → StageReady keys (rewrite sys array c)
  rewrite-StageReady keys array c (h, _, same) =
      or_fail-StageReady keys c (server_expand_http sys.number c c.clt_srv_conf.path (length array))
        _
        (λ expanded _.
          let (path, query) = split_query expanded (cut b'?' expanded) in
          canonical-StageReady keys c (canonicalize_path (c_str path) (written path array)) _
            (canonicalize_path-Named (c_str path) (written path array) (Lacks-c_str path))
            (λ alias named.
              ready (record c { http_query_alias = query; http_path_alias = some alias })
                (h, inr named, same)))

  rewritten-Allowed :
      (keys : Kvtree) (hosts : List ServerConfig) (array : Bytes) (c : Session)
      → Ready keys c
      → Allowed keys (rewritten sys hosts array guard c)
  rewritten-Allowed keys hosts array c h =
      if-intro (Allowed keys) c.clt_srv_conf.flag_path_rewrite _ (guard c)
        (λ _.
          then_go-Allowed keys (rewrite sys array c) _ (rewrite-StageReady keys array c h) (λ d k.
            located-Allowed keys hosts (path_of sys d.http_path_alias) guard d k
              (guarded-Allowed keys)))
        (λ _. guarded-Allowed keys c h)

  host-StageReady :
      (keys : Kvtree) (hosts : List ServerConfig) (host : Option Bytes) (c : Session)
      → Ready keys c
      → StageReady keys (choose_host sys hosts host c)
  unfolding choose_host
  host-StageReady keys hosts none c h =
      or_fail-StageReady keys c (server_http_host sys c.clt_srv_ss) _ (λ name _. ready _ h)
  host-StageReady keys hosts (some host) c h =
      or_fail-StageReady keys c (server_http_parsehost host sys.hostname_size) _ (λ parsed _.
        or_fail-StageReady keys c (strlcpy sys host) _
          (λ name _. ready _ (replaced keys (find_host sys hosts parsed) c h)))

  -- Of a request whose path was not rewritten before: what is served has a path of names from the
  -- root, without `.`, `..` or a repeated slash, whose last name may be empty; where the path is
  -- rewritten, the new one is such a path too. The body is within the limit of the location, and the
  -- location neither blocks the request nor asks for a login that the headers of the request do not
  -- give.
  pub server_response-Allowed :
      (hosts : List ServerConfig) (array : Bytes) (c : Session)
      → c.http_path_alias ≡ none
      → Allowed c.desc.http_headers (server_response sys hosts array c)
  unfolding server_response
  server_response-Allowed hosts array c fresh =
      let keys = c.desc.http_headers in
      let host = header_value (kv_find keys (codes "Host")) in
      then_go-Allowed keys (find_path array c) _ (find_path-StageReady array c fresh) (λ c1 h1.
        then_go-Allowed keys (set_persist host c1) _ (set_persist-StageReady keys host c1 h1)
          (λ c2 h2.
            then_go-Allowed keys (choose_host sys hosts host c2) _
              (host-StageReady keys hosts host c2 h2)
              (λ c3 h3.
                located-Allowed keys hosts (path_of sys c3.desc.http_path)
                  (rewritten sys hosts array guard) c3 h3 (rewritten-Allowed keys hosts array))))
