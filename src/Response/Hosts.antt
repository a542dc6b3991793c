-- ===== src/Response/Hosts.antt =====
-- How `server_response` of server_http.c refuses a request, and which host it takes.
use fuzz_httpd.Base.{
  ℕ, ◌<◌, ◌≤◌, ◌≡◌, ◌≢◌, ◌⊎◌, inl, inr, refl, ap, ◌∙◌, true, false, ◌&&◌, List, ◌∷◌, ◌++◌, Option,
  none, some, Bytes, if-intro, codes, length, arith, lt→leb, Lacks, char_at, is_xdigit, strtonum,
  ◌==◌, c_str, Bool-cases, leb,
}
use fuzz_httpd.Host.{HostPort, server_http_parsehost}
use fuzz_httpd.Kv.{kv_find}
use fuzz_httpd.Reply.{then_do}
use fuzz_httpd.Response.{
  Answer, aborts, Stage, goes, fails, Platform, str_not_found, choose_host, find_host, find_path,
  header_value, is_http11, is_port, limit_persist, or_fail, replace_conf, server_http_host,
  server_response, set_host, set_path, set_persist, strlcpy, canonical_text,
}
use mathlib.Core.Option
use fuzz_httpd.Host.Parts.{server_http_parsehost-host_text}
use fuzz_httpd.Path.{null, canonicalize_path}
use fuzz_httpd.Server.{Session, ServerConfig}
use fuzz_httpd.Url.{url_decode}
use fuzz_httpd.Url.Decode.{url_decode-escape, url_decode-plain}

-- Persistence ends, or the connection has requests left.
abbrev pub Limited : Session → Type 0
Limited c = (c.clt_persist ≡ 0) ⊎ (c.clt_persist < c.clt_srv_conf.maxrequests)

limit_persist-Limited : (c : Session) → Limited (limit_persist c)
limit_persist-Limited c = ground arith

pub data StageLimited : Stage → Type 0 where
  limited : (c : Session) → Limited c → StageLimited (goes c)
  failed : (c : Session) → StageLimited (fails c)

or_fail-StageLimited :
    {A : Type 0} (c : Session) (o : Option A) (k : A → Option Session)
    → ((a : A) → StageLimited (or_fail c (k a)))
    → StageLimited (or_fail c (then_do o k))
or_fail-StageLimited c none k h = failed c
or_fail-StageLimited c (some a) k h = h a

-- With a Host header no version is refused.
persists : (text : Bytes) (c : Session) → (d : Session) × (set_persist (some text) c ≡ goes d)
unfolding set_persist
persists text c =
    if-intro (λ r. (d : Session) × (r ≡ goes d)) (is_http11 c.desc.http_version) _ _
      (λ _. (_, refl)) (λ _. (_, refl))

no_host_lem : (c : Session) → is_http11 c.desc.http_version ≡ true → set_persist none c ≡ fails c
unfolding set_persist
no_host_lem c e = rw e refl

or_fail-intro :
    {A : Type 0} (P : Stage → Type 0) (c : Session) (o : Option A) (k : A → Option Session)
    → P (fails c)
    → ((a : A) → P (or_fail c (k a)))
    → P (or_fail c (then_do o k))
or_fail-intro P c none k f h = f
or_fail-intro P c (some a) k f h = h a

refused : (array s : Bytes) → (char_at s 0 == b'/') ≡ false → canonicalize_path s array ≡ null
unfolding canonicalize_path
refused array s h = rw h

slashless :
    (array : Bytes) (x : ℕ) (s : Bytes)
    → x ≢ b'/'
    → canonical_text (canonicalize_path (c_str (x ∷ s)) array) ≡ none
slashless array x s h = ap canonical_text (refused array (c_str (x ∷ s)) (ground arith))

too_long : (host : Bytes) (len : ℕ) → len ≤ length host → server_http_parsehost host len ≡ none
unfolding server_http_parsehost
too_long host len h = ground arith

-- A port that is no number is refused, whether the name and the port fit or not.
no_port :
    (name port : Bytes) (len : ℕ)
    → Lacks b':' name
    → char_at name 0 ≢ b'['
    → strtonum port 0 65535 ≡ none
    → server_http_parsehost (name ++ b':' ∷ port) len ≡ none
no_port name port len h k n = elim (Bool-cases (leb len (length (name ++ b':' ∷ port)))) [
  | inl long ↦ too_long (name ++ b':' ∷ port) len (ground (arith, long))
  | inr fits ↦
      server_http_parsehost-host_text name (some port) len (ground (arith, fits)) h k
      ∙ ground (arith, n)
]

module _ (sys : Platform) where
  unparsed :
      (hosts : List ServerConfig) (text : Bytes) (c : Session)
      → server_http_parsehost text sys.hostname_size ≡ none
      → choose_host sys hosts (some text) c ≡ fails c
  unfolding choose_host
  unparsed hosts text c e = rw e refl

  -- Once the host is chosen, the connection does not persist, or it has served fewer requests than
  -- the host allows.
  pub choose_host-Limited :
      (hosts : List ServerConfig) (host : Option Bytes) (c : Session)
      → StageLimited (choose_host sys hosts host c)
  unfolding choose_host
  choose_host-Limited hosts none c =
      or_fail-StageLimited c (server_http_host sys c.clt_srv_ss) _
        (λ name. limited _ (limit_persist-Limited c))
  choose_host-Limited hosts (some host) c =
      or_fail-StageLimited c (server_http_parsehost host sys.hostname_size) _ (λ parsed.
        or_fail-StageLimited c (strlcpy sys host) _ (λ name.
          limited _ (limit_persist-Limited (replace_conf sys (find_host sys hosts parsed) c))))

  -- What makes a request a bad one, told of what the client sent: no path, a path whose first `%` is not
  -- followed by two hexadecimal digits or that begins with another byte than a slash or a `%`, version
  -- 1.1 without a Host header, or a Host header that is too long, or that is a name, without a colon or
  -- a leading bracket, a colon, and no number up to 65535.
  pub data Bad (c : Session) : Type 0 where
    no_path : c.desc.http_path ≡ none → Bad c
    escape :
        (a s : Bytes)
        → c.desc.http_path ≡ some (a ++ b'%' ∷ s)
        → Lacks b'%' a
        → (is_xdigit (char_at s 0) && is_xdigit (char_at s 1)) ≡ false
        → Bad c
    no_slash : (x : ℕ) (s : Bytes) → c.desc.http_path ≡ some (x ∷ s) → x ≢ b'/' → x ≢ b'%' → Bad c
    no_host :
        is_http11 c.desc.http_version ≡ true
        → header_value (kv_find c.desc.http_headers (codes "Host")) ≡ none
        → Bad c
    long_host :
        (text : Bytes)
        → header_value (kv_find c.desc.http_headers (codes "Host")) ≡ some text
        → sys.hostname_size ≤ length text
        → Bad c
    bad_port :
        (name port : Bytes)
        → header_value (kv_find c.desc.http_headers (codes "Host")) ≡ some (name ++ b':' ∷ port)
        → Lacks b':' name
        → char_at name 0 ≢ b'['
        → strtonum port 0 65535 ≡ none
        → Bad c

  abbrev pub IsBadRequest : Answer → Type 0
  IsBadRequest r = (d : Session) × (r ≡ aborts 400 (some (codes "bad request")) d)

  abbrev Fails : Stage → Type 0
  Fails s = (d : Session) × (s ≡ fails d)

  no_path-Fails :
      (array : Bytes) (c : Session) → c.desc.http_path ≡ none → Fails (find_path array c)
  unfolding find_path
  no_path-Fails array c e = (c, rw e)

  escape-Fails :
      (array : Bytes) (c : Session) (orig : Bytes)
      → c.desc.http_path ≡ some orig
      → url_decode orig ≡ none
      → Fails (find_path array c)
  unfolding find_path
  escape-Fails array c orig e n = (c, rw (e, n))

  by_decoded :
      (array : Bytes) (c : Session) (orig : Bytes) (x : ℕ) (o : Option Bytes)
      → x ≢ b'/'
      → Fails (
          or_fail c (
            then_do (Option.map (λ t. x ∷ t) o) λ decoded.
              then_do
                (canonical_text (canonicalize_path (c_str decoded) array))
                λ path. some (set_path orig path c)))
  by_decoded array c orig x none h = (c, refl)
  by_decoded array c orig x (some t) h = (c, rw (slashless array x t h))

  no_slash-Fails :
      (array : Bytes) (c : Session) (x : ℕ) (s : Bytes)
      → c.desc.http_path ≡ some (x ∷ s)
      → x ≢ b'/'
      → x ≢ b'%'
      → Fails (find_path array c)
  unfolding find_path
  no_slash-Fails array c x s e h k =
      simp (e, url_decode-plain x s k) (by_decoded array c (x ∷ s) x (url_decode s) h)

  abbrev Kept : Session → Stage → Type 0
  Kept c s = Fails s ⊎ ((orig : Bytes) × (path : Bytes) × (s ≡ goes (set_path orig path c)))

  -- The path is found or not; then the version and the headers are those of the request.
  find_path-keeps : (array : Bytes) (c : Session) → Kept c (find_path array c)
  unfolding find_path
  find_path-keeps array c = or_fail-intro (Kept c) c c.desc.http_path _ (inl (c, refl)) (λ orig.
      or_fail-intro (Kept c) c (url_decode orig) _ (inl (c, refl)) (λ decoded.
        or_fail-intro (Kept c) c (canonical_text (canonicalize_path (c_str decoded) array)) _
          (inl (c, refl)) (λ path. inr (orig, path, refl))))

  unparsed_host :
      (text : Bytes)
      → server_http_parsehost text sys.hostname_size ≡ none
      → (hosts : List ServerConfig) (array : Bytes) (c : Session)
      → header_value (kv_find c.desc.http_headers (codes "Host")) ≡ some text
      → IsBadRequest (server_response sys hosts array c)
  unfolding server_response
  unparsed_host text n hosts array c e = elim (find_path-keeps array c) [
    | inl (d, f) ↦ (d, rw f refl)
    | inr (orig, path, g) ↦
        let (d', q) = persists text (set_path orig path c) in
        (d', rw (e, g, q, unparsed hosts text d' n) refl)
  ]

  early_failure :
      (hosts : List ServerConfig) (array : Bytes) (c : Session)
      → Fails (find_path array c)
      → IsBadRequest (server_response sys hosts array c)
  unfolding server_response
  early_failure hosts array c (d, f) = (d, rw f refl)

  -- A request without a path, or whose path begins with another byte than a slash or a `%`, or has a
  -- first `%` without two hexadecimal digits behind it, a request of version 1.1 without a Host header,
  -- and one whose Host header does not fit in a host name, or is a name without a colon or a leading
  -- bracket, a colon, and no number up to 65535: each is refused with status 400, whatever else it says
  -- and whatever the servers are.
  pub server_response-Bad :
      (hosts : List ServerConfig) (array : Bytes) (c : Session)
      → Bad c
      → IsBadRequest (server_response sys hosts array c)
  unfolding server_response
  server_response-Bad hosts array c (no_path e) =
      early_failure hosts array c (no_path-Fails array c e)
  server_response-Bad hosts array c (escape a s e h x) =
      early_failure hosts array c
        (escape-Fails array c (a ++ b'%' ∷ s) e (url_decode-escape a s h x))
  server_response-Bad hosts array c (no_slash x s e h k) =
      early_failure hosts array c (no_slash-Fails array c x s e h k)
  server_response-Bad hosts array c (no_host v e) = elim (find_path-keeps array c) [
    | inl (d, f) ↦ (d, rw f refl)
    | inr (orig, path, g) ↦
        (set_path orig path c, rw (e, g, no_host_lem (set_path orig path c) v) refl)
  ]
  server_response-Bad hosts array c (long_host text e long) =
      unparsed_host text (too_long text sys.hostname_size long) hosts array c e
  server_response-Bad hosts array c (bad_port name port e h k n) =
      unparsed_host (name ++ b':' ∷ port) (no_port name port sys.hostname_size h k n) hosts array c
        e

  -- A server whose name is a pattern takes a host that its pattern does not match: `str_find` sets
  -- `errstr` for a bad pattern only.
  pub find_host-not_found :
      (srv_conf : ServerConfig) (hosts : List ServerConfig) (h : HostPort)
      → srv_conf.flag_location ≡ false
      → srv_conf.flag_server_match ≡ true
      → is_port h.portval srv_conf.port ≡ true
      → sys.str_find h.host srv_conf.name ≡ str_not_found
      → find_host sys (srv_conf ∷ hosts) h ≡ some srv_conf
  unfolding find_host
  find_host-not_found srv_conf hosts h l m p e = rw (l, m, p, e) refl

  -- When no server has the host of the header: the server's own configuration stays, but the name of
  -- the host is still the text of the header, not the address of the server.
  pub choose_host-none :
      (hosts : List ServerConfig) (text : Bytes) (parsed : HostPort) (c : Session)
      → server_http_parsehost text sys.hostname_size ≡ some parsed
      → length text < sys.hostname_size
      → find_host sys hosts parsed ≡ none
      → choose_host sys hosts (some text) c ≡ goes (set_host sys c text)
  unfolding choose_host
  choose_host-none hosts text parsed c p room e =
      rw (p, e, lt→leb (length text) sys.hostname_size room) refl
