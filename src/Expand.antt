-- ===== src/Expand.antt =====
-- The macros of a location: `expand_string` of usr.sbin/httpd/httpd.c and `server_expand_http` of
-- server_http.c. The decimal numbers of `printf` are a parameter. Allocation is assumed to succeed.
pub mod Replaced
pub mod Fits
use fuzz_httpd.Base.{
  ℕ, zero, suc, ◌+◌, ◌-◌, Bool, true, false, ◌&&◌, List, [], ◌∷◌, ◌++◌, Option, none, some, Bytes,
  char_at, codes, cut_later, drop, get_elem?, has_prefix, is_digit, is_empty, leb, length, strtonum,
  ◌==◌, if◌then◌else◌,
}
use fuzz_httpd.Reply.{then_do}
use fuzz_httpd.Server.{Address, ServerConfig, Session}
use fuzz_httpd.Url.{url_encode}

-- `q = strstr(p, srch)`: the text before the first place and the text behind it.
unfoldable pub strstr : Bytes → Bytes → Option (Bytes × Bytes)
strstr srch [] = none
strstr srch (c ∷ s) =
    if has_prefix srch (c ∷ s)
    then some ([], drop (length srch) (c ∷ s))
    else cut_later c (strstr srch s)

abbrev pub found : Option (Bytes × Bytes) → Bool
found none = false
found (some parts) = true

-- `strlcat`; `none` is a text that is too long.
abbrev pub strlcat : ℕ → Bytes → Bytes → Option Bytes
strlcat len tmp s = if leb len (length (tmp ++ s)) then none else some (tmp ++ s)

-- behind `strstr`
abbrev pub expand_round :
    (Bytes → Bytes → Option Bytes)
    → ℕ
    → Bytes
    → Bytes
    → Bytes
    → Option (Bytes × Bytes)
    → Option Bytes
expand_round next len repl tmp p none = strlcat len tmp p
expand_round next len repl tmp p (some (a, b)) =
    then_do (strlcat len tmp a) λ tmp'. then_do (strlcat len tmp' repl) λ tmp''. next tmp'' b

-- The loop; each round but the last goes on behind a place that was found. `fuel` is one for each byte,
-- and one more.
unfoldable pub expand_loop : ℕ → ℕ → Bytes → Bytes → Bytes → Bytes → Option Bytes
unfolding strstr
expand_loop zero len srch repl tmp p = none
expand_loop (suc fuel) len srch repl tmp p =
    expand_round (expand_loop fuel len srch repl) len repl tmp p (strstr srch p)

-- `none` is -1.
unfoldable pub expand_string : Bytes → ℕ → Bytes → Bytes → Option Bytes
unfolding expand_loop
expand_string label len srch repl = expand_loop (length label + 1) len srch repl [] label

-- `strspn(s, "0123456789")`, and the digits
abbrev pub digits : Bytes → Bytes
unfolding is_digit
digits [] = []
digits (c ∷ s) = if is_digit c then c ∷ digits s else []

-- `sizeof(ibuf)`
abbrev pub ibuf_size : ℕ
ibuf_size = 128

-- A macro that is a number, `d` its digits: `n` is the place of the substring.
abbrev pub expand_number : List Bytes → ℕ → Bytes → Bytes → Option ℕ → Option Bytes
expand_number sm_match len d buf none = none
expand_number sm_match len d buf (some n) =
    then_do (get_elem? sm_match n) λ m. expand_string buf len (b'%' ∷ d) (url_encode m)

abbrev pub expand_match : List Bytes → ℕ → Bytes → Bytes → Option Bytes
expand_match sm_match len d buf =
    if leb ibuf_size (length d + 2)
    then none
    else expand_number sm_match len d buf (strtonum d 0 (length sm_match - 1))

-- The loop over `val`, from a place on.
unfoldable pub expand_matches : List Bytes → ℕ → Bytes → Bytes → Option Bytes
unfolding expand_string strtonum is_digit
expand_matches sm_match len [] buf = some buf
expand_matches sm_match len (c ∷ p) buf =
    if c == b'%' && is_digit (char_at p 0)
    then then_do (expand_match sm_match len (digits p) buf) (expand_matches sm_match len p)
    else expand_matches sm_match len p buf

-- no substrings, no loop
abbrev pub expand_captures : List Bytes → ℕ → Bytes → Bytes → Option Bytes
expand_captures [] len val buf = some buf
expand_captures (m ∷ ms) len val buf = expand_matches (m ∷ ms) len val buf

-- `if (strstr(val, name) != NULL)`, where `repl` is none if the value cannot be had
abbrev pub expand_variable : Bytes → ℕ → Bytes → Option Bytes → Bytes → Option Bytes
expand_variable val len name repl buf =
    if found (strstr name val) then then_do repl (expand_string buf len name) else some buf

-- What a label is after -1: cut at the first place, where a NUL was written.
abbrev pub cut_label : Bytes → Option (Bytes × Bytes) → Bytes
cut_label label none = label
cut_label label (some (a, b)) = a

-- $HTTP_HOST, whose result is not tested
abbrev pub or_keep : Bytes → Option Bytes → Option Bytes
or_keep buf none = some buf
or_keep buf (some buf') = some buf'

abbrev pub or_empty : Option Bytes → Bytes
or_empty none = []
or_empty (some s) = s

abbrev pub encoded : Option Bytes → Option Bytes
encoded none = none
encoded (some s) = some (url_encode s)

abbrev pub expand_host : Bytes → ℕ → Option Bytes → Bytes → Option Bytes
expand_host val len host buf =
    if found (strstr (codes "$HTTP_HOST") val)
    then then_do (encoded host) (λ str.
      or_keep (cut_label buf (strstr (codes "$HTTP_HOST") buf))
        (expand_string buf len (codes "$HTTP_HOST") str))
    else some buf

abbrev pub remote_user : Session → Bytes
remote_user c = if c.clt_srv_conf.flag_auth then url_encode (or_empty c.clt_remote_user) else []

abbrev pub with_query : Bytes → Option Bytes → Bytes
with_query path none = path
with_query path (some query) = path ++ b'?' ∷ query

module _ (number : ℕ → Bytes) where
  abbrev pub expand_remote : Session → Bytes → ℕ → Bytes → Option Bytes
  expand_remote c val len buf =
      if found (strstr (codes "$REMOTE_") val)
      then (then_do (expand_variable val len (codes "$REMOTE_ADDR") c.clt_ss.text buf) λ b.
          then_do (expand_variable val len (codes "$REMOTE_PORT") (some (number c.clt_port)) b)
            λ b'. expand_variable val len (codes "$REMOTE_USER") (some (remote_user c)) b')
      else some buf

  abbrev pub expand_server : ServerConfig → Bytes → ℕ → Bytes → Option Bytes
  expand_server srv_conf val len buf =
      if found (strstr (codes "$SERVER_") val)
      then (then_do (expand_variable val len (codes "$SERVER_ADDR") srv_conf.ss.text buf) λ b.
          then_do (expand_variable val len (codes "$SERVER_PORT") (some (number srv_conf.port)) b)
            λ b'.
              expand_variable val len (codes "$SERVER_NAME") (some (url_encode srv_conf.name)) b')
      else some buf

  -- the variables of the request
  abbrev pub expand_request : Session → Bytes → ℕ → Bytes → Option Bytes
  expand_request c val len buf =
      then_do (expand_variable val len (codes "$DOCUMENT_URI") (encoded c.desc.http_path) buf) λ b0.
        then_do
          (expand_variable val len (codes "$QUERY_STRING_ENC")
            (some (url_encode (or_empty c.desc.http_query))) b0)
          λ b1.
            then_do
              (expand_variable val len (codes "$QUERY_STRING") (some (or_empty c.desc.http_query))
                b1)
              (expand_host val len c.http_host)

  abbrev pub request_uri : Session → Option Bytes
  request_uri c =
      then_do (encoded c.desc.http_path) λ path. some (with_query path c.desc.http_query)

  abbrev pub scheme : ServerConfig → Bytes
  scheme srv_conf = if srv_conf.flag_tls then codes "https" else codes "http"

  -- `buf`, an array of `len` bytes; `none` is NULL.
  unfoldable pub server_expand_http : Session → Bytes → ℕ → Option Bytes
  unfolding expand_matches expand_string strstr url_encode
  server_expand_http c val len = then_do (strlcat len [] val) λ b0.
      then_do (expand_captures c.clt_srv_match len val b0) λ b1.
        then_do (expand_request c val len b1) λ b2. then_do (expand_remote c val len b2) λ b3.
          then_do (expand_variable val len (codes "$REQUEST_URI") (request_uri c) b3) λ b4.
            then_do
              (expand_variable val len (codes "$REQUEST_SCHEME") (some (scheme c.clt_srv_conf)) b4)
              (expand_server c.clt_srv_conf val len)
