-- ===== src/Expand/Fits.antt =====
-- What `server_expand_http` of server_http.c returns fits in its array.
use fuzz_httpd.Base.{
  ℕ, zero, suc, ◌+◌, ◌≤◌, ◌<◌, ◌&&◌, List, [], ◌∷◌, ◌++◌, Option, none, some, Bytes, codes, leb,
  length, if-intro, arith, strtonum, get_elem?, length-append, ap, is_digit, char_at, ◌==◌, ◌-◌,
}
use fuzz_httpd.Reply.{then_do}
use fuzz_httpd.Server.{Session}
use fuzz_httpd.Url.{url_encode}
use fuzz_httpd.Expand.Replaced.{Parts, strstr-Parts}
use fuzz_httpd.Expand.{
  digits, strstr, strlcat, expand_round, expand_loop, expand_string, expand_number, expand_match,
  expand_matches, expand_captures, expand_variable, expand_host, expand_remote, expand_server,
  expand_request, found, or_keep, cut_label, ibuf_size, encoded, server_expand_http, request_uri,
  scheme, or_empty, remote_user,
}

-- A result is shorter than the array.
pub data Fits (len : ℕ) : Option Bytes → Type 0 where
  failed : Fits len none
  fits : (s : Bytes) → length s < len → Fits len (some s)

then_do-Fits :
    (len : ℕ) (o : Option Bytes) (k : Bytes → Option Bytes)
    → Fits len o
    → ((s : Bytes) → length s < len → Fits len (k s))
    → Fits len (then_do o k)
then_do-Fits len none k h e = failed
then_do-Fits len (some s) k (fits t h) e = e s h

strlcat-Fits : (len : ℕ) (tmp s : Bytes) → Fits len (strlcat len tmp s)
strlcat-Fits len tmp s =
    if-intro (Fits len) (leb len (length (tmp ++ s))) none (some (tmp ++ s)) (λ _. failed)
      (λ e. fits (tmp ++ s) (ground (arith, e)))

any-Fits :
    {A : Type 0} (len : ℕ) (o : Option A) (k : A → Option Bytes)
    → ((a : A) → Fits len (k a))
    → Fits len (then_do o k)
any-Fits len none k h = failed
any-Fits len (some a) k h = h a

round-Fits :
    (next : Bytes → Bytes → Option Bytes) (len : ℕ) (repl tmp p : Bytes)
    (o : Option (Bytes × Bytes))
    → ((tmp b : Bytes) → Fits len (next tmp b))
    → Fits len (expand_round next len repl tmp p o)
round-Fits next len repl tmp p none h = strlcat-Fits len tmp p
round-Fits next len repl tmp p (some (a, b)) h =
    any-Fits len (strlcat len tmp a) _
      (λ tmp'. any-Fits len (strlcat len tmp' repl) (λ tmp''. next tmp'' b) (λ tmp''. h tmp'' b))

loop-Fits :
    (fuel len : ℕ) (srch repl tmp p : Bytes) → Fits len (expand_loop fuel len srch repl tmp p)
unfolding expand_loop
loop-Fits zero len srch repl tmp p = failed
loop-Fits (suc fuel) len srch repl tmp p =
    round-Fits (expand_loop fuel len srch repl) len repl tmp p (strstr srch p)
      (loop-Fits fuel len srch repl)

expand_string-Fits :
    (label : Bytes) (len : ℕ) (srch repl : Bytes) → Fits len (expand_string label len srch repl)
unfolding expand_string
expand_string-Fits label len srch repl = loop-Fits (length label + 1) len srch repl [] label

number-Fits :
    (sm_match : List Bytes) (len : ℕ) (d buf : Bytes) (o : Option ℕ)
    → Fits len (expand_number sm_match len d buf o)
number-Fits sm_match len d buf none = failed
number-Fits sm_match len d buf (some n) =
    any-Fits len (get_elem? sm_match n) _
      (λ m. expand_string-Fits buf len (b'%' ∷ d) (url_encode m))

match-Fits :
    (sm_match : List Bytes) (len : ℕ) (d buf : Bytes) → Fits len (expand_match sm_match len d buf)
match-Fits sm_match len d buf =
    if-intro (Fits len) (leb ibuf_size (length d + 2)) none _ (λ _. failed)
      (λ _. number-Fits sm_match len d buf (strtonum d 0 (length sm_match - 1)))

matches-Fits :
    (sm_match : List Bytes) (len : ℕ) (p buf : Bytes)
    → length buf < len
    → Fits len (expand_matches sm_match len p buf)
unfolding expand_matches
matches-Fits sm_match len [] buf h = fits buf h
matches-Fits sm_match len (c ∷ p) buf h =
    if-intro (Fits len) (c == b'%' && is_digit (char_at p 0)) _ _
      (λ _.
        then_do-Fits len (expand_match sm_match len (digits p) buf) _
          (match-Fits sm_match len (digits p) buf) (λ b hb. matches-Fits sm_match len p b hb))
      (λ _. matches-Fits sm_match len p buf h)

captures-Fits :
    (sm_match : List Bytes) (len : ℕ) (val buf : Bytes)
    → length buf < len
    → Fits len (expand_captures sm_match len val buf)
captures-Fits [] len val buf h = fits buf h
captures-Fits (m ∷ ms) len val buf h = matches-Fits (m ∷ ms) len val buf h

variable-Fits :
    (val : Bytes) (len : ℕ) (name : Bytes) (repl : Option Bytes) (buf : Bytes)
    → length buf < len
    → Fits len (expand_variable val len name repl buf)
variable-Fits val len name repl buf h =
    if-intro (Fits len) (found (strstr name val)) _ (some buf)
      (λ _. any-Fits len repl _ (λ r. expand_string-Fits buf len name r)) (λ _. fits buf h)

cut_label-le :
    (srch buf : Bytes) (o : Option (Bytes × Bytes))
    → Parts srch buf o
    → length (cut_label buf o) ≤ length buf
cut_label-le srch buf none h = omega arith
cut_label-le srch buf (some (a, b)) h = omega (arith, ap length h, length-append a (srch ++ b))

or_keep-Fits :
    (len : ℕ) (buf : Bytes) (o : Option Bytes)
    → length buf < len
    → Fits len o
    → Fits len (or_keep buf o)
or_keep-Fits len buf none h f = fits buf h
or_keep-Fits len buf (some s) h f = f

host-Fits :
    (val : Bytes) (len : ℕ) (host : Option Bytes) (buf : Bytes)
    → length buf < len
    → Fits len (expand_host val len host buf)
host-Fits val len host buf h =
    let name = codes "$HTTP_HOST" in
    if-intro (Fits len) (found (strstr name val)) _ (some buf)
      (λ _. any-Fits len (encoded host) _ (λ str.
        or_keep-Fits len (cut_label buf (strstr name buf)) (expand_string buf len name str)
          (omega (arith, cut_label-le name buf (strstr name buf) (strstr-Parts name buf), h))
          (expand_string-Fits buf len name str)))
      (λ _. fits buf h)

module _ (number : ℕ → Bytes) (c : Session) (val : Bytes) (len : ℕ) where
  request-Fits : (buf : Bytes) → length buf < len → Fits len (expand_request number c val len buf)
  request-Fits buf h =
      then_do-Fits len _ _
        (variable-Fits val len (codes "$DOCUMENT_URI") (encoded c.desc.http_path) buf h)
        (λ b0 h0.
          then_do-Fits len _ _
            (variable-Fits val len (codes "$QUERY_STRING_ENC")
              (some (url_encode (or_empty c.desc.http_query))) b0 h0)
            (λ b1 h1.
              then_do-Fits len _ _
                (variable-Fits val len (codes "$QUERY_STRING") (some (or_empty c.desc.http_query))
                  b1 h1)
                (λ b2 h2. host-Fits val len c.http_host b2 h2)))

  remote-Fits : (buf : Bytes) → length buf < len → Fits len (expand_remote number c val len buf)
  remote-Fits buf h =
      if-intro (Fits len) (found (strstr (codes "$REMOTE_") val)) _ (some buf)
        (λ _.
          then_do-Fits len _ _ (variable-Fits val len (codes "$REMOTE_ADDR") c.clt_ss.text buf h)
            (λ b0 h0.
              then_do-Fits len _ _
                (variable-Fits val len (codes "$REMOTE_PORT") (some (number c.clt_port)) b0 h0)
                (λ b1 h1.
                  variable-Fits val len (codes "$REMOTE_USER") (some (remote_user c)) b1 h1)))
        (λ _. fits buf h)

  server-Fits :
      (buf : Bytes) → length buf < len → Fits len (expand_server number c.clt_srv_conf val len buf)
  server-Fits buf h =
      let s = c.clt_srv_conf in
      if-intro (Fits len) (found (strstr (codes "$SERVER_") val)) _ (some buf)
        (λ _.
          then_do-Fits len _ _ (variable-Fits val len (codes "$SERVER_ADDR") s.ss.text buf h)
            (λ b0 h0.
              then_do-Fits len _ _
                (variable-Fits val len (codes "$SERVER_PORT") (some (number s.port)) b0 h0)
                (λ b1 h1.
                  variable-Fits val len (codes "$SERVER_NAME") (some (url_encode s.name)) b1 h1)))
        (λ _. fits buf h)

  -- Whatever the macros stand for: an expanded text is shorter than the array, so that its NUL fits.
  pub server_expand_http-Fits : Fits len (server_expand_http number c val len)
  unfolding server_expand_http
  server_expand_http-Fits = then_do-Fits len _ _ (strlcat-Fits len [] val) (λ b0 h0.
      then_do-Fits len _ _ (captures-Fits c.clt_srv_match len val b0 h0) (λ b1 h1.
        then_do-Fits len _ _ (request-Fits b1 h1) (λ b2 h2.
          then_do-Fits len _ _ (remote-Fits b2 h2) (λ b3 h3.
            then_do-Fits len _ _
              (variable-Fits val len (codes "$REQUEST_URI") (request_uri number c) b3 h3)
              (λ b4 h4.
                then_do-Fits len _ _
                  (variable-Fits val len (codes "$REQUEST_SCHEME")
                    (some (scheme number c.clt_srv_conf)) b4 h4)
                  (λ b5 h5. server-Fits b5 h5))))))
