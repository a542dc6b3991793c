-- ===== src/Log/Lines.antt =====
-- The lines of the access log that `server_log_http` of server_http.c writes.
use fuzz_httpd.Base.{
  ℕ, ◌+◌, ◌-◌, ◌≡◌, refl, Bool, true, false, [], ◌∷◌, ◌++◌, Option, none, some, Bytes, codes,
  count-append, arith, length, replicate, if◌then◌else◌,
}
use fuzz_httpd.Abort.{code_text}
use fuzz_httpd.Expand.{or_empty}
use fuzz_httpd.Http.{method_id}
use fuzz_httpd.Log.{
  LogFormat, common, combined, connection, forwarded, after_query, combined_texts, forwarded_texts,
  header_of, join, line_start, log_texts, or_dash, query_texts, server_log_http, user_or_subject,
  version_texts, visible,
}
use fuzz_httpd.Reply.{then_do}
use fuzz_httpd.Server.{Session}
use fuzz_httpd.Log.Texts.{
  count_lines, total, WithinLine, count-join, total-append, method_no_line, encoded_no_line,
  query_no_line, zeros_no_line,
}

-- The lines that a call adds to the log of a client.
abbrev pub lines_of : LogFormat → ℕ
lines_of common = 1
lines_of combined = 1
lines_of forwarded = 1
lines_of connection = 0

-- What a call does to the log: nothing, or an error, or the lines of the format.
abbrev pub Logged : Bool → LogFormat → Bytes → Option Bytes → Type 0
Logged flag_log format clt_log none = flag_log ≡ true
Logged flag_log format clt_log (some after) =
    count_lines after ≡ count_lines clt_log + (if flag_log then lines_of format else 0)

module _ (stravis : Bytes → Bytes) (number : ℕ → Bytes) (subject : Option Bytes)
    (vis : (s : Bytes) → count_lines (stravis s) ≡ 0)
    (plain : (n : ℕ) → count_lines (number n) ≡ 0) where
  code_no_line : (code : ℕ) → count_lines (code_text number code) ≡ 0
  code_no_line code = omega (
    arith,
    count-append 10 (replicate (3 - length (number code)) b'0') (number code),
    zeros_no_line (3 - length (number code)),
    plain code,
  )

  visible_no_line :
      (o : Option Bytes)
      → (count_lines (or_dash (visible stravis number subject o)) ≡ 0)
        × (count_lines (or_empty (visible stravis number subject o)) ≡ 0)
  visible_no_line none = (refl, refl)
  visible_no_line (some s) = (vis s, vis s)

  user_no_line : (o : Option Bytes) → count_lines (user_or_subject stravis number subject o) ≡ 0
  user_no_line none = (visible_no_line subject).0
  user_no_line (some s) = vis s

  version_no_line : (o : Option Bytes) → total (version_texts stravis number subject o) ≡ 0
  version_no_line none = refl
  version_no_line (some s) = omega (arith, vis s)

  start_no_line :
      (ip tstamp user : Bytes) (c : Session) (code len : ℕ)
      → count_lines c.clt_srv_conf.name ≡ 0
      → count_lines ip ≡ 0
      → count_lines tstamp ≡ 0
      → count_lines user ≡ 0
      → WithinLine c.desc.http_query
      → total (line_start stravis number subject ip tstamp user c code len) ≡ 0
  start_no_line ip tstamp user c code len name address time who query = omega (
    arith,
    name,
    address,
    time,
    who,
    method_no_line (method_id c.desc.http_method),
    encoded_no_line c.desc.http_path,
    total-append (query_texts c.desc.http_query) (after_query stravis number subject c code len),
    query_no_line c.desc.http_query query,
    total-append (version_texts stravis number subject c.desc.http_version)
        (codes "\" " ∷ code_text number code ∷ codes " " ∷ number len ∷ []),
    version_no_line c.desc.http_version,
    code_no_line code,
    plain len,
  )

  combined_no_line : (c : Session) → total (combined_texts stravis number subject c) ≡ 0
  combined_no_line c = omega (
    arith,
    encoded_no_line (header_of stravis number subject (codes "Referer") c),
    (visible_no_line (header_of stravis number subject (codes "User-Agent") c)).1,
  )

  forwarded_no_line : (c : Session) → total (forwarded_texts stravis number subject c) ≡ 0
  forwarded_no_line c = omega (
    arith,
    (visible_no_line (header_of stravis number subject (codes "X-Forwarded-For") c)).0,
    (visible_no_line (header_of stravis number subject (codes "X-Forwarded-Port") c)).0,
  )

  texts-lines :
      (format : LogFormat) (ip tstamp : Bytes) (c : Session) (code len : ℕ)
      → count_lines c.clt_srv_conf.name ≡ 0
      → count_lines ip ≡ 0
      → count_lines tstamp ≡ 0
      → WithinLine c.desc.http_query
      → total (log_texts stravis number subject format ip tstamp c code len) ≡ lines_of format
  unfolding log_texts
  texts-lines common ip tstamp c code len name address time query =
      let user = or_dash (visible stravis number subject c.clt_remote_user) in
      omega (
        arith,
        total-append (line_start stravis number subject ip tstamp user c code len)
            (codes "\n" ∷ []),
        start_no_line ip tstamp user c code len name address time
            (visible_no_line c.clt_remote_user).0 query,
      )
  texts-lines combined ip tstamp c code len name address time query =
      let user = user_or_subject stravis number subject c.clt_remote_user in
      let more = combined_texts stravis number subject c in
      omega (
        arith,
        total-append (line_start stravis number subject ip tstamp user c code len)
            (more ++ codes "\n" ∷ []),
        total-append more (codes "\n" ∷ []),
        combined_no_line c,
        start_no_line ip tstamp user c code len name address time (user_no_line c.clt_remote_user)
            query,
      )
  texts-lines forwarded ip tstamp c code len name address time query =
      let user = user_or_subject stravis number subject c.clt_remote_user in
      let more = combined_texts stravis number subject c in
      let last = forwarded_texts stravis number subject c in
      omega (
        arith,
        total-append (line_start stravis number subject ip tstamp user c code len)
            (more ++ (last ++ codes "\n" ∷ [])),
        total-append more (last ++ codes "\n" ∷ []),
        total-append last (codes "\n" ∷ []),
        combined_no_line c,
        forwarded_no_line c,
        start_no_line ip tstamp user c code len name address time (user_no_line c.clt_remote_user)
            query,
      )
  texts-lines connection ip tstamp c code len name address time query =
      omega (arith, encoded_no_line c.desc.http_path)

  written-Logged :
      (format : LogFormat) (o ip : Option Bytes) (c : Session) (code len : ℕ) (clt_log : Bytes)
      → count_lines c.clt_srv_conf.name ≡ 0
      → WithinLine ip
      → WithinLine o
      → WithinLine c.desc.http_query
      → Logged true format clt_log (
          then_do o λ tstamp. then_do ip λ address.
            some
              (clt_log ++ join (log_texts stravis number subject format address tstamp c code len)))
  written-Logged format none ip c code len clt_log name address time query = refl
  written-Logged format (some tstamp) none c code len clt_log name address time query = refl
  written-Logged format (some tstamp) (some ip) c code len clt_log name address time query =
      let texts = log_texts stravis number subject format ip tstamp c code len in
      omega (
        arith,
        count-append 10 clt_log (join texts),
        count-join texts,
        texts-lines format ip tstamp c code len name address time query,
      )

  -- Where `stravis` leaves no end of a line, and the name of the server, its addresses, the time and the
  -- query hold none: whatever else a client sends, a request adds one line to the log of the client, or
  -- none in the format of connections, so it cannot forge a line.
  pub server_log_http-Logged :
      (flag_log : Bool) (format : LogFormat) (time : Option Bytes) (c : Session) (code len : ℕ)
      (clt_log : Bytes)
      → count_lines c.clt_srv_conf.name ≡ 0
      → WithinLine c.clt_ss.text
      → WithinLine time
      → WithinLine c.desc.http_query
      → Logged flag_log format clt_log
          (server_log_http stravis number subject flag_log format time c code len clt_log)
  unfolding server_log_http
  server_log_http-Logged true format time c code len clt_log name address when query =
      written-Logged format time c.clt_ss.text c code len clt_log name address when query
  server_log_http-Logged false format time c code len clt_log name address when query = omega arith
