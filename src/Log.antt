-- ===== src/Log.antt =====
-- The access log: `server_log_http` of usr.sbin/httpd/server_http.c. `stravis`, the decimal numbers of
-- `printf`, the time as text, and the subject of a client's certificate are parameters. Allocation is
-- assumed to succeed.
pub mod Texts
pub mod Lines
use fuzz_httpd.Base.{ℕ, Bool, List, [], ◌∷◌, ◌++◌, Option, none, some, Bytes, codes, if◌then◌else◌}
use fuzz_httpd.Abort.{code_text}
use fuzz_httpd.Expand.{encoded, or_empty}
use fuzz_httpd.Http.{method_id, server_httpmethod_byid}
use fuzz_httpd.Kv.{kv_find}
use fuzz_httpd.Reply.{then_do}
use fuzz_httpd.Response.{header_value}
use fuzz_httpd.Server.{Session}
use fuzz_httpd.Url.{url_encode}

pub data LogFormat : Type 0 where
  common combined connection forwarded : LogFormat

-- texts one after another
unfoldable pub join : List Bytes → Bytes
join [] = []
join (s ∷ texts) = s ++ join texts

abbrev pub or_dash : Option Bytes → Bytes
or_dash none = codes "-"
or_dash (some text) = text

-- `?` and the query, which is not encoded
abbrev pub query_texts : Option Bytes → List Bytes
query_texts none = []
query_texts (some query) = codes "?" ∷ query ∷ []

module _ (stravis : Bytes → Bytes) (number : ℕ → Bytes) (subject : Option Bytes) where
  abbrev pub visible : Option Bytes → Option Bytes
  visible none = none
  visible (some text) = some (stravis text)

  abbrev pub version_texts : Option Bytes → List Bytes
  version_texts none = []
  version_texts (some version) = codes " " ∷ stravis version ∷ []

  -- the client's name, or else the subject of its certificate
  abbrev pub user_or_subject : Option Bytes → Bytes
  user_or_subject none = or_dash (visible subject)
  user_or_subject (some user) = stravis user

  -- the value of a header
  abbrev pub header_of : Bytes → Session → Option Bytes
  header_of name c = header_value (kv_find c.desc.http_headers name)

  abbrev pub after_query : Session → ℕ → ℕ → List Bytes
  after_query c code len =
      version_texts c.desc.http_version
      ++ codes "\" " ∷ code_text number code ∷ codes " " ∷ number len ∷ []

  -- the start of a line, up to the size of the reply
  abbrev pub line_start : Bytes → Bytes → Bytes → Session → ℕ → ℕ → List Bytes
  line_start ip tstamp user c code len =
      c.clt_srv_conf.name
        ∷ codes " "
        ∷ ip
        ∷ codes " - "
        ∷ user
        ∷ codes " ["
        ∷ tstamp
        ∷ codes "] \""
        ∷ server_httpmethod_byid (method_id c.desc.http_method)
        ∷ codes " "
        ∷ or_empty (encoded c.desc.http_path)
        ∷ query_texts c.desc.http_query
      ++ after_query c code len

  abbrev pub combined_texts : Session → List Bytes
  combined_texts c =
      codes " \""
      ∷ or_empty (encoded (header_of (codes "Referer") c))
      ∷ codes "\" \""
      ∷ or_empty (visible (header_of (codes "User-Agent") c))
      ∷ codes "\""
      ∷ []

  abbrev pub forwarded_texts : Session → List Bytes
  forwarded_texts c =
      codes " "
      ∷ or_dash (visible (header_of (codes "X-Forwarded-For") c))
      ∷ codes " "
      ∷ or_dash (visible (header_of (codes "X-Forwarded-Port") c))
      ∷ []

  -- what is added to the log of the client
  unfoldable pub log_texts : LogFormat → Bytes → Bytes → Session → ℕ → ℕ → List Bytes
  unfolding server_httpmethod_byid url_encode kv_find
  log_texts common ip tstamp c code len =
      line_start ip tstamp (or_dash (visible c.clt_remote_user)) c code len ++ codes "\n" ∷ []
  log_texts combined ip tstamp c code len =
      line_start ip tstamp (user_or_subject c.clt_remote_user) c code len
      ++ (combined_texts c ++ codes "\n" ∷ [])
  log_texts forwarded ip tstamp c code len =
      line_start ip tstamp (user_or_subject c.clt_remote_user) c code len
      ++ (combined_texts c ++ (forwarded_texts c ++ codes "\n" ∷ []))
  log_texts connection ip tstamp c code len =
      codes " [" ∷ or_empty (encoded c.desc.http_path) ∷ codes "]" ∷ []

  -- `clt_log`; `none` is -1. The time is none where it cannot be had.
  unfoldable pub server_log_http :
      Bool → LogFormat → Option Bytes → Session → ℕ → ℕ → Bytes → Option Bytes
  unfolding log_texts join
  server_log_http flag_log logformat time c code len clt_log =
      if flag_log
      then (then_do time λ tstamp.
          then_do c.clt_ss.text
            λ ip. some (clt_log ++ join (log_texts logformat ip tstamp c code len)))
      else some clt_log
