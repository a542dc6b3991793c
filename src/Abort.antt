-- ===== src/Abort.antt =====
-- Pages for errors: `server_abort_http`, `read_errdoc` and `replace_var` of
-- usr.sbin/httpd/server_http.c. The decimal numbers of `printf`, the file system, `stravis`, the date of
-- `server_http_time`, and whether `server_log_http` and `print_host` succeed are parameters.
-- So is IBUF_READ_SIZE of libutil. Allocation is assumed to succeed.
pub mod Pages
pub mod Silent
use fuzz_httpd.Base.{
  ℕ, zero, suc, ◌+◌, ◌-◌, Bool, true, false, not, ◌&&◌, ◌||◌, [], ◌∷◌, ◌++◌, Option, none, some,
  Bytes, c_str, codes, leb, length, ltb, replicate, ◌==◌, if◌then◌else◌,
}
use fuzz_httpd.Expand.{or_empty, server_expand_http, strstr}
use fuzz_httpd.Http.{server_httperror_byid}
use fuzz_httpd.Reply.{Config, hsts_value, is_head, then_do}
use fuzz_httpd.Server.{ServerConfig, Session}

-- What is written to the client, if anything, and the message that `server_close` is called with.
-- `fuel_gone` belongs to the model only.
pub data Aborted : Type 0 where
  closes : Option Bytes → Bytes → Aborted
  fuel_gone : Aborted

-- HTTPD_SERVERNAME
abbrev pub httpd_servername : Bytes
httpd_servername = codes "OpenBSD httpd"

-- a round of the loop, behind `strstr`
abbrev pub replace_round :
    (Bytes → Option Bytes) → Bytes → Bytes → Option (Bytes × Bytes) → Option Bytes
replace_round next str repl none = some str
replace_round next str repl (some (before, behind)) = next (before ++ (repl ++ behind))

-- The loop starts again at the start of the text. `none` is out of fuel.
unfoldable pub replace_loop : ℕ → Bytes → Bytes → Bytes → Option Bytes
unfolding strstr
replace_loop zero str var repl = none
replace_loop (suc fuel) str var repl =
    replace_round (λ str'. replace_loop fuel str' var repl) str repl (strstr var str)

-- `fuel` is one for each byte, and one more.
unfoldable pub replace_var : Bytes → Bytes → Bytes → Option Bytes
unfolding replace_loop
replace_var str var repl = replace_loop (length str + 1) str var repl

-- the codes of a redirection
abbrev pub is_redirect : ℕ → Bool
is_redirect code = code == 301 || code == 302 || code == 303 || code == 307 || code == 308

-- the style of the page
abbrev pub style : Bytes
style =
    codes
      "body { background-color: white; color: black; font-family: 'Comic Sans MS', 'Chalkboard SE', 'Comic Neue', sans-serif; }\nhr { border: 0; border-bottom: 1px dashed; }\n@media (prefers-color-scheme: dark) {\nbody { background-color: #1E1F21; color: #EEEFF1; }\na { color: #BAD7FF; }\n}"

-- the header that goes with a code, and the message of the log
pub record Extra : Type 0 where
  pub extraheader : Bytes
  pub msg : Option Bytes

-- the codes without a body
abbrev pub is_bodiless_code : ℕ → Bool
is_bodiless_code code = leb 100 code && ltb code 200 || code == 204

-- behind `server_httperror_byid`
abbrev pub or_unknown : Option Bytes → Bytes
or_unknown none = codes "Unknown Error"
or_unknown (some httperr) = httperr

-- the first text, or else the second
abbrev pub or_else : Option Bytes → Option Bytes → Option Bytes
or_else none other = other
or_else (some text) other = some text

abbrev pub or_quotes : Option Bytes → Bytes
or_quotes none = codes "\"\""
or_quotes (some msg) = msg

abbrev pub hsts_line : (ℕ → Bytes) → Config → Bytes
hsts_line number conf =
    if conf.server_hsts && conf.server_tls
    then codes "Strict-Transport-Security: " ++ (hsts_value number conf ++ codes "\r\n")
    else []

-- `%03u`
abbrev pub code_text : (ℕ → Bytes) → ℕ → Bytes
code_text number code = replicate (3 - length (number code)) b'0' ++ number code

module _ (number : ℕ → Bytes) (read_file : Bytes → Option Bytes) (stravis : Bytes → Bytes)
    (ibuf_read_size : ℕ) where
  -- A NUL in the file ends the text.
  unfoldable pub read_errdoc : Bytes → Bytes → Option Bytes
  read_errdoc root file =
      then_do (read_file (root ++ (codes "/" ++ (file ++ codes ".html"))))
        (λ text. some (c_str text))

  -- the switch on the code; `none` is the early end where the location does not expand
  unfoldable pub extra : ℕ → Option Bytes → Session → Option Extra
  unfolding server_expand_http
  extra code none c = some (record { extraheader = []; msg = none })
  extra code (some text) c =
      if is_redirect code
      then then_do (server_expand_http number c text ibuf_read_size) (λ buf.
        some (record { extraheader = codes "Location: " ++ (buf ++ codes "\r\n"); msg = some buf }))
      else if code == 401
      then some (record {
        extraheader = codes "WWW-Authenticate: Basic realm=\"" ++ (stravis text ++ codes "\"\r\n");
        msg = some text;
      })
      else if code == 416
      then some (record {
        extraheader = codes "Content-Range: " ++ (text ++ codes "\r\n");
        msg = some text;
      })
      else some (record { extraheader = []; msg = some text })

  -- the file for an error
  abbrev pub find_errdoc : ServerConfig → ℕ → Option Bytes
  find_errdoc srv_conf code =
      if srv_conf.flag_errdocs && ltb (length (code_text number code)) 5
      then or_else (read_errdoc srv_conf.errdocroot (code_text number code))
          (read_errdoc srv_conf.errdocroot (codes "err"))
      else none

  abbrev pub builtin_page : ℕ → Bytes → Bytes
  builtin_page code httperr =
      codes "<!DOCTYPE html>\n<html>\n<head>\n<meta charset=\"utf-8\">\n<title>"
      ++ (code_text number code
          ++ (codes " "
              ++ (httperr
                  ++ (codes "</title>\n<style type=\"text/css\"><!--\n"
                      ++ (style
                          ++ (codes "\n--></style>\n</head>\n<body>\n<h1>"
                              ++ (code_text number code
                                  ++ (codes " "
                                      ++ (httperr
                                          ++ (codes "</h1>\n<hr>\n<address>"
                                              ++ (httpd_servername
                                                  ++ codes
                                                      "</address>\n</body>\n</html>\n")))))))))))

  -- The body; `none` is out of fuel.
  unfoldable pub error_body : ℕ → Bytes → Option Bytes → Option Bytes
  unfolding replace_var
  error_body code httperr none = some (builtin_page code httperr)
  error_body code httperr (some text) =
      then_do (replace_var text (codes "$HTTP_ERROR") httperr) λ body.
        then_do (replace_var body (codes "$RESPONSE_CODE") (code_text number code))
          λ body'. replace_var body' (codes "$SERVER_SOFTWARE") httpd_servername

  -- the reply
  abbrev pub error_reply : ℕ → Bytes → Bytes → Config → Bool → Bytes → Bytes → Bytes
  error_reply code httperr tmbuf conf head extraheader body =
      codes "HTTP/1.0 "
      ++ (code_text number code
          ++ (codes " "
              ++ (httperr
                  ++ (codes "\r\nDate: "
                      ++ (tmbuf
                          ++ (codes "\r\nServer: "
                              ++ (httpd_servername
                                  ++ (codes "\r\nConnection: close\r\nContent-Type: text/html\r\n"
                                      ++ ((if is_bodiless_code code
                                            then []
                                            else codes "Content-Length: "
                                              ++ (number (length body) ++ codes "\r\n"))
                                          ++ (extraheader
                                              ++ (hsts_line number conf
                                                  ++ (codes "\r\n"
                                                      ++ (if head || is_bodiless_code code
                                                          then []
                                                          else body)))))))))))))

  -- the message of `server_close`
  abbrev pub close_text : ℕ → Bytes → Option Bytes → Bytes
  close_text code httperr msg =
      or_quotes msg
      ++ (codes " (" ++ (code_text number code ++ (codes " " ++ (httperr ++ codes ")"))))

  abbrev pub with_body : ℕ → Bytes → Bytes → Config → Session → Extra → Option Bytes → Aborted
  with_body code httperr tmbuf conf c e none = fuel_gone
  with_body code httperr tmbuf conf c e (some body) =
      closes
        (some (error_reply code httperr tmbuf conf (is_head c.desc.http_method) e.extraheader body))
        (close_text code httperr e.msg)

  abbrev pub with_extra :
      ℕ → Bytes → Bytes → Config → Option Bytes → Session → Option Extra → Aborted
  with_extra code httperr tmbuf conf msg c none = closes none (close_text code httperr msg)
  with_extra code httperr tmbuf conf msg c (some e) =
      with_body code httperr tmbuf conf c e
        (error_body code httperr (find_errdoc c.clt_srv_conf code))

  -- `can_write` is whether there is a bufferevent and `server_log_http` and `print_host` succeed, `date`
  -- what `server_http_time` gives.
  abbrev pub with_date : ℕ → Bytes → Config → Option Bytes → Session → Option Bytes → Aborted
  with_date code httperr conf msg c none = closes none (close_text code httperr msg)
  with_date code httperr conf msg c (some tmbuf) =
      with_extra code httperr tmbuf conf msg c (extra code msg c)

  unfoldable pub server_abort_http :
      Bool → Option Bytes → Config → ℕ → Option Bytes → Session → Aborted
  unfolding extra error_body server_httperror_byid
  server_abort_http can_write date conf code msg c =
      let httperr = or_unknown (server_httperror_byid code) in
      if code == 0
      then closes none (codes "dropped")
      else if can_write
      then with_date code httperr conf msg c date
      else closes none (close_text code httperr msg)
