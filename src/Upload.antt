-- ===== src/Upload.antt =====
-- The body of a request with a Content-Length: `server_read_httpcontent` of
-- usr.sbin/httpd/server_http.c, which passes it on to the FastCGI server by `fcgi_add_stdin`.
-- libevent's `bufferevent_write` is a parameter; a buffer that was written is empty.
pub mod Pieces
use fuzz_httpd.Base.{
  ℕ, zero, suc, ◌-◌, ◌≡◌, refl, Bool, true, false, [], ◌∷◌, Option, none, some, Bytes, is_empty,
  length, ltb, if◌then◌else◌,
}
use fuzz_httpd.RequestLine.{
  Client, Callback, ClientToread, left, http_header, read_http, read_httpcontent,
}
use fuzz_httpd.Fcgi.{fcgi_add_stdin}

-- What a call ends in, with what was written to the FastCGI server: a return, a call of another
-- callback, or `server_close` for an error.
pub data Upload : Type 0 where
  returns calls : Client → Bytes → Upload
  fails : Upload

abbrev pub is_content : Callback → Bool
is_content read_httpcontent = true
is_content _ = false

-- The last record; its failure is not looked at.
abbrev pub ending : Option Bytes → Bytes → Bytes
ending none out = out
ending (some out') out = out'

module _ (bufferevent_write : Bytes → Bytes → Option Bytes) where
  -- behind the data
  abbrev pub after_data : ClientToread → Client → Bytes → Upload
  after_data (left zero) c out =
      returns (record c { clt_toread = http_header; reads = false; readcb = read_http })
        (ending (fcgi_add_stdin bufferevent_write none out) out)
  after_data _ c out =
      if c.clt_done
      then returns c out
      else if is_content c.readcb
      then returns c out
      else calls c out

  -- behind `fcgi_add_stdin` of the whole buffer, with what is then left to read
  abbrev pub passed_on : Option Bytes → ℕ → Client → Upload
  passed_on none n c = fails
  passed_on (some out) n c = after_data (left n) (record c { clt_toread = left n; input = [] }) out

  -- with a body of `n` bytes to come, above 0
  abbrev pub read_body : ℕ → Client → Bytes → Upload
  read_body n c out =
      passed_on (fcgi_add_stdin bufferevent_write (some c.input) out)
        (if ltb n (length c.input) then 0 else n - length c.input) c

  abbrev pub on_toread : ClientToread → Client → Bytes → Upload
  on_toread (left (suc n)) c out = read_body (suc n) c out
  on_toread toread c out = after_data toread c out

  unfoldable pub server_read_httpcontent : Client → Bytes → Upload
  server_read_httpcontent c out =
      if is_empty c.input then returns c out else on_toread c.clt_toread c out
