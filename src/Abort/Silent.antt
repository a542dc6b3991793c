-- ===== src/Abort/Silent.antt =====
-- What a client learns from `server_abort_http` of server_http.c.
use fuzz_httpd.Base.{ℕ, ◌≡◌, refl, Bool, false, ◌||◌, [], Option, none, some, Bytes, ◌==◌, arith}
use fuzz_httpd.Abort.{
  Aborted, closes, fuel_gone, extra, error_body, find_errdoc, is_redirect, or_unknown,
  server_abort_http, with_body, with_date,
}
use fuzz_httpd.Http.{server_httperror_byid}
use fuzz_httpd.Reply.{Config}
use fuzz_httpd.Server.{Session}

-- what the client gets
abbrev pub reply_of : Aborted → Option Bytes
reply_of (closes reply msg) = reply
reply_of fuel_gone = none

-- a code whose message goes into a header
abbrev pub tells : ℕ → Bool
tells code = is_redirect code || (code == 401 || code == 416)

module _ (number : ℕ → Bytes) (read_file : Bytes → Option Bytes) (stravis : Bytes → Bytes)
    (ibuf_read_size : ℕ) where
  extra-silent :
      (code : ℕ) (msg : Option Bytes) (c : Session)
      → tells code ≡ false
      → extra number read_file stravis ibuf_read_size code msg c
        ≡ some (record { extraheader = []; msg = msg })
  unfolding extra
  extra-silent code none c h = refl
  extra-silent code (some text) c h = ground (arith, h)

  with_body-silent :
      (code : ℕ) (httperr tmbuf : Bytes) (conf : Config) (c : Session) (m m' o : Option Bytes)
      → reply_of (
          with_body number read_file stravis ibuf_read_size code httperr tmbuf conf c
            (record { extraheader = []; msg = m })
            o)
        ≡ reply_of (
            with_body number read_file stravis ibuf_read_size code httperr tmbuf conf c
              (record { extraheader = []; msg = m' })
              o)
  with_body-silent code httperr tmbuf conf c m m' none = refl
  with_body-silent code httperr tmbuf conf c m m' (some body) = refl

  with_date-silent :
      (code : ℕ) (httperr : Bytes) (conf : Config) (m m' : Option Bytes) (c : Session)
      (date : Option Bytes)
      → tells code ≡ false
      → reply_of (with_date number read_file stravis ibuf_read_size code httperr conf m c date)
        ≡ reply_of (with_date number read_file stravis ibuf_read_size code httperr conf m' c date)
  with_date-silent code httperr conf m m' c none h = refl
  with_date-silent code httperr conf m m' c (some tmbuf) h = rw (extra-silent code m c h) (
      rw (extra-silent code m' c h) (
        with_body-silent code httperr tmbuf conf c m m' (
          error_body number read_file stravis ibuf_read_size code httperr
            (find_errdoc number read_file stravis ibuf_read_size c.clt_srv_conf code))))

  -- For a code that is not a redirection, 401 or 416, the client gets the same bytes whatever the
  -- message is: no detail of an error leaves the server.
  pub server_abort_http-silent :
      (can_write : Bool) (date : Option Bytes) (conf : Config) (code : ℕ) (msg msg' : Option Bytes)
      (c : Session)
      → tells code ≡ false
      → reply_of
          (server_abort_http number read_file stravis ibuf_read_size can_write date conf code msg c)
        ≡ reply_of (
            server_abort_http number read_file stravis ibuf_read_size can_write date conf code msg'
              c)
  unfolding server_abort_http
  server_abort_http-silent can_write date conf code msg msg' c h = ground (
    arith,
    with_date-silent code (or_unknown (server_httperror_byid code)) conf msg msg' c date h,
  )
