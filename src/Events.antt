-- ===== src/Events.antt =====
-- The callbacks at the end of a reply: `server_file_error` of usr.sbin/httpd/server_file.c,
-- `server_fcgi_error` of server_fcgi.c, and `server_error`, `server_write` and `server_read` of server.c.
-- libevent's `bufferevent_write` is a parameter. The clock is left out.
pub mod Keeps
use fuzz_httpd.Base.{
  ℕ, ◌+◌, ◌*◌, ◌%◌, ◌^◌, Bool, true, false, not, ◌&&◌, ◌||◌, [], Option, none, some, Bytes, codes,
  is_empty, length, ltb, ◌==◌, if◌then◌else◌,
}
use fuzz_httpd.RequestLine.{ClientToread, http_header, nothing}
use fuzz_httpd.Transfer.{server_max_prefetch}

-- The bits of an event, and whether `errno` is EFBIG.
pub record Event : Type 0 where
  pub timeout : Bool
  pub error : Bool
  pub eof : Bool
  pub read : Bool
  pub write : Bool
  pub too_big : Bool

-- `struct client`: what waits in the buffers of its connection, which events are enabled, and where the
-- reply stands.
pub record Conn : Type 0 where
  pub input : Bytes
  pub output : Bytes
  pub reads : Bool
  pub writes : Bool
  pub srv_reads : Bool
  pub throttled : Bool
  pub has_fd : Bool
  pub clt_done : Bool
  pub clt_toread : ClientToread
  pub clt_persist : ℕ
  pub clt_pipelining : ℕ
  pub clt_headersdone : Bool
  pub clt_line : ℕ
  pub clt_sndbufsiz : ℕ
  pub is_head : Bool
  pub fcgi_headersdone : Bool
  pub fcgi_chunked : Bool
  pub fcgi_end : ℕ

-- A callback returns, closes, aborts, or reads the next request.
pub data EventEnd : Type 0 where
  returns : Conn → EventEnd
  closes : Bytes → Conn → EventEnd
  aborts : ℕ → Bytes → Conn → EventEnd
  reads_http : Conn → EventEnd

-- `server_reset_http`, as far as these fields go
abbrev pub server_reset_http : Conn → Conn
server_reset_http c = record c { clt_headersdone = false; clt_done = false; clt_line = 0 }

-- Finish writing all data first.
abbrev pub finish : Conn → EventEnd
finish c =
    if is_empty c.output then closes (codes "done") c else returns (record c { writes = true })

-- the next request, from what is in the buffer
abbrev pub start_next : Conn → EventEnd
start_next c =
    if is_empty c.input
    then returns c
    else reads_http (record c { clt_pipelining = (c.clt_pipelining + 1) % 2 ^ 32 })

-- the end of a reply; the events of the file are off
abbrev pub end_reply : Conn → EventEnd
end_reply c =
    let persist = (if not (c.clt_pipelining == 0) && is_empty c.input then 0 else c.clt_persist) in
    let c' = record c { clt_done = true; clt_persist = persist; srv_reads = false } in
    if persist == 0
    then finish c'
    else start_next (
        server_reset_http
          (record c' { has_fd = false; clt_toread = http_header; reads = true; writes = true }))

unfoldable pub server_file_error : Event → Conn → EventEnd
server_file_error e c =
    if e.timeout
    then closes (codes "buffer event timeout") c
    else if e.error
    then (if e.too_big
        then returns (record c { srv_reads = true })
        else closes (codes "buffer event error") c)
    else if e.read || e.write || e.eof
    then end_reply c
    else closes (codes "unknown event error") c

-- the end of a connection to a client
abbrev pub end_client : Conn → EventEnd
end_client c = finish (record c { reads = false; writes = false; clt_done = true })

unfoldable pub server_error : Event → Conn → EventEnd
server_error e c =
    if e.timeout
    then (if not c.clt_headersdone && ltb 0 c.clt_line
        then aborts 408 (codes "timeout") c
        else closes (codes "timeout") c)
    else if e.error
    then (if e.too_big
        then returns (record c { reads = true })
        else closes (codes "buffer event error") c)
    else if e.eof
    then closes (codes "closed") c
    else if e.read || e.write
    then end_client c
    else closes (codes "unknown event error") c

abbrev pub no_event : Event
no_event = record {
  timeout = false;
  error = false;
  eof = false;
  read = false;
  write = false;
  too_big = false;
}

-- `clt_toread == TOREAD_HTTP_NONE`
abbrev pub is_nothing : ClientToread → Bool
is_nothing nothing = true
is_nothing _ = false

-- what is throttled may be read again
abbrev pub unthrottle : Conn → Conn
unthrottle c = if c.throttled then record c { srv_reads = true; throttled = false } else c

-- The buffers of a client are written; `openbsd` is whether the code is built there.
unfoldable pub server_write : Bool → Conn → EventEnd
unfolding server_error
server_write openbsd c =
    if is_empty c.output && is_nothing c.clt_toread || c.clt_done
    then server_error (record no_event { write = true }) c
    else returns (unthrottle (if openbsd then c else record c { reads = true }))

module _ (bufferevent_write : Bytes → Bytes → Option Bytes) where
  -- Behind the write; too much in the buffer stops the reading.
  abbrev pub after_write : Option Bytes → Conn → EventEnd
  after_write none c = closes [] c
  after_write (some out) c =
      if c.clt_done
      then server_file_error (record no_event { read = true }) (record c { output = out })
      else if ltb (server_max_prefetch * c.clt_sndbufsiz) (length out)
      then returns (record c { output = out; srv_reads = false; throttled = true })
      else returns (record c { output = out })

  -- A part of the file is there. The message of an error is that of `errno`, left out.
  unfoldable pub server_read : Bytes → Conn → EventEnd
  unfolding server_file_error
  server_read src c =
      if is_empty src then returns c else after_write (bufferevent_write c.output src) c

  -- the end marker, if it was not sent
  abbrev pub or_unwritten : Conn → Option Bytes → Conn
  or_unwritten c none = record c { fcgi_end = c.fcgi_end + 1 }
  or_unwritten c (some out) = record c { fcgi_end = c.fcgi_end + 1; output = out }

  -- `!clt->clt_fcgi.end++`
  abbrev pub end_chunks : Conn → Conn
  end_chunks c =
      if c.fcgi_end == 0
      then or_unwritten c (bufferevent_write c.output (codes "0\r\n\r\n"))
      else record c { fcgi_end = c.fcgi_end + 1 }

  unfoldable pub server_fcgi_error : Event → Conn → EventEnd
  unfolding server_file_error
  server_fcgi_error e c =
      if e.eof && not c.fcgi_headersdone
      then aborts 500 (codes "malformed or no headers") c
      else server_file_error e (if not c.is_head && c.fcgi_chunked then end_chunks c else c)
