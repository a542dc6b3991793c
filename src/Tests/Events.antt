-- ===== src/Tests/Events.antt =====
-- The end of a reply with chunks.
use fuzz_httpd.Base.{◌&&◌, not, ◌≡◌, ◌++◌, refl, false, true, [], Option, some, Bytes, codes}
use fuzz_httpd.Events.{Conn, Event, no_event, returns, closes, server_fcgi_error, server_write}
use fuzz_httpd.Events.Keeps.{Keeps, server_fcgi_error-Keeps}
use fuzz_httpd.RequestLine.{nothing}

abbrev write : Bytes → Bytes → Option Bytes
write out b = some (out ++ b)

abbrev conn : Conn
conn = record {
  input = [];
  output = codes "last";
  reads = true;
  writes = true;
  srv_reads = true;
  throttled = false;
  has_fd = true;
  clt_done = false;
  clt_toread = nothing;
  clt_persist = 0;
  clt_pipelining = 0;
  clt_headersdone = true;
  clt_line = 3;
  clt_sndbufsiz = 10;
  is_head = false;
  fcgi_headersdone = true;
  fcgi_chunked = true;
  fcgi_end = 0;
}

abbrev eof_event : Event
eof_event = record no_event { eof = true }

abbrev ended : Conn
ended = record conn {
  output = codes "last0\r\n\r\n";
  fcgi_end = 1;
  clt_done = true;
  srv_reads = false;
}

marker : server_fcgi_error write eof_event conn ≡ returns ended
unfolding server_fcgi_error
marker = refl

-- When all is written, the connection is closed.
abbrev drained : Conn
drained = record ended { output = []; reads = false; writes = false }

closed : server_write true (record ended { output = [] }) ≡ closes (codes "done") drained
unfolding server_write
closed = refl

server_fcgi_error-Keeps_example :
    Keeps
      (eof_event.eof && not conn.fcgi_headersdone)
      (codes "last")
      (server_fcgi_error write eof_event conn)
server_fcgi_error-Keeps_example =
    server_fcgi_error-Keeps write (λ a b. refl) eof_event conn
      (record { in_time = refl; no_error = refl; ends = refl })
