-- ===== src/FcgiRead.antt =====
-- The responses of a FastCGI server: `server_fcgi_read`, `server_fcgi_header` and
-- `server_fcgi_writechunk` of usr.sbin/httpd/server_fcgi.c. `bufferevent_read` takes the bytes that are
-- there, up to the number that is asked for. libevent's `bufferevent_write` and the numbers of `printf`
-- are parameters, and so are whether `server_log_http` succeeds and the date. Allocation is assumed to
-- succeed.
mod Cut
pub mod Padding
pub mod Loop
pub mod Arrival
pub mod Records
pub mod Early
pub mod Lines
use fuzz_httpd.FcgiHead.{
  FcgiClient, FcgiData, FcgiState, before_eol, before_gap, evbuffer_getline, fcgi_end_request,
  fcgi_header, fcgi_stderr, fcgi_stdout, get_headers, get_string, header_round, header_size, is_gap,
  known_status, read_content, read_header, read_padding, reset_http, server_fcgi_getheaders,
  set_headers, status_of,
}
use fuzz_httpd.Base.{
  ℕ, zero, suc, ◌+◌, ◌-◌, ◌*◌, ◌≡◌, refl, Bool, true, false, ◌&&◌, ◌||◌, not, List, [], ◌∷◌, ◌++◌,
  Option, none, some, Bytes, codes, char_at, cut, drop, is_empty, is_print, is_space, length, ltb,
  skip_while, str_case_eq, strtonum, take, ◌==◌, if◌then◌else◌,
}
use fuzz_httpd.Http.{HttpMethod, server_httperror_byid}
use fuzz_httpd.Kv.{Kv, Kvtree, kv_find}
use fuzz_httpd.RequestLine.{ClientToread, http_header, nothing}
use fuzz_httpd.Reply.{
  ReplyState, Config, then_do, add, add_connection, add_hsts, is_head, print_all, write_head,
}

-- What the end of a record leads to.
pub data Record : Type 0 where
  next_record : FcgiClient → Record
  aborts : ℕ → Record

-- What a call ends in: `server_abort_http`, or the wait for more. `fuel_gone` belongs to the model only.
pub data FcgiReading : Type 0 where
  waits : FcgiClient → FcgiReading
  aborted : ℕ → FcgiReading
  fuel_gone : FcgiReading

module _ (bufferevent_write : Bytes → Bytes → Option Bytes) (number hex : ℕ → Bytes) (logged : Bool)
    (conf : Config) (now : Option Bytes) where
  -- `none` is -1.
  unfoldable pub server_fcgi_writechunk : FcgiClient → Option FcgiClient
  server_fcgi_writechunk c =
      let len = if c.clt_fcgi.type == fcgi_end_request then 0 else length c.clt_srvevb in
      let chunk = take len c.clt_srvevb in
      let more = record c {
        clt_fcgi = record c.clt_fcgi {
          end = (if len == 0 then c.clt_fcgi.end + 1 else c.clt_fcgi.end);
        };
        clt_srvevb = drop len c.clt_srvevb;
      } in
      if c.clt_fcgi.chunked
      then if len == 0 && not (c.clt_fcgi.end == 0)
        then some (record c { clt_fcgi = record c.clt_fcgi { end = c.clt_fcgi.end + 1 } })
        else then_do
            (print_all bufferevent_write ((hex len ++ codes "\r\n") ∷ chunk ∷ codes "\r\n" ∷ [])
              c.reply.output)
            (λ out. some (record more { reply = record c.reply { output = out } }))
      else if len == 0
      then some c
      else then_do (bufferevent_write c.reply.output c.clt_srvevb)
          (λ out. some (record c { reply = record c.reply { output = out }; clt_srvevb = [] }))

  abbrev pub has_header : Bytes → Kvtree → Bool
  has_header key keys = elim (kv_find keys key) [ none ↦ false | some kv ↦ true ]

  -- an empty body has a length, unless the method is HEAD
  abbrev pub add_no_length : HttpMethod → Kvtree → Kvtree
  add_no_length m keys =
      if is_head m || has_header (codes "Content-Length") keys
      then keys
      else add (codes "Content-Length") (codes "0") keys

  -- `none` is a date that is neither there nor known.
  abbrev pub add_date : Kvtree → Option Kvtree
  add_date keys =
      if has_header (codes "Date") keys
      then some keys
      else then_do now (λ date. some (add (codes "Date") date keys))

  -- whether the body is chunked, and the headers up to that of the encoding
  abbrev pub encoding : FcgiClient → Bool × Kvtree
  encoding c =
      let keys = add (codes "Server") (codes "OpenBSD httpd") c.reply.http_headers in
      if c.clt_fcgi.type == fcgi_end_request || is_empty c.clt_srvevb
      then (false, add_no_length c.http_method keys)
      else if c.clt_fcgi.chunked
      then (if has_header (codes "Content-Length") keys
          then (false, keys)
          else (true, add (codes "Transfer-Encoding") (codes "chunked") keys))
      else (false, keys)

  -- the reply with its status and headers
  abbrev pub fcgi_reply : ℕ → Bytes → Kvtree → FcgiClient → ReplyState
  fcgi_reply code error keys c = record c.reply {
    http_rescode = number code;
    http_resmesg = error;
    http_headers = keys;
  }

  unfoldable pub server_fcgi_header : ℕ → FcgiClient → Option FcgiClient
  unfolding write_head
  server_fcgi_header code c = then_do (server_httperror_byid code) λ error.
      if logged
      then (let (is_chunked, keys) = encoding c in
          then_do (add_date (add_hsts number conf (add_connection c.reply.clt_persist keys)))
            λ keys'.
              let r = fcgi_reply code error keys' c in
              then_do (write_head bufferevent_write r) λ out. some (record c {
                clt_fcgi = record c.clt_fcgi { headerssent = true; chunked = is_chunked };
                reply = record r { output = out };
              }))
      else none

  -- FCGI_END_REQUEST, behind the last chunk
  abbrev pub end_request : FcgiClient → FcgiClient
  end_request c =
      if c.clt_fcgi.type == fcgi_end_request
      then reset_http (record c {
        reply = record c.reply {
          clt_toread = (if c.reply.clt_persist then http_header else nothing);
        };
      })
      else c

  -- behind the header: there is no content for HEAD
  abbrev pub send_content : FcgiClient → Option FcgiClient
  send_content c =
      if c.clt_fcgi.headerssent && is_head c.http_method then some c else server_fcgi_writechunk c

  abbrev pub send_header : FcgiClient → Option FcgiClient
  send_header c =
      if c.clt_fcgi.headersdone && not c.clt_fcgi.headerssent
      then server_fcgi_header c.clt_fcgi.status c
      else some c

  -- the case FCGI_END_REQUEST; `none` is an abort
  unfoldable pub send : FcgiClient → Option FcgiClient
  unfolding server_fcgi_header server_fcgi_writechunk
  send c = then_do (send_header c) λ c'. then_do (send_content c') λ c''. some (end_request c'')

  -- behind `server_fcgi_getheaders`
  abbrev pub headers_done : FcgiClient × Bool → Option FcgiClient
  headers_done (c, done) =
      let c' = record c { clt_fcgi = record c.clt_fcgi { headersdone = done } } in
      if is_empty c'.clt_srvevb then some c' else send c'

  -- the switch on the type
  unfoldable pub on_content : FcgiClient → Option FcgiClient
  unfolding send server_fcgi_getheaders
  on_content c =
      let counted = record c { clt_chunk = c.clt_chunk + 1 } in
      if c.clt_fcgi.type == fcgi_stderr
      then some (
          if is_empty c.clt_srvevb
          then c
          else record c { errors = get_string c.clt_srvevb ∷ c.errors })
      else if c.clt_fcgi.type == fcgi_stdout
      then (if c.clt_fcgi.headersdone
          then send counted
          else headers_done (server_fcgi_getheaders counted))
      else if c.clt_fcgi.type == fcgi_end_request
      then send c
      else some c

  -- the next record, or the padding of this one
  abbrev pub after_content : Option FcgiClient → Record
  after_content none = aborts 500
  after_content (some c) =
      let padded = not (c.clt_fcgi.padding_len == 0) in
      next_record (record c {
        clt_srvevb = [];
        clt_fcgi = record c.clt_fcgi {
          state = (if padded then read_padding else read_header);
          toread = (if padded then c.clt_fcgi.padding_len else header_size);
        };
      })

  -- The header of a record: `type`, `content_len` and `padding_len` at their places.
  abbrev pub parse_header : FcgiClient → FcgiClient
  parse_header c = record c {
    clt_srvevb = [];
    clt_fcgi = record c.clt_fcgi {
      state = read_content;
      type = char_at c.clt_srvevb 1;
      toread = char_at c.clt_srvevb 4 * 256 + char_at c.clt_srvevb 5;
      padding_len = char_at c.clt_srvevb 6;
    };
  }

  -- the case FCGI_READ_HEADER
  abbrev pub on_header : FcgiClient → Record
  on_header c =
      if not (c.clt_fcgi.toread == 0)
      then next_record c
      else if c.clt_fcgi.type == fcgi_stdout && c.clt_chunk == 0
      then aborts 500
      else after_content (on_content c)

  abbrev pub on_padding : FcgiClient → Record
  on_padding c = next_record (record c {
    clt_srvevb = [];
    clt_fcgi = record c.clt_fcgi { state = read_header; toread = header_size };
  })

  -- the switch on the state, when all bytes of it are there
  abbrev pub on_state : FcgiState → FcgiClient → Record
  on_state read_header c = on_header (parse_header c)
  on_state read_content c = after_content (on_content c)
  on_state read_padding c = on_padding c

  unfoldable pub complete : FcgiClient → Record
  unfolding on_content
  complete c = on_state c.clt_fcgi.state c

  -- `bufferevent_read` and `evbuffer_add`
  abbrev pub received : Bytes → FcgiClient → FcgiClient
  received some_bytes c = record c {
    clt_srvevb = c.clt_srvevb ++ some_bytes;
    clt_fcgi = record c.clt_fcgi { toread = c.clt_fcgi.toread - length some_bytes };
  }

  -- behind the switch; the loop goes on while bytes were read
  abbrev pub then_next : (FcgiClient → FcgiReading) → Bool → Record → FcgiReading
  then_next next more (aborts code) = aborted code
  then_next next more (next_record c) = if more then next c else waits c

  -- The loop, with the bytes that are there.
  unfoldable pub read_records : ℕ → Bytes → FcgiClient → FcgiReading
  unfolding complete
  read_records zero source c = fuel_gone
  read_records (suc fuel) source c =
      let some_bytes = take c.clt_fcgi.toread source in
      let c' = received some_bytes c in
      let rest =
        then_next (read_records fuel (drop c.clt_fcgi.toread source)) (not (is_empty some_bytes))
          (complete c') in
      if not (c'.clt_fcgi.toread == 0) then waits c' else rest

  unfoldable pub server_fcgi_read : Bytes → FcgiClient → FcgiReading
  unfolding read_records
  server_fcgi_read source c = read_records (length source + 1) source c
