-- ===== src/Request.antt =====
-- The head of a request: the loop of `server_read_http` of usr.sbin/httpd/server_http.c and what follows
-- it. libevent's `evbuffer_readln` is a parameter: the line up to the next CRLF and what follows it, or
-- `none`.
pub mod Lengths
pub mod Head
pub mod Framing
pub mod Print
pub mod FirstLine
pub mod RoundTrip
use fuzz_httpd.RequestLine.{
  Callback, Client, ClientToread, HttpDescriptor, Line, aborts, add_header, chunk_length,
  chunk_trailer, content_length, extended, handle_line, has_no_length, header_line, http_header,
  http_version_num, is_blank, is_no_method, left, next_line, note_chunked, nothing, read_http,
  read_httpchunks, read_httpcontent, read_stream, request_line, server_maxheaderlength, set_length,
  set_query, set_target, set_version, then_chunked, then_header, unlimited,
}
use fuzz_httpd.Base.{
  ℕ, zero, suc, ◌+◌, ◌<◌, Bool, true, false, ◌&&◌, ◌||◌, not, [], ◌∷◌, ◌≡◌, refl, Option, none,
  some, Bytes, codes, c_str, cut, char_at, strtonum, str_case_eq, str_eq, take, is_alpha, is_digit,
  is_empty, skip_while, length, ltb, ◌==◌, if◌then◌else◌,
}
use fuzz_httpd.Http.{HttpMethod, server_httpmethod_byname}
use fuzz_httpd.Kv.{Kvtree, KvRef, kv_add, kv_extend}
use fuzz_httpd.Range.{llong_max}

-- How the loop ends; `out_of_fuel` belongs to the model only.
pub data Lines : Type 0 where
  stopped : Client → Lines
  aborted : ℕ → Lines
  out_of_fuel : Lines

abbrev pub then_loop : (Client → Lines) → Line → Lines
then_loop next (aborts code) = aborted code
then_loop next (next_line c) = next c

-- One round, behind `evbuffer_readln`.
unfoldable pub line_round : (Client → Lines) → Option (Bytes × Bytes) → ℕ → Client → Lines
unfolding handle_line
line_round next none size c = if ltb server_maxheaderlength size then aborted 413 else stopped c
line_round next (some (line, rest)) size c =
    if is_empty line
    then stopped (record c { input = rest; clt_headersdone = true })
    else then_loop next (handle_line line (record c { input = rest }))

-- What the body of a request with this method is.
pub data Body : Type 0 where
  stream_body no_body payload refused : Body

abbrev pub body_of : HttpMethod → Body
body_of HttpMethod.connect = stream_body
body_of HttpMethod.get = no_body
body_of HttpMethod.head = no_body
body_of HttpMethod.copy = no_body
body_of HttpMethod.move = no_body
body_of HttpMethod.no_method = refused
body_of HttpMethod.trace = refused
body_of _ = payload

-- `clt_toread > 0`, `clt_toread < 0` and `clt_toread != 0`
abbrev pub is_positive : ClientToread → Bool
is_positive (left n) = ltb 0 n
is_positive _ = false

abbrev pub is_negative : ClientToread → Bool
is_negative (left n) = false
is_negative _ = true

-- What `server_read_http` ends in: `server_abort_http`, `server_response`, `server_close`, a call of
-- another callback, or the wait for more.
pub data Reading : Type 0 where
  abort_http : ℕ → Reading
  responds closes calls waits : Client → Reading
  fuel_gone : Reading

-- `done`
abbrev pub respond : Client → Reading
respond c =
    let pending = is_positive c.clt_toread || is_negative c.clt_toread in
    responds (record c { reads = c.reads && not pending })

abbrev pub then_chunks : Client → Client
then_chunks c =
    if c.desc.http_chunked
    then record c { clt_toread = chunk_length; readcb = read_httpchunks }
    else c

-- the methods with a payload
abbrev pub with_payload : Client → Client
with_payload c = record c {
  readcb = (if is_positive c.clt_toread then read_httpcontent else c.readcb);
  clt_toread =
      (if is_negative c.clt_toread && not c.desc.http_chunked then left 0 else c.clt_toread);
}

-- the switch on the method
abbrev pub by_body : Body → Client → Reading
by_body stream_body c =
    respond (then_chunks (record c { clt_toread = unlimited; readcb = read_stream }))
by_body no_body c = respond (then_chunks (record c { clt_toread = left 0 }))
by_body payload c = respond (then_chunks (with_payload c))
by_body refused c = abort_http 405

-- behind the loop
unfoldable pub headers_read : Client → Reading
headers_read c =
    if is_no_method c.desc.http_method
    then abort_http 406
    else by_body (body_of c.desc.http_method) c

abbrev pub is_read_http : Callback → Bool
is_read_http read_http = true
is_read_http _ = false

unfoldable pub after_lines : Lines → Reading
unfolding headers_read
after_lines out_of_fuel = fuel_gone
after_lines (aborted code) = abort_http code
after_lines (stopped c) =
    let c' = record c { reads = true } in
    if c.clt_headersdone
    then headers_read c
    else if c.clt_done
    then closes c
    else if not (is_empty c.input) && not (is_read_http c.readcb)
    then calls c'
    else waits c'

module _ (evbuffer_readln : Bytes → Option (Bytes × Bytes)) where
  -- The loop; `size` is what the buffer held at the call.
  unfoldable pub read_lines : ℕ → ℕ → Client → Lines
  unfolding line_round is_alpha
  read_lines zero size c = out_of_fuel
  read_lines (suc fuel) size c =
      let rest = line_round (read_lines fuel size) (evbuffer_readln c.input) size c in
      if c.clt_headersdone
      then stopped c
      else if c.clt_line == 0 && not (is_alpha (char_at c.input 0))
      then aborted 400
      else rest

  unfoldable pub server_read_http : Client → Reading
  unfolding read_lines after_lines
  server_read_http c =
      let size = length c.input in
      if size == 0
      then respond (record c { clt_toread = http_header })
      else after_lines (read_lines (size + 1) size c)
