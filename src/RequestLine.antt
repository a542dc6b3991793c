-- ===== src/RequestLine.antt =====
-- One line of the head of a request: what `server_read_http` of usr.sbin/httpd/server_http.c does with
-- it, and `http_version_num`, on the fields of `struct client` and `struct http_descriptor` that they
-- use. Allocation is assumed to succeed.
use fuzz_httpd.Base.{
  ℕ, suc, ◌+◌, Bool, true, false, ◌&&◌, ◌||◌, not, Option, none, some, Bytes, codes, c_str, cut,
  char_at, strtonum, str_case_eq, str_eq, take, is_digit, skip_while, length, ltb, ◌==◌,
  if◌then◌else◌,
}
use fuzz_httpd.Http.{HttpMethod, server_httpmethod_byname}
use fuzz_httpd.Kv.{Kvtree, KvRef, kv_add, kv_extend}
use fuzz_httpd.Range.{llong_max}

-- `clt_toread`: a number of bytes, or one of the codes of `enum httpchunk`
pub data ClientToread : Type 0 where
  left : ℕ → ClientToread
  unlimited http_header chunk_length chunk_trailer nothing : ClientToread

-- `bev->readcb`: `server_read_http`, `server_read_httpcontent`, `server_read_httpchunks` or
-- `server_read`
pub data Callback : Type 0 where
  read_http read_httpcontent read_httpchunks read_stream : Callback

-- `struct http_descriptor`
pub record HttpDescriptor : Type 0 where
  pub http_method : HttpMethod
  pub http_path : Option Bytes
  pub http_query : Option Bytes
  pub http_version : Option Bytes
  pub http_chunked : Bool
  pub http_headers : Kvtree
  pub http_lastheader : Option KvRef

-- `struct client`, with the input buffer and whether reading is enabled
pub record Client : Type 0 where
  pub desc : HttpDescriptor
  pub clt_toread : ClientToread
  pub clt_headerlen : ℕ
  pub clt_headersdone : Bool
  pub clt_line : ℕ
  pub clt_done : Bool
  pub readcb : Callback
  pub input : Bytes
  pub reads : Bool

abbrev pub server_maxheaderlength : ℕ
server_maxheaderlength = 8192

-- What a line leads to: the next round, or `server_abort_http` with a status.
pub data Line : Type 0 where
  next_line : Client → Line
  aborts : ℕ → Line

-- `none` is -1.
unfoldable pub http_version_num : Bytes → Option ℕ
unfolding is_digit
http_version_num version =
    if not (length version == 8)
      || not (str_eq (take 5 version) (codes "HTTP/"))
      || not (is_digit (char_at version 5))
      || not (char_at version 6 == b'.')
      || not (is_digit (char_at version 7))
    then none
    else if char_at version 5 == b'0' && char_at version 7 == b'9'
    then some 9
    else if char_at version 5 == b'1'
    then some (if char_at version 7 == b'0' then 10 else 11)
    else some 0

abbrev pub is_blank : ℕ → Bool
is_blank c = c == 32 || c == 9 || c == 13 || c == 10

-- behind the handling of the first line and of Content-Length
unfoldable pub note_chunked : Bytes → Bytes → Client → Client
note_chunked key value c =
    if str_case_eq (codes "Transfer-Encoding") key && str_case_eq (codes "chunked") value
    then record c { desc = record c.desc { http_chunked = true } }
    else c

-- Whether it is HTTP_METHOD_TRACE or HTTP_METHOD_CONNECT
abbrev pub has_no_length : HttpMethod → Bool
has_no_length HttpMethod.trace = true
has_no_length HttpMethod.connect = true
has_no_length _ = false

abbrev pub is_no_method : HttpMethod → Bool
is_no_method HttpMethod.no_method = true
is_no_method _ = false

-- the path and the query, at the first question mark
abbrev pub set_query : Option (Bytes × Bytes) → Bytes → HttpDescriptor → HttpDescriptor
set_query none path d = record d { http_path = some path }
set_query (some (path', query)) path d = record d {
  http_path = some path';
  http_query = some query;
}

-- The version that is kept for the number that `http_version_num` gave.
abbrev pub set_version : Option ℕ → Bytes → Bytes → Client → Line
set_version none path version c = aborts 400
set_version (some n) path version c =
    if n == 0
    then aborts 505
    else let kept = if n == 11 then codes "HTTP/1.1" else version in
      let d = set_query (cut b'?' path) path (record c.desc { http_version = some kept }) in
      next_line (record c { desc = d })

-- behind the method: the path and the version, cut at a space
unfoldable pub set_target : Option (Bytes × Bytes) → Client → Line
unfolding http_version_num
set_target none c = aborts 400
set_target (some (path, version)) c = set_version (http_version_num version) path version c

abbrev pub then_chunked : Bytes → Bytes → Line → Line
then_chunked key value (aborts code) = aborts code
then_chunked key value (next_line c) = next_line (note_chunked key value c)

-- the first line, cut at a space
unfoldable pub request_line : Option (Bytes × Bytes) → Client → Line
unfolding set_target note_chunked
request_line none c = aborts 400
request_line (some (key, value)) c =
    let m = server_httpmethod_byname key in
    if is_no_method m
    then aborts 400
    else then_chunked key value
        (set_target (cut 32 value) (record c { desc = record c.desc { http_method = m } }))

-- behind `strtonum` of a Content-Length
abbrev pub set_length : Option ℕ → Client → Line
set_length none c = aborts 500
set_length (some n) c = next_line (record c { clt_toread = left n })

unfoldable pub content_length : Bytes → Bytes → Client → Line
content_length key value c =
    if not (is_no_method c.desc.http_method) && str_case_eq (codes "Content-Length") key
    then if has_no_length c.desc.http_method
      then aborts 400
      else set_length (strtonum value 0 llong_max) c
    else next_line c

abbrev pub add_header : Bytes → Bytes → Client → Client
add_header key value c =
    let (headers, hdr) = kv_add c.desc.http_headers (some key) (some value) in
    record c { desc = record c.desc { http_headers = headers; http_lastheader = hdr } }

abbrev pub then_header : Bytes → Bytes → Line → Line
then_header key value (aborts code) = aborts code
then_header key value (next_line c) = next_line (add_header key value (note_chunked key value c))

-- a header, cut at a colon
unfoldable pub header_line : Option (Bytes × Bytes) → Client → Line
unfolding note_chunked content_length
header_line none c = aborts 400
header_line (some (key, rest)) c =
    let value = skip_while is_blank rest in then_header key value (content_length key value c)

-- behind `kv_extend`, which fails if there is no last header
abbrev pub extended : Kvtree × Option KvRef → Client → Line
extended (headers, none) c = aborts 500
extended (headers, some hdr) c =
    next_line (record c { desc = record c.desc { http_headers = headers } })

-- A line that is not empty. `linelen` counts the bytes behind a NUL too, where the text ends.
unfoldable pub handle_line : Bytes → Client → Line
unfolding request_line header_line
handle_line line c =
    let key = c_str line in
    let c' = record c {
      clt_headerlen = c.clt_headerlen + length line;
      clt_line = suc c.clt_line;
    } in
    if ltb server_maxheaderlength (c.clt_headerlen + length line)
    then aborts 413
    else if c.clt_line == 0
    then request_line (cut 32 key) c'
    else if char_at key 0 == 32 || char_at key 0 == 9
    then extended (kv_extend c.desc.http_headers c.desc.http_lastheader key) c'
    else header_line (cut b':' key) c'
