-- ===== src/Request/Framing.antt =====
-- What a call of `server_read_http` ends in, and how the body of the request is then read.
use fuzz_httpd.Base.{ℕ, ◌≤◌, Bool, true, false, ◌≡◌, ◌⊎◌, ltb, if◌then◌else◌}
use fuzz_httpd.Kv.{Kvtree}
use fuzz_httpd.Kv.Order.{Ordered}
use fuzz_httpd.Request.{
  Lines, Body, body_of, Reading, stopped, aborted, out_of_fuel, stream_body, no_body, payload,
  refused, abort_http, responds, closes, calls, waits, fuel_gone,
}
use fuzz_httpd.RequestLine.{
  ClientToread, Callback, Client, server_maxheaderlength, left, unlimited, chunk_length, read_http,
  read_httpcontent, read_httpchunks, read_stream,
}
use fuzz_httpd.Request.Lengths.{Tells, Declares, NoLength}
use fuzz_httpd.Request.Head.{IsRefusal, Known, Head}

-- What the loop ends in: a state that has kept all but that the head may be complete, or a refusal.
abbrev pub LinesRead : Lines → Type 0
LinesRead (stopped c) =
    (c.readcb ≡ read_http)
    × (c.clt_headerlen ≤ server_maxheaderlength)
    × Tells c.clt_toread c.desc.http_headers
    × Ordered c.desc.http_headers
    × Known c
LinesRead (aborted code) = IsRefusal code
LinesRead out_of_fuel = ⊥

-- How the body of a request is framed: chunked if it says so; else by what its method allows, and
-- the number of bytes that a Content-Length header says, 0 if there is no such header.
abbrev pub Delimits : Kvtree → Body → ClientToread → Callback → Type 0
Delimits keys stream_body toread callback = (toread ≡ unlimited) × (callback ≡ read_stream)
Delimits keys no_body toread callback = (toread ≡ left 0) × (callback ≡ read_http)
Delimits keys payload toread callback =
    (n : ℕ) × (toread ≡ left n)
    × (callback ≡ (if ltb 0 n then read_httpcontent else read_http))
    × (Declares n keys ⊎ ((n ≡ 0) × NoLength keys))
Delimits keys refused toread callback = ⊥

abbrev pub FramedAs : Kvtree → Bool → Body → ClientToread → Callback → Type 0
FramedAs keys true body toread callback = (toread ≡ chunk_length) × (callback ≡ read_httpchunks)
FramedAs keys false body toread callback = Delimits keys body toread callback

abbrev pub Framed : Client → Type 0
Framed c =
    FramedAs c.desc.http_headers c.desc.http_chunked (body_of c.desc.http_method) c.clt_toread
      c.readcb

-- The outcomes of a call with bytes in the buffer.
abbrev pub Outcome : Reading → Type 0
Outcome (abort_http code) = IsRefusal code
Outcome (responds c) =
    Framed c × (c.clt_headerlen ≤ server_maxheaderlength) × Ordered c.desc.http_headers
Outcome (waits c) = Head c
Outcome (closes c) = c.clt_done ≡ true
Outcome (calls c) = ⊥
Outcome fuel_gone = ⊥

-- What is left to show of a reply, once the body is known.
FramedHead : Client → Type 0
FramedHead c = Framed c × (c.clt_headerlen ≤ server_maxheaderlength) × Ordered c.desc.http_headers
