-- ===== src/Chunks.antt =====
-- A chunked body: `server_read_httpchunks` of usr.sbin/httpd/server_http.c, which writes the chunks to
-- the client's own buffer. libevent's `bufferevent_write` and `evbuffer_readln` are parameters, and
-- `sscanf` of a hexadecimal number, `none` where it finds none or a negative one.
pub mod Text
pub mod Ends
use fuzz_httpd.Base.{
  ℕ, zero, suc, ◌-◌, ◌≡◌, refl, Bool, true, false, [], ◌∷◌, ◌++◌, Option, none, some, Bytes, c_str,
  is_empty, length, take, drop, ltb, if◌then◌else◌,
}
use fuzz_httpd.RequestLine.{
  Client, Callback, ClientToread, left, unlimited, http_header, chunk_length, chunk_trailer,
  nothing, read_http, read_httpchunks,
}

-- What a call ends in, with what the client's buffer holds: a return with reading enabled, a call of
-- another callback, or `server_close` because the client is done, for a bad size or for an error.
-- `fuel_gone` belongs to the model only.
pub data Chunked : Type 0 where
  returns calls closes : Client → Bytes → Chunked
  bad_size fails fuel_gone : Chunked

abbrev pub is_chunks : Callback → Bool
is_chunks read_httpchunks = true
is_chunks _ = false

abbrev pub or_fail : Option Bytes → (Bytes → Chunked) → Chunked
or_fail none next = fails
or_fail (some out) next = next out

-- the size of a chunk, and 0 for the last
abbrev pub size_toread : ℕ → ClientToread
size_toread zero = chunk_trailer
size_toread (suc n) = left (suc n)

module _ (bufferevent_write : Bytes → Bytes → Option Bytes)
    (evbuffer_readln : Bytes → Option (Bytes × Bytes)) (scan_hex : Bytes → Option ℕ) where
  -- `server_bufferevent_print` of a line and of CRLF
  abbrev pub print_line : Bytes → Bytes → (Bytes → Chunked) → Chunked
  print_line line out next =
      or_fail (bufferevent_write out line)
        (λ out'. or_fail (bufferevent_write out' (13 ∷ 10 ∷ [])) next)

  module _ (again : Client → Bytes → Chunked) where
    -- `next`; `again` is this callback
    unfoldable pub next_chunk : Client → Bytes → Chunked
    next_chunk c out =
        if c.clt_done
        then closes c out
        else if is_empty c.input
        then returns (record c { reads = true }) out
        else if is_chunks c.readcb
        then again c out
        else calls c out

    abbrev pub size_line : Option ℕ → Bytes → Client → Bytes → Chunked
    size_line none line c out = bad_size
    size_line (some n) line c out =
        print_line line out (next_chunk (record c { clt_toread = size_toread n }))

    -- The case TOREAD_HTTP_CHUNK_LENGTH, behind `evbuffer_readln`
    abbrev pub on_length : Option (Bytes × Bytes) → Client → Bytes → Chunked
    on_length none c out = returns (record c { reads = true }) out
    on_length (some (line, rest)) c out =
        let c' = record c { input = rest } in
        if is_empty (c_str line)
        then next_chunk c' out
        else size_line (scan_hex (c_str line)) (c_str line) c' out

    -- The case TOREAD_HTTP_CHUNK_TRAILER
    abbrev pub on_trailer : Option (Bytes × Bytes) → Client → Bytes → Chunked
    on_trailer none c out = returns (record c { reads = true }) out
    on_trailer (some (line, rest)) c out = print_line (c_str line) out (
        next_chunk (
          if is_empty (c_str line)
          then record c { input = rest; clt_toread = http_header; readcb = read_http }
          else record c { input = rest }))

    -- The case 0; whether there is a line does not matter.
    abbrev pub behind_line : Option (Bytes × Bytes) → Bytes → Bytes
    behind_line none input = input
    behind_line (some (line, rest)) input = rest

    abbrev pub on_end : Client → Bytes → Chunked
    on_end c out = or_fail (bufferevent_write out (13 ∷ 10 ∷ [])) (
        next_chunk (record c {
          input = behind_line (evbuffer_readln c.input) c.input;
          clt_toread = chunk_length;
        }))

    -- the switch
    abbrev pub on_toread : ClientToread → Client → Bytes → Chunked
    on_toread chunk_length c out = on_length (evbuffer_readln c.input) c out
    on_toread chunk_trailer c out = on_trailer (evbuffer_readln c.input) c out
    on_toread (left zero) c out = on_end c out
    on_toread _ c out = next_chunk c out

    -- `n` bytes of the chunk are to come, above 0.
    abbrev pub read_chunk : ℕ → Client → Bytes → Chunked
    read_chunk n c out =
        if ltb n (length c.input)
        then or_fail (bufferevent_write out (take n c.input))
            (on_toread (left 0) (record c { input = drop n c.input; clt_toread = left 0 }))
        else or_fail (bufferevent_write out c.input) (
            on_toread (left (n - length c.input))
              (record c { input = []; clt_toread = left (n - length c.input) }))

    abbrev pub with_data : ClientToread → Client → Bytes → Chunked
    with_data (left (suc n)) c out = read_chunk (suc n) c out
    with_data toread c out = on_toread toread c out

  unfoldable pub server_read_httpchunks : ℕ → Client → Bytes → Chunked
  unfolding next_chunk
  server_read_httpchunks zero c out = fuel_gone
  server_read_httpchunks (suc fuel) c out =
      let step = with_data (server_read_httpchunks fuel) c.clt_toread c out in
      if is_empty c.input then returns c out else step
