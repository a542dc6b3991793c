-- ===== src/Transfer.antt =====
-- The reply with the ranges of a file: `server_read_httprange` of usr.sbin/httpd/server_http.c, the
-- callback for bytes that were read from the file. `bufferevent_write` of libevent, `lseek` and the
-- decimal numbers of `printf` are parameters; `server_bufferevent_write` and its like pass on to
-- `bufferevent_write`. The buffer is drained of what was written.
pub mod Pieces
pub mod Whole
pub mod Finish
use fuzz_httpd.Base.{
  ℕ, zero, suc, ◌+◌, ◌-◌, ◌*◌, Bool, true, false, ◌||◌, [], ◌++◌, ◌≡◌, refl, Option, none, some,
  Bytes, codes, is_empty, length, get_or, take, drop, leb, ltb, ◌==◌, if◌then◌else◌,
}
use fuzz_httpd.Range.{Range, RangeData, no_range}

-- `range_toread`: a number of bytes, TOREAD_HTTP_RANGE or TOREAD_HTTP_NONE
pub data Toread : Type 0 where
  bytes : ℕ → Toread
  next_range no_more : Toread

-- what of the client does not change
pub record Reply : Type 0 where
  pub ranges : RangeData
  pub boundary : ℕ
  pub media_type : Bytes
  pub media_subtype : Bytes
  pub done : Bool
  pub sndbufsiz : ℕ

-- `input` is the buffer of what was read, `offset` that of the file, `output` all that was written.
pub record Transfer : Type 0 where
  pub range_toread : Toread
  pub range_index : ℕ
  pub offset : ℕ
  pub input : Bytes
  pub output : Bytes
  pub throttled : Bool

-- `ended` is the call of `errorcb`, `closed` that of `server_close` for an error.
pub data Progress : Type 0 where
  running ended : Transfer → Progress
  closed : Progress

abbrev pub server_max_prefetch : ℕ
server_max_prefetch = 256

abbrev pub written : Option Bytes → (Bytes → Progress) → Progress
written none next = closed
written (some out) next = next out

-- `range_toread` after a part of the range was read
abbrev pub left_to_read : ℕ → Toread
left_to_read zero = next_range
left_to_read (suc n) = bytes (suc n)

module _ (bufferevent_write : Bytes → Bytes → Option Bytes) (lseek : ℕ → Bool) (number : ℕ → Bytes)
    (c : Reply) where
  abbrev pub end_marker : Bytes
  end_marker = codes "\r\n--" ++ (number c.boundary ++ codes "--\r\n")

  abbrev pub part_header : Range → Bytes
  part_header r =
      codes "\r\n--"
      ++ (number c.boundary
          ++ (codes "\r\nContent-Type: "
              ++ (c.media_type
                  ++ (codes "/"
                      ++ (c.media_subtype
                          ++ (codes "\r\nContent-Range: bytes "
                              ++ (number r.start
                                  ++ (codes "-"
                                      ++ (number r.end
                                          ++ (codes "/"
                                              ++ (number c.ranges.range_total
                                                  ++ codes "\r\n\r\n")))))))))))

  -- behind the switch; `unsent` is the length of the client's output buffer
  abbrev pub leave : ℕ → Transfer → Progress
  leave unsent t =
      if c.done
      then ended t
      else running
          (record t { throttled = t.throttled || ltb (server_max_prefetch * c.sndbufsiz) unsent })

  abbrev pub start_range : Range → ℕ → Transfer → Progress
  start_range r unsent t =
      if lseek r.start
      then leave unsent (record t {
        range_toread = bytes (r.end + 1 - r.start);
        offset = r.start;
        input = [];
        range_index = t.range_index + 1;
      })
      else closed

  -- the case TOREAD_HTTP_RANGE
  unfoldable pub next_part : ℕ → Transfer → Progress
  next_part unsent t =
      let r = get_or c.ranges.range t.range_index no_range in
      if leb c.ranges.range_count t.range_index
      then if ltb 1 c.ranges.range_count
        then written (bufferevent_write t.output end_marker)
            (λ out. leave unsent (record t { output = out; range_toread = no_more }))
        else leave unsent (record t { range_toread = no_more })
      else if ltb 1 c.ranges.range_count
      then written (bufferevent_write t.output (part_header r))
          (λ out. start_range r unsent (record t { output = out }))
      else start_range r unsent t

  -- the switch
  abbrev pub dispatch : Toread → ℕ → Transfer → Progress
  dispatch (bytes n) unsent t = leave unsent t
  dispatch next_range unsent t = next_part unsent t
  dispatch no_more unsent t = ended t

  -- With `n` bytes of the range to read, above 0.
  unfoldable pub read_data : ℕ → ℕ → Transfer → Progress
  read_data n unsent t =
      if is_empty t.input
      then running t
      else if ltb n (length t.input)
      then written (bufferevent_write t.output (take n t.input)) (λ out.
        next_part unsent
          (record t { output = out; input = drop n t.input; range_toread = next_range }))
      else written (bufferevent_write t.output t.input) λ out.
        let toread = left_to_read (n - length t.input) in
        dispatch toread unsent (record t { output = out; input = []; range_toread = toread })

  abbrev pub on_data : Toread → ℕ → Transfer → Progress
  on_data (bytes (suc n)) unsent t = read_data (suc n) unsent t
  on_data toread unsent t = dispatch toread unsent t

  unfoldable pub server_read_httprange : ℕ → Transfer → Progress
  server_read_httprange unsent t = on_data t.range_toread unsent t
