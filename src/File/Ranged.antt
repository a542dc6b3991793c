-- ===== src/File/Ranged.antt =====
-- Parts of files: `server_partial_file_request` of usr.sbin/httpd/server_file.c, up to the call of
-- `server_response_http`. The boundary is a parameter, and so is `media_find_config`.
use fuzz_httpd.Base.{
  ℕ, zero, suc, ◌+◌, ◌-◌, ◌%◌, ◌^◌, ◌++◌, none, some, Bytes, codes, get_or, length, take, ◌==◌,
  if◌then◌else◌,
}
use fuzz_httpd.Range.{Outcome, overrun, refused, Range, RangeData, counted, no_range, parse_ranges}
use fuzz_httpd.Response.{Platform}
use fuzz_httpd.Server.{Session}
use fuzz_httpd.File.{
  Stat, regular, Files, ranges, FileReply, FileAnswer, replies, file_aborts, out_of_fuel, is_get,
  minimum, tv_sec, server_file_request,
}

-- The format strings of `server_partial_file_request`.
abbrev pub part_text : (ℕ → Bytes) → ℕ → Bytes → Bytes → Range → ℕ → Bytes
part_text number boundary media_type media_subtype r size =
    codes "\r\n--"
    ++ (number boundary
        ++ (codes "\r\nContent-Type: "
            ++ (media_type
                ++ (codes "/"
                    ++ (media_subtype
                        ++ (codes "\r\nContent-Range: bytes "
                            ++ (number r.start
                                ++ (codes "-"
                                    ++ (number r.end
                                        ++ (codes "/" ++ (number size ++ codes "\r\n\r\n")))))))))))

abbrev pub end_text : (ℕ → Bytes) → ℕ → Bytes
end_text number boundary = codes "\r\n--" ++ (number boundary ++ codes "--\r\n")

-- `content_length += ret + range->end - range->start + 1` of size_t
abbrev pub add_range : ℕ → ℕ → Range → ℕ
add_range content_length ret r = (content_length + ret + (r.end + 2 ^ 64 - r.start + 1)) % 2 ^ 64

module _ (number : ℕ → Bytes) (boundary : ℕ) (media_type media_subtype : Bytes)
    (d : RangeData) where
  -- The last `k` ranges of a multipart body; `range_total` is the `st_size` that `parse_ranges` kept, and the end marker.
  unfoldable pub add_ranges : ℕ → ℕ → ℕ
  add_ranges zero content_length = (content_length + length (end_text number boundary)) % 2 ^ 64
  add_ranges (suc k) content_length =
      let r = get_or d.range (d.range_count - suc k) no_range in
      add_ranges k (
        add_range content_length
          (length (part_text number boundary media_type media_subtype r d.range_total)) r)

  -- the Content-Length of all the ranges
  unfoldable pub partial_length : ℕ
  unfolding add_ranges
  partial_length =
      if d.range_count == 1
      then add_range 0 0 (get_or d.range 0 no_range)
      else add_ranges d.range_count 0

-- `snprintf` to 64 bytes
abbrev pub content_range_text : (ℕ → Bytes) → Range → ℕ → Bytes
content_range_text number r size = take 63 (
    codes "bytes "
    ++ (number r.start ++ (codes "-" ++ (number r.end ++ (codes "/" ++ number size)))))

module _ (sys : Platform) (fs : Files) (boundary : ℕ)
    (media_find_config : Bytes → Bytes × Bytes) where
  abbrev pub range_reply : Bytes → ℕ → ℕ → RangeData → FileReply
  range_reply path size mtime d =
      let (media_type, media_subtype) = media_find_config path in
      record {
        code = 206;
        size = some (partial_length sys.number boundary media_type media_subtype d);
        mtime = minimum fs.time (tv_sec mtime);
        content = ranges path d;
        content_encoding = none;
        content_range =
            (if d.range_count == 1
              then some (content_range_text sys.number (get_or d.range 0 no_range) size)
              else none);
      }

  -- behind `parse_ranges`
  abbrev pub with_ranges : Bytes → ℕ → ℕ → Session → Outcome → FileAnswer
  with_ranges path size mtime c (counted zero d) =
      file_aborts 416 (some (codes "bytes */" ++ sys.number size)) c
  with_ranges path size mtime c (counted (suc n) d) = replies (range_reply path size mtime d) c
  with_ranges path size mtime c refused =
      file_aborts 416 (some (codes "bytes */" ++ sys.number size)) c
  with_ranges path size mtime c overrun = out_of_fuel
  with_ranges path size mtime c Outcome.out_of_fuel = out_of_fuel

  abbrev pub open_ranges : Bytes → Bytes → Session → Stat → FileAnswer
  open_ranges path range_str c (regular size mtime) =
      if fs.can_read path
      then with_ranges path size mtime c (parse_ranges range_str size)
      else file_aborts 500 none c
  open_ranges path range_str c other = file_aborts 500 none c

  unfoldable pub server_partial_file_request : Bytes → ℕ → Bytes → Session → FileAnswer
  unfolding server_file_request parse_ranges partial_length
  server_partial_file_request path mtime range_str c =
      if is_get c.desc.http_method
      then open_ranges path range_str c (fs.stat path)
      else server_file_request fs path mtime c
