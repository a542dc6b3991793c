-- ===== src/File.antt =====
-- Files: `server_file_method`, `server_file_request` and `server_file_modified_since` of
-- usr.sbin/httpd/server_file.c, up to the call of `server_response_http` and the buffer that follows its
-- header. File/Ranged and File/Access model the rest of the file. The file system, the clock and
-- `strptime` are parameters; a file does not change between the calls. Allocation is assumed to succeed.
pub mod Ranged
pub mod Access
pub mod Partial
pub mod Ends
pub mod Status
pub mod Sends
use fuzz_httpd.Base.{
  ℕ, zero, suc, ◌+◌, ◌-◌, ◌/◌, ◌%◌, ◌^◌, Bool, true, false, not, ◌&&◌, ◌||◌, List, [], ◌∷◌, ◌++◌,
  Option, none, some, Bytes, char_at, codes, get_or, leb, length, ltb, take, ◌==◌, if◌then◌else◌,
}
use fuzz_httpd.Expand.{encoded, found, or_empty, strstr}
use fuzz_httpd.Http.{HttpMethod}
use fuzz_httpd.Kv.{Kv, kv_find}
use fuzz_httpd.Listing.{Entry, index_page}
use fuzz_httpd.Location.{Located, server_getlocation}
use fuzz_httpd.Path.Strip.{server_root_strip}
use fuzz_httpd.Range.{Outcome, overrun, refused, Range, RangeData, counted, no_range, parse_ranges}
use fuzz_httpd.Response.{Platform, header_value, set_located}
use fuzz_httpd.Server.{ServerConfig, Session}

-- `errno`
pub data Errno : Type 0 where
  enoent enotdir eacces other_errno : Errno

-- What `stat` says: an error, a directory with its time, a file with its size
-- and time, or anything else. A time counts nanoseconds.
pub data Stat : Type 0 where
  no_file : Errno → Stat
  directory : ℕ → Stat
  special : Stat
  regular : ℕ → ℕ → Stat

pub record Files : Type 0 where
  pub stat : Bytes → Stat
  pub can_read : Bytes → Bool
  pub time : ℕ
  pub scandir : Bytes → Option (List Entry)
  pub strptime : Bytes → Option ℕ
  pub path_max : ℕ

-- What follows the header: nothing, a file, its ranges, or the page of a directory.
pub data Content : Type 0 where
  no_content : Content
  page : Bytes → Content
  whole_file : Bytes → Content
  ranges : Bytes → RangeData → Content

-- The call of `server_response_http` with a status, a size and a time, and what is added to the reply.
pub record FileReply : Type 0 where
  pub code : ℕ
  pub size : Option ℕ
  pub mtime : ℕ
  pub content : Content
  pub content_encoding : Option Bytes
  pub content_range : Option Bytes

-- A message is none where it is that of `errno`. `out_of_fuel` belongs to the model only.
pub data FileAnswer : Type 0 where
  replies : FileReply → Session → FileAnswer
  file_aborts : ℕ → Option Bytes → Session → FileAnswer
  server_fcgi : Session → FileAnswer
  out_of_fuel : FileAnswer

-- What `server_file_access` returns: a status, or what the call has done.
pub data Accessed : Type 0 where
  status : ℕ → Session → Accessed
  answered : FileAnswer → Accessed

-- `none` is 0.
abbrev pub server_file_method : HttpMethod → Option ℕ
server_file_method HttpMethod.get = none
server_file_method HttpMethod.head = none
server_file_method _ = some 405

abbrev pub is_get : HttpMethod → Bool
is_get HttpMethod.get = true
is_get _ = false

-- `case` of the switch on `errno`
abbrev pub errno_status : Errno → ℕ
errno_status enoent = 404
errno_status enotdir = 404
errno_status eacces = 403
errno_status other_errno = 500

-- `tv_sec` of a time in nanoseconds
abbrev pub tv_sec : ℕ → ℕ
tv_sec mtime = mtime / 10 ^ 9

-- `MINIMUM`
abbrev pub minimum : ℕ → ℕ → ℕ
minimum a b = if ltb a b then a else b

-- the text of a header, or the empty text
abbrev pub header_text : Bytes → Session → Bytes
header_text name c = or_empty (header_value (kv_find c.desc.http_headers name))

-- whether there is such a header
abbrev pub is_there : Option Kv → Bool
is_there none = false
is_there (some kv) = true

abbrev pub last_byte : Bytes → ℕ
last_byte s = char_at s (length s - 1)

abbrev pub with_method : Option ℕ → (Session → FileAnswer) → Session → FileAnswer
with_method none next c = next c
with_method (some code) next c = file_aborts code none c

module _ (fs : Files) where
  abbrev pub since_time : ℕ → Option ℕ → Option ℕ
  since_time mtime none = none
  since_time mtime (some t) = if leb (tv_sec mtime) t then some 304 else none

  abbrev pub since_value : ℕ → Option Bytes → Option ℕ
  since_value mtime none = none
  since_value mtime (some value) = since_time mtime (fs.strptime value)

  -- `none` is -1.
  unfoldable pub server_file_modified_since : Session → ℕ → Option ℕ
  unfolding kv_find
  server_file_modified_since c mtime =
      since_value mtime (header_value (kv_find c.desc.http_headers (codes "If-Modified-Since")))

  -- `path.gz`: a file that is not older, by `timespeccmp`; the time stays that of the file.
  abbrev pub zipped : ℕ → Stat → Option ℕ
  zipped mtime (regular size t) = if leb mtime t then some size else none
  zipped mtime other = none

  abbrev pub whole_reply : ℕ → Bytes → Option Bytes → ℕ → FileReply
  whole_reply size path encoding mtime = record {
    code = 200;
    size = some size;
    mtime = minimum fs.time (tv_sec mtime);
    content = whole_file path;
    content_encoding = encoding;
    content_range = none;
  }

  -- Opening the file itself.
  abbrev pub open_file : Bytes → Session → Stat → FileAnswer
  open_file path c (regular size t) =
      if fs.can_read path then replies (whole_reply size path none t) c else file_aborts 500 none c
  open_file path c other = file_aborts 500 none c

  abbrev pub open_zipped : Bytes → ℕ → Session → Option ℕ → FileAnswer
  open_zipped path mtime c none = open_file path c (fs.stat path)
  open_zipped path mtime c (some size) =
      replies (whole_reply size (path ++ codes ".gz") (some (codes "gzip")) mtime) c

  -- behind the test of If-Modified-Since
  abbrev pub send_file : Bytes → ℕ → Session → FileAnswer
  send_file path mtime c =
      let gzpath = path ++ codes ".gz" in
      if c.clt_srv_conf.flag_gzip_static
        && found (strstr (codes "gzip") (header_text (codes "Accept-Encoding") c))
      then if leb fs.path_max (length gzpath)
        then file_aborts 500 none c
        else open_zipped path mtime c
            (if fs.can_read gzpath then zipped mtime (fs.stat gzpath) else none)
      else open_file path c (fs.stat path)

  abbrev pub unless_modified : Bytes → ℕ → Session → Option ℕ → FileAnswer
  unless_modified path mtime c none = send_file path mtime c
  unless_modified path mtime c (some code) =
      replies
        (record {
          code = code;
          size = none;
          mtime = minimum fs.time (tv_sec mtime);
          content = no_content;
          content_encoding = none;
          content_range = none;
        })
        c

  unfoldable pub server_file_request : Bytes → ℕ → Session → FileAnswer
  unfolding server_file_modified_since strstr
  server_file_request path mtime c =
      with_method (server_file_method c.desc.http_method)
        (λ c'. unless_modified path mtime c' (server_file_modified_since c' mtime)) c
