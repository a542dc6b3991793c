-- ===== src/File/Access.antt =====
-- Access to files: `server_file`, `server_file_access` and `server_file_index` of
-- usr.sbin/httpd/server_file.c.
use fuzz_httpd.Base.{
  ℕ, zero, suc, Bool, true, false, not, ◌||◌, List, ◌++◌, Option, none, some, Bytes, codes, leb,
  length, ◌==◌, if◌then◌else◌,
}
use fuzz_httpd.Expand.{encoded, or_empty}
use fuzz_httpd.Kv.{kv_find}
use fuzz_httpd.Listing.{Entry, index_page}
use fuzz_httpd.Location.{server_getlocation}
use fuzz_httpd.Path.Strip.{server_root_strip}
use fuzz_httpd.Response.{Platform, set_located}
use fuzz_httpd.Server.{ServerConfig, Session}
use fuzz_httpd.File.{
  Stat, no_file, directory, special, regular, Files, page, FileReply, FileAnswer, replies,
  file_aborts, server_fcgi, out_of_fuel, Accessed, status, answered, server_file_method,
  errno_status, minimum, tv_sec, header_text, is_there, last_byte, server_file_request,
}
use fuzz_httpd.File.Ranged.{server_partial_file_request}

-- the time of what is opened
abbrev pub stat_time : Stat → Option ℕ
stat_time (no_file e) = none
stat_time (directory mtime) = some mtime
stat_time special = some 0
stat_time (regular size mtime) = some mtime

abbrev pub index_by : Option ℕ → (Session → FileAnswer) → Session → FileAnswer
index_by none next c = next c
index_by (some code) next c = file_aborts code c.desc.http_path c

abbrev pub set_alias : Option Bytes → Session → Session
set_alias alias c = record c { http_path_alias = alias }

abbrev pub same_conf : Option ServerConfig → ServerConfig → Bool
same_conf none srv_conf = false
same_conf (some found_conf) srv_conf = found_conf.id == srv_conf.id

abbrev pub is_no_alias : Option Bytes → Bool
is_no_alias none = true
is_no_alias (some alias) = false

-- the abort for a status
abbrev pub on_accessed : Accessed → FileAnswer
on_accessed (answered a) = a
on_accessed (status code c) =
    file_aborts code (if is_no_alias c.http_path_alias then c.desc.http_path else c.http_path_alias)
      c

module _ (sys : Platform) (fs : Files) (boundary : ℕ)
    (media_find_config : Bytes → Bytes × Bytes) where
  -- a regular file
  abbrev pub request_file : Bytes → ℕ → Session → FileAnswer
  request_file path mtime c =
      if is_there (kv_find c.desc.http_headers (codes "Range"))
      then server_partial_file_request sys fs boundary media_find_config path mtime
          (header_text (codes "Range") c) c
      else server_file_request fs path mtime c

  -- the page of a directory
  abbrev pub page_reply : ℕ → Bytes → FileReply
  page_reply mtime text = record {
    code = 200;
    size = some (length text);
    mtime = minimum fs.time (tv_sec mtime);
    content = page text;
    content_encoding = none;
    content_range = none;
  }

  abbrev pub scanned : ℕ → Session → Option (List Entry) → FileAnswer
  scanned mtime c none = file_aborts 500 c.desc.http_path c
  scanned mtime c (some entries) =
      replies (page_reply mtime (index_page sys.number (or_empty c.desc.http_path) entries)) c

  abbrev pub open_directory : Bytes → Session → Option ℕ → FileAnswer
  open_directory path c none = file_aborts 500 c.desc.http_path c
  open_directory path c (some mtime) =
      if leb fs.path_max (length path) || not (fs.can_read path)
      then file_aborts 500 c.desc.http_path c
      else scanned mtime c (fs.scandir path)

  -- The directory is opened by the path of the request.
  unfoldable pub server_file_index : Session → FileAnswer
  unfolding server_root_strip index_page
  server_file_index c =
      let path =
        c.clt_srv_conf.root ++ server_root_strip (or_empty c.desc.http_path) c.clt_srv_conf.strip in
      index_by (server_file_method c.desc.http_method)
        (λ c'. open_directory path c' (stat_time (fs.stat path))) c

  -- behind the request of the index file
  abbrev pub on_index : Bool → Session → Accessed → Accessed
  on_index auto_index c (answered a) = answered a
  on_index auto_index c (status code c') =
      if code == 404
      then (if auto_index then answered (server_file_index c') else status 403 c')
      else status code c'

  -- `server_file`, by the access to its path
  abbrev pub file_by : (Bytes → Session → Accessed) → Session → FileAnswer
  file_by access c =
      let path = (if is_no_alias c.http_path_alias then c.desc.http_path else c.http_path_alias) in
      let full = c.clt_srv_conf.root ++ server_root_strip (or_empty path) c.clt_srv_conf.strip in
      if c.clt_srv_conf.flag_fcgi
      then server_fcgi c
      else if leb fs.path_max (length full)
      then file_aborts 500 c.desc.http_path c
      else on_accessed (access full c)

  -- a directory whose path ends with a slash, and has no alias yet
  abbrev pub open_index :
      (Bytes → Session → Accessed) → List ServerConfig → Bytes → Session → Accessed
  open_index access hosts path c =
      let srv_conf = c.clt_srv_conf in
      let newpath = or_empty c.desc.http_path ++ srv_conf.index in
      let r =
        server_getlocation sys.fnmatch sys.str_match sys.can_open sys.is_there sys.behind hosts
          srv_conf newpath c.clt_srv_match in
      let c' = set_located r (set_alias (some newpath) c) in
      if not (same_conf r.ret srv_conf)
      then answered (file_by access c')
      else if leb fs.path_max (length (path ++ srv_conf.index))
      then status 403 c'
      else on_index srv_conf.flag_auto_index c' (access (path ++ srv_conf.index) c')

  abbrev pub access_directory :
      (Bytes → Session → Accessed) → List ServerConfig → Bytes → Session → Accessed
  access_directory access hosts path c =
      if c.clt_srv_conf.flag_no_index
      then status 403 c
      else if not (is_no_alias c.http_path_alias)
      then status 500 c
      else if not (last_byte path == b'/')
      then status 301 (set_alias (some (or_empty (encoded c.desc.http_path) ++ codes "/")) c)
      else open_index access hosts path c

  abbrev pub access_stat :
      (Bytes → Session → Accessed) → List ServerConfig → Bytes → Session → Stat → Accessed
  access_stat access hosts path c (no_file e) = status (errno_status e) c
  access_stat access hosts path c (directory mtime) = access_directory access hosts path c
  access_stat access hosts path c special = status 403 c
  access_stat access hosts path c (regular size mtime) = answered (request_file path mtime c)

  -- A directory leads to one more access, with an alias, which goes no further.
  unfoldable pub server_file_access : ℕ → List ServerConfig → Bytes → Session → Accessed
  unfolding server_partial_file_request server_file_request server_file_index server_getlocation
      server_root_strip
  server_file_access zero hosts path c = answered out_of_fuel
  server_file_access (suc fuel) hosts path c =
      access_stat (server_file_access fuel hosts) hosts path c (fs.stat path)

  unfoldable pub server_file : List ServerConfig → Session → FileAnswer
  unfolding server_file_access
  server_file hosts c = file_by (server_file_access 2 hosts) c
