-- ===== src/File/Status.antt =====
-- How `server_file` of server_file.c ends, whatever the file system says.
use fuzz_httpd.Base.{
  ℕ, ◌≡◌, refl, Bool, false, List, ◌++◌, Option, none, some, Bytes, codes, if◌then◌else◌,
  Bool-cases, inl, inr, arith,
}
use fuzz_httpd.Expand.{or_empty}
use fuzz_httpd.File.{
  Accessed, answered, status, Files, Stat, directory, no_file, regular, special, header_text,
}
use fuzz_httpd.File.Access.{
  access_directory, access_stat, file_by, is_no_alias, on_accessed, on_index, open_directory,
  open_index, request_file, same_conf, scanned, server_file, server_file_access, server_file_index,
  set_alias,
}
use fuzz_httpd.Listing.{Entry}
use fuzz_httpd.Location.{server_getlocation}
use fuzz_httpd.Path.Strip.{server_root_strip}
use fuzz_httpd.Response.{Platform, set_located}
use fuzz_httpd.Server.{ServerConfig, Session}
use fuzz_httpd.File.Ends.{
  Ends, EndsAccess, Reads, SizesFit, errno_status-IsFileError, index_by-Ends, partial-Ends,
  server_file_request-Ends,
}

module _ (sys : Platform) (fs : Files) (boundary : ℕ)
    (media_find_config : Bytes → Bytes × Bytes) where
  module _ (fits : SizesFit fs) where
    request_file-Ends :
        (path : Bytes) (mtime : ℕ) (c : Session)
        → Ends fs (request_file sys fs boundary media_find_config path mtime c)
    request_file-Ends path mtime c = ground (
      arith,
      partial-Ends sys fs boundary media_find_config fits path mtime (header_text (codes "Range") c)
          c,
      server_file_request-Ends fs path mtime c,
    )

    scanned-Ends :
        (mtime : ℕ) (c : Session) (o : Option (List Entry))
        → Reads c.desc.http_method
        → Ends fs (scanned sys fs boundary media_find_config mtime c o)
    scanned-Ends mtime c none m = refl
    scanned-Ends mtime c (some entries) m = (m, refl)

    open_directory-Ends :
        (path : Bytes) (c : Session) (o : Option ℕ)
        → Reads c.desc.http_method
        → Ends fs (open_directory sys fs boundary media_find_config path c o)
    open_directory-Ends path c none m = refl
    open_directory-Ends path c (some mtime) m =
        ground (arith, scanned-Ends mtime c (fs.scandir path) m)

    server_file_index-Ends :
        (c : Session) → Ends fs (server_file_index sys fs boundary media_find_config c)
    unfolding server_file_index
    server_file_index-Ends c =
        index_by-Ends fs c.desc.http_method _ c (λ m. open_directory-Ends _ c _ m)

    on_accessed-Ends : (a : Accessed) → EndsAccess fs a → Ends fs (on_accessed a)
    on_accessed-Ends (answered a) h = h
    on_accessed-Ends (status code c) h = h

    file_by-Ends :
        (access : Bytes → Session → Accessed) (c : Session)
        → ((path : Bytes) → EndsAccess fs (access path c))
        → Ends fs (file_by sys fs boundary media_find_config access c)
    file_by-Ends access c h =
        let path =
          (if is_no_alias c.http_path_alias then c.desc.http_path else c.http_path_alias) in
        let full = c.clt_srv_conf.root ++ server_root_strip (or_empty path) c.clt_srv_conf.strip in
        ground (arith, on_accessed-Ends (access full c) (h full))

    on_index-Ends :
        (auto_index : Bool) (c : Session) (a : Accessed)
        → EndsAccess fs a
        → EndsAccess fs (on_index sys fs boundary media_find_config auto_index c a)
    on_index-Ends auto_index c (answered a) h = h
    on_index-Ends auto_index c (status code c') h = ground (arith, server_file_index-Ends c', h)

    access_directory-aliased :
        (access : Bytes → Session → Accessed) (hosts : List ServerConfig) (path : Bytes)
        (c : Session)
        → is_no_alias c.http_path_alias ≡ false
        → EndsAccess fs (access_directory sys fs boundary media_find_config access hosts path c)
    access_directory-aliased access hosts path c h = ground (arith, h)

    -- An access that is asked only for a session with an alias.
    module _ (access : Bytes → Session → Accessed) (hosts : List ServerConfig)
        (ends : (path : Bytes) (c : Session)
          → is_no_alias c.http_path_alias ≡ false
          → EndsAccess fs (access path c)) where
      open_index-Ends :
          (path : Bytes) (c : Session)
          → EndsAccess fs (open_index sys fs boundary media_find_config access hosts path c)
      open_index-Ends path c =
          let srv_conf = c.clt_srv_conf in
          let newpath = or_empty c.desc.http_path ++ srv_conf.index in
          let r =
            server_getlocation sys.fnmatch sys.str_match sys.can_open sys.is_there sys.behind hosts
              srv_conf newpath c.clt_srv_match in
          let c' = set_located r (set_alias (some newpath) c) in
          elim (Bool-cases (same_conf r.ret srv_conf)) [
            | inl same ↦ rw same (
                ground (
                  arith,
                  on_index-Ends srv_conf.flag_auto_index c' (access (path ++ srv_conf.index) c')
                      (ends (path ++ srv_conf.index) c' refl),
                ))
            | inr other ↦ rw other (file_by-Ends access c' (λ p. ends p c' refl))
          ]

      access_directory-Ends :
          (path : Bytes) (c : Session)
          → EndsAccess fs (access_directory sys fs boundary media_find_config access hosts path c)
      access_directory-Ends path c = ground (arith, open_index-Ends path c)

      access_stat-Ends :
          (path : Bytes) (c : Session) (s : Stat)
          → EndsAccess fs (access_stat sys fs boundary media_find_config access hosts path c s)
      access_stat-Ends path c (no_file e) = errno_status-IsFileError e
      access_stat-Ends path c (directory mtime) = access_directory-Ends path c
      access_stat-Ends path c special = refl
      access_stat-Ends path c (regular size mtime) = request_file-Ends path mtime c

    access_stat-aliased :
        (access : Bytes → Session → Accessed) (hosts : List ServerConfig) (path : Bytes)
        (c : Session) (s : Stat)
        → is_no_alias c.http_path_alias ≡ false
        → EndsAccess fs (access_stat sys fs boundary media_find_config access hosts path c s)
    access_stat-aliased access hosts path c (no_file e) h = errno_status-IsFileError e
    access_stat-aliased access hosts path c (directory mtime) h =
        access_directory-aliased access hosts path c h
    access_stat-aliased access hosts path c special h = refl
    access_stat-aliased access hosts path c (regular size mtime) h = request_file-Ends path mtime c

    -- Where the sizes of files fit an `off_t`: for every request and whatever the file system says, two
    -- accesses are enough, and the answer is FastCGI where that is configured, an abort with 301, 403,
    -- 404, 405, 416 or 500, or a reply to GET or HEAD: 304 with nothing behind its header, 200 with a
    -- file or the page of a directory, or 206 with one to four ranges of a file, each of them within
    -- the size that `stat` gives for it.
    pub server_file-Ends :
        (hosts : List ServerConfig) (c : Session)
        → Ends fs (server_file sys fs boundary media_find_config hosts c)
    unfolding server_file server_file_access
    server_file-Ends hosts c =
        let none_left = server_file_access sys fs boundary media_find_config 0 hosts in
        let once = server_file_access sys fs boundary media_find_config 1 hosts in
        let twice = server_file_access sys fs boundary media_find_config 2 hosts in
        file_by-Ends twice c (λ path.
          access_stat-Ends once hosts
            (λ p c' h. access_stat-aliased none_left hosts p c' (fs.stat p) h) path c
            (fs.stat path))
