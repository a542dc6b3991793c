-- ===== src/File/Sends.antt =====
-- Which file `server_file` of server_file.c sends.
use fuzz_httpd.Base.{
  ℕ, zero, suc, ◌≡◌, ◌⊎◌, refl, ap, ◌∙◌, subst, Bool, true, false, List, ◌++◌, Option, none, some,
  All, Lacks, Bytes, codes, drop, if◌then◌else◌, if-intro, if-true, inl, inr, arith,
}
use fuzz_httpd.Expand.{or_empty}
use fuzz_httpd.File.{
  FileAnswer, replies, file_aborts, server_fcgi, out_of_fuel, Files, Stat, no_file, directory,
  special, regular, Content, no_content, page, whole_file, ranges, Accessed, header_text, is_get,
  open_file, open_zipped, send_file, server_file_method, server_file_modified_since,
  server_file_request, unless_modified, with_method,
}
use fuzz_httpd.File.Access.{
  access_stat, is_no_alias, on_accessed, request_file, server_file, server_file_access,
}
use fuzz_httpd.File.Ranged.{open_ranges, server_partial_file_request, with_ranges}
use fuzz_httpd.Path.Spec.{spell}
use fuzz_httpd.Path.Strip.{server_root_strip, server_root_strip-spell}
use fuzz_httpd.Range.{Outcome, counted, overrun, refused, parse_ranges}
use fuzz_httpd.Response.{Platform}
use fuzz_httpd.Server.{ServerConfig, Session}

-- What may follow the header of a reply for a file.
abbrev pub Of : Bytes → Content → Type 0
Of path no_content = Unit
Of path (page text) = ⊥
Of path (whole_file q) = (q ≡ path) ⊎ (q ≡ path ++ codes ".gz")
Of path (ranges q d) = q ≡ path

abbrev pub Sends : Bytes → FileAnswer → Type 0
Sends path (replies r c) = Of path r.content
Sends path (file_aborts code msg c) = Unit
Sends path (server_fcgi c) = Unit
Sends path out_of_fuel = Unit

module _ (fs : Files) where
  open_file-Sends : (path : Bytes) (c : Session) (s : Stat) → Sends path (open_file fs path c s)
  open_file-Sends path c (regular size t) =
      if-intro (Sends path) (fs.can_read path) (replies _ c) (file_aborts 500 none c)
        (λ _. inl refl) (λ _. tt)
  open_file-Sends path c (no_file e) = tt
  open_file-Sends path c (directory t) = tt
  open_file-Sends path c special = tt

  open_zipped-Sends :
      (path : Bytes) (mtime : ℕ) (c : Session) (o : Option ℕ)
      → Sends path (open_zipped fs path mtime c o)
  open_zipped-Sends path mtime c none = open_file-Sends path c (fs.stat path)
  open_zipped-Sends path mtime c (some size) = inr refl

  send_file-Sends :
      (path : Bytes) (mtime : ℕ) (c : Session) → Sends path (send_file fs path mtime c)
  send_file-Sends path mtime c = grind (arith, open_zipped-Sends, open_file-Sends)

  unless_modified-Sends :
      (path : Bytes) (mtime : ℕ) (c : Session) (o : Option ℕ)
      → Sends path (unless_modified fs path mtime c o)
  unless_modified-Sends path mtime c none = send_file-Sends path mtime c
  unless_modified-Sends path mtime c (some code) = tt

  with_method-Sends :
      (path : Bytes) (m : Option ℕ) (next : Session → FileAnswer) (c : Session)
      → Sends path (next c)
      → Sends path (with_method m next c)
  with_method-Sends path none next c h = h
  with_method-Sends path (some code) next c h = tt

  server_file_request-Sends :
      (path : Bytes) (mtime : ℕ) (c : Session) → Sends path (server_file_request fs path mtime c)
  unfolding server_file_request
  server_file_request-Sends path mtime c =
      with_method-Sends path (server_file_method c.desc.http_method) _ c
        (unless_modified-Sends path mtime c (server_file_modified_since fs c mtime))

-- no directory
abbrev pub is_directory : Stat → Bool
is_directory (directory mtime) = true
is_directory _ = false

module _ (sys : Platform) (fs : Files) (boundary : ℕ)
    (media_find_config : Bytes → Bytes × Bytes) where
  with_ranges-Sends :
      (path : Bytes) (size mtime : ℕ) (c : Session) (o : Outcome)
      → Sends path (with_ranges sys fs boundary media_find_config path size mtime c o)
  with_ranges-Sends path size mtime c (counted zero d) = tt
  with_ranges-Sends path size mtime c (counted (suc n) d) = refl
  with_ranges-Sends path size mtime c refused = tt
  with_ranges-Sends path size mtime c overrun = tt
  with_ranges-Sends path size mtime c Outcome.out_of_fuel = tt

  open_ranges-Sends :
      (path range_str : Bytes) (c : Session) (s : Stat)
      → Sends path (open_ranges sys fs boundary media_find_config path range_str c s)
  open_ranges-Sends path range_str c (regular size mtime) =
      if-intro (Sends path) (fs.can_read path) _ (file_aborts 500 none c)
        (λ _. with_ranges-Sends path size mtime c (parse_ranges range_str size)) (λ _. tt)
  open_ranges-Sends path range_str c (no_file e) = tt
  open_ranges-Sends path range_str c (directory t) = tt
  open_ranges-Sends path range_str c special = tt

  partial-Sends :
      (path : Bytes) (mtime : ℕ) (range_str : Bytes) (c : Session)
      → Sends path
          (server_partial_file_request sys fs boundary media_find_config path mtime range_str c)
  unfolding server_partial_file_request
  partial-Sends path mtime range_str c =
      if-intro (Sends path) (is_get c.desc.http_method)
        (open_ranges sys fs boundary media_find_config path range_str c (fs.stat path))
        (server_file_request fs path mtime c)
        (λ _. open_ranges-Sends path range_str c (fs.stat path))
        (λ _. server_file_request-Sends fs path mtime c)

  request_file-Sends :
      (path : Bytes) (mtime : ℕ) (c : Session)
      → Sends path (request_file sys fs boundary media_find_config path mtime c)
  request_file-Sends path mtime c = ground (
    arith,
    partial-Sends path mtime (header_text (codes "Range") c) c,
    server_file_request-Sends fs path mtime c,
  )

  access_stat-Sends :
      (access : Bytes → Session → Accessed) (hosts : List ServerConfig) (path : Bytes) (c : Session)
      (s : Stat)
      → is_directory s ≡ false
      → Sends path
          (on_accessed (access_stat sys fs boundary media_find_config access hosts path c s))
  access_stat-Sends access hosts path c (no_file e) h = tt
  access_stat-Sends access hosts path c (directory mtime) h = absurd (ground (arith, h))
  access_stat-Sends access hosts path c special h = tt
  access_stat-Sends access hosts path c (regular size mtime) h = request_file-Sends path mtime c

  -- Where a request for a path of segments has no alias, and the root with the segments behind the
  -- stripped ones does not name a directory: a file that is sent, or parts of which are sent, is that
  -- file, or the one that `.gz` behind its name makes.
  pub server_file-Sends :
      (hosts : List ServerConfig) (c : Session) (ws : List Bytes)
      → c.http_path_alias ≡ none
      → c.desc.http_path ≡ some (spell ws)
      → All (Lacks b'/') ws
      → is_directory (fs.stat (c.clt_srv_conf.root ++ spell (drop c.clt_srv_conf.strip ws))) ≡ false
      → Sends
          (c.clt_srv_conf.root ++ spell (drop c.clt_srv_conf.strip ws))
          (server_file sys fs boundary media_find_config hosts c)
  unfolding server_file server_file_access
  server_file-Sends hosts c ws alias path names no_directory =
      let conf = c.clt_srv_conf in
      let text = (if is_no_alias c.http_path_alias then c.desc.http_path else c.http_path_alias) in
      let full = conf.root ++ server_root_strip (or_empty text) conf.strip in
      let same : full ≡ conf.root ++ spell (drop conf.strip ws) =
        ap (λ t. conf.root ++ server_root_strip (or_empty t) conf.strip)
          (if-true (is_no_alias c.http_path_alias) c.desc.http_path c.http_path_alias
              (ap is_no_alias alias)
            ∙ path)
        ∙ ap (λ t. conf.root ++ t) (server_root_strip-spell ws conf.strip names) in
      subst (λ p. Sends p (server_file sys fs boundary media_find_config hosts c)) same
        (ground (
          arith,
          access_stat-Sends (server_file_access sys fs boundary media_find_config 1 hosts) hosts
              full c (fs.stat full) (ap (λ p. is_directory (fs.stat p)) same ∙ no_directory),
        ))
