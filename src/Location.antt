-- ===== src/Location.antt =====
-- Locations: `server_getlocation` and `server_locationaccesstest` of usr.sbin/httpd/server_http.c.
-- `fnmatch` of the C library, `str_match` of patterns.c and the file system are parameters.
pub mod Choice
use fuzz_httpd.Base.{
  ℕ, Bool, true, false, not, ◌&&◌, ◌||◌, List, [], ◌∷◌, Option, none, some, Bytes, ◌==◌,
  if◌then◌else◌,
}
use fuzz_httpd.Server.{ServerConfig}
use fuzz_httpd.Path.Strip.{server_root_strip}

-- What the test of a location returns: 0, 1 and -1.
pub data Access : Type 0 where
  passes rejects fails : Access

-- what is returned, `clt_srv_conf` and `clt_srv_match`
pub record Located : Type 0 where
  pub ret : Option ServerConfig
  pub clt_srv_conf : ServerConfig
  pub clt_srv_match : List Bytes

-- `str_match` clears the captures first.
abbrev pub captured : Option (List Bytes) → Bool × List Bytes
captured none = (false, [])
captured (some captures) = (true, captures)

-- `fnmatch` with FNM_CASEFOLD, as its test for 0; `str_match` is none where it returns -1, and the
-- captures otherwise; `can_open` is `open` of a root, `is_there` are `faccessat` and `fstatat` below
-- it. `behind` is the text behind the NUL of the path.
module _ (fnmatch : Bytes → Bytes → Bool) (str_match : Bytes → Bytes → Option (List Bytes))
    (can_open : Bytes → Bool) (is_there : Bytes → Bytes → Bool) (behind : Bytes) where
  -- the pointer, plus 1
  abbrev pub next_byte : Bytes → Bytes
  next_byte [] = behind
  next_byte (c ∷ s) = s

  unfoldable pub server_locationaccesstest : ServerConfig → Bytes → Access
  unfolding server_root_strip
  server_locationaccesstest srv_conf path =
      if not (srv_conf.flag_location_found || srv_conf.flag_location_not_found)
      then passes
      else if not (can_open srv_conf.root)
      then fails
      else (let there =
            is_there srv_conf.root (next_byte (server_root_strip path srv_conf.strip)) in
          if (not there && srv_conf.flag_location_found)
            || (there && srv_conf.flag_location_not_found)
          then rejects
          else passes)

  -- Whether the location matches, and the captures.
  abbrev pub match_location : ServerConfig → Bytes → List Bytes → Bool × List Bytes
  match_location location path m =
      if location.flag_location_match
      then captured (str_match path location.location)
      else (fnmatch location.location path, m)

  -- behind the test of a location that matches
  abbrev pub on_access :
      (List Bytes → Located) → ServerConfig → ServerConfig → List Bytes → Access → Located
  on_access next srv_conf location m passes = record {
    ret = some location;
    clt_srv_conf = location;
    clt_srv_match = m;
  }
  on_access next srv_conf location m rejects = next m
  on_access next srv_conf location m fails = record {
    ret = none;
    clt_srv_conf = srv_conf;
    clt_srv_match = m;
  }

  -- the body of the loop
  abbrev pub try_location :
      (List Bytes → Located) → ServerConfig → Bytes → List Bytes → ServerConfig → Located
  try_location next srv_conf path m location =
      if location.flag_location && location.parent_id == srv_conf.parent_id
      then (let (matched, m') = match_location location path m in
          if matched
          then on_access next srv_conf location m' (server_locationaccesstest location path)
          else next m')
      else next m

  -- The loop over `srv_hosts`; `m` is `clt_srv_match`.
  unfoldable pub server_getlocation :
      List ServerConfig → ServerConfig → Bytes → List Bytes → Located
  unfolding server_locationaccesstest
  server_getlocation [] srv_conf path m = record {
    ret = some srv_conf;
    clt_srv_conf = srv_conf;
    clt_srv_match = m;
  }
  server_getlocation (location ∷ hosts) srv_conf path m =
      try_location (server_getlocation hosts srv_conf path) srv_conf path m location
