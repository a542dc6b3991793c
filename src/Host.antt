-- ===== src/Host.antt =====
-- The Host header: `server_http_parsehost` of usr.sbin/httpd/server_http.c. `len` is the size of the
-- array `buf`. A port is the number whose two bytes stand in network order in `*portval`, `none` the
-- -1 for the default port.
pub mod Parts
use fuzz_httpd.Base.{
  ℕ, ◌≡◌, refl, [], ◌∷◌, Option, none, some, Bytes, char_at, cut, drop, length, leb, strtonum, ◌==◌,
  if◌then◌else◌,
}

-- What is returned and what `*portval` is set to.
pub record HostPort : Type 0 where
  pub host : Bytes
  pub portval : Option ℕ

abbrev pub with_port : Bytes → Option ℕ → Option HostPort
with_port host none = none
with_port host (some port) = some (record { host = host; portval = some port })

-- The test of `port` and what follows.
unfoldable pub parse_port : Bytes → Option Bytes → Option HostPort
parse_port host none = some (record { host = host; portval = none })
parse_port host (some port) = with_port host (strtonum port 0 65535)

-- The text behind a colon.
abbrev pub behind : Option (Bytes × Bytes) → Option Bytes
behind none = none
behind (some (before, after)) = some after

-- The second branch and the third, at the colon of a name.
abbrev pub named : Bytes → Option (Bytes × Bytes) → Option HostPort
named buf none = parse_port buf none
named buf (some (name, port)) = parse_port name (some port)

-- The first branch, cut at the closing bracket. `memmove` puts the address at the start of `buf`, but
-- what is returned is still `buf + 1`.
unfoldable pub bracketed : Bytes → Option (Bytes × Bytes) → Option HostPort
unfolding parse_port cut
bracketed buf none = named buf (cut b':' buf)
bracketed buf (some (address, end)) = parse_port (drop 1 address) (behind (cut b':' end))

unfoldable pub server_http_parsehost : Bytes → ℕ → Option HostPort
unfolding bracketed
server_http_parsehost host len =
    if leb len (length host)
    then none
    else if char_at host 0 == b'['
    then bracketed host (cut b']' (drop 1 host))
    else named host (cut b':' host)
