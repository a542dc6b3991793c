-- ===== src/Tests/Location.antt =====
-- A few locations; patterns are compared as they are.
use fuzz_httpd.Base.{
  ◌≡◌, refl, Bool, true, false, List, [], ◌∷◌, some, Option, Bytes, codes, str_eq,
}
use fuzz_httpd.Server.{ServerConfig}
use fuzz_httpd.Tests.Fixtures.{server}
use fuzz_httpd.Location.{server_getlocation}
use fuzz_httpd.Location.Choice.{Chooses, server_getlocation-Chooses}

abbrev captures : Bytes → Bytes → Option (List Bytes)
captures path pattern = some (path ∷ [])

abbrev nowhere : Bytes → Bytes → Bool
nowhere root path = false

abbrev opens : Bytes → Bool
opens root = true

abbrev plain : ServerConfig
plain = record server { flag_location = true; location = codes "/a" }

-- a pattern with a file that has to be there
abbrev pattern : ServerConfig
pattern = record server {
  flag_location = true;
  flag_location_match = true;
  flag_location_found = true;
}

-- The pattern is rejected since the file is not there, and the plain location is taken with the
-- captures of the pattern.
stale_captures :
    server_getlocation str_eq captures opens nowhere []
      (pattern ∷ plain ∷ [])
      server
      (codes "/a")
      []
    ≡ record { ret = some plain; clt_srv_conf = plain; clt_srv_match = codes "/a" ∷ [] }
unfolding server_getlocation
stale_captures = refl

no_location :
    (server_getlocation str_eq captures opens nowhere [] (plain ∷ []) server (codes "/b") []).ret
    ≡ some server
unfolding server_getlocation
no_location = refl

server_getlocation-Chooses_example :
    Chooses str_eq captures opens nowhere [] server (codes "/a") (pattern ∷ plain ∷ []) (
      server_getlocation str_eq captures opens nowhere []
        (pattern ∷ plain ∷ [])
        server
        (codes "/a")
        [])
server_getlocation-Chooses_example =
    server_getlocation-Chooses str_eq captures opens nowhere [] server (codes "/a")
      (pattern ∷ plain ∷ []) []
