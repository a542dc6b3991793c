-- ===== src/Host/Parts.antt =====
-- The parts that `server_http_parsehost` makes of a Host header.
use fuzz_httpd.Base.{
  ℕ, ◌≡◌, ◌≢◌, ◌<◌, refl, sym, ◌∙◌, strtonum, [], ◌∷◌, ◌++◌, false, Option, none, some, Bytes,
  Lacks, char_at, cut, length, lt→leb, ◌==◌, arith,
}
use fuzz_httpd.Host.{HostPort, server_http_parsehost, bracketed, parse_port}
use fuzz_httpd.Request.Print.{cut-append, cut-none, if-false}

-- A name and its port, if it has one.
abbrev pub host_text : Bytes → Option Bytes → Bytes
host_text name none = name
host_text name (some port) = name ++ b':' ∷ port

-- What a name and a port say: no port is the default, and one that is no decimal number up to 65535
-- is refused.
abbrev pub host_port : Bytes → Option Bytes → Option HostPort
host_port name none = some (record { host = name; portval = none })
host_port name (some port) = elim (strtonum port 0 65535) [
  | none ↦ none
  | some n ↦ some (record { host = name; portval = some n })
]

parse_port-host_port :
    (name : Bytes) (port : Option Bytes) → parse_port name port ≡ host_port name port
unfolding parse_port
parse_port-host_port name none = refl
parse_port-host_port name (some port) = ground arith

first_name :
    (name s : Bytes) → char_at name 0 ≢ b'[' → (char_at (name ++ b':' ∷ s) 0 == b'[') ≡ false
first_name [] s h = refl
first_name (c ∷ name) s h = ground arith

-- Of a name without a colon that starts with no bracket, and an optional port, that together fit the
-- array: `server_http_parsehost` gives the name and no port where there is none, the name and the
-- number where `strtonum` reads one from 0 to 65535, and fails for any other port.
pub server_http_parsehost-host_text :
    (name : Bytes) (port : Option Bytes) (len : ℕ)
    → length (host_text name port) < len
    → Lacks b':' name
    → char_at name 0 ≢ b'['
    → server_http_parsehost (host_text name port) len ≡ host_port name port
unfolding server_http_parsehost
server_http_parsehost-host_text name none len fits colon first =
    rw (lt→leb (length name) len fits, sym (parse_port-host_port name none))
      (if-false (char_at name 0 == b'[') _ _ (ground arith) ∙ rw (cut-none b':' name colon) refl)
server_http_parsehost-host_text name (some port) len fits colon first =
    rw (lt→leb (length (name ++ b':' ∷ port)) len fits, sym (parse_port-host_port name (some port)))
      (if-false _ _ _ (first_name name port first) ∙ rw (cut-append b':' name port colon) refl)

-- Of an address in brackets that fits the array the first byte is lost.
pub server_http_parsehost-loses_byte :
    (c : ℕ) (address : Bytes) (len : ℕ)
    → length (b'[' ∷ (c ∷ address ++ b']' ∷ [])) < len
    → Lacks b']' (c ∷ address)
    → server_http_parsehost (b'[' ∷ (c ∷ address ++ b']' ∷ [])) len
      ≡ some (record { host = address; portval = none })
unfolding server_http_parsehost bracketed cut parse_port
server_http_parsehost-loses_byte c address len fits h =
    rw (lt→leb (length (b'[' ∷ (c ∷ address ++ b']' ∷ []))) len fits)
      (rw (cut-append b']' (c ∷ address) [] h) refl)
