-- ===== src/Tests/Servers.antt =====
-- Servers that are found by address, and that are opened.
use Prim.Native.Nat.{Ordering}
use fuzz_httpd.Base.{
  ℕ, ◌≡◌, refl, inl, true, false, [], ◌∷◌, IsByte, Option, none, some, Bytes, codes, arith,
}
use fuzz_httpd.Address.{
  little_endian, big_endian, Families, Sockaddr, prefixlen2mask, prefixlen2mask6, sockaddr_cmp,
}
use fuzz_httpd.Address.Network.{AreFamilies, IsAddress}
use fuzz_httpd.Servers.{HostConfig, HttpServer, parent_configure, server_byaddr}
use fuzz_httpd.Servers.Configure.{parent_configure-listeners}
use fuzz_httpd.Servers.Find.{First, Holds, server_byaddr-First}

abbrev families : Families
families = record { af_unspec = 0; af_inet = 2; af_inet6 = 24 }

abbrev inet : Bytes → Sockaddr
inet bytes = record { sa_family = 2; addr = bytes }

mask_little : prefixlen2mask little_endian 12 ≡ 0xf0ff
unfolding prefixlen2mask
mask_little = refl

mask_big : prefixlen2mask big_endian 12 ≡ 0xfff0_0000
unfolding prefixlen2mask
mask_big = refl

mask_six :
    prefixlen2mask6 12 ≡ 255 ∷ 240 ∷ 0 ∷ 0 ∷ 0 ∷ 0 ∷ 0 ∷ 0 ∷ 0 ∷ 0 ∷ 0 ∷ 0 ∷ 0 ∷ 0 ∷ 0 ∷ 0 ∷ []
unfolding prefixlen2mask6
mask_six = refl

-- The order of two addresses is that of the machine's words.
ordered :
    sockaddr_cmp families little_endian
      (inet (10 ∷ 0 ∷ 0 ∷ 1 ∷ []))
      (inet (9 ∷ 0 ∷ 0 ∷ 2 ∷ []))
      none
    ≡ Ordering.lt
unfolding sockaddr_cmp
ordered = refl

abbrev conf : ℕ → Bytes → Option ℕ → HostConfig
conf id bytes prefixlen = record {
  id = id;
  name = codes "www";
  port = 80;
  ss = inet bytes;
  prefixlen = prefixlen;
  flag_location = false;
  tls_flags = 0;
  tls_protocols = 0;
  tls_ticket_lifetime = 0;
  tls_ciphers = [];
  tls_dhe_params = [];
  tls_ecdhe_curves = [];
}

abbrev server : HostConfig → HttpServer
server c = record { pointer = c.id; srv_s = none; srv_conf = c; srv_hosts = [] }

abbrev narrow : HttpServer
narrow = server (conf 1 (10 ∷ 1 ∷ 2 ∷ 3 ∷ []) none)

abbrev wide : HttpServer
wide = server (conf 2 (10 ∷ 1 ∷ 0 ∷ 0 ∷ []) (some 16))

abbrev visitor : Sockaddr
visitor = inet (10 ∷ 1 ∷ 2 ∷ 4 ∷ [])

found : server_byaddr families little_endian visitor 80 (narrow ∷ wide ∷ []) ≡ some wide
unfolding server_byaddr
found = refl

AreFamilies_lem : AreFamilies families
AreFamilies_lem = record {
  inet-unspec = λ e. absurd (omega arith);
  inet6-unspec = λ e. absurd (omega arith);
  inet-inet6 = λ e. absurd (omega arith);
}

IsAddress_lem :
    (a b c d : ℕ)
    → IsByte a × IsByte b × IsByte c × IsByte d
    → IsAddress families (inet (a ∷ b ∷ c ∷ d ∷ []))
IsAddress_lem a b c d (ha, hb, hc, hd) = record {
  bytes = (ha, (hb, (hc, (hd, tt))));
  kind = inl (refl, refl);
}

server_byaddr-First_example :
    First
      (Holds visitor 80)
      (narrow ∷ wide ∷ [])
      (server_byaddr families little_endian visitor 80 (narrow ∷ wide ∷ []))
server_byaddr-First_example =
    server_byaddr-First families little_endian visitor 80 (narrow ∷ wide ∷ []) AreFamilies_lem
      (IsAddress_lem 10 1 2 4 (omega arith))
      (IsAddress_lem 10 1 2 3 (omega arith), (IsAddress_lem 10 1 0 0 (omega arith), tt))

-- Two servers of one address are both opened.
parent_configure-listeners_example :
    parent_configure families little_endian (λ c. some c.id) (λ srv. true) (narrow ∷ narrow ∷ [])
    ≡ some (narrow ∷ narrow ∷ [], narrow.srv_conf ∷ narrow.srv_conf ∷ [])
parent_configure-listeners_example =
    parent_configure-listeners families little_endian (λ c. some c.id) (λ srv. true)
      (narrow ∷ narrow ∷ []) (refl, (refl, tt))
