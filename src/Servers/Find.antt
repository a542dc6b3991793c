-- ===== src/Servers/Find.antt =====
-- What the searches of usr.sbin/httpd/server.c find in the list of servers.
use Prim.Native.Nat.{Ordering}
use fuzz_httpd.Base.{
  ℕ, ◌≡◌, refl, ◌↔◌, Bool, true, false, List, [], ◌∷◌, Option, none, some, All, Bool-cases, inl,
  inr, if◌then◌else◌, arith,
}
use fuzz_httpd.Address.{ByteOrder, Families, Sockaddr, sockaddr_cmp}
use fuzz_httpd.Address.Network.{AreFamilies, IsAddress, SameNetwork, sockaddr_cmp-SameNetwork}
use fuzz_httpd.Servers.{
  HostConfig, HttpServer, first_entry, foreach_host, has_id, is_same, server_byaddr, server_foreach,
  serverconfig_byid, takes,
}

-- A search gives the first entry that a property holds of, or there is none.
pub data First {ℓ} {A : Type ℓ} (P : A → Type 0) : List A → Option A → Type ℓ where
  nothing : First P [] none
  here : {x : A} {xs : List A} → P x → First P (x ∷ xs) (some x)
  later : {x : A} {xs : List A} {o : Option A} → (P x → ⊥) → First P xs o → First P (x ∷ xs) o

-- The server has the port, and its network holds the address.
abbrev pub Holds : Sockaddr → ℕ → HttpServer → Type 0
Holds addr port srv =
    (srv.srv_conf.port ≡ port) × SameNetwork srv.srv_conf.prefixlen srv.srv_conf.ss addr

abbrev pub HasAddress : Families → HttpServer → Type 0
HasAddress af srv = IsAddress af srv.srv_conf.ss

is_same_iff : (o : Ordering) → (is_same o ≡ true) ↔ (o ≡ Ordering.eq)
is_same_iff Ordering.lt = ground arith
is_same_iff Ordering.eq = ground arith
is_same_iff Ordering.gt = ground arith

takes-Holds :
    (af : Families) (e : ByteOrder) (srv : HttpServer) (addr : Sockaddr) (port : ℕ)
    → AreFamilies af
    → HasAddress af srv
    → IsAddress af addr
    → (takes af e srv.srv_conf addr port ≡ true) ↔ Holds addr port srv
unfolding takes
takes-Holds af e srv addr port hf hs ha = ground (
  arith,
  is_same_iff (sockaddr_cmp af e srv.srv_conf.ss addr srv.srv_conf.prefixlen),
  sockaddr_cmp-SameNetwork af e srv.srv_conf.ss addr srv.srv_conf.prefixlen hf hs ha,
)

-- Where the numbers of the address families differ, and the address and those of all servers are whole
-- addresses of AF_INET or AF_INET6: in both byte orders, `server_byaddr` finds the first server that has
-- the port, is of the address's family and agrees with it in the first `prefixlen` bits (in all bits
-- for a prefix of -1), and nothing where there is none.
pub server_byaddr-First :
    (af : Families) (e : ByteOrder) (addr : Sockaddr) (port : ℕ) (servers : List HttpServer)
    → AreFamilies af
    → IsAddress af addr
    → All (HasAddress af) servers
    → First (Holds addr port) servers (server_byaddr af e addr port servers)
unfolding server_byaddr first_entry
server_byaddr-First af e addr port [] hf ha hs = nothing
server_byaddr-First af e addr port (srv ∷ servers) hf ha (h, hs) =
    let test = takes-Holds af e srv addr port hf h ha in
    elim (Bool-cases (takes af e srv.srv_conf addr port)) [
      | inl found ↦ rw found (here (test.0 found))
      | inr other ↦ rw other (
          later (λ holds. ground (arith, other, test.1 holds))
            (server_byaddr-First af e addr port servers hf ha hs))
    ]

-- A callback for `server_foreach` that stops at the configuration with an id.
abbrev stop_at : ℕ → HttpServer → HostConfig → Option HostConfig → Option HostConfig × Bool
stop_at id srv c found = if has_id id c then (some c, true) else (found, false)

abbrev is_some : Option HostConfig → Bool
is_some none = false
is_some (some c) = true

foreach_host-find :
    (id : ℕ) (srv : HttpServer) (hosts : List HostConfig)
    → foreach_host (stop_at id) srv hosts none
      ≡ (first_entry (has_id id) hosts, is_some (first_entry (has_id id) hosts))
unfolding foreach_host first_entry
foreach_host-find id srv [] = refl
foreach_host-find id srv (c ∷ hosts) = ground (arith, foreach_host-find id srv hosts)

-- The search for a configuration by its id is the walk over all of them that stops there.
server_foreach-serverconfig_byid :
    (id : ℕ) (servers : List HttpServer)
    → server_foreach (stop_at id) servers none
      ≡ (serverconfig_byid id servers, is_some (serverconfig_byid id servers))
unfolding server_foreach serverconfig_byid
server_foreach-serverconfig_byid id [] = refl
server_foreach-serverconfig_byid id (srv ∷ servers) =
    ground
      (arith, foreach_host-find id srv srv.srv_hosts, server_foreach-serverconfig_byid id servers)
