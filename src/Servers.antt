-- ===== src/Servers.antt =====
-- The list of servers of usr.sbin/httpd/server.c and how one is found in it: `server_privinit`,
-- `server_tls_cmp`, `server_byaddr`, `serverconfig_byid`, `server_byid`, `server_foreach` and
-- `server_match`; and how each is opened and sent, `config_setserver` of config.c and the loops of
-- `parent_configure` of httpd.c. `server_socket_listen`, a row of system calls, and the messages to the
-- other processes (`sends`) are parameters. The ticket keys of TLS are left out.
pub mod Configure
pub mod Find
use Prim.Native.Nat.{Ordering}
use fuzz_httpd.Base.{
  ℕ, Bool, true, false, not, ◌&&◌, ◌||◌, List, [], ◌∷◌, ◌++◌, Option, none, some, Bytes, ◌==◌,
  str_eq, if◌then◌else◌,
}
use fuzz_httpd.Address.{ByteOrder, Families, Sockaddr, sockaddr_cmp}

-- `struct server_config`, as far as these functions read it; no `prefixlen` stands for -1.
pub record HostConfig : Type 0 where
  pub id : ℕ
  pub name : Bytes
  pub port : ℕ
  pub ss : Sockaddr
  pub prefixlen : Option ℕ
  pub flag_location : Bool
  pub tls_flags : ℕ
  pub tls_protocols : ℕ
  pub tls_ticket_lifetime : ℕ
  pub tls_ciphers : Bytes
  pub tls_dhe_params : Bytes
  pub tls_ecdhe_curves : Bytes

-- `struct server`: `pointer` stands for the address of the structure, no `srv_s` for -1.
pub record HttpServer : Type 0 where
  pub pointer : ℕ
  pub srv_s : Option ℕ
  pub srv_conf : HostConfig
  pub srv_hosts : List HostConfig

-- The result is 0.
unfoldable pub server_tls_cmp : HttpServer → HttpServer → Bool
server_tls_cmp s1 s2 =
    let sc1 = s1.srv_conf in
    let sc2 = s2.srv_conf in
    (sc1.tls_flags == sc2.tls_flags)
    && (sc1.tls_protocols == sc2.tls_protocols)
    && (sc1.tls_ticket_lifetime == sc2.tls_ticket_lifetime)
    && str_eq sc1.tls_ciphers sc2.tls_ciphers
    && str_eq sc1.tls_dhe_params sc2.tls_dhe_params
    && str_eq sc1.tls_ecdhe_curves sc2.tls_ecdhe_curves

-- `TAILQ_FOREACH` up to the first entry that passes a test
unfoldable pub first_entry {ℓ} : {A : Type ℓ} → (A → Bool) → List A → Option A
first_entry p [] = none
first_entry p (x ∷ xs) = if p x then some x else first_entry p xs

abbrev pub has_id : ℕ → HostConfig → Bool
has_id id c = c.id == id

unfoldable pub server_byid : ℕ → List HttpServer → Option HttpServer
unfolding first_entry
server_byid id sc_servers = first_entry (λ srv. has_id id srv.srv_conf) sc_servers

-- the hosts, and the next servers where none of them is it
abbrev pub or_next : Option HostConfig → Option HostConfig → Option HostConfig
or_next (some c) next = some c
or_next none next = next

unfoldable pub serverconfig_byid : ℕ → List HttpServer → Option HostConfig
unfolding first_entry
serverconfig_byid id [] = none
serverconfig_byid id (srv ∷ sc_servers) =
    let next = serverconfig_byid id sc_servers in
    if has_id id srv.srv_conf
    then some srv.srv_conf
    else or_next (first_entry (has_id id) srv.srv_hosts) next

-- A callback changes what it works on, and says whether it failed.
module _ {ℓ} {S : Type ℓ} (srv_cb : HttpServer → HostConfig → S → S × Bool) where
  -- the loop over the hosts of one server
  unfoldable pub foreach_host : HttpServer → List HostConfig → S → S × Bool
  foreach_host srv [] s = (s, false)
  foreach_host srv (c ∷ hosts) s =
      let (s', failed) = srv_cb srv c s in if failed then (s', true) else foreach_host srv hosts s'

  unfoldable pub server_foreach : List HttpServer → S → S × Bool
  unfolding foreach_host
  server_foreach [] s = (s, false)
  server_foreach (srv ∷ sc_servers) s =
      let (s1, failed) = srv_cb srv srv.srv_conf s in
      if failed
      then (s1, true)
      else (let (s2, failed2) = foreach_host srv srv.srv_hosts s1 in
          if failed2 then (s2, true) else server_foreach sc_servers s2)

abbrev pub is_set : Option ℕ → Bool
is_set none = false
is_set (some fd) = true

abbrev pub is_same : Ordering → Bool
is_same Ordering.eq = true
is_same _ = false

-- The server afterwards, the calls of `server_socket_listen`, and whether the result is 0.
pub record Opened : Type 0 where
  pub server : HttpServer
  pub listened : List HostConfig
  pub succeeded : Bool

abbrev pub is_found : Option HttpServer → Bool
is_found none = false
is_found (some s) = true

abbrev pub same_bool : Bool → Bool → Bool
same_bool true b = b
same_bool false b = not b

module _ (af : Families) (e : ByteOrder) where
  -- the tests of the port and of the address, under the prefix of the server in the list
  unfoldable pub takes : HostConfig → Sockaddr → ℕ → Bool
  unfolding sockaddr_cmp
  takes c addr port = c.port == port && is_same (sockaddr_cmp af e c.ss addr c.prefixlen)

  unfoldable pub server_byaddr : Sockaddr → ℕ → List HttpServer → Option HttpServer
  unfolding first_entry takes
  server_byaddr addr port sc_servers = first_entry (λ srv. takes srv.srv_conf addr port) sc_servers

  unfoldable pub server_match : HttpServer → Bool → List HttpServer → Option HttpServer
  unfolding first_entry takes
  server_match s2 match_name sc_servers =
      first_entry
        (λ s1.
          not s1.srv_conf.flag_location
          && (not match_name || str_eq s1.srv_conf.name s2.srv_conf.name)
          && takes s1.srv_conf s2.srv_conf.ss s2.srv_conf.port)
        sc_servers

  -- another server with a socket for the address
  abbrev pub has_socket_for : HttpServer → HttpServer → Bool
  has_socket_for srv s =
      not (s.pointer == srv.pointer)
      && is_set s.srv_s
      && takes s.srv_conf srv.srv_conf.ss srv.srv_conf.port

  unfoldable pub server_privinit : (HostConfig → Option ℕ) → List HttpServer → HttpServer → Opened
  unfolding first_entry takes
  server_privinit server_socket_listen sc_servers srv =
      if srv.srv_conf.flag_location || is_found (first_entry (has_socket_for srv) sc_servers)
      then record { server = srv; listened = []; succeeded = true }
      else (let srv_s = server_socket_listen srv.srv_conf in
          record {
            server = record srv { srv_s = srv_s };
            listened = srv.srv_conf ∷ [];
            succeeded = is_set srv_s;
          })

  module _ (server_socket_listen : HostConfig → Option ℕ) (sends : HttpServer → Bool) where
    -- The socket is closed when the server was sent. There is no result for -1.
    unfoldable pub config_setserver :
        List HttpServer → HttpServer → Option (HttpServer × List HostConfig)
    unfolding server_privinit
    config_setserver sc_servers srv =
        let o = server_privinit server_socket_listen sc_servers srv in
        if o.succeeded && sends o.server
        then some (record o.server { srv_s = none }, o.listened)
        else none

    -- One of the two loops, over the servers or over the locations: `done` is in front of the entry
    -- that the loop stands at. There is no result for `fatal`.
    unfoldable pub set_servers :
        Bool
        → List HttpServer
        → List HttpServer
        → List HostConfig
        → Option (List HttpServer × List HostConfig)
    unfolding config_setserver
    set_servers locations done [] listened = some (done, listened)
    set_servers locations done (srv ∷ later) listened =
        elim (same_bool srv.srv_conf.flag_location locations) [
          | false ↦ set_servers locations (done ++ srv ∷ []) later listened
          | true ↦ elim (config_setserver (done ++ srv ∷ later) srv) [
            | none ↦ none
            | some (srv', more) ↦ set_servers locations (done ++ srv' ∷ []) later (listened ++ more)
          ]
        ]

    -- The loops over the servers and, behind it, over the locations.
    unfoldable pub parent_configure : List HttpServer → Option (List HttpServer × List HostConfig)
    unfolding set_servers
    parent_configure sc_servers = elim (set_servers false [] sc_servers []) [
      | none ↦ none
      | some (servers, listened) ↦ set_servers true [] servers listened
    ]
