-- ===== src/Servers/Configure.antt =====
-- Which sockets `parent_configure` of usr.sbin/httpd/httpd.c opens.
use fuzz_httpd.Base.{
  ℕ, ◌≡◌, refl, sym, ap, Bool, true, false, not, ◌&&◌, ◌||◌, List, [], ◌∷◌, ◌++◌, append_assoc,
  append-nil, Option, none, some, All, All-append, if◌then◌else◌, Bool-cases, inl, inr, arith,
}
use fuzz_httpd.Address.{ByteOrder, Families}
use fuzz_httpd.Servers.{
  HostConfig, HttpServer, config_setserver, first_entry, has_socket_for, is_found, is_set,
  parent_configure, same_bool, server_privinit, set_servers,
}

-- A server without a socket.
abbrev pub IsClosed : HttpServer → Type 0
IsClosed srv = srv.srv_s ≡ none

-- The configurations of the servers that are no locations.
abbrev pub listeners : List HttpServer → List HostConfig
listeners [] = []
listeners (srv ∷ servers) =
    if srv.srv_conf.flag_location then listeners servers else srv.srv_conf ∷ listeners servers

abbrev pub every {ℓ} : {A : Type ℓ} → (A → Bool) → List A → Bool
every p [] = true
every p (x ∷ xs) = p x && every p xs

module _ (af : Families) (e : ByteOrder) where
  no_socket_for :
      (srv : HttpServer) (servers : List HttpServer)
      → All IsClosed servers
      → is_found (first_entry (has_socket_for af e srv) servers) ≡ false
  unfolding first_entry
  no_socket_for srv [] h = refl
  no_socket_for srv (s ∷ servers) (hs, h) =
      let shut : has_socket_for af e srv s ≡ false = ground (arith, hs) in
      rw shut (no_socket_for srv servers h)

  module _ (server_socket_listen : HostConfig → Option ℕ) (sends : HttpServer → Bool) where
    -- A server is opened and sent; a location is only sent.
    abbrev is_open : HttpServer → Bool
    is_open srv =
        let srv_s = server_socket_listen srv.srv_conf in
        is_set srv_s && sends (record srv { srv_s = srv_s })

    abbrev pub is_sent : HttpServer → Bool
    is_sent srv = if srv.srv_conf.flag_location then sends srv else is_open srv

    config_setserver-closed :
        (servers : List HttpServer) (srv : HttpServer)
        → All IsClosed servers
        → IsClosed srv
        → config_setserver af e server_socket_listen sends servers srv
          ≡ (if is_sent srv then some (srv, listeners (srv ∷ [])) else none)
    unfolding config_setserver server_privinit
    config_setserver-closed servers srv h hs =
        let same : record srv { srv_s = none } ≡ srv =
          ap (λ f. record srv { srv_s = f }) (sym hs) in
        elim (Bool-cases srv.srv_conf.flag_location) [
          | inl location ↦ simp location (ap (λ s. if sends srv then some (s, []) else none) same)
          | inr server ↦
              simp (server, no_socket_for srv servers h)
                (ap (λ s. if is_open srv then some (s, srv.srv_conf ∷ []) else none) same)
        ]

    every-split :
        (servers : List HttpServer)
        → every is_sent servers
          ≡ every (λ srv. not (same_bool srv.srv_conf.flag_location false) || is_sent srv) servers
            && every (λ srv. not (same_bool srv.srv_conf.flag_location true) || is_sent srv) servers
    every-split [] = refl
    every-split (srv ∷ servers) = ground (arith, every-split servers)

    -- A pass over the locations, or over the others, sends those entries and leaves all as they are.
    set_servers-closed :
        (locations : Bool) (done later : List HttpServer) (listened : List HostConfig)
        → All IsClosed done
        → All IsClosed later
        → set_servers af e server_socket_listen sends locations done later listened ≡ (
            if every
              (λ srv. not (same_bool srv.srv_conf.flag_location locations) || is_sent srv)
              later
            then some (done ++ later, listened ++ (if locations then [] else listeners later))
            else none)
    unfolding set_servers
    set_servers-closed true done [] listened hd hl = rw (append-nil done, append-nil listened)
    set_servers-closed false done [] listened hd hl = rw (append-nil done, append-nil listened)
    set_servers-closed locations done (srv ∷ later) listened hd (hs, hl) =
        let now =
          config_setserver-closed (done ++ srv ∷ later) srv
            (All-append IsClosed done (srv ∷ later) hd (hs, hl)) hs in
        let rest = λ (l : List HostConfig). rw (append_assoc done (srv ∷ []) later) at (
          set_servers-closed locations (done ++ srv ∷ []) later l
            (All-append IsClosed done (srv ∷ []) hd (hs, tt)) hl) in
        ground (
          arith,
          now,
          rest listened,
          rest (listened ++ []),
          rest (listened ++ srv.srv_conf ∷ []),
          append_assoc listened (srv.srv_conf ∷ []) (listeners later),
          append-nil listened,
          append-nil (listened ++ []),
        )

    -- For servers without a socket, `parent_configure` succeeds exactly where a socket is opened for each
    -- server that is no location, and each server and each location is sent. The servers are then as
    -- before, and a socket was asked for once by each server that is no location, in their order, even
    -- where two of them have one address and port.
    pub parent_configure-listeners :
        (servers : List HttpServer)
        → All IsClosed servers
        → parent_configure af e server_socket_listen sends servers
          ≡ (if every is_sent servers then some (servers, listeners servers) else none)
    unfolding parent_configure
    parent_configure-listeners servers h = ground (
      arith,
      set_servers-closed false [] servers [] tt h,
      set_servers-closed true [] servers (listeners servers) tt h,
      append-nil (listeners servers),
      every-split servers,
    )
