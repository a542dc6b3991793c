-- ===== src/Tests/Clients.antt =====
-- Clients that come and go.
use fuzz_httpd.Base.{◌-◌, ◌^◌, ◌≡◌, refl, true, false, [], ◌∷◌, some, codes}
use fuzz_httpd.Clients.{
  Accepting, Clients, Connection, fcgi_enter, fcgi_leave, new_client, server_accept, server_close,
}
use fuzz_httpd.Clients.Counted.{Counted, Reach-Counted, accepts, here, next, no_clients}

abbrev arrival : Accepting
arrival = record {
  timeout = false;
  getdtablecount = 10;
  getdtablesize = 128;
  accepts = true;
  out_of_files = false;
  has_address = true;
  flag_tls = false;
  accepts_tls = true;
  has_sndbuf = true;
}

abbrev one_client : Clients
one_client = record {
  server_clients = 1;
  server_inflight = 1;
  server_cltid = 1;
  srv_clients = new_client 1 ∷ [];
}

arrived : (server_accept arrival no_clients).clients ≡ one_client
unfolding server_accept
arrived = refl

-- A client that is closed within a nested call stays until the call returns.
abbrev entered : Connection
entered = record (new_client 1) { clt_fcgi_count = 1 }

abbrev closed : Connection
closed = record (new_client 1) { clt_fcgi_error = some (codes "done") }

stays :
    server_close entered (codes "done") (fcgi_enter (new_client 1) one_client)
    ≡ record one_client { srv_clients = closed ∷ [] }
unfolding server_close
stays = refl

leaves_at_last :
    fcgi_leave closed (codes "done") (record one_client { srv_clients = closed ∷ [] })
    ≡ record no_clients { server_cltid = 1 }
unfolding server_close
leaves_at_last = refl

-- Where no address is found, the client is taken off the count that it was not added to.
miscounts :
    (server_accept (record arrival { has_address = false }) no_clients).clients.server_clients
    ≡ 2 ^ 32 - 1
unfolding server_accept
miscounts = refl

Reach-Counted_example : Counted (server_accept arrival no_clients).clients
Reach-Counted_example = Reach-Counted (next here (accepts arrival no_clients refl refl))
