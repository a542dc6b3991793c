-- ===== src/Clients.antt =====
-- The clients of a server: `server_accept`, `server_inflight_dec` and `server_close` of
-- usr.sbin/httpd/server.c, with `accept_reserve` of httpd.c and the count of nested calls that
-- `server_fcgi` of server_fcgi.c keeps. What the system calls say is an argument. Of a client that is
-- counted, the model keeps what the counters need; allocation is assumed to succeed.
pub mod Tree
pub mod Counted
use fuzz_httpd.Base.{
  ℕ, ◌+◌, ◌-◌, ◌%◌, ◌^◌, Bool, true, false, List, [], ◌∷◌, Option, none, some, Bytes, codes, leb,
  ltb, ◌==◌, if◌then◌else◌,
}

-- `struct client`. A count that would go below 0 stays 0: the client is freed then.
pub record Connection : Type 0 where
  pub clt_id : ℕ
  pub clt_inflight : Bool
  pub clt_fcgi_count : ℕ
  pub clt_fcgi_error : Option Bytes

-- The counters are the patterns of 32 bits; `srv_clients` is the union of the
-- trees of all servers, by the clients in it: the counters are those of the process.
pub record Clients : Type 0 where
  pub server_clients : ℕ
  pub server_inflight : ℕ
  pub server_cltid : ℕ
  pub srv_clients : List Connection

abbrev pub increment : ℕ → ℕ
increment n = (n + 1) % 2 ^ 32

abbrev pub decrement : ℕ → ℕ
decrement n = (n + (2 ^ 32 - 1)) % 2 ^ 32

-- `a >= b` of int
abbrev pub int_ge : ℕ → ℕ → Bool
int_ge a b = leb ((b + 2 ^ 31) % 2 ^ 32) ((a + 2 ^ 31) % 2 ^ 32)

-- SERVER_MAX_CLIENTS
abbrev pub server_max_clients : ℕ
server_max_clients = 1024

-- FD_RESERVE
abbrev pub fd_reserve : ℕ
fd_reserve = 5

-- `SPLAY_REMOVE`, by the id that the tree is ordered by
unfoldable pub remove : ℕ → List Connection → List Connection
remove id [] = []
remove id (c ∷ clients) = if c.clt_id == id then clients else c ∷ remove id clients

-- a write to a client of the tree
unfoldable pub update : Connection → List Connection → List Connection
update c [] = []
update c (d ∷ clients) = if d.clt_id == c.clt_id then c ∷ clients else d ∷ update c clients

abbrev pub is_new : ℕ → List Connection → Bool
is_new id [] = true
is_new id (c ∷ clients) = if c.clt_id == id then false else is_new id clients

-- `SPLAY_INSERT`, which leaves a tree with the same id as it is
abbrev pub insert : Connection → List Connection → List Connection
insert c clients = if is_new c.clt_id clients then c ∷ clients else clients

-- NULL is `none`.
unfoldable pub server_inflight_dec : Option Connection → Clients → Clients
server_inflight_dec none st = record st { server_inflight = decrement st.server_inflight }
server_inflight_dec (some c) st =
    if c.clt_inflight then record st { server_inflight = decrement st.server_inflight } else st

-- the client is freed
abbrev pub free_client : Connection → Clients → Clients
free_client c st =
    let st' =
      server_inflight_dec (some c) (record st { srv_clients = remove c.clt_id st.srv_clients }) in
    record st' { server_clients = decrement st'.server_clients }

unfoldable pub server_close : Connection → Bytes → Clients → Clients
unfolding server_inflight_dec remove update
server_close c msg st =
    if ltb 0 c.clt_fcgi_count
    then record st {
      srv_clients =
          update (record c { clt_fcgi_count = c.clt_fcgi_count - 1; clt_fcgi_error = some msg })
            st.srv_clients;
    }
    else free_client c st

-- `clt_fcgi_count++`, in front of the nested call of `server_read_httpcontent`
abbrev pub fcgi_enter : Connection → Clients → Clients
fcgi_enter c st = record st {
  srv_clients = update (record c { clt_fcgi_count = c.clt_fcgi_count + 1 }) st.srv_clients;
}

-- `clt_fcgi_count-- <= 0`, behind it: the call was closed, and `server_abort_http` closes it at last.
abbrev pub fcgi_leave : Connection → Bytes → Clients → Clients
fcgi_leave c msg st = if c.clt_fcgi_count == 0 then server_close c msg st else record st {
  srv_clients = update (record c { clt_fcgi_count = c.clt_fcgi_count - 1 }) st.srv_clients;
}

-- What the system calls of `server_accept` say.
pub record Accepting : Type 0 where
  pub timeout : Bool
  pub getdtablecount : ℕ
  pub getdtablesize : ℕ
  pub accepts : Bool
  pub out_of_files : Bool
  pub has_address : Bool
  pub flag_tls : Bool
  pub accepts_tls : Bool
  pub has_sndbuf : Bool

-- The socket, or -1, whether `errno` is that of a full table, and the counters.
pub record Reserved : Type 0 where
  pub is_socket : Bool
  pub is_full : Bool
  pub clients : Clients

abbrev pub table_full : Accepting → Clients → Bool
table_full a st =
    int_ge ((a.getdtablecount + fd_reserve + st.server_inflight) % 2 ^ 32) a.getdtablesize

abbrev pub no_socket : Bool → Clients → Reserved
no_socket is_full st = record { is_socket = false; is_full = is_full; clients = st }

abbrev pub a_socket : Clients → Reserved
a_socket st = record {
  is_socket = true;
  is_full = false;
  clients = record st { server_inflight = increment st.server_inflight };
}

unfoldable pub accept_reserve : Accepting → Clients → Reserved
accept_reserve a st =
    if table_full a st
    then no_socket true st
    else if a.accepts
    then a_socket st
    else no_socket a.out_of_files st

abbrev pub new_client : ℕ → Connection
new_client id = record {
  clt_id = id;
  clt_inflight = true;
  clt_fcgi_count = 0;
  clt_fcgi_error = none;
}

-- `server_input`, as far as it can end the client
abbrev pub server_input : Accepting → Connection → Clients → Clients
server_input a c st =
    if a.has_sndbuf then st else server_close c (codes "failed to get send buffer size") st

-- with the client in the tree
abbrev pub start_client : Accepting → Connection → Clients → Clients
start_client a c st =
    if a.flag_tls
    then (if a.accepts_tls then st else server_close c (codes "failed to accept tls socket") st)
    else server_input a c st

-- The client that could not be set up was counted as in flight.
abbrev pub add_client : Accepting → Clients → Clients
add_client a st =
    let id = increment st.server_cltid in
    let c = new_client id in
    let st' = record st { server_cltid = id } in
    if int_ge st.server_clients server_max_clients
    then server_inflight_dec none st
    else if a.has_address
    then start_client a c (record st' {
      server_clients = increment st'.server_clients;
      srv_clients = insert c st'.srv_clients;
    })
    else server_close c (codes "listen address lookup failed") st'

-- Whether the server pauses, and the counters.
pub record Accepted : Type 0 where
  pub pauses : Bool
  pub clients : Clients

unfoldable pub server_accept : Accepting → Clients → Accepted
unfolding accept_reserve server_close server_inflight_dec
server_accept a st =
    let r = accept_reserve a st in
    if a.timeout
    then record { pauses = false; clients = st }
    else if r.is_socket
    then record { pauses = false; clients = add_client a r.clients }
    else record { pauses = r.is_full; clients = r.clients }
