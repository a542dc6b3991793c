-- ===== src/Clients/Counted.antt =====
-- The counters of server.c count the clients.
use fuzz_httpd.Base.{
  ℕ, suc, ◌+◌, ◌^◌, ◌≤◌, ◌<◌, ◌≡◌, ◌⊎◌, refl, sym, ap, subst, ◌∙◌, true, false, List, [], ◌∷◌, none,
  some, Bytes, arith, Bool-cases, inl, inr, length, ltb, ◌==◌, if◌then◌else◌, if-intro, if-true,
}
use fuzz_httpd.Request.Print.{if-false}
use fuzz_httpd.Clients.{
  Accepted, Accepting, Clients, Connection, Reserved, accept_reserve, add_client, decrement,
  fcgi_enter, fcgi_leave, free_client, increment, int_ge, is_new, new_client, remove, server_accept,
  server_close, server_inflight_dec, server_max_clients, start_client, update, a_socket, no_socket,
  table_full,
}
use fuzz_httpd.Clients.Tree.{
  inflight, Without, Distinct, IsClient, inflight-length, remove-lem, Distinct-remove, update-lem,
  Distinct-update,
}

-- The counters are what the tree says, no two clients have one id, and there are 1024 at most.
pub record Counted (st : Clients) : Type 0 where
  pub clients_lem : st.server_clients ≡ length st.srv_clients
  pub inflight_lem : st.server_inflight ≡ inflight st.srv_clients
  pub limit : length st.srv_clients ≤ server_max_clients
  pub distinct : Distinct st.srv_clients

with_update :
    (c c' : Connection) (st : Clients)
    → c'.clt_id ≡ c.clt_id
    → c'.clt_inflight ≡ c.clt_inflight
    → Counted st
    → IsClient c st.srv_clients
    → Counted (record st { srv_clients = update c' st.srv_clients })
with_update c c' st i f h m =
    let (a, b) = update-lem c c' st.srv_clients i f h.distinct m in
    record {
      clients_lem = h.clients_lem ∙ sym a;
      inflight_lem = h.inflight_lem ∙ sym b;
      limit = omega (arith, a, h.limit);
      distinct = Distinct-update c' st.srv_clients h.distinct;
    }

decrement-suc : (n : ℕ) → n < 2 ^ 31 → decrement (suc n) ≡ n
decrement-suc n h = omega (arith, h)

-- What a counter is once one less is counted.
abbrev Flagged : ℕ → Connection → Clients → Clients → Type 0
Flagged n c st st' =
    (st'.server_clients ≡ st.server_clients)
    × (st'.srv_clients ≡ st.srv_clients)
    × (st'.server_inflight ≡ n)

dec-Flagged :
    (n : ℕ) (c : Connection) (st : Clients)
    → n < 2 ^ 31
    → (if c.clt_inflight then 1 else 0) + n ≡ st.server_inflight
    → Flagged n c st (server_inflight_dec (some c) st)
unfolding server_inflight_dec
dec-Flagged n c st small h =
    if-intro (Flagged n c st) c.clt_inflight
      (record st { server_inflight = decrement st.server_inflight }) st
      (λ yes_flag. (
        refl,
        refl,
        omega (arith, small, subst (λ b. (if b then 1 else 0) + n ≡ st.server_inflight) yes_flag h),
      ))
      (λ no_flag. (
        refl,
        refl,
        omega (arith, subst (λ b. (if b then 1 else 0) + n ≡ st.server_inflight) no_flag h),
      ))

free_client-Counted :
    (c : Connection) (st : Clients)
    → Counted st
    → IsClient c st.srv_clients
    → Counted (free_client c st)
free_client-Counted c st h m =
    let (one_less, flag_less) = remove-lem c st.srv_clients h.distinct m in
    let left = remove c.clt_id st.srv_clients in
    let few = inflight-length left in
    let (same, tree, flags) =
      dec-Flagged (inflight left) c (record st { srv_clients = left })
        (omega (arith, few, one_less, h.limit)) (flag_less ∙ sym h.inflight_lem) in
    record {
      clients_lem =
          ap decrement (same ∙ h.clients_lem ∙ sym one_less)
          ∙ decrement-suc (length left) (omega (arith, one_less, h.limit))
          ∙ sym (ap length tree);
      inflight_lem = flags ∙ sym (ap inflight tree);
      limit = omega (arith, ap length tree, one_less, h.limit);
      distinct = subst Distinct (sym tree) (Distinct-remove c.clt_id st.srv_clients h.distinct);
    }

server_close-Counted :
    (c : Connection) (msg : Bytes) (st : Clients)
    → Counted st
    → IsClient c st.srv_clients
    → Counted (server_close c msg st)
unfolding server_close
server_close-Counted c msg st h m =
    if-intro Counted (ltb 0 c.clt_fcgi_count) _ (free_client c st)
      (λ nested. with_update c _ st refl refl h m) (λ last. free_client-Counted c st h m)

fcgi_leave-Counted :
    (c : Connection) (msg : Bytes) (st : Clients)
    → Counted st
    → IsClient c st.srv_clients
    → Counted (fcgi_leave c msg st)
fcgi_leave-Counted c msg st h m =
    if-intro Counted (c.clt_fcgi_count == 0) (server_close c msg st) _
      (λ last. server_close-Counted c msg st h m) (λ nested. with_update c _ st refl refl h m)

is_new-Without :
    (id : ℕ) (clients : List Connection) → is_new id clients ≡ true → Without id clients
is_new-Without id [] h = tt
is_new-Without id (c ∷ clients) h = elim (Bool-cases (c.clt_id == id)) [
  | inl same ↦ absurd (ground (arith, same, h))
  | inr other ↦ (
    other,
    is_new-Without id clients (sym (if-false (c.clt_id == id) false (is_new id clients) other) ∙ h),
  )
]

-- a socket that was accepted, on its way into the tree
abbrev pub in_flight : Clients → Clients
in_flight st = record st { server_inflight = increment st.server_inflight }

back-Counted : (st : Clients) → Counted st → Counted (server_inflight_dec none (in_flight st))
unfolding server_inflight_dec
back-Counted st h = record {
  clients_lem = h.clients_lem;
  inflight_lem = omega (arith, h.inflight_lem, inflight-length st.srv_clients, h.limit);
  limit = h.limit;
  distinct = h.distinct;
}

-- with a new client in the tree
abbrev with_client : Connection → ℕ → Clients → Clients
with_client c id st = record (in_flight st) {
  server_cltid = id;
  server_clients = increment st.server_clients;
  srv_clients = c ∷ st.srv_clients;
}

with_client-Counted :
    (id : ℕ) (st : Clients)
    → Counted st
    → int_ge st.server_clients server_max_clients ≡ false
    → is_new id st.srv_clients ≡ true
    → Counted (with_client (new_client id) id st)
with_client-Counted id st h room new =
    let few : length st.srv_clients < server_max_clients =
      ground (arith, room, h.clients_lem, h.limit) in
    record {
      clients_lem = omega (arith, h.clients_lem, few);
      inflight_lem = omega (arith, h.inflight_lem, inflight-length st.srv_clients, few);
      limit = omega (arith, few);
      distinct = (is_new-Without id st.srv_clients new, h.distinct);
    }

start_client-Counted :
    (a : Accepting) (c : Connection) (st : Clients)
    → Counted st
    → IsClient c st.srv_clients
    → Counted (start_client a c st)
start_client-Counted a c st h m =
    if-intro Counted a.flag_tls _ _
      (λ tls. if-intro Counted a.accepts_tls st _ (λ _. h) (λ _. server_close-Counted c _ st h m))
      (λ plain. if-intro Counted a.has_sndbuf st _ (λ _. h) (λ _. server_close-Counted c _ st h m))

add_client-Counted :
    (a : Accepting) (st : Clients)
    → Counted st
    → a.has_address ≡ true
    → is_new (increment st.server_cltid) st.srv_clients ≡ true
    → Counted (add_client a (in_flight st))
add_client-Counted a st h address new =
    let id = increment st.server_cltid in
    let c = new_client id in
    if-intro Counted (int_ge st.server_clients server_max_clients) _ _ (λ full. back-Counted st h)
      (λ room. subst Counted (sym (if-true a.has_address _ _ address)) (
        subst
          (λ clients.
            Counted (start_client a c (record (with_client c id st) { srv_clients = clients })))
          (sym (if-true (is_new id st.srv_clients) (c ∷ st.srv_clients) st.srv_clients new))
          (start_client-Counted a c (with_client c id st) (with_client-Counted id st h room new)
            (inl refl))))

-- What `accept_reserve` can do.
abbrev Reserves : Clients → Reserved → Type 0
Reserves st r =
    ((r.is_socket ≡ false) × (r.clients ≡ st)) ⊎ ((r.is_socket ≡ true) × (r.clients ≡ in_flight st))

accept_reserve-Reserves : (a : Accepting) (st : Clients) → Reserves st (accept_reserve a st)
unfolding accept_reserve
accept_reserve-Reserves a st =
    let tries = (if a.accepts then a_socket st else no_socket a.out_of_files st) in
    if-intro (Reserves st) (table_full a st) (no_socket true st) tries (λ full. inl (refl, refl))
      (λ room.
        if-intro (Reserves st) a.accepts (a_socket st) (no_socket a.out_of_files st)
          (λ _. inr (refl, refl)) (λ _. inl (refl, refl)))

server_accept-Counted :
    (a : Accepting) (st : Clients)
    → Counted st
    → a.has_address ≡ true
    → is_new (increment st.server_cltid) st.srv_clients ≡ true
    → Counted (server_accept a st).clients
unfolding server_accept
server_accept-Counted a st h address new =
    let r = accept_reserve a st in
    if-intro (λ (x : Accepted). Counted x.clients) a.timeout _ _ (λ _. h)
      (λ _. elim (accept_reserve-Reserves a st) [
        | inl (fails, same) ↦
            subst (λ (x : Accepted). Counted x.clients) (sym (if-false r.is_socket _ _ fails))
              (subst Counted (sym same) h)
        | inr (accepts, more) ↦
            subst (λ (x : Accepted). Counted x.clients) (sym (if-true r.is_socket _ _ accepts))
              (subst (λ s. Counted (add_client a s)) (sym more)
                (add_client-Counted a st h address new))
      ])

-- What the events of a server do to its clients. An address is found for a socket that was accepted,
-- and no client is left that has the next number.
pub data Step : Clients → Clients → Type 0 where
  accepts :
      (a : Accepting) (st : Clients)
      → a.has_address ≡ true
      → is_new (increment st.server_cltid) st.srv_clients ≡ true
      → Step st (server_accept a st).clients
  closes :
      (c : Connection) (msg : Bytes) (st : Clients)
      → IsClient c st.srv_clients
      → Step st (server_close c msg st)
  enters : (c : Connection) (st : Clients) → IsClient c st.srv_clients → Step st (fcgi_enter c st)
  leaves :
      (c : Connection) (msg : Bytes) (st : Clients)
      → IsClient c st.srv_clients
      → Step st (fcgi_leave c msg st)

pub data Reach (st : Clients) : Clients → Type 0 where
  here : Reach st st
  next : {st1 st2 : Clients} → Reach st st1 → Step st1 st2 → Reach st st2

Step-Counted : {st st' : Clients} → Step st st' → Counted st → Counted st'
Step-Counted (accepts a st address new) h = server_accept-Counted a st h address new
Step-Counted (closes c msg st m) h = server_close-Counted c msg st h m
Step-Counted (enters c st m) h = with_update c _ st refl refl h m
Step-Counted (leaves c msg st m) h = fcgi_leave-Counted c msg st h m

-- the server at its start
abbrev pub no_clients : Clients
no_clients = record { server_clients = 0; server_inflight = 0; server_cltid = 0; srv_clients = [] }

-- After any accepts, closes and nested calls from the start of the server on: the counters are the
-- number of clients in the tree and that of those in flight, no two clients have one number, and
-- there are 1024 clients at most. The address of each socket is found, and no client has the number
-- that the next one gets.
pub Reach-Counted : {st : Clients} → Reach no_clients st → Counted st
Reach-Counted here = record {
  clients_lem = refl;
  inflight_lem = refl;
  limit = omega arith;
  distinct = tt;
}
Reach-Counted (next r s) = Step-Counted s (Reach-Counted r)
