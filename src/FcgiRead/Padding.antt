-- ===== src/FcgiRead/Padding.antt =====
-- What the content of a FastCGI record does not change.
use fuzz_httpd.Base.{
  ℕ, zero, suc, ◌+◌, ◌≡◌, Bool, false, not, ◌&&◌, [], ◌∷◌, ◌++◌, Option, none, some, Bytes, codes,
  if-intro, cut, is_empty, str_case_eq, ◌==◌, if◌then◌else◌, length, take, drop,
}
use fuzz_httpd.Reply.{Config, then_do, print_all, write_head, add_connection, add_hsts, is_head}
use fuzz_httpd.Http.{server_httperror_byid}
use fuzz_httpd.FcgiRead.{
  fcgi_reply, add_date, encoding, headers_done, on_content, send, send_content, send_header,
  server_fcgi_header, server_fcgi_writechunk,
}
use fuzz_httpd.FcgiHead.{
  FcgiClient, fcgi_stdout, fcgi_stderr, fcgi_end_request, evbuffer_getline, fcgi_header,
  get_headers, header_round, server_fcgi_getheaders,
}

-- The padding of the record is still `n`.
abbrev pub Pads : ℕ → FcgiClient → Type 0
Pads n c = c.clt_fcgi.padding_len ≡ n

pub data PadsAfter (n : ℕ) : Option FcgiClient → Type 0 where
  failed : PadsAfter n none
  kept : (c : FcgiClient) → Pads n c → PadsAfter n (some c)

then_do-PadsAfter :
    {A : Type 0} (n : ℕ) (o : Option A) (k : A → Option FcgiClient)
    → ((a : A) → PadsAfter n (k a))
    → PadsAfter n (then_do o k)
then_do-PadsAfter n none k h = failed
then_do-PadsAfter n (some a) k h = h a

then_do-next :
    (n : ℕ) (o : Option FcgiClient) (k : FcgiClient → Option FcgiClient)
    → PadsAfter n o
    → ((a : FcgiClient) → Pads n a → PadsAfter n (k a))
    → PadsAfter n (then_do o k)
then_do-next n none k p h = failed
then_do-next n (some a) k (kept b p) h = h a p

fcgi_header-Pads :
    (n : ℕ) (key rest : Bytes) (c : FcgiClient) → Pads n c → Pads n (fcgi_header key rest c)
unfolding fcgi_header
fcgi_header-Pads n key rest c p =
    if-intro (Pads n) (str_case_eq (codes "Status") key) _ _ (λ _. p) (λ _. p)

abbrev PadsRound : ℕ → FcgiClient × Bool → Type 0
PadsRound n (c, done) = Pads n c

header_round-Pads :
    (n : ℕ) (next : FcgiClient → FcgiClient × Bool) (o : Option (Bytes × Bytes)) (c : FcgiClient)
    → Pads n c
    → ((d : FcgiClient) → Pads n d → PadsRound n (next d))
    → PadsRound n (header_round next o c)
header_round-Pads n next none c p h = p
header_round-Pads n next (some ([], rest)) c p h = p
header_round-Pads n next (some (x ∷ line, rest)) c p h =
    elim (cut b':' (x ∷ line))
      as (λ o. PadsRound n (elim o [
        | none ↦ (record c { clt_srvevb = rest }, false)
        | some (key, value) ↦ next (fcgi_header key value (record c { clt_srvevb = rest }))
      ])) [
        | none ↦ p
        | some (key, value) ↦ h _ (fcgi_header-Pads n key value (record c { clt_srvevb = rest }) p)
      ]

get_headers-Pads : (n fuel : ℕ) (c : FcgiClient) → Pads n c → PadsRound n (get_headers fuel c)
unfolding get_headers
get_headers-Pads n zero c p = p
get_headers-Pads n (suc fuel) c p =
    header_round-Pads n (get_headers fuel) (evbuffer_getline c.clt_srvevb) c p
      (get_headers-Pads n fuel)

module _ (w : Bytes → Bytes → Option Bytes) (number hex : ℕ → Bytes) (logged : Bool) (conf : Config)
    (now : Option Bytes) where
  writechunk-PadsAfter :
      (n : ℕ) (c : FcgiClient)
      → Pads n c
      → PadsAfter n (server_fcgi_writechunk w number hex logged conf now c)
  unfolding server_fcgi_writechunk
  writechunk-PadsAfter n c p =
      let len = if c.clt_fcgi.type == fcgi_end_request then 0 else length c.clt_srvevb in
      let more = record c {
        clt_fcgi = record c.clt_fcgi {
          end = (if len == 0 then c.clt_fcgi.end + 1 else c.clt_fcgi.end);
        };
        clt_srvevb = drop len c.clt_srvevb;
      } in
      if-intro (PadsAfter n) c.clt_fcgi.chunked _ _
        (λ _.
          if-intro (PadsAfter n) (len == 0 && not (c.clt_fcgi.end == 0))
            (some (record c { clt_fcgi = record c.clt_fcgi { end = c.clt_fcgi.end + 1 } })) _
            (λ _. kept _ p)
            (λ _.
              then_do-PadsAfter n
                (print_all w ((hex len ++ codes "\r\n") ∷ take len c.clt_srvevb ∷ codes "\r\n" ∷ [])
                  c.reply.output)
                (λ out. some (record more { reply = record c.reply { output = out } }))
                (λ out. kept _ p)))
        (λ _.
          if-intro (PadsAfter n) (len == 0) (some c) _ (λ _. kept c p)
            (λ _.
              then_do-PadsAfter n (w c.reply.output c.clt_srvevb)
                (λ out.
                  some (record c { reply = record c.reply { output = out }; clt_srvevb = [] }))
                (λ out. kept _ p)))

  header-PadsAfter :
      (n code : ℕ) (c : FcgiClient)
      → Pads n c
      → PadsAfter n (server_fcgi_header w number hex logged conf now code c)
  unfolding server_fcgi_header
  header-PadsAfter n code c p =
      let keys =
        add_hsts number conf
          (add_connection c.reply.clt_persist (encoding w number hex logged conf now c).1) in
      then_do-PadsAfter n (server_httperror_byid code) _ (λ error.
        if-intro (PadsAfter n) logged _ _
          (λ _. then_do-PadsAfter n (add_date w number hex logged conf now keys) _ (λ keys'.
            then_do-PadsAfter n
              (write_head w (fcgi_reply w number hex logged conf now code error keys' c)) _
              (λ out. kept _ p)))
          (λ _. failed))

  send-PadsAfter :
      (n : ℕ) (c : FcgiClient) → Pads n c → PadsAfter n (send w number hex logged conf now c)
  unfolding send
  send-PadsAfter n c p =
      then_do-next n (send_header w number hex logged conf now c) _
        (if-intro (PadsAfter n) (c.clt_fcgi.headersdone && not c.clt_fcgi.headerssent) _ (some c)
          (λ _. header-PadsAfter n c.clt_fcgi.status c p) (λ _. kept c p))
        (λ d q.
          then_do-next n (send_content w number hex logged conf now d) _
            (if-intro (PadsAfter n) (d.clt_fcgi.headerssent && is_head d.http_method) (some d) _
              (λ _. kept d q) (λ _. writechunk-PadsAfter n d q))
            (λ e r.
              kept _
                (if-intro (Pads n) (e.clt_fcgi.type == fcgi_end_request) _ e (λ _. r) (λ _. r))))

  headers_done-PadsAfter :
      (n : ℕ) (r : FcgiClient × Bool)
      → PadsRound n r
      → PadsAfter n (headers_done w number hex logged conf now r)
  headers_done-PadsAfter n (c, done) p =
      let c' = record c { clt_fcgi = record c.clt_fcgi { headersdone = done } } in
      if-intro (PadsAfter n) (is_empty c.clt_srvevb) (some c') _ (λ _. kept c' p)
        (λ _. send-PadsAfter n c' p)

  -- The content of a record leaves the number of padding bytes as it is.
  pub on_content-PadsAfter :
      (n : ℕ) (c : FcgiClient) → Pads n c → PadsAfter n (on_content w number hex logged conf now c)
  unfolding on_content server_fcgi_getheaders
  on_content-PadsAfter n c p =
      let counted = record c { clt_chunk = c.clt_chunk + 1 } in
      if-intro (PadsAfter n) (c.clt_fcgi.type == fcgi_stderr) _ _
        (λ _. kept _ (if-intro (Pads n) (is_empty c.clt_srvevb) c _ (λ _. p) (λ _. p)))
        (λ _.
          if-intro (PadsAfter n) (c.clt_fcgi.type == fcgi_stdout) _ _
            (λ _.
              if-intro (PadsAfter n) c.clt_fcgi.headersdone _ _ (λ _. send-PadsAfter n counted p)
                (λ _.
                  headers_done-PadsAfter n (server_fcgi_getheaders counted)
                    (get_headers-Pads n (length c.clt_srvevb + 1) counted p)))
            (λ _.
              if-intro (PadsAfter n) (c.clt_fcgi.type == fcgi_end_request) _ (some c)
                (λ _. send-PadsAfter n c p) (λ _. kept c p)))
