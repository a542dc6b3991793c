-- ===== src/FcgiRequest/Stream.antt =====
-- What `server_fcgi` of server_fcgi.c writes to the FastCGI server.
use fuzz_httpd.Base.{
  ℕ, ◌≤◌, ◌<◌, ◌≡◌, ◌≢◌, refl, sym, ap, ap₂, subst, ◌∙◌, Bool, true, List, [], ◌∷◌, ◌++◌, Option,
  some, Bytes, append_assoc, append-nil, length, length-append, take, arith, Bool-cases, inl, inr,
  ◌==◌, ==_iff, if-true,
}
use fuzz_httpd.Fcgi.{ServerFcgiParam, fcgi_add_param, fcgi_content_size, header_bytes, param_bytes}
use fuzz_httpd.Fcgi.Params.{
  IsRecord, Kept, fcgi_add_param-IsRecord, fcgi_add_param-Kept, take-length,
}
use fuzz_httpd.FcgiRequest.{
  FcgiStart, Pair, Params, add_params, added, add_fails, alias_of, begin_request, end_params,
  no_param, null_read, on_added, params_header, server_fcgi, start_body, variables, with_alias,
  with_begin, with_end, with_params, with_sent,
}
use fuzz_httpd.Server.{Session}
use fuzz_httpd.FcgiRequest.Buffer.{
  IsParams, set_len-IsParams, fcgi_add_param-IsParams, fcgi_add_param-empty,
}

-- the bytes of the variables, one after another
abbrev pub pairs_bytes : List (Bytes × Bytes) → Bytes
pairs_bytes [] = []
pairs_bytes ((name, value) ∷ pairs) = param_bytes name value ++ pairs_bytes pairs

-- A stream of PARAMS: records that are not empty, none of them longer than 65535 bytes, and an empty
-- one at the end. The first text is what they hold.
pub data ParamStream : Bytes → Bytes → Type 0 where
  last : ParamStream [] (header_bytes (params_header 0))
  next :
      (chunk rest wire : Bytes)
      → 0 < length chunk
      → length chunk ≤ fcgi_content_size
      → ParamStream rest wire
      → ParamStream (chunk ++ rest) (header_bytes (params_header (length chunk)) ++ (chunk ++ wire))

-- Each variable fits in a record.
abbrev pub AllFit : List (Bytes × Bytes) → Type 0
AllFit [] = Unit
AllFit ((name, value) ∷ pairs) =
    (length (param_bytes name value) ≤ fcgi_content_size) × AllFit pairs

-- variables that have a value
abbrev pub given : List (Bytes × Bytes) → List Pair
given [] = []
given ((name, value) ∷ pairs) = (name, some value) ∷ given pairs

length-nil : (s : Bytes) → length s ≡ 0 → s ≡ []
length-nil [] h = refl
length-nil (c ∷ s) h = absurd (omega arith)

module _ (w : Bytes → Bytes → Option Bytes) (appends : (a b : Bytes) → w a b ≡ some (a ++ b)) where
  -- What the calls come to: with the last records, a stream of the content behind what was written.
  abbrev pub Streamed : Bytes → Bytes → Params → Type 0
  Streamed content out (added p out') =
      (wire : Bytes) × (ParamStream content wire × (end_params w p out' ≡ some (out ++ wire)))
  Streamed content out add_fails = ⊥
  Streamed content out null_read = ⊥

  Streamed-next :
      (chunk rest out : Bytes) (r : Params)
      → 0 < length chunk
      → length chunk ≤ fcgi_content_size
      → Streamed rest (out ++ (header_bytes (params_header (length chunk)) ++ chunk)) r
      → Streamed (chunk ++ rest) out r
  Streamed-next chunk rest out (added p out') some_bytes fits (wire, (h, e)) =
      let head = header_bytes (params_header (length chunk)) in
      (
        head ++ (chunk ++ wire),
        (
          next chunk rest wire some_bytes fits h,
          e
              ∙ ap (λ s. some s)
                  (append_assoc out (head ++ chunk) wire
                    ∙ ap (λ s. out ++ s) (append_assoc head chunk wire)),
        ),
      )
  Streamed-next chunk rest out add_fails some_bytes fits h = h
  Streamed-next chunk rest out null_read some_bytes fits h = h

  end_record :
      (p : ServerFcgiParam) (out : Bytes)
      → IsParams p.header
      → with_end w p (some out) ≡ some (out ++ header_bytes (params_header 0))
  end_record p out e =
      appends out (header_bytes (record p.header { content_len = 0 }))
      ∙ ap (λ h. some (out ++ header_bytes h)) (set_len-IsParams p.header 0 e)

  full_end :
      (p : ServerFcgiParam) (out : Bytes)
      → IsRecord p
      → IsParams p.header
      → p.total_len ≢ 0
      → with_end w p (w out (header_bytes p.header ++ take p.header.content_len p.content))
        ≡ some (
            out
            ++ (header_bytes (params_header (length p.content))
                ++ (p.content ++ header_bytes (params_header 0))))
  full_end p out h e full =
      let len = h.header_lem full ∙ sym h.content_lem in
      let head = header_bytes (params_header (length p.content)) in
      let whole : header_bytes p.header ++ take p.header.content_len p.content ≡ head ++ p.content =
        ap₂ (λ x y. header_bytes x ++ y) (e ∙ ap params_header len)
          (ap (λ n. take n p.content) len ∙ take-length p.content) in
      ap (with_end w p) (ap (w out) whole ∙ appends out (head ++ p.content))
      ∙ end_record p (out ++ (head ++ p.content)) e
      ∙ ap (λ s. some s)
          (append_assoc out (head ++ p.content) (header_bytes (params_header 0))
            ∙ ap (λ s. out ++ s) (append_assoc head p.content (header_bytes (params_header 0))))

  last-Streamed :
      (p : ServerFcgiParam) (out : Bytes)
      → IsRecord p
      → IsParams p.header
      → Streamed p.content out (added p out)
  unfolding end_params
  last-Streamed p out h e = elim (Bool-cases (p.total_len == 0)) [
    | inl zero_len ↦
        let empty : p.content ≡ [] =
          length-nil p.content (h.content_lem ∙ (==_iff p.total_len 0).0 zero_len) in
        (
          header_bytes (params_header 0),
          (
            subst (λ s. ParamStream s (header_bytes (params_header 0))) (sym empty) last,
            rw zero_len (end_record p out e),
          ),
        )
    | inr some_len ↦
        let full : p.total_len ≢ 0 = λ z. ground (arith, some_len, z) in
        (
          header_bytes (params_header (length p.content))
              ++ (p.content ++ header_bytes (params_header 0)),
          (
            subst
                (λ s. ParamStream s (
                  header_bytes (params_header (length p.content))
                  ++ (p.content ++ header_bytes (params_header 0))))
                (append-nil p.content)
                (next p.content [] (header_bytes (params_header 0))
                  (omega (arith, h.content_lem, full)) (omega (arith, h.content_lem, h.fits)) last),
            rw some_len (full_end p out h e full),
          ),
        )
  ]

  -- A record goes out only when the buffer holds something.
  written_full :
      (p : ServerFcgiParam) (key val out : Bytes)
      → length (param_bytes key val) ≤ fcgi_content_size
      → (fcgi_add_param w p key val out).sent ≡ out ++ (header_bytes p.header ++ p.content)
      → p.total_len ≢ 0
  written_full p key val out fits sent empty =
      let same = ap length (sym (fcgi_add_param-empty w p key val out empty fits) ∙ sent) in
      let longer = length-append out (header_bytes p.header ++ p.content) in
      let head = length-append (header_bytes p.header) p.content in
      absurd (omega (arith, same, longer, head))

  step :
      (key val : Bytes) (rest : Bytes) (more : ServerFcgiParam → Bytes → Params)
      (p : ServerFcgiParam) (out : Bytes)
      → IsRecord p
      → IsParams p.header
      → length (param_bytes key val) ≤ fcgi_content_size
      → ((p' : ServerFcgiParam) (out' : Bytes)
          → IsRecord p'
          → IsParams p'.header
          → Streamed (p'.content ++ rest) out' (more p' out'))
      → Streamed
          (p.content ++ (param_bytes key val ++ rest))
          out
          (on_added w more (fcgi_add_param w p key val out))
  unfolding Kept
  step key val rest more p out h e fits ih =
      let a = fcgi_add_param w p key val out in
      let (ok, kept) = fcgi_add_param-Kept w p key val out appends h fits in
      let on = sym (if-true a.succeeded (more a.param a.sent) add_fails ok) in
      let streamed =
        ih a.param a.sent (fcgi_add_param-IsRecord w p key val out h)
          (fcgi_add_param-IsParams w p key val out e) in
      subst (Streamed (p.content ++ (param_bytes key val ++ rest)) out) on (elim kept [
        | inl (sent, content) ↦
            subst (λ s. Streamed s out (more a.param a.sent))
              (ap (λ s. s ++ rest) content ∙ append_assoc p.content (param_bytes key val) rest)
              (subst (λ o. Streamed (a.param.content ++ rest) o (more a.param a.sent)) sent
                streamed)
        | inr (sent, content) ↦
            let full = written_full p key val out fits sent in
            let len = h.header_lem full ∙ sym h.content_lem in
            let sent' : a.sent
                ≡ out ++ (header_bytes (params_header (length p.content)) ++ p.content) =
              sent ∙ ap (λ x. out ++ (header_bytes x ++ p.content)) (e ∙ ap params_header len) in
            Streamed-next p.content (param_bytes key val ++ rest) out (more a.param a.sent)
              (omega (arith, h.content_lem, full)) (omega (arith, h.content_lem, h.fits))
              (subst
                (λ s.
                  Streamed s (out ++ (header_bytes (params_header (length p.content)) ++ p.content))
                    (more a.param a.sent))
                (ap (λ s. s ++ rest) content)
                (subst (λ o. Streamed (a.param.content ++ rest) o (more a.param a.sent)) sent'
                  streamed))
      ])

  params-Streamed :
      (pairs : List (Bytes × Bytes)) (p : ServerFcgiParam) (out : Bytes)
      → AllFit pairs
      → IsRecord p
      → IsParams p.header
      → Streamed (p.content ++ pairs_bytes pairs) out (add_params w (given pairs) p out)
  unfolding add_params
  params-Streamed [] p out fits h e =
      subst (λ s. Streamed s out (added p out)) (sym (append-nil p.content))
        (last-Streamed p out h e)
  params-Streamed ((key, val) ∷ pairs) p out (fit, fits) h e =
      step key val (pairs_bytes pairs) (add_params w (given pairs)) p out h e fit
        (λ p' out' h' e'. params-Streamed pairs p' out' fits h' e')

  -- Where libevent appends what it is given and each variable fits in a record: what is written behind
  -- BEGIN_REQUEST is a stream of PARAMS records, none of them empty but the last and none too long,
  -- and together they hold all the variables in order.
  pub add_params-Streamed :
      (pairs : List (Bytes × Bytes)) (out : Bytes)
      → AllFit pairs
      → Streamed (pairs_bytes pairs) out (add_params w (given pairs) no_param out)
  add_params-Streamed pairs out fits =
      params-Streamed pairs no_param out fits
        (record { content_lem = refl; fits = omega arith; header_lem = λ _. refl }) refl

  module _ (number : ℕ → Bytes) (exists : Bytes → Bool) where
    -- What is left to do with a stream.
    Starts : Session → Bytes → Bytes → FcgiStart → Type 0
    Starts c content out r =
        (wire : Bytes) × (ParamStream content wire
          × (r ≡ start_body w number exists c (out ++ wire)))

    params-Starts :
        (c : Session) (content out : Bytes) (r : Params)
        → Streamed content out r
        → Starts c content out (with_params w number exists c r)
    unfolding Starts
    params-Starts c content out (added p out') (wire, (h, e)) =
        (wire, (h, ap (with_sent w number exists c) e))
    params-Starts c content out add_fails h = absurd h
    params-Starts c content out null_read h = absurd h

    -- Where libevent appends what it is given, the connection is made, no variable is NULL and each
    -- fits in a record: the request is BEGIN_REQUEST and a stream of PARAMS records that holds all the
    -- variables in order, none of the records empty but the last and none longer than 65535 bytes. What
    -- follows is the empty STDIN record, or the body is passed on.
    pub server_fcgi-Stream :
        (c : Session) (alias : Bytes) (pairs : List (Bytes × Bytes))
        → alias_of c.http_path_alias c.desc.http_path ≡ some alias
        → variables w number exists c alias ≡ given pairs
        → AllFit pairs
        → (wire : Bytes) × (ParamStream (pairs_bytes pairs) wire
            × (server_fcgi w number exists true c
                ≡ start_body w number exists c (begin_request ++ wire)))
    unfolding server_fcgi Starts
    server_fcgi-Stream c alias pairs path values fits =
        let streamed = add_params-Streamed pairs begin_request fits in
        let begun : server_fcgi w number exists true c
            ≡ with_params w number exists c (add_params w (given pairs) no_param begin_request) =
          ap (with_alias w number exists c) path
          ∙ ap (with_begin w number exists c alias) (appends [] begin_request)
          ∙ ap (λ v. with_params w number exists c (add_params w v no_param begin_request))
              values in
        let (wire, (h, e)) = params-Starts c (pairs_bytes pairs) begin_request _ streamed in
        (wire, (h, begun ∙ e))
