-- ===== src/FcgiRead/Early.antt =====
-- What the server sends before the headers of a FastCGI response are complete.
use fuzz_httpd.Base.{
  ℕ, suc, ◌+◌, ◌≡◌, refl, ap, ◌∙◌, Bool, true, false, not, ◌&&◌, [], ◌∷◌, ◌++◌, Option, none, some,
  Bytes, codes, append_assoc, length, take, ◌==◌, arith,
}
use fuzz_httpd.Reply.{Config, then_do}
use fuzz_httpd.Reply.Text.{prints}
use fuzz_httpd.Request.Print.{if-false}
use fuzz_httpd.FcgiRead.{end_request, headers_done, on_content, send, server_fcgi_writechunk}
use fuzz_httpd.FcgiHead.{
  FcgiClient, evbuffer_getline, get_headers, header_round, fcgi_stdout, server_fcgi_getheaders,
}
use fuzz_httpd.FcgiRead.Cut.{take_all}

-- a client whose response has no complete header yet, with `s` as the content of a record
abbrev pub no_headers : Bytes → FcgiClient → FcgiClient
no_headers s c = record c {
  clt_srvevb = s;
  clt_fcgi = record c.clt_fcgi {
    type = fcgi_stdout;
    chunked = true;
    headersdone = false;
    headerssent = false;
  };
}

-- what was sent, and whether the headers were
abbrev pub seen : Option FcgiClient → Option (Bytes × Bool)
seen none = none
seen (some c) = some (c.reply.output, c.clt_fcgi.headerssent)

-- the bytes as one chunk
abbrev pub body_chunk : (ℕ → Bytes) → Bytes → Bytes
body_chunk hex s = hex (length s) ++ (codes "\r\n" ++ (s ++ codes "\r\n"))

carry :
    (o : Option Bytes) (out : Bytes) (k : Bytes → Option FcgiClient)
    (next : FcgiClient → Option FcgiClient)
    → o ≡ some out
    → seen (then_do (then_do o k) next) ≡ seen (then_do (k out) next)
carry o out k next e = ap (λ r. seen (then_do (then_do r k) next)) e

no_line :
    (s : Bytes) (c : FcgiClient)
    → evbuffer_getline s ≡ none
    → c.clt_srvevb ≡ s
    → server_fcgi_getheaders c ≡ (c, false)
unfolding server_fcgi_getheaders get_headers
no_line s c e b =
    let one_more : length c.clt_srvevb + 1 ≡ suc (length c.clt_srvevb) = omega arith in
    ap (λ f. get_headers f c) one_more
    ∙ ap (λ o. header_round (get_headers (length c.clt_srvevb)) o c) (ap evbuffer_getline b ∙ e)

module _ (w : Bytes → Bytes → Option Bytes) (appends : (out s : Bytes) → w out s ≡ some (out ++ s))
    (number hex : ℕ → Bytes) (logged : Bool) (conf : Config) (now : Option Bytes) where
  sends :
      (x : ℕ) (s : Bytes) (c : FcgiClient)
      → seen (send w number hex logged conf now (no_headers (x ∷ s) c))
        ≡ some (c.reply.output ++ body_chunk hex (x ∷ s), false)
  unfolding send server_fcgi_writechunk
  sends x s c =
      let n = length (x ∷ s) in
      let filled : (length (x ∷ s) == 0 && not (c.clt_fcgi.end == 0)) ≡ false = ground arith in
      ap (λ o. seen (then_do o (λ d. some (end_request w number hex logged conf now d))))
        (if-false _ _ _ filled)
      ∙ carry _ _ _ _ (
          prints w appends ((hex n ++ codes "\r\n") ∷ take n (x ∷ s) ∷ codes "\r\n" ∷ [])
            c.reply.output)
      ∙ ap (λ t. some (c.reply.output ++ ((hex n ++ codes "\r\n") ++ (t ++ codes "\r\n")), false))
          (take_all n (x ∷ s) (omega arith))
      ∙ ap (λ t. some (c.reply.output ++ t, false))
          (append_assoc (hex n) (codes "\r\n") ((x ∷ s) ++ codes "\r\n"))

  -- When the content of a record holds no end of line and the headers are not complete: the content
  -- goes to the client as a chunk of the body, before the status line and the headers.
  pub on_content-no_headers :
      (x : ℕ) (s : Bytes) (c : FcgiClient)
      → evbuffer_getline (x ∷ s) ≡ none
      → seen (on_content w number hex logged conf now (no_headers (x ∷ s) c))
        ≡ some (c.reply.output ++ body_chunk hex (x ∷ s), false)
  unfolding on_content
  on_content-no_headers x s c e =
      ap (λ r. seen (headers_done w number hex logged conf now r)) (no_line (x ∷ s) _ e refl)
      ∙ sends x s (record c { clt_chunk = c.clt_chunk + 1 })
