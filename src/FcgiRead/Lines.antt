-- ===== src/FcgiRead/Lines.antt =====
-- The lines of `server_fcgi_getheaders`: each takes a byte at least from the buffer.
use fuzz_httpd.Base.{
  ℕ, zero, suc, ◌+◌, ◌<◌, ◌≡◌, refl, sym, subst, Bool, false, ◌&&◌, [], ◌∷◌, Option, none, some,
  Bytes, codes, if-intro, cut, str_case_eq, length, length-drop, drop, ◌==◌, arith, char_at, ltb,
}
use fuzz_httpd.FcgiHead.{
  FcgiClient, before_eol, evbuffer_getline, fcgi_header, get_headers, get_string, header_round,
  server_fcgi_getheaders,
}

abbrev Shorter : Bytes → Option (Bytes × Bytes) → Type 0
Shorter s none = Unit
Shorter s (some (line, rest)) = length rest < length s

evbuffer_getline-Shorter : (s : Bytes) → Shorter s (evbuffer_getline s)
unfolding evbuffer_getline get_string
evbuffer_getline-Shorter [] = tt
evbuffer_getline-Shorter (x ∷ s) =
    let line = before_eol (get_string (x ∷ s)) in
    let i = length line in
    if-intro (Shorter (x ∷ s)) (i == length (x ∷ s)) none _ (λ _. tt)
      (λ e.
        if-intro (λ n. length (drop n (x ∷ s)) < length (x ∷ s))
          (ltb (i + 1) (length (x ∷ s)) && char_at (x ∷ s) i == 13 && char_at (x ∷ s) (i + 1) == 10)
          (i + 2) (i + 1) (λ _. omega (arith, length-drop (i + 2) (x ∷ s)))
          (λ _. omega (arith, length-drop (i + 1) (x ∷ s))))

fcgi_header-rest :
    (key rest : Bytes) (c : FcgiClient) → (fcgi_header key rest c).clt_srvevb ≡ c.clt_srvevb
unfolding fcgi_header
fcgi_header-rest key rest c =
    if-intro (λ (d : FcgiClient). d.clt_srvevb ≡ c.clt_srvevb) (str_case_eq (codes "Status") key) _
      _ (λ _. refl) (λ _. refl)

abbrev field :
    (FcgiClient → FcgiClient × Bool) → FcgiClient → Option (Bytes × Bytes) → FcgiClient × Bool
field k d o = elim o [ none ↦ (d, false) | some (key, value) ↦ k (fcgi_header key value d) ]

field-same :
    (k l : FcgiClient → FcgiClient × Bool) (d : FcgiClient) (o : Option (Bytes × Bytes))
    → ((key value : Bytes) → k (fcgi_header key value d) ≡ l (fcgi_header key value d))
    → field k d o ≡ field l d o
field-same k l d none e = refl
field-same k l d (some (key, value)) e = e key value

header_round-same :
    (k l : FcgiClient → FcgiClient × Bool) (s : Bytes) (o : Option (Bytes × Bytes)) (c : FcgiClient)
    → Shorter s o
    → ((d : FcgiClient) → length d.clt_srvevb < length s → k d ≡ l d)
    → header_round k o c ≡ header_round l o c
header_round-same k l s none c h e = refl
header_round-same k l s (some ([], rest)) c h e = refl
header_round-same k l s (some (x ∷ line, rest)) c h e =
    let d = record c { clt_srvevb = rest } in
    field-same k l d (cut b':' (x ∷ line)) (λ key value.
      e (fcgi_header key value d)
        (subst (λ r. length r < length s) (sym (fcgi_header-rest key value d)) h))

fuel_same :
    (f g : ℕ) (c : FcgiClient)
    → length c.clt_srvevb < f
    → length c.clt_srvevb < g
    → get_headers f c ≡ get_headers g c
unfolding get_headers
fuel_same zero g c hf hg = absurd (omega arith)
fuel_same (suc f) zero c hf hg = absurd (omega arith)
fuel_same (suc f) (suc g) c hf hg =
    header_round-same (get_headers f) (get_headers g) c.clt_srvevb (evbuffer_getline c.clt_srvevb) c
      (evbuffer_getline-Shorter c.clt_srvevb)
      (λ d h. fuel_same f g d (omega (arith, h, hf)) (omega (arith, h, hg)))

-- With more rounds than there are bytes in the buffer: the number of rounds makes no difference, so
-- the loop always comes to its end.
pub get_headers-server_fcgi_getheaders :
    (fuel : ℕ) (c : FcgiClient)
    → length c.clt_srvevb < fuel
    → get_headers fuel c ≡ server_fcgi_getheaders c
unfolding server_fcgi_getheaders
get_headers-server_fcgi_getheaders fuel c h =
    fuel_same fuel (length c.clt_srvevb + 1) c h (omega arith)
