-- ===== src/FcgiRequest/Names.antt =====
-- The names of the variables that `server_fcgi_writeheader` of server_fcgi.c makes of headers.
use fuzz_httpd.Base.{
  ℕ, ◌≡◌, ◌⊎◌, refl, sym, ap, ap₂, ◌∙◌, Bool, true, false, ◌||◌, [], ◌∷◌, Bytes, codes, has_prefix,
  arith, Bool-cases, inl, inr, &&-eq_true, ==_iff, str_case_eq, to_lower, to_upper, is_alpha,
  is_upper, is_lower, is_digit, ◌==◌,
}
use fuzz_httpd.FcgiRequest.{env_byte, env_bytes, header_name}

env_byte-to_lower : (c : ℕ) → env_byte (to_lower c) ≡ env_byte c
unfolding env_byte to_lower is_alpha is_upper is_lower to_upper is_digit
env_byte-to_lower c = ground arith

-- Names that differ in case alone give the same variable.
env_bytes-case : (s t : Bytes) → str_case_eq s t ≡ true → env_bytes s ≡ env_bytes t
unfolding env_bytes str_case_eq
env_bytes-case [] [] h = refl
env_bytes-case [] (d ∷ t) h = ground (arith, h)
env_bytes-case (c ∷ s) [] h = ground (arith, h)
env_bytes-case (c ∷ s) (d ∷ t) h =
    let (same, more) = &&-eq_true (to_lower c == to_lower d) (str_case_eq s t) h in
    let e : env_byte c ≡ env_byte d =
      sym (env_byte-to_lower c)
      ∙ ap env_byte ((==_iff (to_lower c) (to_lower d)).0 same)
      ∙ env_byte-to_lower d in
    ap₂ (λ x r. x ∷ r) e (env_bytes-case s t more)

-- Where a name of a header can lead.
abbrev pub OfClient : Bytes → Type 0
OfClient name =
    (has_prefix (codes "HTTP_") name ≡ true)
    ⊎ ((name ≡ codes "CONTENT_LENGTH") ⊎ (name ≡ codes "CONTENT_TYPE"))

or_true : (a b : Bool) → (a || b) ≡ true → (a ≡ true) ⊎ (b ≡ true)
or_true true b h = inl refl
or_true false b h = inr h

-- Whatever the name of a header is, the variable that it sets begins with HTTP_ or is CONTENT_LENGTH
-- or CONTENT_TYPE: no header of a client replaces another variable, such as REMOTE_USER.
pub header_name-OfClient : (key : Bytes) → OfClient (header_name key)
unfolding header_name env_bytes env_byte is_alpha is_upper is_lower to_upper is_digit
header_name-OfClient key =
    elim (Bool-cases
      (str_case_eq key (codes "Content-Length") || str_case_eq key (codes "Content-Type"))) [
        | inl known ↦ rw known (elim (or_true _ _ known) [
          | inl a ↦ inr (inl (env_bytes-case key (codes "Content-Length") a))
          | inr b ↦ inr (inr (env_bytes-case key (codes "Content-Type") b))
        ])
        | inr other ↦ rw other (inl refl)
      ]
