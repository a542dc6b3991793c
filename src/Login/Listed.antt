-- ===== src/Login/Listed.antt =====
-- Who is let in by `server_http_authenticate` of server_http.c: the users whose line is in the file.
use fuzz_httpd.Base.{
  ℕ, Bool, true, false, List, [], ◌∷◌, ◌++◌, ◌≡◌, refl, sym, ap, ◌∙◌, ap₂, ◌↔◌, ◌⊎◌, inl, inr, ◌<◌,
  Option, none, some, Bytes, Bool-cases, Lacks, c_str, codes, cut, cut_later, length, str_eq,
  str_eq_iff, ◌==◌, if-intro, arith,
}
use fuzz_httpd.Request.Print.{cut-append}
use fuzz_httpd.Kv.{Kv, Kvtree, kv_find}
use fuzz_httpd.Login.{
  Checked, accepted, Authentication, check_decoded, check_header, check_line, check_user,
  check_value, has_end, wipe, check_lines, read_lines, server_http_authenticate,
}

-- A line of the file is the user, a colon and a hash that fits the password.
pub data Listed (crypt_checkpass : Bytes → Bytes → Bool) (user pass : Bytes)
    : List Bytes → Type 0 where
  here :
      (line hash : Bytes) (lines : List Bytes)
      → c_str line ≡ user ++ b':' ∷ hash
      → crypt_checkpass pass hash ≡ true
      → Listed crypt_checkpass user pass (line ∷ lines)
  later :
      (line : Bytes) (lines : List Bytes)
      → Listed crypt_checkpass user pass lines
      → Listed crypt_checkpass user pass (line ∷ lines)

str_eq-same : (s : Bytes) → str_eq s s ≡ true
str_eq-same s = (str_eq_iff s s).1 refl

-- The two parts and the byte between them are the text.
abbrev pub Splits : ℕ → Bytes → Option (Bytes × Bytes) → Type 0
Splits c s none = Unit
Splits c s (some (a, b)) = s ≡ a ++ c ∷ b

Splits-later :
    (c d : ℕ) (s : Bytes) (o : Option (Bytes × Bytes))
    → Splits c s o
    → Splits c (d ∷ s) (cut_later d o)
Splits-later c d s none h = tt
Splits-later c d s (some (a, b)) h = ap (λ r. d ∷ r) h

pub cut-Splits : (c : ℕ) (s : Bytes) → Splits c s (cut c s)
unfolding cut
cut-Splits c [] = tt
cut-Splits c (d ∷ s) =
    if-intro (Splits c (d ∷ s)) (d == c) (some ([], s)) _ (λ e. ap (λ x. x ∷ s) (ground arith))
      (λ _. Splits-later c d s (cut c s) (cut-Splits c s))

text_there : (c : ℕ) (a b : Bytes) → [] ≡ a ++ c ∷ b → ⊥
text_there c [] b e = ground (arith, e)
text_there c (x ∷ a) b e = ground (arith, e)

module _ (b64_pton : Bytes → Option Bytes) (crypt_checkpass : Bytes → Bytes → Bool)
    (user pass : Bytes) where
  abbrev checks : List Bytes → Checked
  checks = check_lines b64_pton crypt_checkpass true user pass

  abbrev on_line : Checked → Option (Bytes × Bytes) → Checked
  on_line = check_line b64_pton crypt_checkpass true user pass

  on_line-accepted : (o : Option (Bytes × Bytes)) → on_line accepted o ≡ accepted
  on_line-accepted none = refl
  on_line-accepted (some (name, hash)) =
      if-intro (λ r. r ≡ accepted) (str_eq user name) _ accepted
        (λ _.
          if-intro (λ r. r ≡ accepted) (crypt_checkpass pass hash) accepted accepted (λ _. refl)
            (λ _. refl))
        (λ _. refl)

  checks-Listed :
      Lacks b':' user
      → (lines : List Bytes) → Listed crypt_checkpass user pass lines
      → checks lines ≡ accepted
  unfolding check_lines
  checks-Listed h [] p = elim p [ ]
  checks-Listed h (line ∷ lines) (here l hash ls e k) =
      rw (e, cut-append b':' user hash h, str_eq-same user, k) refl
  checks-Listed h (line ∷ lines) (later l ls p) =
      rw (checks-Listed h lines p) (on_line-accepted (cut b':' (c_str line)))

  abbrev ByLine : Bytes → Checked → Type 0
  ByLine line rest =
      (rest ≡ accepted)
      ⊎ ((hash : Bytes) × ((c_str line ≡ user ++ b':' ∷ hash) × (crypt_checkpass pass hash ≡ true)))

  on_line-ByLine :
      (ended : Bool) (line : Bytes) (rest : Checked) (o : Option (Bytes × Bytes))
      → Splits b':' (c_str line) o
      → check_line b64_pton crypt_checkpass ended user pass rest o ≡ accepted
      → ByLine line rest
  on_line-ByLine ended line rest none h e = inl e
  on_line-ByLine false line rest (some (name, hash)) h e = elim (Bool-cases (str_eq user name)) [
    | inr other ↦ inl (ground (arith, e, other))
    | inl same ↦ absurd (ground (arith, e, same))
  ]
  on_line-ByLine true line rest (some (name, hash)) h e = elim (Bool-cases (str_eq user name)) [
    | inr other ↦ inl (ground (arith, e, other))
    | inl same ↦ elim (Bool-cases (crypt_checkpass pass hash)) [
      | inr wrong ↦ inl (ground (arith, e, same, wrong))
      | inl fits ↦
          inr (hash, (h ∙ ap (λ u. u ++ b':' ∷ hash) (sym ((str_eq_iff user name).0 same)), fits))
    ]
  ]

  pub Listed-checks :
      (ended : Bool) (lines : List Bytes)
      → check_lines b64_pton crypt_checkpass ended user pass lines ≡ accepted
      → Listed crypt_checkpass user pass lines
  unfolding check_lines
  Listed-checks ended [] e = absurd (ground (arith, e))
  Listed-checks ended (line ∷ lines) e =
      elim (on_line-ByLine ended line (check_lines b64_pton crypt_checkpass ended user pass lines)
        (cut b':' (c_str line)) (cut-Splits b':' (c_str line)) e) [
          | inl rest ↦ later line lines (Listed-checks ended lines rest)
          | inr (hash, (text, fits)) ↦ here line hash lines text fits
        ]

  authenticated :
      (file decoded : Bytes) (keys : Kvtree) (old : Option Bytes)
      → length decoded < 1024
      → c_str decoded ≡ user ++ b':' ∷ pass
      → Lacks b':' user
      → check_decoded b64_pton crypt_checkpass (some file) keys old (some decoded) ≡ record {
        ret = checks (read_lines file);
        clt_remote_user = some user;
        http_headers = wipe keys;
      }
  unfolding check_lines
  authenticated file [] keys old n c h = elim (text_there b':' user pass c) [ ]
  authenticated file (x ∷ s) keys old n c h =
      let ended : has_end (x ∷ s) ≡ true = ground (arith, n) in
      ap₂ (λ e o. check_user b64_pton crypt_checkpass (some file) e keys old o) ended
        (ap (cut b':') c ∙ cut-append b':' user pass h)

  -- When the header is Basic and its text decodes to fewer than 1024 bytes, which begin with
  -- `user:pass` up to a NUL or the end, the user without a colon, and the file can be read: the user is
  -- let in just when a line of the file is the user, a colon and a hash that fits the password, and
  -- `clt_remote_user` is the user in any case. Where 1024 bytes are decoded there is no NUL behind
  -- them, and nothing is said.
  pub server_http_authenticate-Listed :
      (keys : Kvtree) (ba : Kv) (text decoded : Bytes) (old : Option Bytes)
      → kv_find keys (codes "Authorization") ≡ some ba
      → ba.kv_value ≡ some (codes "Basic " ++ text)
      → b64_pton text ≡ some decoded
      → length decoded < 1024
      → c_str decoded ≡ user ++ b':' ∷ pass
      → Lacks b':' user
      → (file : Bytes)
      → let r = server_http_authenticate b64_pton crypt_checkpass (some file) keys old in
        ((r.ret ≡ accepted) ↔ Listed crypt_checkpass user pass (read_lines file))
        × (r.clt_remote_user ≡ some user)
  unfolding server_http_authenticate
  server_http_authenticate-Listed keys ba text decoded old found value d n c h file =
      let same =
        ap (check_header b64_pton crypt_checkpass (some file) keys old) found
        ∙ ap (check_value b64_pton crypt_checkpass (some file) keys old) value
        ∙ ap (check_decoded b64_pton crypt_checkpass (some file) keys old) d
        ∙ authenticated file decoded keys old n c h in
      (
        (
          λ e.
              Listed-checks true (read_lines file)
                (sym (ap (λ (r : Authentication). r.ret) same) ∙ e),
          λ l. ap (λ (r : Authentication). r.ret) same ∙ checks-Listed h (read_lines file) l,
        ),
        ap (λ (r : Authentication). r.clt_remote_user) same,
      )
