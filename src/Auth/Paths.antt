-- ===== src/Auth/Paths.antt =====
-- The paths of the htpasswd files stay distinct, so that each file has one identifier.
use fuzz_httpd.Base.{
  true, false, List, [], ◌∷◌, ◌≡◌, ◌≢◌, refl, sym, ap, ◌∙◌, Bytes, All, str_eq, str_eq_iff,
  Bool-cases, inl, inr, arith,
}
use fuzz_httpd.Auth.{Auth, auth_add}

abbrev pub Apart : Bytes → List Auth → Type 0
Apart path = All (λ a. a.auth_htpasswd ≢ path)

abbrev pub Distinct : List Auth → Type 0
Distinct [] = Unit
Distinct (a ∷ auths) = Apart a.auth_htpasswd auths × Distinct auths

str_eq-false : (s t : Bytes) → str_eq s t ≡ false → s ≢ t
str_eq-false s t h e = ground (arith, (str_eq_iff s t).1 e)

Apart-add :
    (path : Bytes) (auths : List Auth) (a : Auth)
    → a.auth_htpasswd ≢ path
    → Apart path auths
    → Apart path (auth_add auths a).0
unfolding auth_add
Apart-add path [] a ne h = (ne, tt)
Apart-add path (b ∷ auths) a ne (hb, h) =
    elim (Bool-cases (str_eq b.auth_htpasswd a.auth_htpasswd)) [
      | inl e ↦ rw e (hb, h)
      | inr e ↦ rw e (hb, Apart-add path auths a ne h)
    ]

add-Distinct : (auths : List Auth) (a : Auth) → Distinct auths → Distinct (auth_add auths a).0
unfolding auth_add
add-Distinct [] a h = (tt, tt)
add-Distinct (b ∷ auths) a (hb, h) = elim (Bool-cases (str_eq b.auth_htpasswd a.auth_htpasswd)) [
  | inl e ↦ rw e (hb, h)
  | inr e ↦ rw e (
    Apart-add b.auth_htpasswd auths a
        (λ same. str_eq-false b.auth_htpasswd a.auth_htpasswd e (sym same)) hb,
    add-Distinct auths a h,
  )
]

add_found :
    (c a : Auth) (auths : List Auth)
    → str_eq c.auth_htpasswd a.auth_htpasswd ≡ true
    → auth_add (c ∷ auths) a ≡ (c ∷ auths, c)
unfolding auth_add
add_found c a auths h = rw h refl

add_later :
    (c a : Auth) (auths : List Auth)
    → str_eq c.auth_htpasswd a.auth_htpasswd ≡ false
    → auth_add (c ∷ auths) a ≡ (c ∷ (auth_add auths a).0, (auth_add auths a).1)
unfolding auth_add
add_later c a auths h = rw h refl

again :
    (auths : List Auth) (a b : Auth)
    → b.auth_htpasswd ≡ a.auth_htpasswd
    → auth_add (auth_add auths a).0 b ≡ auth_add auths a
again [] a b e =
    unfold auth_add in
    add_found a b []
      (ap (str_eq a.auth_htpasswd) e ∙ (str_eq_iff a.auth_htpasswd a.auth_htpasswd).1 refl)
again (c ∷ auths) a b e =
    let e' = ap (str_eq c.auth_htpasswd) e in
    elim (Bool-cases (str_eq c.auth_htpasswd a.auth_htpasswd)) [
      | inl same ↦
          ap (λ r. auth_add r.0 b) (add_found c a auths same)
          ∙ add_found c b auths (e' ∙ same)
          ∙ sym (add_found c a auths same)
      | inr other ↦
          ap (λ r. auth_add r.0 b) (add_later c a auths other)
          ∙ add_later c b (auth_add auths a).0 (e' ∙ other)
          ∙ ap (λ r. (c ∷ r.0, r.1)) (again auths a b e)
          ∙ sym (add_later c a auths other)
    ]

-- In a list of distinct paths, a file that is added leaves the paths distinct, and a file with its
-- path, whatever identifier comes with it, finds the entry that is there and changes nothing.
pub auth_add-Distinct :
    (auths : List Auth) (a b : Auth)
    → Distinct auths
    → b.auth_htpasswd ≡ a.auth_htpasswd
    → Distinct (auth_add auths a).0 × (auth_add (auth_add auths a).0 b ≡ auth_add auths a)
auth_add-Distinct auths a b h e = (add-Distinct auths a h, again auths a b e)
