-- ===== src/Auth.antt =====
-- The list of htpasswd files of usr.sbin/httpd/httpd.c: `auth_add`, `auth_byid` and `auth_free`. A
-- pointer to an entry is the entry; no two entries have one path, so `auth_free` removes the entry
-- with the path. Allocation is assumed to succeed.
pub mod Paths
use fuzz_httpd.Base.{
  ℕ, List, [], ◌∷◌, ◌++◌, ◌≡◌, refl, Option, none, some, Bytes, str_eq, ◌==◌, if◌then◌else◌,
}

pub record Auth : Type 0 where
  pub auth_htpasswd : Bytes
  pub auth_id : ℕ

-- The walk over the list: the list behind it and the entry that it returns.
unfoldable pub auth_add : List Auth → Auth → List Auth × Auth
auth_add [] auth = (auth ∷ [], auth)
auth_add (entry ∷ entries) auth =
    let rest = auth_add entries auth in
    if str_eq entry.auth_htpasswd auth.auth_htpasswd
    then (entry ∷ entries, entry)
    else (entry ∷ rest.0, rest.1)

unfoldable pub auth_byid : List Auth → ℕ → Option Auth
auth_byid [] id = none
auth_byid (auth ∷ auths) id =
    let rest = auth_byid auths id in if auth.auth_id == id then some auth else rest

unfoldable pub auth_free : List Auth → Auth → List Auth
auth_free [] auth = []
auth_free (entry ∷ entries) auth =
    let rest = auth_free entries auth in
    if str_eq entry.auth_htpasswd auth.auth_htpasswd then entries else entry ∷ rest
