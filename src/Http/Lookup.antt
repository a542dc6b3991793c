-- ===== src/Http/Lookup.antt =====
-- The lookups of server_http.c in the table of methods undo one another.
use fuzz_httpd.Base.{
  Bool, true, ◌&&◌, &&-eq_true, List, [], ◌∷◌, ◌≡◌, ◌≢◌, inl, inr, refl, Bytes, str_eq, str_eq_iff,
  Bool-cases,
}
use fuzz_httpd.Http.{
  HttpMethod, no_method, response, method_id, http_methods, find_name, server_httpmethod_byname,
  server_httpmethod_byid,
}

agrees : List (HttpMethod × Bytes) → Bool
agrees [] = true
agrees ((m, n) ∷ table) = str_eq (server_httpmethod_byid (method_id m)) n && agrees table

methods_agree : agrees http_methods ≡ true
unfolding agrees server_httpmethod_byid
methods_agree = refl

find_name-agrees :
    (name : Bytes) (table : List (HttpMethod × Bytes))
    → agrees table ≡ true
    → find_name name table ≢ no_method
    → server_httpmethod_byid (method_id (find_name name table)) ≡ name
unfolding find_name agrees
find_name-agrees name [] ok found = absurd (found refl)
find_name-agrees name ((m, n) ∷ table) ok found =
    let (here, later) = &&-eq_true (str_eq (server_httpmethod_byid (method_id m)) n) _ ok in
    elim (Bool-cases (str_eq name n)) [
      | inl e ↦
          rw (e, (str_eq_iff name n).0 e)
            ((str_eq_iff (server_httpmethod_byid (method_id m)) n).0 here)
      | inr ne ↦ rw ne (find_name-agrees name table later (rw ne at found))
    ]

-- The name of a method that `server_httpmethod_byname` recognised is the name that it was given,
-- byte for byte.
pub server_httpmethod_byid-byname :
    (name : Bytes)
    → server_httpmethod_byname name ≢ no_method
    → server_httpmethod_byid (method_id (server_httpmethod_byname name)) ≡ name
unfolding server_httpmethod_byname
server_httpmethod_byid-byname name = find_name-agrees name http_methods methods_agree

-- Every method but the internal HTTP_METHOD_RESPONSE is recognised by its name.
pub server_httpmethod_byname-byid :
    (m : HttpMethod)
    → m ≢ response
    → server_httpmethod_byname (server_httpmethod_byid (method_id m)) ≡ m
unfolding server_httpmethod_byname server_httpmethod_byid
server_httpmethod_byname-byid no_method h = refl
server_httpmethod_byname-byid response h = absurd (h refl)
server_httpmethod_byname-byid _ h = refl
