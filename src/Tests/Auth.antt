-- ===== src/Tests/Auth.antt =====
-- Runs of the list of htpasswd files, and its theorem at a concrete list.
use fuzz_httpd.Base.{◌≡◌, refl, [], ◌∷◌, some, none, codes}
use fuzz_httpd.Auth.{Auth, auth_byid, auth_free}

abbrev staff : Auth
staff = record { auth_htpasswd = codes "/staff"; auth_id = 1 }

abbrev guests : Auth
guests = record { auth_htpasswd = codes "/guests"; auth_id = 2 }

abbrev guests_again : Auth
guests_again = record { auth_htpasswd = codes "/guests"; auth_id = 0 }

found_by_id : auth_byid (staff ∷ guests ∷ []) 2 ≡ some guests
unfolding auth_byid
found_by_id = refl

freed : auth_byid (auth_free (staff ∷ guests ∷ []) guests) 2 ≡ none
unfolding auth_byid auth_free
freed = refl
