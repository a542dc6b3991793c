-- ===== src/Tests/Http.antt =====
-- Runs of the lookups in the tables, and their theorems at concrete methods.
use fuzz_httpd.Base.{◌≡◌, ◌≢◌, refl, some, codes}
use fuzz_httpd.Http.{no_method, delete, server_httpmethod_byname, server_httperror_byid}

delete_name : server_httpmethod_byname (codes "DELETE") ≡ delete
unfolding server_httpmethod_byname
delete_name = refl

lower_case : server_httpmethod_byname (codes "get") ≡ no_method
unfolding server_httpmethod_byname
lower_case = refl

not_found : server_httperror_byid 404 ≡ some (codes "Not Found")
unfolding server_httperror_byid
not_found = refl

delete-known : server_httpmethod_byname (codes "DELETE") ≢ no_method
unfolding server_httpmethod_byname
delete-known = cc
