-- ===== src/Tests/Kv.antt =====
-- Runs of the header store, and its theorems at a concrete tree.
use fuzz_httpd.Base.{◌≡◌, refl, [], ◌∷◌, some, codes}
use fuzz_httpd.Kv.{Kvtree, new_kv, by_order, case_compare, kv_add, kv_find, kv_extend}
use fuzz_httpd.Kv.Find.{added, kv_find-add}
use fuzz_httpd.Kv.Order.{Ordered}

abbrev headers : Kvtree
headers = new_kv (codes "Accept") (some (codes "*")) ∷ new_kv (codes "Host") (some (codes "a")) ∷ []

headers-Ordered : Ordered headers
unfolding case_compare
headers-Ordered = ((refl, tt), (tt, tt))

folded :
    kv_find
      (kv_extend
        (kv_add headers (some (codes "X")) (some (codes "1"))).0
        (kv_add headers (some (codes "X")) (some (codes "1"))).1
        (codes " 2")).0
      (codes "x")
    ≡ some (new_kv (codes "X") (some (codes "1 2")))
unfolding kv_find kv_extend kv_add case_compare
folded = refl

kv_find-add_example :
    kv_find (kv_add headers (some (codes "HOST")) (some (codes "b"))).0 (codes "host")
    ≡ by_order
        (case_compare (codes "host") (codes "HOST"))
        (kv_find headers (codes "host"))
        (some (added (codes "HOST") (some (codes "b")) (kv_find headers (codes "HOST"))))
        (kv_find headers (codes "host"))
kv_find-add_example =
    kv_find-add headers (codes "HOST") (codes "host") (some (codes "b")) headers-Ordered
