-- ===== src/Tests/Path.antt =====
-- Runs of the path functions, and their theorems at concrete paths.
use fuzz_httpd.Base.{◌≡◌, refl, [], ◌∷◌, List, Bytes, codes, replicate, arith, Bool, str_eq, ◌||◌}
use fuzz_httpd.Path.{canonical, null, canonicalize_path}
use fuzz_httpd.Path.Spec.{render, resolve, split}
use fuzz_httpd.Path.Resolve.{canonicalize_path-resolve}
use fuzz_httpd.Path.Safe.{AreNames, canonicalize_path-AreNames}
use fuzz_httpd.Path.Bounds.{Fits, canonicalize_path-Fits}
use fuzz_httpd.Path.Strip.{server_root_strip, path_info}

dots :
    canonicalize_path (codes "/a//./b/../c/..d/") (replicate 64 0) ≡ canonical (codes "/a/c/..d/")
unfolding canonicalize_path
dots = refl

above_root : canonicalize_path (codes "/../../etc/..") (replicate 64 0) ≡ canonical (codes "/")
unfolding canonicalize_path
above_root = refl

truncated : canonicalize_path (codes "/abcd") (replicate 5 0) ≡ null
unfolding canonicalize_path
truncated = refl

fits : canonicalize_path (codes "/abc") (replicate 5 0) ≡ canonical (codes "/abc")
unfolding canonicalize_path
fits = refl

-- A slash that the array holds at the write position hides the directory that `..` should remove.
stale_slash : canonicalize_path (codes "/a/..") (replicate 64 b'/') ≡ canonical (codes "/a")
unfolding canonicalize_path
stale_slash = refl

abbrev text : Bytes
text = codes "a//./b/../c/"

abbrev array : Bytes
array = replicate 32 0

canonicalize_path-resolve_example :
    canonicalize_path (codes "/a//./b/../c/") array ≡ canonical (render (resolve [] (split text)))
canonicalize_path-resolve_example =
    canonicalize_path-resolve text array (omega arith) (omega arith) (omega arith) (omega arith)

canonicalize_path-AreNames_example :
    (st : List Bytes) × (canonicalize_path (codes "/a//./b/../c/") array ≡ canonical (render st))
    × AreNames st
canonicalize_path-AreNames_example =
    canonicalize_path-AreNames text array (omega arith) (omega arith) (omega arith) (omega arith)

canonicalize_path-Fits_example : Fits 5 (canonicalize_path (codes "/abcdef") (codes "/////"))
canonicalize_path-Fits_example = canonicalize_path-Fits (codes "/abcdef") (codes "/////")

abbrev segments : List Bytes
segments = codes "htdocs" ∷ codes "site" ∷ codes "x" ∷ []

strip_all : server_root_strip (codes "/a/b") 3 ≡ []
unfolding server_root_strip
strip_all = refl

-- The script /cgi/run exists, and what follows is its argument.
abbrev script_exists : Bytes → Bool
script_exists s = str_eq s (codes "/cgi/run") || str_eq s (codes "/cgi")

script : path_info script_exists (codes "/cgi/run/x/y") ≡ 8
unfolding path_info
script = refl
