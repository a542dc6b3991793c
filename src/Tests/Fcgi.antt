-- ===== src/Tests/Fcgi.antt =====
-- Runs of the FastCGI writer, and its theorems at concrete parameters.
use fuzz_httpd.Base.{◌≡◌, refl, [], ◌∷◌, ◌++◌, some, Option, Bytes, codes, arith}
use fuzz_httpd.Fcgi.{ServerFcgiParam, fcgi_add_param, fcgi_add_stdin}
use fuzz_httpd.Fcgi.Params.{IsRecord}

abbrev write : Bytes → Bytes → Option Bytes
write out b = some (out ++ b)

abbrev sample : ServerFcgiParam
sample = record {
  total_len = 3;
  header = record { version = 1; type = 4; id = 1; content_len = 3; padding_len = 0; reserved = 0 };
  content = 1 ∷ 0 ∷ b'K' ∷ [];
}

sample-IsRecord : IsRecord sample
sample-IsRecord = record { content_lem = refl; fits = omega arith; header_lem = λ _. refl }

stdin_sample :
    fcgi_add_stdin write (some (codes "hi")) [] ≡ some (1 ∷ 5 ∷ 0 ∷ 1 ∷ 0 ∷ 2 ∷ 0 ∷ 0 ∷ codes "hi")
unfolding fcgi_add_stdin
stdin_sample = refl

added_sample : (fcgi_add_param write sample (codes "A") (codes "bc") []).param.total_len ≡ 8
unfolding fcgi_add_param
added_sample = refl
