-- ===== src/Log/Texts.antt =====
-- The ends of lines in the texts that server_log_http of server_http.c writes.
use fuzz_httpd.Base.{
  ℕ, zero, suc, ◌+◌, ◌/◌, ◌%◌, ◌≡◌, refl, Bool, true, false, List, [], ◌∷◌, ◌++◌, Option, none,
  some, Bytes, count, count-append, arith, ◌&&◌, &&-eq_true, ==_iff, Bool-cases, inl, inr,
  replicate, ◌==◌,
}
use fuzz_httpd.Expand.{encoded, or_empty}
use fuzz_httpd.Http.{HttpMethod, method_id, server_httpmethod_byid, find_id, http_methods}
use fuzz_httpd.Log.{join, query_texts}
use fuzz_httpd.Url.{encode_byte, hex_digit, must_encode, url_encode}

-- how many lines end in a text
abbrev pub count_lines : Bytes → ℕ
count_lines = count 10

abbrev pub total : List Bytes → ℕ
total [] = 0
total (s ∷ texts) = count_lines s + total texts

pub count-join : (texts : List Bytes) → count_lines (join texts) ≡ total texts
unfolding join
count-join [] = refl
count-join (s ∷ texts) = omega (arith, count-append 10 s (join texts), count-join texts)

pub total-append : (a b : List Bytes) → total (a ++ b) ≡ total a + total b
total-append [] b = omega arith
total-append (s ∷ a) b = omega (arith, total-append a b)

hex_digit_no_line : (n : ℕ) → (hex_digit n == 10) ≡ false
unfolding hex_digit
hex_digit_no_line n = ground arith

encode_byte_no_line : (c : ℕ) → count_lines (encode_byte c) ≡ 0
unfolding encode_byte must_encode
encode_byte_no_line c = ground (arith, hex_digit_no_line (c / 16), hex_digit_no_line (c % 16))

url_encode_no_line : (s : Bytes) → count_lines (url_encode s) ≡ 0
unfolding url_encode
url_encode_no_line [] = refl
url_encode_no_line (c ∷ s) = omega (
  arith,
  count-append 10 (encode_byte c) (url_encode s),
  encode_byte_no_line c,
  url_encode_no_line s,
)

abbrev all_no_line : List (HttpMethod × Bytes) → Bool
all_no_line [] = true
all_no_line ((m, name) ∷ table) = count_lines name == 0 && all_no_line table

find_id_no_line :
    (id : ℕ) (table : List (HttpMethod × Bytes))
    → all_no_line table ≡ true
    → count_lines (find_id id table) ≡ 0
unfolding find_id
find_id_no_line id [] h = refl
find_id_no_line id ((m, name) ∷ table) h =
    let (plain, more) = &&-eq_true (count_lines name == 0) (all_no_line table) h in
    elim (Bool-cases (method_id m == id)) [
      | inl same ↦ rw same ((==_iff (count_lines name) 0).0 plain)
      | inr other ↦ rw other (find_id_no_line id table more)
    ]

pub method_no_line : (id : ℕ) → count_lines (server_httpmethod_byid id) ≡ 0
unfolding server_httpmethod_byid
method_no_line id = find_id_no_line id http_methods refl

pub encoded_no_line : (o : Option Bytes) → count_lines (or_empty (encoded o)) ≡ 0
encoded_no_line none = refl
encoded_no_line (some s) = url_encode_no_line s

-- a text without the end of a line, if there is one
abbrev pub WithinLine : Option Bytes → Type 0
WithinLine none = Unit
WithinLine (some s) = count_lines s ≡ 0

pub query_no_line : (o : Option Bytes) → WithinLine o → total (query_texts o) ≡ 0
query_no_line none h = refl
query_no_line (some s) h = omega (arith, h)

pub zeros_no_line : (n : ℕ) → count_lines (replicate n b'0') ≡ 0
zeros_no_line zero = refl
zeros_no_line (suc n) = zeros_no_line n
