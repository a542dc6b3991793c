-- ===== src/Request/RoundTrip.antt =====
-- The head of a request that is written out is read back.
use fuzz_httpd.Request.FirstLine.{
  IsPath, IsQuery, first_line, first_state, handle_request, is_name-IsName, name_is_name, name_of,
  query-Lacks, text-Lacks,
}
use fuzz_httpd.Base.{
  ℕ, suc, ◌-◌, ◌+◌, ◌≤◌, ◌<◌, Bool, true, false, not, List, [], ◌∷◌, ◌++◌, ◌≡◌, ◌≢◌, refl, ap, ◌∙◌,
  Option, some, Bytes, codes, char_at, is_empty, All, Lacks, length, ◌==◌, if◌then◌else◌, arith,
  is_alpha, length-append,
}
use fuzz_httpd.Http.{HttpMethod}
use fuzz_httpd.Request.{
  stopped, line_round, read_lines, server_read_http, after_lines, headers_read, then_loop,
}
use fuzz_httpd.RequestLine.{Client, server_maxheaderlength, http_header}
use fuzz_httpd.Request.Print.{
  request_text, header_text, head_text, heads_length, headers_onto, IsHeader, if-false, reads_line,
  reads_headers,
}

if-true {ℓ} : {A : Type ℓ} (b : Bool) (x y : A) → b ≡ true → (if b then x else y) ≡ x
if-true true x y h = refl
if-true false x y h = cc

length-head_text :
    (hs : List (Bytes × Bytes)) (rest : Bytes) → length hs < length (head_text hs rest)
length-head_text [] rest = omega arith
length-head_text (h ∷ hs) rest =
    omega
      (arith, length-append (header_text h) (13 ∷ 10 ∷ head_text hs rest), length-head_text hs rest)

abbrev pub whole_text : HttpMethod → Bytes → Option Bytes → List (Bytes × Bytes) → Bytes → Bytes
whole_text m path query hs rest = request_text m path query ++ 13 ∷ 10 ∷ head_text hs rest

-- The descriptor of a request, with its headers in the tree, and what follows still in the buffer.
abbrev pub Parsed :
    HttpMethod → Bytes → Option Bytes → List (Bytes × Bytes) → Bytes → Client → Type 0
Parsed m path query hs rest c =
    (c.input ≡ rest)
    × (c.clt_headersdone ≡ true)
    × (c.clt_toread ≡ http_header)
    × (c.desc.http_headers ≡ headers_onto hs [])
    × (c.desc.http_method ≡ m)
    × (c.desc.http_path ≡ some path)
    × (c.desc.http_query ≡ query)
    × (c.desc.http_version ≡ some (codes "HTTP/1.1"))
    × (c.desc.http_chunked ≡ false)

alpha_first :
    (n t : Bytes)
    → is_empty n ≡ false
    → is_alpha (char_at n 0) ≡ true
    → not (is_alpha (char_at (n ++ t) 0)) ≡ false
alpha_first [] t e h = cc
alpha_first (c ∷ n) t e h = rw h refl

first_char : (n t : Bytes) → is_empty n ≡ false → char_at (n ++ t) 0 ≡ char_at n 0
first_char [] t e = cc
first_char (c ∷ n) t e = refl

some_text : (n t : Bytes) → is_empty n ≡ false → is_empty (n ++ t) ≡ false
some_text [] t e = cc
some_text (c ∷ n) t e = refl

module _ (readln : Bytes → Option (Bytes × Bytes))
    (finds : (l r : Bytes) → Lacks 13 l → readln (l ++ 13 ∷ 10 ∷ r) ≡ some (l, r)) where
  reads_request :
      (m : HttpMethod) (path : Bytes) (query : Option Bytes) (hs : List (Bytes × Bytes))
      (rest : Bytes) (fuel size : ℕ)
      → m ≢ HttpMethod.no_method
      → m ≢ HttpMethod.response
      → IsPath path
      → IsQuery query
      → All IsHeader hs
      → length (request_text m path query) + heads_length hs ≤ server_maxheaderlength
      → (c : Client) × (read_lines readln
            (suc (length hs + suc fuel))
            size
            (first_state (whole_text m path query hs rest))
          ≡ stopped c)
        × Parsed m path query hs rest c
  unfolding line_round
  reads_request m path query hs rest fuel size some_method real ((z, e), space, mark) q all fits =
      let n = is_name-IsName (name_of m) (name_is_name m some_method real) in
      let s = head_text hs rest in
      let text = request_text m path query in
      let lines =
        text-Lacks 13 m path query (omega arith) (omega arith) (omega arith) n.no_return e
          (query-Lacks 13 query (λ q h. h.0.1) q) in
      let (c, run, kept) =
        reads_headers readln finds hs rest fuel size (first_line m path query s) all (omega arith)
          refl refl (omega (arith, fits)) in
      (
        c,
        reads_line readln finds (length hs + suc fuel) size
              (first_state (whole_text m path query hs rest)) text s refl lines refl
              (alpha_first text (13 ∷ 10 ∷ s) (some_text (name_of m) _ n.some_name)
                (ap is_alpha (first_char (name_of m) _ n.some_name) ∙ n.a_letter))
            ∙ if-false (is_empty text) _ _ (some_text (name_of m) _ n.some_name)
            ∙ ap (then_loop (read_lines readln (length hs + suc fuel) size)) (
                handle_request m path query s some_method real ((z, e), space, mark) q
                  (omega (arith, fits)))
            ∙ run,
        kept,
      )

  -- A request that is written with a known method, HTTP/1.1, and headers that are texts, other than
  -- Content-Length and Transfer-Encoding, all within 8192 bytes: where `evbuffer_readln` finds the
  -- lines, `server_read_http` goes on with exactly its method, path, query and headers, and leaves
  -- what follows in the buffer.
  pub server_read_http-whole_text :
      (m : HttpMethod) (path : Bytes) (query : Option Bytes) (hs : List (Bytes × Bytes))
      (rest : Bytes)
      → m ≢ HttpMethod.no_method
      → m ≢ HttpMethod.response
      → IsPath path
      → IsQuery query
      → All IsHeader hs
      → length (request_text m path query) + heads_length hs ≤ server_maxheaderlength
      → (c : Client) × (server_read_http readln (first_state (whole_text m path query hs rest))
          ≡ headers_read c)
        × Parsed m path query hs rest c
  unfolding server_read_http after_lines
  server_read_http-whole_text m path query hs rest some_method real p q all fits =
      let s = whole_text m path query hs rest in
      let size = length s in
      let long = length-head_text hs rest in
      let whole = length-append (request_text m path query) (13 ∷ 10 ∷ head_text hs rest) in
      let some_size : (size == 0) ≡ false = ground arith in
      let fuel : size + 1 ≡ suc (length hs + suc (size - (length hs + 1))) =
        omega (arith, long, whole) in
      let (c, run, kept) =
        reads_request m path query hs rest (size - (length hs + 1)) size some_method real p q all
          fits in
      (
        c,
        if-false (size == 0) _ _ some_size
            ∙ ap (λ n. after_lines (read_lines readln n size (first_state s))) fuel
            ∙ ap after_lines run
            ∙ if-true c.clt_headersdone _ _ kept.1,
        kept,
      )
