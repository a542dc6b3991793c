-- ===== src/Request/FirstLine.antt =====
-- The first line of a request that is written out, for usr.sbin/httpd/server_http.c.
use fuzz_httpd.Base.{
  ℕ, ◌+◌, ◌≤◌, Bool, true, false, ◌&&◌, not, [], ◌∷◌, ◌++◌, ◌≡◌, ◌≢◌, refl, ap, ◌∙◌, Option, none,
  some, Bytes, codes, char_at, str_case_eq, is_empty, All-append, Lacks, length, le→ltb, ◌==◌,
  arith, is_alpha,
}
use fuzz_httpd.Http.{HttpMethod, method_id, server_httpmethod_byname, server_httpmethod_byid}
use fuzz_httpd.Http.Lookup.{server_httpmethod_byname-byid}
use fuzz_httpd.RequestLine.{
  Client, next_line, server_maxheaderlength, note_chunked, handle_line, request_line, set_target,
  set_version, http_version_num, is_no_method, then_chunked, http_header, read_http,
}
use fuzz_httpd.Request.Print.{target, request_text, IsText, cut-append, cut-none, c_str-Lacks}

pub lacks : ℕ → Bytes → Bool
lacks c [] = true
lacks c (d ∷ s) = not (d == c) && lacks c s

pub lacks-Lacks : (c : ℕ) (s : Bytes) → lacks c s ≡ true → Lacks c s
unfolding lacks
lacks-Lacks c [] h = tt
lacks-Lacks c (d ∷ s) h = ground (arith, lacks-Lacks c s)

abbrev pub name_of : HttpMethod → Bytes
name_of m = server_httpmethod_byid (method_id m)

-- What the names of the methods have in common.
abbrev pub is_name : Bytes → Bool
is_name n =
    lacks 0 n
    && lacks 13 n
    && lacks 32 n
    && not (is_empty n)
    && is_alpha (char_at n 0)
    && not (str_case_eq (codes "Transfer-Encoding") n)

pub name_is_name :
    (m : HttpMethod)
    → m ≢ HttpMethod.no_method
    → m ≢ HttpMethod.response
    → is_name (name_of m) ≡ true
unfolding server_httpmethod_byid lacks is_alpha str_case_eq
name_is_name HttpMethod.no_method h k = absurd (h refl)
name_is_name HttpMethod.response h k = absurd (k refl)
name_is_name _ h k = refl

-- a client whose connection begins, or that `server_reset_http` has reset
abbrev pub first_state : Bytes → Client
first_state s = record {
  desc = record {
    http_method = HttpMethod.no_method;
    http_path = none;
    http_query = none;
    http_version = none;
    http_chunked = false;
    http_headers = [];
    http_lastheader = none;
  };
  clt_toread = http_header;
  clt_headerlen = 0;
  clt_headersdone = false;
  clt_line = 0;
  clt_done = false;
  readcb = read_http;
  input = s;
  reads = true;
}

-- the state behind the first line
abbrev pub first_line : HttpMethod → Bytes → Option Bytes → Bytes → Client
first_line m path query s = record (first_state s) {
  clt_headerlen = 0 + length (request_text m path query);
  clt_line = 1;
  desc = record (first_state s).desc {
    http_method = m;
    http_path = some path;
    http_query = query;
    http_version = some (codes "HTTP/1.1");
  };
}

pub target_line :
    (m : HttpMethod) (path : Bytes) (query : Option Bytes) (s : Bytes)
    → Lacks b'?' path
    → set_version
        (some 11)
        (target path query)
        (codes "HTTP/1.1")
        (record (first_line m path query s) {
          desc = record (first_state s).desc { http_method = m };
        })
      ≡ next_line (first_line m path query s)
target_line m path none s h = rw (cut-none b'?' path h) refl
target_line m path (some q) s h = rw (cut-append b'?' path q h) refl

-- A path holds no space, question mark, NUL or carriage return, a query no space, NUL or carriage
-- return.
abbrev pub IsPath : Bytes → Type 0
IsPath path = IsText path × Lacks 32 path × Lacks b'?' path

abbrev pub IsQuery : Option Bytes → Type 0
IsQuery none = Unit
IsQuery (some q) = IsText q × Lacks 32 q

abbrev pub QueryLacks : ℕ → Option Bytes → Type 0
QueryLacks c none = Unit
QueryLacks c (some q) = Lacks c q

pub target-Lacks :
    (c : ℕ) (path : Bytes) (query : Option Bytes)
    → c ≢ b'?'
    → Lacks c path
    → QueryLacks c query
    → Lacks c (target path query)
target-Lacks c path none ne h k = h
target-Lacks c path (some q) ne h k =
    All-append (λ d. d ≢ c) path (b'?' ∷ q) h (omega (arith, ne), k)

pub known : (m : HttpMethod) → m ≢ HttpMethod.no_method → is_no_method m ≡ false
known HttpMethod.no_method h = absurd (h refl)
known _ h = refl

pub request_line-target :
    (name path : Bytes) (m : HttpMethod) (query : Option Bytes) (s : Bytes)
    → server_httpmethod_byname name ≡ m
    → is_no_method m ≡ false
    → str_case_eq (codes "Transfer-Encoding") name ≡ false
    → Lacks b'?' path
    → Lacks 32 (target path query)
    → request_line
        (some (name, target path query ++ 32 ∷ codes "HTTP/1.1"))
        (record (first_state s) {
          clt_headerlen = 0 + length (request_text m path query);
          clt_line = 1;
        })
      ≡ next_line (first_line m path query s)
unfolding request_line set_target http_version_num note_chunked
request_line-target name path m query s e k no_encoding mark space =
    rw (e, k, cut-append 32 (target path query) (codes "HTTP/1.1") space)
      (ap (then_chunked name (target path query ++ 32 ∷ codes "HTTP/1.1"))
          (target_line m path query s mark)
        ∙ rw no_encoding refl)

pub record IsName (n : Bytes) : Type 0 where
  pub no_nul : Lacks 0 n
  pub no_return : Lacks 13 n
  pub no_space : Lacks 32 n
  pub some_name : is_empty n ≡ false
  pub a_letter : is_alpha (char_at n 0) ≡ true
  pub no_encoding : str_case_eq (codes "Transfer-Encoding") n ≡ false

pub is_name-IsName : (n : Bytes) → is_name n ≡ true → IsName n
is_name-IsName n h = record {
  no_nul = lacks-Lacks 0 n (ground (arith, h));
  no_return = lacks-Lacks 13 n (ground (arith, h));
  no_space = lacks-Lacks 32 n (ground (arith, h));
  some_name = ground (arith, h);
  a_letter = ground (arith, h);
  no_encoding = ground (arith, h);
}

pub query-Lacks :
    (c : ℕ) (query : Option Bytes)
    → ((q : Bytes) → IsText q × Lacks 32 q → Lacks c q)
    → IsQuery query
    → QueryLacks c query
query-Lacks c none k h = tt
query-Lacks c (some q) k h = k q h

pub text-Lacks :
    (c : ℕ) (m : HttpMethod) (path : Bytes) (query : Option Bytes)
    → c ≢ b'?'
    → c ≢ 32
    → Lacks c (codes "HTTP/1.1")
    → Lacks c (name_of m)
    → Lacks c path
    → QueryLacks c query
    → Lacks c (request_text m path query)
text-Lacks c m path query a b v n p k =
    All-append (λ d. d ≢ c) (name_of m) _ n
      (
        omega (arith, b),
        All-append (λ d. d ≢ c) (target path query) _ (target-Lacks c path query a p k)
            (omega (arith, b), v),
      )

-- the request line
pub handle_request :
    (m : HttpMethod) (path : Bytes) (query : Option Bytes) (s : Bytes)
    → m ≢ HttpMethod.no_method
    → m ≢ HttpMethod.response
    → IsPath path
    → IsQuery query
    → length (request_text m path query) ≤ server_maxheaderlength
    → handle_line (request_text m path query) (first_state s)
      ≡ next_line (first_line m path query s)
unfolding handle_line
handle_request m path query s some_method real ((z, e), space, mark) q fits =
    let n = is_name-IsName (name_of m) (name_is_name m some_method real) in
    let whole =
      text-Lacks 0 m path query (omega arith) (omega arith) (omega arith) n.no_nul z
        (query-Lacks 0 query (λ q h. h.0.0) q) in
    let gap =
      target-Lacks 32 path query (omega arith) space (query-Lacks 32 query (λ q h. h.1) q) in
    rw
      (
        le→ltb server_maxheaderlength (0 + length (request_text m path query))
            (omega (arith, fits)),
        c_str-Lacks (request_text m path query) whole,
        cut-append 32 (name_of m) (target path query ++ 32 ∷ codes "HTTP/1.1") n.no_space,
      )
      (request_line-target (name_of m) path m query s (server_httpmethod_byname-byid m real)
        (known m some_method) n.no_encoding mark gap)
