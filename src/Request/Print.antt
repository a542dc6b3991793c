-- ===== src/Request/Print.antt =====
-- A request that is written out, and what `server_read_http` reads of it.
use fuzz_httpd.Base.{
  ℕ, suc, ◌+◌, ◌≤◌, Bool, true, false, ◌&&◌, ◌||◌, not, List, [], ◌∷◌, ◌++◌, ◌≡◌, ◌≢◌, refl, ap,
  ◌∙◌, Option, none, some, Bytes, codes, c_str, cut, char_at, str_case_eq, is_empty, All,
  All-append, Lacks, length, le→ltb, ◌==◌, if◌then◌else◌, arith, is_alpha, skip_while,
}
use fuzz_httpd.Http.{HttpMethod, method_id, server_httpmethod_byid}
use fuzz_httpd.Kv.{Kvtree, kv_add}
use fuzz_httpd.Request.{stopped, line_round, read_lines, then_loop}
use fuzz_httpd.RequestLine.{
  Client, next_line, server_maxheaderlength, is_blank, note_chunked, content_length, header_line,
  handle_line, add_header, then_header,
}

-- The first line.
abbrev pub target : Bytes → Option Bytes → Bytes
target path none = path
target path (some query) = path ++ b'?' ∷ query

abbrev pub request_text : HttpMethod → Bytes → Option Bytes → Bytes
request_text m path query =
    server_httpmethod_byid (method_id m) ++ 32 ∷ (target path query ++ 32 ∷ codes "HTTP/1.1")

abbrev pub header_text : Bytes × Bytes → Bytes
header_text (key, value) = key ++ b':' ∷ 32 ∷ value

-- The lines of the headers, the empty line, and what follows.
abbrev pub head_text : List (Bytes × Bytes) → Bytes → Bytes
head_text [] rest = 13 ∷ 10 ∷ rest
head_text (h ∷ hs) rest = header_text h ++ 13 ∷ 10 ∷ head_text hs rest

-- The tree of the headers, each added behind those before it.
abbrev pub headers_onto : List (Bytes × Bytes) → Kvtree → Kvtree
headers_onto [] tree = tree
headers_onto ((key, value) ∷ hs) tree = headers_onto hs (kv_add tree (some key) (some value)).0

abbrev pub heads_length : List (Bytes × Bytes) → ℕ
heads_length [] = 0
heads_length (h ∷ hs) = length (header_text h) + heads_length hs

-- No NUL and no carriage return.
abbrev pub IsText : Bytes → Type 0
IsText s = Lacks 0 s × Lacks 13 s

-- A header that frames no body: its name starts with no space and holds no colon, its value does not
-- start with white space.
abbrev pub IsHeader : Bytes × Bytes → Type 0
IsHeader (key, value) =
    IsText key
    × IsText value
    × Lacks b':' key
    × ((char_at key 0 == 32 || char_at key 0 == 9) ≡ false)
    × (is_blank (char_at value 0) ≡ false)
    × (str_case_eq (codes "Content-Length") key ≡ false)
    × (str_case_eq (codes "Transfer-Encoding") key ≡ false)

pub cut-append : (c : ℕ) (a b : Bytes) → Lacks c a → cut c (a ++ c ∷ b) ≡ some (a, b)
unfolding cut
cut-append c [] b h = ground arith
cut-append c (d ∷ a) b (hd, h) = ground (arith, cut-append c a b h)

pub cut-none : (c : ℕ) (a : Bytes) → Lacks c a → cut c a ≡ none
unfolding cut
cut-none c [] h = refl
cut-none c (d ∷ a) (hd, h) = ground (arith, cut-none c a h)

pub c_str-Lacks : (s : Bytes) → Lacks 0 s → c_str s ≡ s
c_str-Lacks [] h = refl
c_str-Lacks (c ∷ s) (hc, h) = ground (arith, c_str-Lacks s h)

skip_blank : (s : Bytes) → is_blank (char_at s 0) ≡ false → skip_while is_blank s ≡ s
unfolding skip_while
skip_blank [] h = refl
skip_blank (c ∷ s) h = rw h refl

header_text-Lacks :
    (c : ℕ) (key value : Bytes)
    → c ≢ b':'
    → c ≢ 32
    → Lacks c key
    → Lacks c value
    → Lacks c (header_text (key, value))
header_text-Lacks c key value a b hk hv =
    All-append (λ d. d ≢ c) key (b':' ∷ 32 ∷ value) hk (omega (arith, a), (omega (arith, b), hv))

char_at-append :
    (key s : Bytes)
    → (char_at key 0 == 32 || char_at key 0 == 9) ≡ false
    → (char_at (key ++ b':' ∷ s) 0 == 32 || char_at (key ++ b':' ∷ s) 0 == 9) ≡ false
char_at-append [] s h = refl
char_at-append (c ∷ key) s h = h

content_plain :
    (key value : Bytes) (c : Client)
    → str_case_eq (codes "Content-Length") key ≡ false
    → content_length key value c ≡ next_line c
unfolding content_length
content_plain key value c h = rw h (ground arith)

note_plain :
    (key value : Bytes) (c : Client)
    → str_case_eq (codes "Transfer-Encoding") key ≡ false
    → note_chunked key value c ≡ c
unfolding note_chunked
note_plain key value c h = rw h refl

header_line_plain :
    (key value : Bytes) (c : Client)
    → is_blank (char_at value 0) ≡ false
    → str_case_eq (codes "Content-Length") key ≡ false
    → str_case_eq (codes "Transfer-Encoding") key ≡ false
    → header_line (some (key, 32 ∷ value)) c ≡ next_line (add_header key value c)
unfolding header_line skip_while
header_line_plain key value c blank no_length no_encoding =
    ap (λ v. then_header key v (content_length key v c)) (skip_blank value blank)
    ∙ ap (then_header key value) (content_plain key value c no_length)
    ∙ ap (λ d. next_line (add_header key value d)) (note_plain key value c no_encoding)

-- a header's line
handle_header :
    (h : Bytes × Bytes) (c : Client)
    → IsHeader h
    → c.clt_line ≢ 0
    → c.clt_headerlen + length (header_text h) ≤ server_maxheaderlength
    → handle_line (header_text h) c
      ≡ next_line (
          add_header h.0 h.1 (record c {
            clt_headerlen = c.clt_headerlen + length (header_text h);
            clt_line = suc c.clt_line;
          }))
unfolding handle_line
handle_header (key, value) c ((z, e), (zv, ev), colon, first, blank, no_length, no_encoding)
      some_line fits =
    let c1 = record c {
      clt_headerlen = c.clt_headerlen + length (header_text (key, value));
      clt_line = suc c.clt_line;
    } in
    let text =
      c_str-Lacks (header_text (key, value))
        (header_text-Lacks 0 key value (omega arith) (omega arith) z zv) in
    let behind : (c.clt_line == 0) ≡ false = ground arith in
    let room =
      le→ltb server_maxheaderlength (c.clt_headerlen + length (header_text (key, value))) fits in
    let parts = cut-append b':' key (32 ∷ value) colon in
    let unwrapped = char_at-append key (32 ∷ value) first in
    rw (room, behind, text, unwrapped, parts)
      (header_line_plain key value c1 blank no_length no_encoding)

pub if-false {ℓ} : {A : Type ℓ} (b : Bool) (x y : A) → b ≡ false → (if b then x else y) ≡ y
if-false true x y h = cc
if-false false x y h = refl

header_text-IsLine : (h : Bytes × Bytes) → IsHeader h → Lacks 13 (header_text h)
header_text-IsLine (key, value) ((z, e), (zv, ev), c, f, b, l, t) =
    header_text-Lacks 13 key value (omega arith) (omega arith) e ev

header_text-some : (h : Bytes × Bytes) → is_empty (header_text h) ≡ false
header_text-some ([], value) = refl
header_text-some (c ∷ key, value) = refl

-- What of the state the headers leave alone, and what they make of the rest.
abbrev pub HeadersRead : List (Bytes × Bytes) → Bytes → Client → Client → Type 0
HeadersRead hs rest c c' =
    (c'.input ≡ rest)
    × (c'.clt_headersdone ≡ true)
    × (c'.clt_toread ≡ c.clt_toread)
    × (c'.desc.http_headers ≡ headers_onto hs c.desc.http_headers)
    × (c'.desc.http_method ≡ c.desc.http_method)
    × (c'.desc.http_path ≡ c.desc.http_path)
    × (c'.desc.http_query ≡ c.desc.http_query)
    × (c'.desc.http_version ≡ c.desc.http_version)
    × (c'.desc.http_chunked ≡ c.desc.http_chunked)

module _ (readln : Bytes → Option (Bytes × Bytes))
    (finds : (l r : Bytes) → Lacks 13 l → readln (l ++ 13 ∷ 10 ∷ r) ≡ some (l, r)) where
  pub reads_line :
      (fuel size : ℕ) (c : Client) (l r : Bytes)
      → c.input ≡ l ++ 13 ∷ 10 ∷ r
      → Lacks 13 l
      → c.clt_headersdone ≡ false
      → (c.clt_line == 0 && not (is_alpha (char_at c.input 0))) ≡ false
      → read_lines readln (suc fuel) size c
        ≡ line_round (read_lines readln fuel size) (some (l, r)) size c
  unfolding read_lines
  reads_line fuel size c l r e h head alpha =
      if-false c.clt_headersdone _ _ head
      ∙ if-false (c.clt_line == 0 && not (is_alpha (char_at c.input 0))) _ _ alpha
      ∙ ap (λ o. line_round (read_lines readln fuel size) o size c) (ap readln e ∙ finds l r h)

  pub reads_headers :
      (hs : List (Bytes × Bytes)) (rest : Bytes) (fuel size : ℕ) (c : Client)
      → All IsHeader hs
      → c.clt_line ≢ 0
      → c.clt_headersdone ≡ false
      → c.input ≡ head_text hs rest
      → c.clt_headerlen + heads_length hs ≤ server_maxheaderlength
      → (c' : Client) × (read_lines readln (length hs + suc fuel) size c ≡ stopped c')
        × HeadersRead hs rest c c'
  unfolding line_round
  reads_headers [] rest fuel size c all some_line head e fits = (
    record c { input = rest; clt_headersdone = true },
    (let n : 0 + suc fuel ≡ suc fuel = omega arith in
        ap (λ n. read_lines readln n size c) n
        ∙ reads_line fuel size c [] rest e tt head (ground arith)),
    (refl, refl, refl, refl, refl, refl, refl, refl, refl),
  )
  reads_headers (h ∷ hs) rest fuel size c (is_header, all) some_line head e fits =
      let c1 = record c { input = head_text hs rest } in
      let c2 = add_header h.0 h.1 (record c1 {
        clt_headerlen = c.clt_headerlen + length (header_text h);
        clt_line = suc c.clt_line;
      }) in
      let (c', run, kept) =
        reads_headers hs rest fuel size c2 all (ground arith) head refl (omega (arith, fits)) in
      let n : suc (length hs) + suc fuel ≡ suc (length hs + suc fuel) = omega arith in
      let line =
        reads_line (length hs + suc fuel) size c (header_text h) (head_text hs rest) e
          (header_text-IsLine h is_header) head (ground arith) in
      (
        c',
        ap (λ n. read_lines readln n size c) n
            ∙ line
            ∙ if-false (is_empty (header_text h)) _ _ (header_text-some h)
            ∙ ap (then_loop (read_lines readln (length hs + suc fuel) size))
                (handle_header h c1 is_header some_line (omega (arith, fits)))
            ∙ run,
        kept,
      )
