-- ===== src/Request/Head.antt =====
-- What holds between the calls of `server_read_http`, and what a call ends in.
use fuzz_httpd.Base.{
  arith, ℕ, ◌+◌, ◌≤◌, false, true, ◌⊎◌, inl, inr, ◌&&◌, ◌||◌, not, ◌≡◌, refl, sym, subst, Option,
  none, some, Bytes, cut, length, ltb, ltb→le, ◌==◌, if-intro, codes, str_case_eq, skip_while,
  strtonum, c_str, char_at,
}
use fuzz_httpd.Http.{server_httpmethod_byname}
use fuzz_httpd.Kv.{Kvtree, KvRef, kv_extend}
use fuzz_httpd.Kv.Order.{Ordered, kv_add-Ordered, kv_extend-Ordered}
use fuzz_httpd.Range.{llong_max}
use fuzz_httpd.Request.Lengths.{Tells, kv_add-Tells, kv_add-Declares, kv_extend-Tells}
use fuzz_httpd.RequestLine.{
  HttpDescriptor, Client, server_maxheaderlength, Line, http_version_num, is_blank, note_chunked,
  has_no_length, is_no_method, set_query, set_version, set_target, then_chunked, request_line,
  set_length, content_length, then_header, header_line, extended, handle_line, left, read_http,
  add_header, next_line, aborts,
}

-- The statuses that the parser refuses a request with.
pub data IsRefusal : ℕ → Type 0 where
  bad_request : {n : ℕ} → n ≡ 400 → IsRefusal n
  not_allowed : {n : ℕ} → n ≡ 405 → IsRefusal n
  not_acceptable : {n : ℕ} → n ≡ 406 → IsRefusal n
  too_large : {n : ℕ} → n ≡ 413 → IsRefusal n
  internal : {n : ℕ} → n ≡ 500 → IsRefusal n
  bad_version : {n : ℕ} → n ≡ 505 → IsRefusal n

-- While the head of a request is read.
abbrev pub Told : Client → Type 0
Told c =
    (c.readcb ≡ read_http)
    × (c.clt_headersdone ≡ false)
    × (c.clt_headerlen ≤ server_maxheaderlength)
    × Tells c.clt_toread c.desc.http_headers
    × Ordered c.desc.http_headers

-- Behind the first line the method is known.
abbrev pub Known : Client → Type 0
Known c = ((c.clt_line == 0) ≡ true) ⊎ (is_no_method c.desc.http_method ≡ false)

abbrev pub Head : Client → Type 0
Head c = Told c × Known c

-- A line keeps that, and the buffer.
abbrev pub Keeps : Bytes → Client → Type 0
Keeps i c = Told c × (is_no_method c.desc.http_method ≡ false) × (c.input ≡ i)

abbrev pub HeadLine : Bytes → Line → Type 0
HeadLine i (next_line c) = Keeps i c
HeadLine i (aborts code) = IsRefusal code

note_chunked-Keeps :
    (key value i : Bytes) (c : Client) → Keeps i c → Keeps i (note_chunked key value c)
unfolding note_chunked
note_chunked-Keeps key value i c h =
    if-intro (Keeps i)
      (str_case_eq (codes "Transfer-Encoding") key && str_case_eq (codes "chunked") value) _ _
      (λ _. h) (λ _. h)

set_query-headers :
    (o : Option (Bytes × Bytes)) (path : Bytes) (d : HttpDescriptor)
    → (set_query o path d).http_headers ≡ d.http_headers
set_query-headers none path d = refl
set_query-headers (some (p, q)) path d = refl

set_query-method :
    (o : Option (Bytes × Bytes)) (path : Bytes) (d : HttpDescriptor)
    → (set_query o path d).http_method ≡ d.http_method
set_query-method none path d = refl
set_query-method (some (p, q)) path d = refl

set_version-HeadLine :
    (o : Option ℕ) (path version i : Bytes) (c : Client)
    → Keeps i c
    → HeadLine i (set_version o path version c)
set_version-HeadLine none path version i c h = bad_request refl
set_version-HeadLine (some n) path version i c ((a, b, d, e, f), m, g) =
    if-intro (HeadLine i) (n == 0) _ _ (λ _. bad_version refl)
      (λ _.
        let same = sym (set_query-headers (cut b'?' path) path _) in
        (
          (a, b, d, subst (Tells c.clt_toread) same e, subst Ordered same f),
          subst (λ x. is_no_method x ≡ false) (sym (set_query-method (cut b'?' path) path _)) m,
          g,
        ))

set_target-HeadLine :
    (o : Option (Bytes × Bytes)) (i : Bytes) (c : Client) → Keeps i c → HeadLine i (set_target o c)
unfolding set_target
set_target-HeadLine none i c h = bad_request refl
set_target-HeadLine (some (path, version)) i c h =
    set_version-HeadLine (http_version_num version) path version i c h

then_chunked-HeadLine :
    (key value i : Bytes) (l : Line) → HeadLine i l → HeadLine i (then_chunked key value l)
then_chunked-HeadLine key value i (aborts code) h = h
then_chunked-HeadLine key value i (next_line c) h = note_chunked-Keeps key value i c h

request_line-HeadLine :
    (o : Option (Bytes × Bytes)) (i : Bytes) (c : Client)
    → Told c
    → c.input ≡ i
    → HeadLine i (request_line o c)
unfolding request_line
request_line-HeadLine none i c h g = bad_request refl
request_line-HeadLine (some (key, value)) i c h g =
    if-intro (HeadLine i) (is_no_method (server_httpmethod_byname key)) _ _ (λ _. bad_request refl)
      (λ known.
        then_chunked-HeadLine key value i _ (set_target-HeadLine (cut 32 value) i _ (h, known, g)))

-- The header that says the length, and that sets it.
length-HeadLine :
    (o : Option ℕ) (key value i : Bytes) (c : Client)
    → strtonum value 0 llong_max ≡ o
    → str_case_eq (codes "Content-Length") key ≡ true
    → Keeps i c
    → HeadLine i (then_header key value (set_length o c))
unfolding note_chunked
length-HeadLine none key value i c number named h = internal refl
length-HeadLine (some n) key value i c number named ((a, b, d, e, f), m, g) =
    let kept : Told (add_header key value (record c { clt_toread = left n }))
        × (is_no_method c.desc.http_method ≡ false)
        × (c.input ≡ i) =
      (
        (
          a,
          b,
          d,
          kv_add-Declares n _ key value named number,
          kv_add-Ordered _ (some key) (some value) f,
        ),
        m,
        g,
      ) in
    if-intro (λ x. HeadLine i (next_line (add_header key value x)))
      (str_case_eq (codes "Transfer-Encoding") key && str_case_eq (codes "chunked") value) _ _
      (λ _. kept) (λ _. kept)

other-HeadLine :
    (key value i : Bytes) (c : Client)
    → str_case_eq (codes "Content-Length") key ≡ false
    → Keeps i c
    → HeadLine i (then_header key value (next_line c))
other-HeadLine key value i c other h =
    let ((a, b, d, e, f), m, g) = note_chunked-Keeps key value i c h in
    (
      (a, b, d, kv_add-Tells _ _ key value other e, kv_add-Ordered _ (some key) (some value) f),
      m,
      g,
    )

-- Another header than that of the length.
content_length-HeadLine :
    (key value i : Bytes) (c : Client)
    → Keeps i c
    → HeadLine i (then_header key value (content_length key value c))
unfolding content_length
content_length-HeadLine key value i c (h, m, g) =
    if-intro (λ l. HeadLine i (then_header key value l))
      (not (is_no_method c.desc.http_method) && str_case_eq (codes "Content-Length") key) _ _
      (λ is.
        if-intro (λ l. HeadLine i (then_header key value l)) (has_no_length c.desc.http_method) _ _
          (λ _. bad_request refl)
          (λ _.
            length-HeadLine (strtonum value 0 llong_max) key value i c refl (ground (arith, is, m))
              (h, m, g)))
      (λ other. other-HeadLine key value i c (ground (arith, other, m)) (h, m, g))

header_line-HeadLine :
    (o : Option (Bytes × Bytes)) (i : Bytes) (c : Client) → Keeps i c → HeadLine i (header_line o c)
unfolding header_line
header_line-HeadLine none i c h = bad_request refl
header_line-HeadLine (some (key, rest)) i c h =
    content_length-HeadLine key (skip_while is_blank rest) i c h

extended-HeadLine :
    (o : Option KvRef) (headers : Kvtree) (i : Bytes) (c : Client)
    → Keeps i c
    → Tells c.clt_toread headers
    → Ordered headers
    → HeadLine i (extended (headers, o) c)
extended-HeadLine none headers i c h t k = internal refl
extended-HeadLine (some hdr) headers i c ((a, b, d, e, f), m, g) t k = ((a, b, d, t, k), m, g)

behind_first : (n : ℕ) (A : Type 0) → (n == 0) ≡ false → ((n == 0) ≡ true) ⊎ A → A
behind_first n A later (inl first) = absurd (ground (arith, later, first))
behind_first n A later (inr a) = a

-- Every line keeps the head, or is refused.
pub handle_line-HeadLine :
    (line i : Bytes) (c : Client) → Head c → c.input ≡ i → HeadLine i (handle_line line c)
unfolding handle_line
handle_line-HeadLine line i c ((a, b, d, e, f), m) g =
    let o = kv_extend c.desc.http_headers c.desc.http_lastheader (c_str line) in
    if-intro (HeadLine i) (ltb server_maxheaderlength (c.clt_headerlen + length line)) _ _
      (λ _. too_large refl)
      (λ short.
        let d' = ltb→le server_maxheaderlength (c.clt_headerlen + length line) short in
        if-intro (HeadLine i) (c.clt_line == 0) _ _
          (λ _. request_line-HeadLine (cut 32 (c_str line)) i _ (a, b, d', e, f) g)
          (λ later.
            let known = behind_first c.clt_line (is_no_method c.desc.http_method ≡ false) later m in
            if-intro (HeadLine i) (char_at (c_str line) 0 == 32 || char_at (c_str line) 0 == 9) _ _
              (λ _.
                extended-HeadLine o.1 o.0 i _ ((a, b, d', e, f), known, g)
                  (kv_extend-Tells c.clt_toread _ _ _ e) (kv_extend-Ordered _ _ _ f))
              (λ _. header_line-HeadLine (cut b':' (c_str line)) i _ ((a, b, d', e, f), known, g))))
