-- ===== src/Fcgi/Params.antt =====
-- The parameter buffer of server_fcgi.c stays within one record, and what went out and what waits
-- hold every parameter in order.
use fuzz_httpd.Base.{
  ℕ, ◌+◌, ◌≤◌, true, [], ◌∷◌, ◌++◌, ◌≡◌, ◌≢◌, ◌⊎◌, refl, sym, ap, subst, ◌∙◌, Option, none, some,
  Bytes, length, take, ltb, ltb→le, le→ltb, arith, length-append, Bool-cases, inl, inr,
}
use fuzz_httpd.Fcgi.{
  fcgi_content_size, header_bytes, ServerFcgiParam, param_length, param_bytes, length_size, Added,
  append_param, flushed, fcgi_add_param,
}

-- The buffer holds `total_len` bytes, no more than a record takes, and its header says how many.
pub record IsRecord (p : ServerFcgiParam) : Type 0 where
  pub content_lem : length p.content ≡ p.total_len
  pub fits : p.total_len ≤ fcgi_content_size
  pub header_lem : p.total_len ≢ 0 → p.header.content_len ≡ p.total_len

length-param_length : (n : ℕ) → length (param_length n) ≡ length_size n
unfolding param_length
length-param_length n = ground arith

pub length-param_bytes :
    (key val : Bytes)
    → length (param_bytes key val)
      ≡ length key + length val + length_size (length key) + length_size (length val)
unfolding param_bytes
length-param_bytes key val =
    let n = length-append (param_length (length key)) (param_length (length val) ++ (key ++ val)) in
    let m = length-append (param_length (length val)) (key ++ val) in
    let k = length-append key val in
    let a = length-param_length (length key) in
    let b = length-param_length (length val) in omega (arith, n, m, k, a, b)

append_param-IsRecord :
    (p : ServerFcgiParam) (key val out : Bytes) (len : ℕ)
    → len ≡ length (param_bytes key val)
    → length p.content ≡ p.total_len
    → p.total_len + len ≤ fcgi_content_size
    → IsRecord (append_param p key val len out).param
append_param-IsRecord p key val out len e c fits = record {
  content_lem = omega (arith, length-append p.content (param_bytes key val));
  fits = fits;
  header_lem = λ _. refl;
}

flushed-IsRecord :
    (w : Bytes → Bytes → Option Bytes) (o : Option Bytes) (p : ServerFcgiParam)
    (key val out : Bytes) (len : ℕ)
    → len ≡ length (param_bytes key val)
    → len ≤ fcgi_content_size
    → IsRecord p
    → IsRecord (flushed w o p key val len out).param
flushed-IsRecord w none p key val out len e fits h = h
flushed-IsRecord w (some out') p key val out len e fits h =
    append_param-IsRecord (record p { total_len = 0; content = [] }) key val out' len e refl
      (omega arith)

-- Whatever is added to a valid record and whether or not the write succeeds, the buffer stays a valid
-- record: no byte is written behind the 65535 of its content.
pub fcgi_add_param-IsRecord :
    (w : Bytes → Bytes → Option Bytes) (p : ServerFcgiParam) (key val out : Bytes)
    → IsRecord p
    → IsRecord (fcgi_add_param w p key val out).param
unfolding fcgi_add_param
fcgi_add_param-IsRecord w p key val out h =
    let size = sym (length-param_bytes key val) in
    let len = length key + length val + length_size (length key) + length_size (length val) in
    elim (Bool-cases (ltb fcgi_content_size len)) [
      | inl long ↦ rw long h
      | inr short ↦ elim (Bool-cases (ltb fcgi_content_size (p.total_len + len))) [
        | inl full ↦
            rw (short, full)
              (flushed-IsRecord w (w out (header_bytes p.header ++ take p.total_len p.content)) p
                key val out len size (ltb→le fcgi_content_size len short) h)
        | inr room ↦
            rw (short, room)
              (append_param-IsRecord p key val out len size h.content_lem
                (ltb→le fcgi_content_size (p.total_len + len) room))
      ]
    ]

pub take-length : (s : Bytes) → take (length s) s ≡ s
take-length [] = refl
take-length (c ∷ s) = rw (take-length s)

-- What a parameter that was added leaves: it stands at the end of the buffer, behind what was there;
-- or what was there went out as one record, the header and its content, and it stands alone.
unfoldable pub Kept : ServerFcgiParam → Bytes → Bytes → Bytes → Added → Type 0
Kept p key val out r =
    (r.succeeded ≡ true)
    × ((r.sent ≡ out) × (r.param.content ≡ p.content ++ param_bytes key val)
        ⊎ (r.sent ≡ out ++ (header_bytes p.header ++ p.content))
          × (r.param.content ≡ param_bytes key val))

flushed-Kept :
    (w : Bytes → Bytes → Option Bytes) (o : Option Bytes) (p : ServerFcgiParam)
    (key val out : Bytes) (len : ℕ)
    → o ≡ some (out ++ (header_bytes p.header ++ p.content))
    → Kept p key val out (flushed w o p key val len out)
unfolding Kept
flushed-Kept w none p key val out len e = cc
flushed-Kept w (some out') p key val out len e = (refl, inr ((cc), refl))

-- Where libevent appends what it is given, a parameter that fits a record is added to a valid one,
-- and no byte of those that were added before is lost or moved.
pub fcgi_add_param-Kept :
    (w : Bytes → Bytes → Option Bytes) (p : ServerFcgiParam) (key val out : Bytes)
    → ((a b : Bytes) → w a b ≡ some (a ++ b))
    → IsRecord p
    → length (param_bytes key val) ≤ fcgi_content_size
    → Kept p key val out (fcgi_add_param w p key val out)
unfolding fcgi_add_param
fcgi_add_param-Kept w p key val out appends h fits =
    let len = length key + length val + length_size (length key) + length_size (length val) in
    let short =
      le→ltb fcgi_content_size len
        (subst (λ n. n ≤ fcgi_content_size) (length-param_bytes key val) fits) in
    elim (Bool-cases (ltb fcgi_content_size (p.total_len + len))) [
      | inl full ↦
          rw (short, full)
            (flushed-Kept w (w out (header_bytes p.header ++ take p.total_len p.content)) p key val
              out len
              (appends out (header_bytes p.header ++ take p.total_len p.content)
                ∙ ap (λ s. some (out ++ (header_bytes p.header ++ s)))
                    (ap (λ n. take n p.content) (sym h.content_lem) ∙ take-length p.content)))
      | inr room ↦ rw (short, room) (unfold Kept in (refl, inl (refl, refl)))
    ]
