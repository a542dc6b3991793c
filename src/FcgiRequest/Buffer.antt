-- ===== src/FcgiRequest/Buffer.antt =====
-- The buffer of PARAMS records that fcgi_add_param of server_fcgi.c fills, beyond Fcgi/Params.
use fuzz_httpd.Base.{
  ℕ, ◌+◌, ◌≤◌, ◌≡◌, refl, ap, false, Option, none, some, Bytes, length, ltb, le→ltb, arith,
  Bool-cases, inl, inr,
}
use fuzz_httpd.Fcgi.{
  RecordHeader, ServerFcgiParam, fcgi_add_param, fcgi_content_size, flushed, length_size,
  param_bytes,
}
use fuzz_httpd.Fcgi.Params.{length-param_bytes}
use fuzz_httpd.FcgiRequest.{params_header}

abbrev pub IsParams : RecordHeader → Type 0
IsParams h = h ≡ params_header h.content_len

pub set_len-IsParams :
    (h : RecordHeader) (len : ℕ) → IsParams h → IsParams (record h { content_len = len })
set_len-IsParams h len e = ap (λ (x : RecordHeader). record x { content_len = len }) e

flushed-IsParams :
    (w : Bytes → Bytes → Option Bytes) (o : Option Bytes) (p : ServerFcgiParam)
    (key val out : Bytes) (len : ℕ)
    → IsParams p.header
    → IsParams (flushed w o p key val len out).param.header
flushed-IsParams w none p key val out len h = h
flushed-IsParams w (some out') p key val out len h = set_len-IsParams p.header (0 + len) h

pub fcgi_add_param-IsParams :
    (w : Bytes → Bytes → Option Bytes) (p : ServerFcgiParam) (key val out : Bytes)
    → IsParams p.header
    → IsParams (fcgi_add_param w p key val out).param.header
unfolding fcgi_add_param
fcgi_add_param-IsParams w p key val out h =
    let len = length key + length val + length_size (length key) + length_size (length val) in
    elim (Bool-cases (ltb fcgi_content_size len)) [
      | inl long ↦ rw long h
      | inr short ↦ elim (Bool-cases (ltb fcgi_content_size (p.total_len + len))) [
        | inl full ↦ rw (short, full) (flushed-IsParams w _ p key val out len h)
        | inr room ↦ rw (short, room) (set_len-IsParams p.header (p.total_len + len) h)
      ]
    ]

-- Into an empty buffer a variable goes without a write.
pub fcgi_add_param-empty :
    (w : Bytes → Bytes → Option Bytes) (p : ServerFcgiParam) (key val out : Bytes)
    → p.total_len ≡ 0
    → length (param_bytes key val) ≤ fcgi_content_size
    → (fcgi_add_param w p key val out).sent ≡ out
unfolding fcgi_add_param
fcgi_add_param-empty w p key val out empty fits =
    let len = length key + length val + length_size (length key) + length_size (length val) in
    let size = length-param_bytes key val in
    let short : ltb fcgi_content_size len ≡ false =
      le→ltb fcgi_content_size len (omega (arith, size, fits)) in
    let room : ltb fcgi_content_size (p.total_len + len) ≡ false =
      le→ltb fcgi_content_size (p.total_len + len) (omega (arith, size, fits, empty)) in
    rw (short, room) refl
