-- ===== src/Fcgi.antt =====
-- The FastCGI records that usr.sbin/httpd/server_fcgi.c writes: `fcgi_add_param` and
-- `fcgi_add_stdin`. libevent's `bufferevent_write` is a parameter: what it makes of the bytes
-- written so far and the new ones, `none` where it fails.
pub mod Pairs
pub mod Params
use fuzz_httpd.Base.{
  ℕ, zero, suc, ◌+◌, ◌-◌, ◌*◌, ◌/◌, ◌%◌, ◌^◌, Bool, true, false, List, [], ◌∷◌, ◌++◌, ◌≡◌, refl,
  Option, none, some, Bytes, length, take, ltb, if◌then◌else◌,
}

abbrev pub fcgi_content_size : ℕ
fcgi_content_size = 65535

abbrev pub fcgi_stdin : ℕ
fcgi_stdin = 5

-- `struct fcgi_record_header`; the numbers of two bytes are in the host's order.
pub record RecordHeader : Type 0 where
  pub version : ℕ
  pub type : ℕ
  pub id : ℕ
  pub content_len : ℕ
  pub padding_len : ℕ
  pub reserved : ℕ

-- `htons`: two bytes, the high one first
abbrev pub htons : ℕ → Bytes
htons n = (n / 256 % 256) ∷ (n % 256) ∷ []

-- the eight bytes of a header
abbrev pub header_bytes : RecordHeader → Bytes
header_bytes h =
    h.version ∷ h.type ∷ htons h.id ++ (htons h.content_len ++ h.padding_len ∷ h.reserved ∷ [])

-- `struct server_fcgi_param`: the header at the start of `buf`, and the first `total_len` bytes
-- behind it. What `buf` holds behind those is never sent.
pub record ServerFcgiParam : Type 0 where
  pub total_len : ℕ
  pub header : RecordHeader
  pub content : Bytes

-- A length takes four bytes, with the highest bit set, if it is above 127, and else one.
unfoldable pub param_length : ℕ → Bytes
param_length n =
    if ltb 127 n
    then (n / 2 ^ 24 % 128 + 128) ∷ (n / 2 ^ 16 % 256) ∷ (n / 2 ^ 8 % 256) ∷ (n % 256) ∷ []
    else n ∷ []

abbrev pub length_size : ℕ → ℕ
length_size n = if ltb 127 n then 4 else 1

-- what is written at `param`
unfoldable pub param_bytes : Bytes → Bytes → Bytes
param_bytes key val = param_length (length key) ++ (param_length (length val) ++ (key ++ val))

-- the result, the parameter buffer and what went out
pub record Added : Type 0 where
  pub succeeded : Bool
  pub param : ServerFcgiParam
  pub sent : Bytes

abbrev pub append_param : ServerFcgiParam → Bytes → Bytes → ℕ → Bytes → Added
append_param p key val len out =
    let total = p.total_len + len in
    record {
      succeeded = true;
      param = record p {
        total_len = total;
        header = record p.header { content_len = total };
        content = p.content ++ param_bytes key val;
      };
      sent = out;
    }

module _ (bufferevent_write : Bytes → Bytes → Option Bytes) where
  -- behind the write of a full buffer
  abbrev pub flushed : Option Bytes → ServerFcgiParam → Bytes → Bytes → ℕ → Bytes → Added
  flushed none p key val len out = record { succeeded = false; param = p; sent = out }
  flushed (some out') p key val len out =
      append_param (record p { total_len = 0; content = [] }) key val len out'

  unfoldable pub fcgi_add_param : ServerFcgiParam → Bytes → Bytes → Bytes → Added
  fcgi_add_param p key val out =
      let len = length key + length val + length_size (length key) + length_size (length val) in
      if ltb fcgi_content_size len
      then record { succeeded = false; param = p; sent = out }
      else if ltb fcgi_content_size (p.total_len + len)
      then flushed (bufferevent_write out (header_bytes p.header ++ take p.total_len p.content)) p
          key val len out
      else append_param p key val len out

  abbrev pub stdin_header : ℕ → RecordHeader
  stdin_header len = record {
    version = 1;
    type = fcgi_stdin;
    id = 1;
    content_len = len;
    padding_len = 0;
    reserved = 0;
  }

  abbrev pub write_content : Option Bytes → Bytes → Option Bytes
  write_content none content = none
  write_content (some out) content = bufferevent_write out content

  -- `none` is the NULL buffer, which ends the stream; `htons` keeps 16 bits of the length.
  unfoldable pub fcgi_add_stdin : Option Bytes → Bytes → Option Bytes
  fcgi_add_stdin none out = bufferevent_write out (header_bytes (stdin_header 0))
  fcgi_add_stdin (some evbuf) out =
      write_content (bufferevent_write out (header_bytes (stdin_header (length evbuf)))) evbuf
