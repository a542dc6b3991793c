-- ===== src/FcgiHead.antt =====
-- The reader of a FastCGI response and the headers in it: `struct fcgi_data`, `server_fcgi_getheaders`
-- and `server_reset_http` of usr.sbin/httpd, with `evbuffer_getline` and `get_string` of httpd.c.
-- Allocation is assumed to succeed.
use fuzz_httpd.Base.{
  ℕ, zero, suc, ◌+◌, Bool, true, false, ◌&&◌, ◌||◌, List, [], ◌∷◌, Option, none, some, Bytes, codes,
  char_at, cut, drop, is_print, is_space, length, ltb, skip_while, str_case_eq, strtonum, ◌==◌,
  if◌then◌else◌,
}
use fuzz_httpd.Http.{HttpMethod, server_httperror_byid}
use fuzz_httpd.Kv.{Kvtree}
use fuzz_httpd.Reply.{ReplyState, add}

abbrev pub fcgi_end_request : ℕ
fcgi_end_request = 3

abbrev pub fcgi_stdout : ℕ
fcgi_stdout = 6

abbrev pub fcgi_stderr : ℕ
fcgi_stderr = 7

-- `sizeof(struct fcgi_record_header)`
abbrev pub header_size : ℕ
header_size = 8

pub data FcgiState : Type 0 where
  read_header read_content read_padding : FcgiState

-- `struct fcgi_data`
pub record FcgiData : Type 0 where
  pub state : FcgiState
  pub toread : ℕ
  pub padding_len : ℕ
  pub type : ℕ
  pub chunked : Bool
  pub end : ℕ
  pub status : ℕ
  pub headersdone : Bool
  pub headerssent : Bool

-- `struct client`: the reply, the method of the request, `clt_srvevb`, what was logged from FCGI_STDERR,
-- and how often `server_reset_http` was called
pub record FcgiClient : Type 0 where
  pub clt_fcgi : FcgiData
  pub reply : ReplyState
  pub http_method : HttpMethod
  pub clt_srvevb : Bytes
  pub clt_chunk : ℕ
  pub errors : List Bytes
  pub resets : ℕ

-- the bytes up to one that is neither printable nor white space
unfoldable pub get_string : Bytes → Bytes
unfolding is_print is_space
get_string [] = []
get_string (c ∷ s) = if is_print c || is_space c then c ∷ get_string s else []

-- the text up to the first end of line
abbrev pub before_eol : Bytes → Bytes
before_eol [] = []
before_eol (c ∷ s) = if c == 13 || c == 10 then [] else c ∷ before_eol s

-- The line and the rest of the buffer.
unfoldable pub evbuffer_getline : Bytes → Option (Bytes × Bytes)
unfolding get_string
evbuffer_getline s =
    let line = before_eol (get_string s) in
    let i = length line in
    if i == length s
    then none
    else some (
      line,
      drop
          (if ltb (i + 1) (length s) && char_at s i == 13 && char_at s (i + 1) == 10
            then i + 2
            else i + 1)
          s,
    )

abbrev pub is_gap : ℕ → Bool
is_gap c = c == 32 || c == 9

-- `value[strcspn(value, " \t")] = '\0'`
abbrev pub before_gap : Bytes → Bytes
before_gap [] = []
before_gap (c ∷ s) = if is_gap c then [] else c ∷ before_gap s

-- A status that has no message is 200.
abbrev pub known_status : ℕ → Option Bytes → ℕ
known_status code none = 200
known_status code (some error) = code

abbrev pub status_of : Option ℕ → ℕ
status_of none = 200
status_of (some code) = known_status code (server_httperror_byid code)

abbrev pub set_headers : Kvtree → FcgiClient → FcgiClient
set_headers keys c = record c { reply = record c.reply { http_headers = keys } }

-- a header of the FastCGI server, behind the colon
unfoldable pub fcgi_header : Bytes → Bytes → FcgiClient → FcgiClient
fcgi_header key rest c =
    let value = skip_while is_gap rest in
    if str_case_eq (codes "Status") key
    then record c {
      clt_fcgi = record c.clt_fcgi { status = status_of (strtonum (before_gap value) 100 600) };
    }
    else set_headers (add key value c.reply.http_headers) c

-- The loop; whether it came to the empty line.
abbrev pub header_round :
    (FcgiClient → FcgiClient × Bool) → Option (Bytes × Bytes) → FcgiClient → FcgiClient × Bool
header_round next none c = (c, false)
header_round next (some ([], rest)) c = (record c { clt_srvevb = rest }, true)
header_round next (some (x ∷ line, rest)) c = elim (cut b':' (x ∷ line)) [
  | none ↦ (record c { clt_srvevb = rest }, false)
  | some (key, value) ↦ next (fcgi_header key value (record c { clt_srvevb = rest }))
]

unfoldable pub get_headers : ℕ → FcgiClient → FcgiClient × Bool
unfolding evbuffer_getline fcgi_header cut
get_headers zero c = (c, false)
get_headers (suc fuel) c = header_round (get_headers fuel) (evbuffer_getline c.clt_srvevb) c

-- Each line takes a byte at least from the buffer.
unfoldable pub server_fcgi_getheaders : FcgiClient → FcgiClient × Bool
unfolding get_headers
server_fcgi_getheaders c = get_headers (length c.clt_srvevb + 1) c

-- `server_reset_http`, which frees both descriptors
abbrev pub reset_http : FcgiClient → FcgiClient
reset_http c = record c {
  clt_chunk = 0;
  resets = c.resets + 1;
  http_method = HttpMethod.no_method;
  reply = record c.reply {
    http_version = [];
    http_rescode = [];
    http_resmesg = [];
    http_headers = [];
    resp_method = HttpMethod.no_method;
    clt_done = false;
  };
}
