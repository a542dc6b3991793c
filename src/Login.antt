-- ===== src/Login.antt =====
-- Basic authentication: `server_http_authenticate` of usr.sbin/httpd/server_http.c. `b64_pton` and
-- `crypt_checkpass` of the C library are parameters, and so is the file, which `getline` splits into
-- lines. Allocation is assumed to succeed.
pub mod Listed
pub mod Granted
use fuzz_httpd.Base.{
  ℕ, Bool, true, false, ◌||◌, List, [], ◌∷◌, Option, none, some, Bytes, c_str, codes, cut, drop,
  has_prefix, is_empty, length, ltb, map, str_case_eq, str_eq, ◌==◌, if◌then◌else◌,
}
use fuzz_httpd.Kv.{Kv, Kvtree, kv_find}

-- `sizeof(decoded)`
abbrev pub decoded_size : ℕ
decoded_size = 1024

-- What the function ends in; `overrun` is a read behind the array `decoded`.
pub data Checked : Type 0 where
  accepted refused overrun : Checked

-- what is returned, `clt_remote_user` and the headers
pub record Authentication : Type 0 where
  pub ret : Checked
  pub clt_remote_user : Option Bytes
  pub http_headers : Kvtree

-- Whether the text in `decoded` ends within the array, which was cleared before.
abbrev pub has_end : Bytes → Bool
has_end d = ltb (length d) decoded_size || ltb (length (c_str d)) (length d)

abbrev pub before_line : ℕ → List Bytes → List Bytes
before_line c [] = (c ∷ []) ∷ []
before_line c (line ∷ lines) = (c ∷ line) ∷ lines

-- The lines that `getline` reads, each without its end.
abbrev pub read_lines : Bytes → List Bytes
read_lines [] = []
read_lines (c ∷ s) = let rest = read_lines s in if c == 10 then [] ∷ rest else before_line c rest

-- `explicit_bzero` on the value
abbrev pub wipe_value : Bytes → Kv → Kv
wipe_value key kv = if str_case_eq kv.kv_key key then record kv { kv_value = some [] } else kv

abbrev pub wipe : Kvtree → Kvtree
wipe keys = map (wipe_value (codes "Authorization")) keys

module _ (b64_pton : Bytes → Option Bytes) (crypt_checkpass : Bytes → Bytes → Bool) where
  -- a line that is cut at its colon; `rest` is what the lines behind it come to
  abbrev pub check_line : Bool → Bytes → Bytes → Checked → Option (Bytes × Bytes) → Checked
  check_line ended clt_user clt_pass rest none = rest
  check_line ended clt_user clt_pass rest (some (user, pass)) =
      if str_eq clt_user user
      then (if ended then (if crypt_checkpass clt_pass pass then accepted else rest) else overrun)
      else rest

  unfoldable pub check_lines : Bool → Bytes → Bytes → List Bytes → Checked
  unfolding cut
  check_lines ended clt_user clt_pass [] = refused
  check_lines ended clt_user clt_pass (line ∷ lines) =
      check_line ended clt_user clt_pass (check_lines ended clt_user clt_pass lines)
        (cut b':' (c_str line))

  abbrev pub check_file : Bool → Bytes → Bytes → Option Bytes → Checked
  check_file ended clt_user clt_pass none = refused
  check_file ended clt_user clt_pass (some text) =
      check_lines ended clt_user clt_pass (read_lines text)

  -- what is decoded, cut at its colon
  abbrev pub check_user :
      Option Bytes → Bool → Kvtree → Option Bytes → Option (Bytes × Bytes) → Authentication
  check_user file ended keys old none = record {
    ret = (if ended then refused else overrun);
    clt_remote_user = old;
    http_headers = wipe keys;
  }
  check_user file ended keys old (some (clt_user, clt_pass)) = record {
    ret = check_file ended clt_user clt_pass file;
    clt_remote_user = some clt_user;
    http_headers = wipe keys;
  }

  abbrev pub refuse : Kvtree → Option Bytes → Authentication
  refuse keys old = record { ret = refused; clt_remote_user = old; http_headers = keys }

  -- behind `b64_pton`
  abbrev pub check_decoded : Option Bytes → Kvtree → Option Bytes → Option Bytes → Authentication
  check_decoded file keys old none = refuse (wipe keys) old
  check_decoded file keys old (some d) =
      if is_empty d
      then refuse (wipe keys) old
      else check_user file (has_end d) keys old (cut b':' (c_str d))

  abbrev pub check_value : Option Bytes → Kvtree → Option Bytes → Option Bytes → Authentication
  check_value file keys old none = refuse keys old
  check_value file keys old (some value) =
      if has_prefix (codes "Basic ") value
      then check_decoded file keys old (b64_pton (drop 6 value))
      else refuse (wipe keys) old

  abbrev pub check_header : Option Bytes → Kvtree → Option Bytes → Option Kv → Authentication
  check_header file keys old none = refuse keys old
  check_header file keys old (some ba) = check_value file keys old ba.kv_value

  -- `file` is the file of `auth_htpasswd`, if it can be opened; `old` is what `clt_remote_user` was.
  unfoldable pub server_http_authenticate : Option Bytes → Kvtree → Option Bytes → Authentication
  unfolding check_lines
  server_http_authenticate file keys old =
      check_header file keys old (kv_find keys (codes "Authorization"))
