-- ===== src/Login/Granted.antt =====
-- What it takes to be let in by `server_http_authenticate` of server_http.c.
use fuzz_httpd.Base.{
  Bool, true, false, [], ◌∷◌, ◌++◌, ◌≡◌, refl, Option, none, some, Bytes, c_str, codes, cut, drop,
  has_prefix, if◌then◌else◌, arith,
}
use fuzz_httpd.Kv.{Kv, Kvtree, kv_find}
use fuzz_httpd.Login.{
  accepted, check_decoded, check_file, check_header, check_user, check_value, has_end, read_lines,
  refuse, wipe, server_http_authenticate,
}
use fuzz_httpd.Login.Listed.{Listed, Listed-checks, Splits, cut-Splits}

module _ (b64_pton : Bytes → Option Bytes) (crypt_checkpass : Bytes → Bytes → Bool) where
  abbrev pub FileLists : Option Bytes → Bytes → Bytes → Type 0
  FileLists file user pass =
      (text : Bytes) × ((file ≡ some text) × Listed crypt_checkpass user pass (read_lines text))

  -- The decoded text is a user and a password with a colon between them, and the file lists them.
  abbrev pub TextListed : Option Bytes → Bytes → Type 0
  TextListed file d =
      (user : Bytes) × (pass : Bytes) × ((c_str d ≡ user ++ b':' ∷ pass) × FileLists file user pass)

  abbrev pub ValueListed : Option Bytes → Bytes → Type 0
  ValueListed file value =
      (d : Bytes) × ((has_prefix (codes "Basic ") value ≡ true)
        × ((b64_pton (drop 6 value) ≡ some d) × TextListed file d))

  file-FileLists :
      (file : Option Bytes) (ended : Bool) (user pass : Bytes)
      → check_file b64_pton crypt_checkpass ended user pass file ≡ accepted
      → FileLists file user pass
  file-FileLists none ended user pass e = absurd (ground (arith, e))
  file-FileLists (some text) ended user pass e =
      (text, (refl, Listed-checks b64_pton crypt_checkpass user pass ended (read_lines text) e))

  user-TextListed :
      (file : Option Bytes) (ended : Bool) (keys : Kvtree) (old : Option Bytes) (d : Bytes)
      (o : Option (Bytes × Bytes))
      → Splits b':' (c_str d) o
      → (check_user b64_pton crypt_checkpass file ended keys old o).ret ≡ accepted
      → TextListed file d
  user-TextListed file true keys old d none h e = absurd (ground (arith, e))
  user-TextListed file false keys old d none h e = absurd (ground (arith, e))
  user-TextListed file ended keys old d (some (user, pass)) h e =
      (user, pass, (h, file-FileLists file ended user pass e))

  decoded-TextListed :
      (file : Option Bytes) (keys : Kvtree) (old o : Option Bytes)
      → (check_decoded b64_pton crypt_checkpass file keys old o).ret ≡ accepted
      → (d : Bytes) × ((o ≡ some d) × TextListed file d)
  decoded-TextListed file keys old none e = absurd (ground (arith, e))
  decoded-TextListed file keys old (some []) e = absurd (ground (arith, e))
  decoded-TextListed file keys old (some (x ∷ s)) e = (
    x ∷ s,
    (
      refl,
      user-TextListed file (has_end (x ∷ s)) keys old (x ∷ s) (cut b':' (c_str (x ∷ s)))
          (cut-Splits b':' (c_str (x ∷ s))) e,
    ),
  )

  basic-TextListed :
      (file : Option Bytes) (keys : Kvtree) (old : Option Bytes) (b : Bool) (o : Option Bytes)
      → (if b
          then check_decoded b64_pton crypt_checkpass file keys old o
          else refuse b64_pton crypt_checkpass (wipe keys) old).ret
        ≡ accepted
      → (b ≡ true) × ((d : Bytes) × ((o ≡ some d) × TextListed file d))
  basic-TextListed file keys old true o e = (refl, decoded-TextListed file keys old o e)
  basic-TextListed file keys old false o e = absurd (ground (arith, e))

  value-ValueListed :
      (file : Option Bytes) (keys : Kvtree) (old o : Option Bytes)
      → (check_value b64_pton crypt_checkpass file keys old o).ret ≡ accepted
      → (value : Bytes) × ((o ≡ some value) × ValueListed file value)
  value-ValueListed file keys old none e = absurd (ground (arith, e))
  value-ValueListed file keys old (some value) e =
      let (p, (d, (b, listed))) =
        basic-TextListed file keys old (has_prefix (codes "Basic ") value) (b64_pton (drop 6 value))
          e in
      (value, (refl, (d, (p, (b, listed)))))

  header-ValueListed :
      (file : Option Bytes) (keys : Kvtree) (old : Option Bytes) (o : Option Kv)
      → (check_header b64_pton crypt_checkpass file keys old o).ret ≡ accepted
      → (ba : Kv) × (value : Bytes) × ((o ≡ some ba)
          × ((ba.kv_value ≡ some value) × ValueListed file value))
  header-ValueListed file keys old none e = absurd (ground (arith, e))
  header-ValueListed file keys old (some ba) e =
      let (value, (v, listed)) = value-ValueListed file keys old ba.kv_value e in
      (ba, value, (refl, (v, listed)))

  -- When a client is let in: the headers carry Basic credentials that decode to a user and a password,
  -- the file can be read, and one of its lines is the user, a colon and a hash that fits the password.
  pub server_http_authenticate-ValueListed :
      (file : Option Bytes) (keys : Kvtree) (old : Option Bytes)
      → (server_http_authenticate b64_pton crypt_checkpass file keys old).ret ≡ accepted
      → (ba : Kv) × (value : Bytes) × ((kv_find keys (codes "Authorization") ≡ some ba)
          × ((ba.kv_value ≡ some value) × ValueListed file value))
  unfolding server_http_authenticate
  server_http_authenticate-ValueListed file keys old e =
      header-ValueListed file keys old (kv_find keys (codes "Authorization")) e
