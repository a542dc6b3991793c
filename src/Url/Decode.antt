-- ===== src/Url/Decode.antt =====
-- `url_decode` of httpd.c undoes `url_encode`, and its writes stay behind its reads.
use fuzz_httpd.Base.{
  ℕ, ◌+◌, ◌*◌, ◌/◌, ◌%◌, suc, ◌≤◌, ◌<◌, Bool, true, false, ◌&&◌, [], ◌∷◌, ◌++◌, ◌≡◌, refl, Option,
  none, some, arith, Bytes, All, IsByte, length, ◌==◌, if◌then◌else◌, all_below, all_below_sound,
  ◌≢◌, Lacks, char_at, is_xdigit, &&-eq_true, ==_iff,
}
use mathlib.Core.Option
use fuzz_httpd.Url.{hex_value, url_decode, hex_digit, must_encode, encode_byte, url_encode}

-- Every byte is read back from the three that stand for it.
digits_ok : ℕ → Bool
digits_ok c =
    is_xdigit (hex_digit (c / 16))
    && is_xdigit (hex_digit (c % 16))
    && (hex_value (hex_digit (c / 16)) * 16 + hex_value (hex_digit (c % 16)) == c)

digits_table : all_below 256 digits_ok ≡ true
unfolding all_below digits_ok hex_value hex_digit is_xdigit
digits_table = refl

digits_split :
    (c : ℕ)
    → digits_ok c ≡ true
    → (is_xdigit (hex_digit (c / 16)) && is_xdigit (hex_digit (c % 16)) ≡ true)
      × (hex_value (hex_digit (c / 16)) * 16 + hex_value (hex_digit (c % 16)) ≡ c)
unfolding digits_ok
digits_split c h = let (x, y) = &&-eq_true _ _ h in (x, (==_iff _ c).0 y)

digits_lem :
    (c : ℕ)
    → IsByte c
    → (is_xdigit (hex_digit (c / 16)) && is_xdigit (hex_digit (c % 16)) ≡ true)
      × (hex_value (hex_digit (c / 16)) * 16 + hex_value (hex_digit (c % 16)) ≡ c)
digits_lem c h = digits_split c (all_below_sound 256 digits_ok c digits_table h)

url_decode_escape :
    (c : ℕ) (s : Bytes)
    → IsByte c
    → url_decode (b'%' ∷ hex_digit (c / 16) ∷ hex_digit (c % 16) ∷ s)
      ≡ Option.map (λ t. c ∷ t) (url_decode s)
unfolding url_decode
url_decode_escape c s h = let (x, y) = digits_lem c h in rw (x, y)

url_decode_plain :
    (c : ℕ) (s : Bytes)
    → (c == b'%') ≡ false
    → url_decode (c ∷ s) ≡ Option.map (λ t. c ∷ t) (url_decode s)
unfolding url_decode
url_decode_plain c [] h = rw h
url_decode_plain c (a ∷ []) h = rw h
url_decode_plain c (a ∷ b ∷ s) h = rw h

url_decode-encode_byte :
    (c : ℕ) (s : Bytes)
    → IsByte c
    → url_decode (encode_byte c ++ s) ≡ Option.map (λ t. c ∷ t) (url_decode s)
unfolding encode_byte must_encode
url_decode-encode_byte c s h = ground (arith, url_decode_escape c s h, url_decode_plain c s)

-- What is encoded is decoded to the same bytes, whatever bytes they are.
pub url_decode-url_encode : (s : Bytes) → All IsByte s → url_decode (url_encode s) ≡ some s
unfolding url_encode
url_decode-url_encode [] h = unfold url_decode in refl
url_decode-url_encode (c ∷ s) (hc, hs) =
    rw (url_decode-encode_byte c (url_encode s) hc) (rw (url_decode-url_encode s hs))

abbrev Within : ℕ → Option Bytes → Type 0
Within n none = Unit
Within n (some t) = length t ≤ n

Within-if :
    (n : ℕ) (b : Bool) (x y : Option Bytes)
    → Within n x
    → Within n y
    → Within n (if b then x else y)
Within-if n true x y hx hy = hx
Within-if n false x y hx hy = hy

Within-map :
    (c n m : ℕ) (o : Option Bytes) → n < m → Within n o → Within m (Option.map (λ t. c ∷ t) o)
Within-map c n m none lt h = tt
Within-map c n m (some t) lt h = omega arith

url_decode-Within : (s : Bytes) → Within (length s) (url_decode s)
unfolding url_decode
url_decode-Within [] = omega arith
url_decode-Within (c ∷ []) =
    Within-if _ (c == b'%') none _ tt (Within-map c 0 1 (url_decode []) (omega arith) (omega arith))
url_decode-Within (c ∷ a ∷ []) =
    Within-if _ (c == b'%') none _ tt
      (Within-map c 1 2 (url_decode (a ∷ [])) (omega arith) (url_decode-Within (a ∷ [])))
url_decode-Within (c ∷ a ∷ b ∷ s) =
    let copied = url_decode-Within (a ∷ b ∷ s) in
    let decoded = url_decode-Within s in
    let n = length s in
    Within-if _ (c == b'%') _ _
      (Within-if _ (is_xdigit a && is_xdigit b) _ none
        (Within-map _ n (suc (suc (suc n))) (url_decode s) (omega arith) decoded) tt)
      (Within-map c (suc (suc n)) (suc (suc (suc n))) (url_decode (a ∷ b ∷ s)) (omega arith) copied)

-- A decoded text is no longer than what it was decoded from, so that decoding in place fits.
pub length-url_decode : (s : Bytes) {t : Bytes} → url_decode s ≡ some t → length t ≤ length s
length-url_decode s e = rw e at (url_decode-Within s)

-- A byte that is no `%` is copied.
pub url_decode-plain :
    (c : ℕ) (s : Bytes) → c ≢ b'%' → url_decode (c ∷ s) ≡ Option.map (λ t. c ∷ t) (url_decode s)
unfolding url_decode
url_decode-plain c [] h = ground arith
url_decode-plain c (a ∷ []) h = ground arith
url_decode-plain c (a ∷ b ∷ s) h = ground arith

-- A `%` without two hexadecimal digits behind it makes the decoding fail.
pub url_decode-escape :
    (a s : Bytes)
    → Lacks b'%' a
    → (is_xdigit (char_at s 0) && is_xdigit (char_at s 1)) ≡ false
    → url_decode (a ++ b'%' ∷ s) ≡ none
unfolding url_decode
url_decode-escape [] [] h x = refl
url_decode-escape [] (d ∷ []) h x = refl
url_decode-escape [] (d ∷ e ∷ s) h x = rw x
url_decode-escape (c ∷ a) s (hc, h) x =
    rw (url_decode-plain c (a ++ b'%' ∷ s) hc, url_decode-escape a s h x)
