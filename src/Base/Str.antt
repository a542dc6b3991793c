-- ===== src/Base/Str.antt =====
-- C strings as lists of bytes without the terminating NUL, and the C library's functions on them.
use Prim.Native.Nat.{ℕ, zero, suc, ◌+◌, ◌-◌, ◌*◌, ◌≤◌, ◌<◌}
use Prim.Native.Char.{code}
use Prim.Native.String.{String}
use mathlib.Core.Path.{◌≡◌, refl, sym, ap, ◌∙◌}
use mathlib.Core.Logic.{inl, inr, ◌↔◌, ◌≢◌}
use mathlib.Core.Bool.{Bool, true, false, ◌&&◌, ◌||◌}
use mathlib.Core.Option.{Option, none, some}
use mathlib.Core.List.{List, [], ◌∷◌, ◌++◌, append_assoc}
use native.Mathlib.Omega.{arith}
use fuzz_httpd.Base.Lists.{length}
use fuzz_httpd.Base.Tests.{ltb, leb, ◌==◌, if◌then◌else◌, Bool-cases}

abbrev pub Bytes : Type 0
Bytes = List ℕ

-- The code points of a literal: its bytes, since the literals of the program are ASCII.
abbrev pub codes : String → Bytes
codes String.[] = []
codes (String.◌∷◌ c s) = code c ∷ codes s

abbrev pub All {ℓ κ} : {A : Type ℓ} → (A → Type κ) → List A → Type κ
All P [] = Unit
All P (x ∷ xs) = P x × All P xs

pub All-append {ℓ κ} :
    {A : Type ℓ} (P : A → Type κ) (xs ys : List A) → All P xs → All P ys → All P (xs ++ ys)
All-append P [] ys _ hy = hy
All-append P (x ∷ xs) ys (px, hx) hy = (px, All-append P xs ys hx hy)

abbrev pub Lacks : ℕ → Bytes → Type 0
Lacks b = All (λ c. c ≢ b)

abbrev pub IsByte : ℕ → Type 0
IsByte c = c < 256

-- `s[k]`: the byte at `k`, and the NUL at the end. No caller reads past the NUL.
abbrev pub char_at : Bytes → ℕ → ℕ
char_at [] k = 0
char_at (c ∷ s) zero = c
char_at (c ∷ s) (suc k) = char_at s k

-- `strlen(s) == 0`
abbrev pub is_empty : Bytes → Bool
is_empty [] = true
is_empty (c ∷ s) = false

-- What a buffer holds when it is read as a C string.
abbrev pub c_str : Bytes → Bytes
c_str [] = []
c_str (c ∷ s) = if c == 0 then [] else c ∷ c_str s

-- `strcmp(a, b) == 0`
abbrev pub str_eq : Bytes → Bytes → Bool
str_eq [] [] = true
str_eq [] (d ∷ t) = false
str_eq (c ∷ s) [] = false
str_eq (c ∷ s) (d ∷ t) = (c == d) && str_eq s t

-- `strncmp(s, prefix, strlen(prefix)) == 0`
abbrev pub has_prefix : Bytes → Bytes → Bool
has_prefix [] s = true
has_prefix (c ∷ p) [] = false
has_prefix (c ∷ p) (d ∷ s) = (c == d) && has_prefix p s

unfoldable pub is_digit : ℕ → Bool
is_digit c = leb b'0' c && leb c b'9'

unfoldable pub is_upper : ℕ → Bool
is_upper c = leb b'A' c && leb c b'Z'

unfoldable pub is_lower : ℕ → Bool
is_lower c = leb b'a' c && leb c b'z'

unfoldable pub is_alpha : ℕ → Bool
unfolding is_upper is_lower
is_alpha c = is_upper c || is_lower c

unfoldable pub is_xdigit : ℕ → Bool
unfolding is_digit
is_xdigit c = is_digit c || (leb b'A' c && leb c b'F') || (leb b'a' c && leb c b'f')

-- space, \t, \n, \v, \f and \r
unfoldable pub is_space : ℕ → Bool
is_space c = c == 32 || (leb 9 c && leb c 13)

unfoldable pub is_print : ℕ → Bool
is_print c = leb 32 c && leb c 126

unfoldable pub to_lower : ℕ → ℕ
unfolding is_upper
to_lower c = if is_upper c then c + 32 else c

unfoldable pub to_upper : ℕ → ℕ
unfolding is_lower
to_upper c = if is_lower c then c - 32 else c

-- `strcasecmp(a, b) == 0`
unfoldable pub str_case_eq : Bytes → Bytes → Bool
unfolding to_lower
str_case_eq [] [] = true
str_case_eq [] (d ∷ t) = false
str_case_eq (c ∷ s) [] = false
str_case_eq (c ∷ s) (d ∷ t) = (to_lower c == to_lower d) && str_case_eq s t

abbrev pub cut_later : ℕ → Option (Bytes × Bytes) → Option (Bytes × Bytes)
cut_later d none = none
cut_later d (some (a, b)) = some (d ∷ a, b)

-- `p = strchr(s, c)`, then `*p++ = '\0'`: the text before the byte and the text behind it.
unfoldable pub cut : ℕ → Bytes → Option (Bytes × Bytes)
cut c [] = none
cut c (d ∷ s) = if d == c then some ([], s) else cut_later d (cut c s)

-- `s += strspn(s, set)`, the set as a test
unfoldable pub skip_while : (ℕ → Bool) → Bytes → Bytes
skip_while p [] = []
skip_while p (c ∷ s) = if p c then skip_while p s else c ∷ s

-- The digits of `strtoll(s, &end, 10)` up to the end of the string; `none` if another byte follows.
pub decimal : ℕ → Bytes → Option ℕ
unfolding is_digit
decimal n [] = some n
decimal n (c ∷ s) = if is_digit c then decimal (n * 10 + (c - b'0')) s else none

-- A sign makes a negative number, which is below every bound that the program asks for, but for -0.
pub signed_decimal : Bytes → Option (Bool × ℕ)
unfolding decimal is_digit
signed_decimal [] = none
signed_decimal (c ∷ []) = if is_digit c then some (false, c - b'0') else none
signed_decimal (c ∷ d ∷ s) =
    if c == b'-'
    then elim (decimal 0 (d ∷ s)) [ none ↦ none | some n ↦ some (true, n) ]
    else if c == b'+'
    then elim (decimal 0 (d ∷ s)) [ none ↦ none | some n ↦ some (false, n) ]
    else elim (decimal 0 (c ∷ d ∷ s)) [ none ↦ none | some n ↦ some (false, n) ]

-- `strtonum(s, lo, hi, &errstr)` at bounds that are not negative; `none` where it sets `errstr`.
unfoldable pub strtonum : Bytes → ℕ → ℕ → Option ℕ
unfolding skip_while signed_decimal is_space
strtonum s lo hi = elim (signed_decimal (skip_while is_space s)) [
  | none ↦ none
  | some (minus, n) ↦
      if minus && ltb 0 n then none else if ltb n lo || ltb hi n then none else some n
]

pub strtonum_bounds :
    (s : Bytes) (lo hi : ℕ) {n : ℕ} → strtonum s lo hi ≡ some n → (lo ≤ n) × (n ≤ hi)
unfolding strtonum
strtonum_bounds s lo hi {n} h = ground arith

pub str_eq_iff : (a b : Bytes) → (str_eq a b ≡ true) ↔ (a ≡ b)
str_eq_iff [] [] = ground arith
str_eq_iff [] (d ∷ t) = ground arith
str_eq_iff (c ∷ s) [] = ground arith
str_eq_iff (c ∷ s) (d ∷ t) = ground (arith, str_eq_iff s t)

-- The bytes of `s`, last byte first, in front of `acc`.
abbrev pub rev_onto : Bytes → Bytes → Bytes
rev_onto [] acc = acc
rev_onto (c ∷ s) acc = rev_onto s (c ∷ acc)

pub Lacks-rev_onto : (b : ℕ) (w acc : Bytes) → Lacks b w → Lacks b acc → Lacks b (rev_onto w acc)
Lacks-rev_onto b [] acc hw ha = ha
Lacks-rev_onto b (c ∷ w) acc (hc, hw) ha = Lacks-rev_onto b w (c ∷ acc) hw (hc, ha)

pub rev_onto-append : (w acc : Bytes) → rev_onto w acc ≡ rev_onto w [] ++ acc
rev_onto-append [] acc = refl
rev_onto-append (c ∷ w) acc =
    rev_onto-append w (c ∷ acc)
    ∙ sym (append_assoc (rev_onto w []) (c ∷ []) acc)
    ∙ ap (λ x. x ++ acc) (sym (rev_onto-append w (c ∷ [])))

pub length-rev_onto : (w acc : Bytes) → length (rev_onto w acc) ≡ length w + length acc
length-rev_onto [] acc = omega arith
length-rev_onto (c ∷ w) acc = omega (arith, length-rev_onto w (c ∷ acc))

-- Both parts of a text that was cut are shorter than the text.
abbrev pub CutBelow : ℕ → Option (Bytes × Bytes) → Type 0
CutBelow n none = Unit
CutBelow n (some (a, b)) = (length a < n) × (length b < n)

CutBelow-later :
    (n d : ℕ) (o : Option (Bytes × Bytes)) → CutBelow n o → CutBelow (suc n) (cut_later d o)
CutBelow-later n d none h = tt
CutBelow-later n d (some (a, b)) h = omega arith

pub cut-CutBelow : (c : ℕ) (s : Bytes) → CutBelow (length s) (cut c s)
unfolding cut
cut-CutBelow c [] = tt
cut-CutBelow c (d ∷ s) = elim (Bool-cases (d == c)) [
  | inl here ↦ rw here (omega arith)
  | inr later ↦ rw later (CutBelow-later (length s) d (cut c s) (cut-CutBelow c s))
]

pub length-cut :
    (c : ℕ) (s : Bytes) {a b : Bytes}
    → cut c s ≡ some (a, b)
    → (length a < length s) × (length b < length s)
length-cut c s e = rw e at (cut-CutBelow c s)

-- how often a byte stands in a text
abbrev pub count : ℕ → Bytes → ℕ
count b [] = 0
count b (c ∷ s) = if c == b then suc (count b s) else count b s

pub count-append : (b : ℕ) (s t : Bytes) → count b (s ++ t) ≡ count b s + count b t
count-append b [] t = omega arith
count-append b (c ∷ s) t = ground (arith, count-append b s t)
