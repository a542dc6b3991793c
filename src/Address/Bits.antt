-- ===== src/Address/Bits.antt =====
-- Bytes under a mask of leading ones, and words of bytes under such masks, for usr.sbin/httpd/httpd.c.
use Prim.Native.Nat.{bit_and, bit_and-bitwise, digits, min}
use native.Mathlib.Nat.{pow-suc}
use fuzz_httpd.Base.{
  ℕ, zero, suc, ◌+◌, ◌*◌, ◌/◌, ◌%◌, ◌^◌, ◌≤◌, ◌<◌, ◌≡◌, refl, sym, ap, ◌∙◌, ◌↔◌, Bool, true, ◌&&◌,
  List, [], ◌∷◌, IsByte, take, ◌==◌, str_eq, str_eq_iff, all_below, all_below_sound, arith,
}
use fuzz_httpd.Address.{ByteOrder, little_endian, big_endian, word, end_mask}

digits-enough :
    (n m a b : ℕ) → a ≤ n → a ≤ m → digits (λ _. zero) min n a b ≡ digits (λ _. zero) min m a b
digits-enough zero zero a b p q = refl
digits-enough zero (suc m) zero b p q = refl
digits-enough (suc n) zero zero b p q = refl
digits-enough (suc n) (suc m) zero b p q = refl
digits-enough zero (suc m) (suc a) b p q = absurd (omega arith)
digits-enough (suc n) zero (suc a) b p q = absurd (omega arith)
digits-enough (suc n) (suc m) (suc a) b p q =
    rw (digits-enough n m (suc a / 2) (b / 2) (omega arith) (omega arith))

-- The law of the lowest digit.
bit_and_low : (a b : ℕ) → bit_and a b ≡ bit_and (a / 2) (b / 2) * 2 + min (a % 2) (b % 2)
bit_and_low zero b = simp bit_and-bitwise (omega arith)
bit_and_low (suc a) b = omega (
  arith,
  bit_and-bitwise (suc a) b,
  bit_and-bitwise (suc a / 2) (b / 2),
  digits-enough a (suc a / 2) (suc a / 2) (b / 2) (omega arith) (omega arith),
)

two-pow : (k q : ℕ) → 2 ^ suc k * q ≡ 2 * (2 ^ k * q)
two-pow k q = ground (arith, ap (λ (t : ℕ). t * q) (pow-suc 2 k))

-- The fields of the words are taken one by one.
bit_and_fields :
    (k x y a b : ℕ)
    → x < 2 ^ k
    → y < 2 ^ k
    → bit_and (x + 2 ^ k * a) (y + 2 ^ k * b) ≡ bit_and x y + 2 ^ k * bit_and a b
bit_and_fields zero zero zero a b hx hy = ground arith
bit_and_fields zero zero (suc y) a b hx hy = absurd (omega arith)
bit_and_fields zero (suc x) y a b hx hy = absurd (omega arith)
bit_and_fields (suc k) x y a b hx hy = ground (
  arith,
  two-pow k a,
  two-pow k b,
  two-pow k (bit_and a b),
  pow-suc 2 k,
  bit_and_low (x + 2 ^ suc k * a) (y + 2 ^ suc k * b),
  bit_and_low x y,
  bit_and_fields k (x / 2) (y / 2) a b (omega (arith, pow-suc 2 k)) (omega (arith, pow-suc 2 k)),
)

-- A masked byte is a byte.
pub bit_and-lt : (k x y : ℕ) → x < 2 ^ k → bit_and x y < 2 ^ k
bit_and-lt zero zero y h = omega (arith, bit_and-bitwise 0 y)
bit_and-lt zero (suc x) y h = absurd (omega arith)
bit_and-lt (suc k) x y h =
    omega (
      arith,
      bit_and_low x y,
      pow-suc 2 k,
      bit_and-lt k (x / 2) (y / 2) (omega (arith, pow-suc 2 k)),
    )

-- The bits of a byte, the high one first.
abbrev pub byte_bits : ℕ → List ℕ
byte_bits x =
    (x / 128 % 2)
    ∷ (x / 64 % 2)
    ∷ (x / 32 % 2)
    ∷ (x / 16 % 2)
    ∷ (x / 8 % 2)
    ∷ (x / 4 % 2)
    ∷ (x / 2 % 2)
    ∷ (x % 2)
    ∷ []

-- The byte that begins with the bits.
abbrev of_bits : ℕ → List ℕ → ℕ
of_bits weight [] = 0
of_bits weight (b ∷ bs) = b * weight + of_bits (weight / 2) bs

is_kept : ℕ → ℕ → Bool
is_kept i x =
    (of_bits 128 (take i (byte_bits x)) == bit_and x (end_mask i))
    && str_eq (take i (byte_bits (bit_and x (end_mask i)))) (take i (byte_bits x))

kept_table : all_below 9 (λ i. all_below 256 (is_kept i)) ≡ true
unfolding is_kept all_below
kept_table = refl

kept :
    (i x : ℕ)
    → i < 9
    → IsByte x
    → (of_bits 128 (take i (byte_bits x)) ≡ bit_and x (end_mask i))
      × (take i (byte_bits (bit_and x (end_mask i))) ≡ take i (byte_bits x))
unfolding is_kept
kept i x hi hx =
    let row = all_below_sound 9 (λ i. all_below 256 (is_kept i)) i kept_table hi in
    let entry = all_below_sound 256 (is_kept i) x row hx in
    ground (
      arith,
      entry,
      str_eq_iff (take i (byte_bits (bit_and x (end_mask i)))) (take i (byte_bits x)),
    )

-- Two bytes agree under the mask where their first bits agree.
pub end_mask-bits :
    (i x y : ℕ)
    → i < 9
    → IsByte x
    → IsByte y
    → (bit_and x (end_mask i) ≡ bit_and y (end_mask i))
      ↔ (take i (byte_bits x) ≡ take i (byte_bits y))
end_mask-bits i x y hi hx hy = (
  λ e. sym (kept i x hi hx).1 ∙ ap (λ m. take i (byte_bits m)) e ∙ (kept i y hi hy).1,
  λ e. sym (kept i x hi hx).0 ∙ ap (of_bits 128) e ∙ (kept i y hi hy).0,
)

-- The words of two addresses agree under the word of a mask where their bytes do.
pub word-bit_and :
    (e : ByteOrder) (a b c d m n o p : ℕ)
    → IsByte a × IsByte b × IsByte c × IsByte d
    → IsByte m × IsByte n × IsByte o × IsByte p
    → bit_and (word e a b c d) (word e m n o p)
      ≡ word e (bit_and a m) (bit_and b n) (bit_and c o) (bit_and d p)
word-bit_and little_endian a b c d m n o p (ha, hb, hc, hd) (hm, hn, ho, hp) = ground (
  arith,
  bit_and_fields 8 a m (b + 256 * (c + 256 * d)) (n + 256 * (o + 256 * p)) ha hm,
  bit_and_fields 8 b n (c + 256 * d) (o + 256 * p) hb hn,
  bit_and_fields 8 c o d p hc ho,
)
word-bit_and big_endian a b c d m n o p (ha, hb, hc, hd) (hm, hn, ho, hp) = ground (
  arith,
  bit_and_fields 8 d p (c + 256 * (b + 256 * a)) (o + 256 * (n + 256 * m)) hd hp,
  bit_and_fields 8 c o (b + 256 * a) (n + 256 * m) hc ho,
  bit_and_fields 8 b n a m hb hn,
)

pub word-injective :
    (e : ByteOrder) (a b c d m n o p : ℕ)
    → IsByte a × IsByte b × IsByte c × IsByte d
    → IsByte m × IsByte n × IsByte o × IsByte p
    → word e a b c d ≡ word e m n o p
    → (a ≡ m) × (b ≡ n) × (c ≡ o) × (d ≡ p)
word-injective little_endian a b c d m n o p ha hm h = omega arith
word-injective big_endian a b c d m n o p ha hm h = omega arith

-- Two words agree under a word of a mask where their bytes agree under its bytes.
pub word-masked :
    (e : ByteOrder) (a b c d a' b' c' d' m n o p : ℕ)
    → IsByte a × IsByte b × IsByte c × IsByte d
    → IsByte a' × IsByte b' × IsByte c' × IsByte d'
    → IsByte m × IsByte n × IsByte o × IsByte p
    → (bit_and (word e a b c d) (word e m n o p) ≡ bit_and (word e a' b' c' d') (word e m n o p))
      ↔ ((bit_and a m ≡ bit_and a' m)
          × (bit_and b n ≡ bit_and b' n)
          × (bit_and c o ≡ bit_and c' o)
          × (bit_and d p ≡ bit_and d' p))
word-masked e a b c d a' b' c' d' m n o p (ha, hb, hc, hd) (ha', hb', hc', hd') hm =
    let left = word-bit_and e a b c d m n o p (ha, hb, hc, hd) hm in
    let right = word-bit_and e a' b' c' d' m n o p (ha', hb', hc', hd') hm in
    (
      λ same.
          word-injective e (bit_and a m) (bit_and b n) (bit_and c o) (bit_and d p) (bit_and a' m)
            (bit_and b' n) (bit_and c' o) (bit_and d' p)
            (bit_and-lt 8 a m ha, bit_and-lt 8 b n hb, bit_and-lt 8 c o hc, bit_and-lt 8 d p hd)
            (
              bit_and-lt 8 a' m ha',
              bit_and-lt 8 b' n hb',
              bit_and-lt 8 c' o hc',
              bit_and-lt 8 d' p hd',
            )
            (sym left ∙ same ∙ right),
      λ (p0, p1, p2, p3). cc (left, right, p0, p1, p2, p3),
    )
