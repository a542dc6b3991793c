-- ===== src/Address/Masks.antt =====
-- The masks of usr.sbin/httpd/httpd.c as bytes, and words compared under them as bits compared.
use Prim.Native.Nat.{bit_and, min, Ordering, compare}
use fuzz_httpd.Base.{
  ℕ, zero, suc, ◌-◌, ◌*◌, ◌%◌, ◌^◌, ◌≡◌, refl, ap, ◌↔◌, Bool, true, ◌&&◌, List, [], ◌∷◌, ◌++◌,
  Option, none, some, Bytes, All, IsByte, length, str_eq, str_eq_iff, all_below, all_below_sound,
  arith,
}
use fuzz_httpd.Address.{
  ByteOrder, little_endian, big_endian, word, words, end_mask, masked_cmp, prefixlen2mask,
  prefixlen2mask6, mask_inet, mask_inet6,
}
use fuzz_httpd.Address.Bits.{byte_bits, word-masked}

-- The bits of an address, the first byte's first.
unfoldable pub bits : Bytes → List ℕ
bits [] = []
bits (x ∷ s) = byte_bits x ++ bits s

-- `n` ones, then zeros, in `size` bytes.
unfoldable pub mask_bytes : ℕ → ℕ → Bytes
mask_bytes zero n = []
mask_bytes (suc size) n = end_mask (min 8 n) ∷ mask_bytes size (n - 8)

abbrev pub masked : Bytes → Bytes → Bytes
masked (a ∷ s) (m ∷ ms) = bit_and a m ∷ masked s ms
masked _ _ = []

-- the number of bits that a prefix asks for
abbrev pub width : Option ℕ → ℕ
width none = 128
width (some prefixlen) = prefixlen % 2 ^ 8

is_mask : ByteOrder → ℕ → Bool
is_mask e n =
    str_eq (prefixlen2mask e n ∷ []) (words e (mask_bytes 4 n))
    && str_eq (prefixlen2mask6 n) (mask_bytes 16 n)

is_mask_table : (e : ByteOrder) → all_below 256 (is_mask e) ≡ true
unfolding is_mask all_below prefixlen2mask prefixlen2mask6 words mask_bytes
is_mask_table little_endian = refl
is_mask_table big_endian = refl

is_mask-here :
    (e : ByteOrder) (n : ℕ)
    → (prefixlen2mask e (n % 2 ^ 8) ∷ [] ≡ words e (mask_bytes 4 (n % 2 ^ 8)))
      × (prefixlen2mask6 (n % 2 ^ 8) ≡ mask_bytes 16 (n % 2 ^ 8))
unfolding is_mask
is_mask-here e n =
    let k = n % 2 ^ 8 in
    ground (
      arith,
      all_below_sound 256 (is_mask e) k (is_mask_table e) (omega arith),
      str_eq_iff (prefixlen2mask e k ∷ []) (words e (mask_bytes 4 k)),
      str_eq_iff (prefixlen2mask6 k) (mask_bytes 16 k),
    )

pub mask_inet-bytes :
    (e : ByteOrder) (prefixlen : Option ℕ)
    → mask_inet e prefixlen ≡ words e (mask_bytes 4 (width prefixlen))
unfolding words mask_bytes
mask_inet-bytes little_endian none = refl
mask_inet-bytes big_endian none = refl
mask_inet-bytes e (some n) = (is_mask-here e n).0

pub mask_inet6-bytes :
    (e : ByteOrder) (prefixlen : Option ℕ)
    → mask_inet6 e prefixlen ≡ words e (mask_bytes 16 (width prefixlen))
unfolding words mask_bytes
mask_inet6-bytes little_endian none = refl
mask_inet6-bytes big_endian none = refl
mask_inet6-bytes e (some n) = ap (words e) (is_mask-here e n).1

-- Lists of bytes by fours.
pub data Fours : ℕ → Bytes → Type 0 where
  end : Fours 0 []
  four :
      {n a b c d : ℕ} {s : Bytes}
      → IsByte a × IsByte b × IsByte c × IsByte d
      → Fours n s
      → Fours (suc n) (a ∷ b ∷ c ∷ d ∷ s)

pub length-Fours : (n : ℕ) (s : Bytes) → length s ≡ 4 * n → All IsByte s → Fours n s
length-Fours zero [] e h = end
length-Fours zero (a ∷ s) e h = absurd (omega arith)
length-Fours (suc n) (a ∷ b ∷ c ∷ d ∷ s) e (ha, (hb, (hc, (hd, h)))) =
    four (ha, hb, hc, hd) (length-Fours n s (omega arith) h)
length-Fours (suc n) [] e h = absurd (omega arith)
length-Fours (suc n) (a ∷ []) e h = absurd (omega arith)
length-Fours (suc n) (a ∷ b ∷ []) e h = absurd (omega arith)
length-Fours (suc n) (a ∷ b ∷ c ∷ []) e h = absurd (omega arith)

cmp_behind :
    (o : Ordering) (x y : ℕ)
    → (elim o [ Ordering.eq ↦ compare x y | o ↦ o ] ≡ Ordering.eq) ↔ ((o ≡ Ordering.eq) × (x ≡ y))
cmp_behind Ordering.eq x y = ground arith
cmp_behind Ordering.lt x y = ground arith
cmp_behind Ordering.gt x y = ground arith

pub masked_cmp-masked :
    (e : ByteOrder) {n : ℕ} {s t m : Bytes}
    → Fours n s
    → Fours n t
    → Fours n m
    → (masked_cmp (words e s) (words e t) (words e m) ≡ Ordering.eq) ↔ (masked s m ≡ masked t m)
unfolding words masked_cmp
masked_cmp-masked e end end end = (λ _. refl, λ _. refl)
masked_cmp-masked e (four {a = a} {b = b} {c = c} {d = d} {s = s'} hs s)
      (four {a = a'} {b = b'} {c = c'} {d = d'} {s = t'} ht t)
      (four {a = m} {b = n} {c = o} {d = p} {s = r'} hm r) =
    ground (
      arith,
      cmp_behind (masked_cmp (words e s') (words e t') (words e r'))
          (bit_and (word e a b c d) (word e m n o p))
          (bit_and (word e a' b' c' d') (word e m n o p)),
      word-masked e a b c d a' b' c' d' m n o p hs ht hm,
      masked_cmp-masked e s t r,
    )
