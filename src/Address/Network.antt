-- ===== src/Address/Network.antt =====
-- What `sockaddr_cmp` of usr.sbin/httpd/httpd.c says of two addresses: whether they lie in one network.
use Prim.Native.Nat.{min, Ordering}
use fuzz_httpd.Base.{
  ℕ, zero, suc, ◌-◌, ◌*◌, ◌≡◌, ◌≢◌, refl, sym, ap, ◌∙◌, ◌↔◌, ◌⊎◌, inl, inr, true, false, ◌==◌, List,
  [], ◌∷◌, ◌++◌, Option, Bytes, All, IsByte, length, length-take, take, arith,
}
use fuzz_httpd.Address.{
  ByteOrder, Families, Sockaddr, words, masked_cmp, same_family_cmp, sockaddr_cmp,
}
use fuzz_httpd.Address.Bits.{byte_bits, end_mask-bits}
use fuzz_httpd.Address.Masks.{
  bits, length-Fours, mask_bytes, mask_inet-bytes, mask_inet6-bytes, masked, masked_cmp-masked,
  width,
}

-- What the first `n` of two lists are.
take-append :
    (n : ℕ) (s t : List ℕ) → take n (s ++ t) ≡ take (min (length s) n) s ++ take (n - length s) t
take-append n [] t =
    let nothing : min 0 n ≡ 0 = omega arith in
    let whole : n - 0 ≡ n = omega arith in rw (nothing, whole)
take-append zero (x ∷ s) t =
    let nothing : min (suc (length s)) 0 ≡ 0 = omega arith in
    let behind : 0 - suc (length s) ≡ 0 = omega arith in rw (nothing, behind)
take-append (suc n) (x ∷ s) t =
    let first : min (suc (length s)) (suc n) ≡ suc (min (length s) n) = omega arith in
    let left : suc n - suc (length s) ≡ n - length s = omega arith in
    rw (first, left) (ap (λ l. x ∷ l) (take-append n s t))

append-injective :
    (s s' t t' : List ℕ) → length s ≡ length s' → s ++ t ≡ s' ++ t' → (s ≡ s') × (t ≡ t')
append-injective [] [] t t' l h = (refl, h)
append-injective [] (x ∷ s') t t' l h = absurd (omega arith)
append-injective (x ∷ s) [] t t' l h = absurd (omega arith)
append-injective (x ∷ s) (y ∷ s') t t' l h = ground (arith, append-injective s s' t t')

-- Two addresses of one size agree under a mask where their first bits agree.
masked-bits :
    (n : ℕ) (s t : Bytes)
    → length s ≡ length t
    → All IsByte s
    → All IsByte t
    → (masked s (mask_bytes (length s) n) ≡ masked t (mask_bytes (length s) n))
      ↔ (take n (bits s) ≡ take n (bits t))
unfolding mask_bytes bits
masked-bits n [] [] e hs ht = (λ _. refl, λ _. refl)
masked-bits n [] (y ∷ t) e hs ht = absurd (omega arith)
masked-bits n (x ∷ s) [] e hs ht = absurd (omega arith)
masked-bits n (x ∷ s) (y ∷ t) e (hx, hs) (hy, ht) = ground (
  arith,
  take-append n (byte_bits x) (bits s),
  take-append n (byte_bits y) (bits t),
  end_mask-bits (min 8 n) x y (omega arith) hx hy,
  masked-bits (n - 8) s t (omega arith) hs ht,
  append-injective (take (min 8 n) (byte_bits x)) (take (min 8 n) (byte_bits y))
      (take (n - 8) (bits s)) (take (n - 8) (bits t))
      (length-take (min 8 n) (byte_bits x) ∙ sym (length-take (min 8 n) (byte_bits y))),
)

-- An address of one of the two families, with the bytes that the family has.
pub record IsAddress (af : Families) (a : Sockaddr) : Type 0 where
  pub bytes : All IsByte a.addr
  pub kind :
      (a.sa_family ≡ af.af_inet) × (length a.addr ≡ 4)
      ⊎ (a.sa_family ≡ af.af_inet6) × (length a.addr ≡ 16)

-- The numbers of the families differ.
pub record AreFamilies (af : Families) : Type 0 where
  pub inet-unspec : af.af_inet ≢ af.af_unspec
  pub inet6-unspec : af.af_inet6 ≢ af.af_unspec
  pub inet-inet6 : af.af_inet ≢ af.af_inet6

-- One family, and the same bits as far as the prefix goes.
abbrev pub SameNetwork : Option ℕ → Sockaddr → Sockaddr → Type 0
SameNetwork prefixlen a b =
    (a.sa_family ≡ b.sa_family)
    × (take (width prefixlen) (bits a.addr) ≡ take (width prefixlen) (bits b.addr))

length-mask_bytes : (size n : ℕ) → length (mask_bytes size n) ≡ size
unfolding mask_bytes
length-mask_bytes zero n = refl
length-mask_bytes (suc size) n = ap suc (length-mask_bytes size (n - 8))

mask_bytes-IsByte : (size n : ℕ) → All IsByte (mask_bytes size n)
unfolding mask_bytes
mask_bytes-IsByte zero n = tt
mask_bytes-IsByte (suc size) n = (omega arith, mask_bytes-IsByte size (n - 8))

-- The words of two addresses of `4 * n` bytes, under the words of a mask of that size.
words-bits :
    (e : ByteOrder) (n w : ℕ) (s t : Bytes)
    → length s ≡ 4 * n
    → length t ≡ 4 * n
    → All IsByte s
    → All IsByte t
    → (masked_cmp (words e s) (words e t) (words e (mask_bytes (4 * n) w)) ≡ Ordering.eq)
      ↔ (take w (bits s) ≡ take w (bits t))
words-bits e n w s t es et hs ht = ground (
  arith,
  masked_cmp-masked e (length-Fours n s es hs) (length-Fours n t et ht) (
      length-Fours n (mask_bytes (4 * n) w) (length-mask_bytes (4 * n) w)
        (mask_bytes-IsByte (4 * n) w)),
  rw es at (masked-bits w s t (es ∙ sym et) hs ht),
)

same_family_cmp-bits :
    (af : Families) (e : ByteOrder) (a b : Sockaddr) (prefixlen : Option ℕ)
    → AreFamilies af
    → IsAddress af a
    → IsAddress af b
    → a.sa_family ≡ b.sa_family
    → (same_family_cmp af e a.sa_family a.addr b.addr prefixlen ≡ Ordering.eq)
      ↔ (take (width prefixlen) (bits a.addr) ≡ take (width prefixlen) (bits b.addr))
same_family_cmp-bits af e a b prefixlen hf ha hb same = elim ha.kind [
  | inl (inet, size) ↦
      let is_inet : (a.sa_family == af.af_inet) ≡ true = ground arith in
      let other_size : length b.addr ≡ 4 = ground arith in
      rw (is_inet, mask_inet-bytes e prefixlen)
        (words-bits e 1 (width prefixlen) a.addr b.addr size other_size ha.bytes hb.bytes)
  | inr (inet6, size) ↦
      let is_not_inet : (a.sa_family == af.af_inet) ≡ false = ground arith in
      let is_inet6 : (a.sa_family == af.af_inet6) ≡ true = ground arith in
      let other_size : length b.addr ≡ 16 = ground arith in
      rw (is_not_inet, is_inet6, mask_inet6-bytes e prefixlen)
        (words-bits e 4 (width prefixlen) a.addr b.addr size other_size ha.bytes hb.bytes)
]

-- Two addresses of the families compare as equal exactly where they are of one family and agree in
-- their first `prefixlen` bits (of eight bits, and all of them for -1), whatever the byte order.
pub sockaddr_cmp-SameNetwork :
    (af : Families) (e : ByteOrder) (a b : Sockaddr) (prefixlen : Option ℕ)
    → AreFamilies af
    → IsAddress af a
    → IsAddress af b
    → (sockaddr_cmp af e a b prefixlen ≡ Ordering.eq) ↔ SameNetwork prefixlen a b
unfolding sockaddr_cmp
sockaddr_cmp-SameNetwork af e a b prefixlen hf ha hb =
    ground (arith, same_family_cmp-bits af e a b prefixlen hf ha hb)
