-- ===== src/Address.antt =====
-- Addresses of sockets under a prefix: `sockaddr_cmp`, `prefixlen2mask` and `prefixlen2mask6` of
-- usr.sbin/httpd/httpd.c. The order of the bytes of a word is the machine's, an argument; the numbers
-- of the address families are the system's, parameters.
pub mod Bits
pub mod Masks
pub mod Network
use Prim.Native.Nat.{bit_and, compare, Ordering}
use fuzz_httpd.Base.{
  ℕ, zero, suc, ◌+◌, ◌-◌, ◌*◌, ◌/◌, ◌%◌, ◌^◌, Bool, ◌||◌, List, [], ◌∷◌, Option, none, some, Bytes,
  ltb, replicate, set, ◌==◌, if◌then◌else◌,
}

pub data ByteOrder : Type 0 where
  little_endian big_endian : ByteOrder

-- A `uint32_t` that is read where four bytes lie.
abbrev pub word : ByteOrder → ℕ → ℕ → ℕ → ℕ → ℕ
word little_endian a b c d = a + 256 * (b + 256 * (c + 256 * d))
word big_endian a b c d = d + 256 * (c + 256 * (b + 256 * a))

-- `memcpy` of an address to an array of `uint32_t`
unfoldable pub words : ByteOrder → Bytes → List ℕ
words e (a ∷ b ∷ c ∷ d ∷ bytes) = word e a b c d ∷ words e bytes
words e _ = []

-- the word whose bytes lie with the high one first
abbrev pub htonl : ByteOrder → ℕ → ℕ
htonl e x = word e (x / 2 ^ 24 % 256) (x / 2 ^ 16 % 256) (x / 2 ^ 8 % 256) (x % 256)

-- `prefixlen = limit` above the limit
abbrev pub at_most : ℕ → ℕ → ℕ
at_most limit n = if ltb limit n then limit else n

unfoldable pub prefixlen2mask : ByteOrder → ℕ → ℕ
prefixlen2mask e prefixlen =
    if prefixlen == 0 then 0 else htonl e (0xffff_ffff * 2 ^ (32 - at_most 32 prefixlen) % 2 ^ 32)

-- The loop over the whole bytes of the prefix: `n` rounds were made.
abbrev pub ones : ℕ → Bytes → Bytes
ones zero s6 = s6
ones (suc n) s6 = set (ones n s6) n 0xff

-- The byte where a prefix ends; the value is cut to eight bits.
abbrev pub end_mask : ℕ → ℕ
end_mask i = 0xff00 / 2 ^ i % 256

-- The bytes of the mask.
unfoldable pub prefixlen2mask6 : ℕ → Bytes
prefixlen2mask6 prefixlen =
    let n = at_most 128 prefixlen in
    let s6 = ones (n / 8) (replicate 16 0) in
    if n % 8 == 0 then s6 else set s6 (n / 8) (end_mask (n % 8))

-- The comparisons of words under a mask, the last word first.
unfoldable pub masked_cmp : List ℕ → List ℕ → List ℕ → Ordering
masked_cmp (a ∷ av) (b ∷ bv) (m ∷ mv) = elim (masked_cmp av bv mv) [
  | Ordering.eq ↦ compare (bit_and a m) (bit_and b m)
  | o ↦ o
]
masked_cmp _ _ _ = Ordering.eq

-- `struct sockaddr`: the family, and the bytes of `sin_addr` or `sin6_addr`
pub record Sockaddr : Type 0 where
  pub sa_family : ℕ
  pub addr : Bytes

-- AF_UNSPEC, AF_INET and AF_INET6
pub record Families : Type 0 where
  pub af_unspec : ℕ
  pub af_inet : ℕ
  pub af_inet6 : ℕ

-- `mv`; `none` stands for a prefix of -1, and the others are cut to eight bits.
abbrev pub mask_inet : ByteOrder → Option ℕ → List ℕ
mask_inet e none = replicate 1 0xffff_ffff
mask_inet e (some prefixlen) = prefixlen2mask e (prefixlen % 2 ^ 8) ∷ []

abbrev pub mask_inet6 : ByteOrder → Option ℕ → List ℕ
mask_inet6 e none = replicate 4 0xffff_ffff
mask_inet6 e (some prefixlen) = words e (prefixlen2mask6 (prefixlen % 2 ^ 8))

-- the switch on the family
abbrev pub same_family_cmp : Families → ByteOrder → ℕ → Bytes → Bytes → Option ℕ → Ordering
same_family_cmp af e family a b prefixlen =
    if family == af.af_inet
    then masked_cmp (words e a) (words e b) (mask_inet e prefixlen)
    else if family == af.af_inet6
    then masked_cmp (words e a) (words e b) (mask_inet6 e prefixlen)
    else Ordering.eq

-- `lt`, `eq` and `gt` stand for -1, 0 and 1.
unfoldable pub sockaddr_cmp : Families → ByteOrder → Sockaddr → Sockaddr → Option ℕ → Ordering
unfolding prefixlen2mask prefixlen2mask6 words masked_cmp
sockaddr_cmp af e a b prefixlen =
    if a.sa_family == af.af_unspec || b.sa_family == af.af_unspec
    then Ordering.eq
    else elim (compare a.sa_family b.sa_family) [
      | Ordering.gt ↦ Ordering.gt
      | Ordering.lt ↦ Ordering.lt
      | Ordering.eq ↦ same_family_cmp af e a.sa_family a.addr b.addr prefixlen
    ]
