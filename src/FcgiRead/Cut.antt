-- ===== src/FcgiRead/Cut.antt =====
-- What is taken from two pieces of a buffer.
use fuzz_httpd.Base.{
  ℕ, zero, suc, ◌+◌, ◌<◌, ◌≤◌, ◌≡◌, refl, ap, true, not, [], ◌∷◌, ◌++◌, Bytes, drop, is_empty,
  length, take, arith,
}

take_nothing : (n : ℕ) → take {A = ℕ} n [] ≡ []
take_nothing zero = refl
take_nothing (suc n) = refl

pub take_all : (n : ℕ) (s : Bytes) → length s ≤ n → take n s ≡ s
take_all n [] h = take_nothing n
take_all zero (c ∷ s) h = absurd (omega arith)
take_all (suc n) (c ∷ s) h = ap (λ r. c ∷ r) (take_all n s (omega arith))

drop_nothing : (n : ℕ) → drop {A = ℕ} n [] ≡ []
drop_nothing zero = refl
drop_nothing (suc n) = refl

pub drop_all : (n : ℕ) (s : Bytes) → length s ≤ n → drop n s ≡ []
drop_all n [] h = drop_nothing n
drop_all zero (c ∷ s) h = absurd (omega arith)
drop_all (suc n) (c ∷ s) h = drop_all n s (omega arith)

pub take-append_long : (n : ℕ) (a b : Bytes) → n ≤ length a → take n (a ++ b) ≡ take n a
take-append_long zero a b h = refl
take-append_long (suc n) [] b h = absurd (omega arith)
take-append_long (suc n) (c ∷ a) b h = ap (λ r. c ∷ r) (take-append_long n a b (omega arith))

pub drop-append_long : (n : ℕ) (a b : Bytes) → n ≤ length a → drop n (a ++ b) ≡ drop n a ++ b
drop-append_long zero a b h = refl
drop-append_long (suc n) [] b h = absurd (omega arith)
drop-append_long (suc n) (c ∷ a) b h = drop-append_long n a b (omega arith)

pub take-append_short : (n m : ℕ) (a b : Bytes) → length a + m ≡ n → take n (a ++ b) ≡ a ++ take m b
take-append_short n m [] b h = ap (λ k. take k b) (omega (arith, h))
take-append_short zero m (c ∷ a) b h = absurd (omega arith)
take-append_short (suc n) m (c ∷ a) b h = ap (λ r. c ∷ r) (take-append_short n m a b (omega arith))

pub drop-append_short : (n m : ℕ) (a b : Bytes) → length a + m ≡ n → drop n (a ++ b) ≡ drop m b
drop-append_short n m [] b h = ap (λ k. drop k b) (omega (arith, h))
drop-append_short zero m (c ∷ a) b h = absurd (omega arith)
drop-append_short (suc n) m (c ∷ a) b h = drop-append_short n m a b (omega arith)

pub some_taken : (s : Bytes) → 0 < length s → not (is_empty s) ≡ true
some_taken [] h = absurd (omega arith)
some_taken (c ∷ s) h = refl
