-- ===== src/Transfer/Pieces.antt =====
-- Lists of bytes that are read in pieces: what a piece and what lies behind it make of the whole.
use fuzz_httpd.Base.{
  ℕ, zero, suc, ◌+◌, ◌<◌, true, [], ◌∷◌, ◌++◌, ◌≡◌, refl, sym, ap, ◌∙◌, Bytes, is_empty, length,
  take, drop, arith,
}

pub take-take : (n k : ℕ) (s : Bytes) → n < length (take k s) → take n (take k s) ≡ take n s
take-take zero k s h = refl
take-take (suc n) zero s h = absurd (omega arith)
take-take (suc n) (suc k) [] h = refl
take-take (suc n) (suc k) (x ∷ s) h = ap (λ r. x ∷ r) (take-take n k s (omega arith))

take-nil : (n : ℕ) → take {A = ℕ} n [] ≡ []
take-nil zero = refl
take-nil (suc n) = refl

pub take-split :
    (m n k : ℕ) (s : Bytes)
    → length (take k s) + m ≡ n
    → take k s ++ take m (drop (length (take k s)) s) ≡ take n s
take-split m n zero s h = ap (λ i. take i s) (omega arith)
take-split m n (suc k) [] h = take-nil m ∙ sym (take-nil n)
take-split m zero (suc k) (x ∷ s) h = absurd (omega arith)
take-split m (suc n) (suc k) (x ∷ s) h = ap (λ r. x ∷ r) (take-split m n k s (omega arith))

drop-nil : (n : ℕ) → drop {A = ℕ} n [] ≡ []
drop-nil zero = refl
drop-nil (suc n) = refl

pub drop-drop : (m n : ℕ) (s : Bytes) → drop m (drop n s) ≡ drop (n + m) s
drop-drop m zero s = ap (λ i. drop i s) (omega arith)
drop-drop m (suc n) [] = drop-nil m ∙ sym (drop-nil (suc n + m))
drop-drop m (suc n) (x ∷ s) =
    drop-drop m n s ∙ (let e : suc (n + m) ≡ suc n + m = omega arith in ap (λ i. drop i (x ∷ s)) e)

pub is_empty-nil : (s : Bytes) → is_empty s ≡ true → s ≡ []
is_empty-nil [] h = refl
is_empty-nil (c ∷ s) h = ground arith
