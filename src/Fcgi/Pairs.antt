-- ===== src/Fcgi/Pairs.antt =====
-- The name-value pairs that server_fcgi.c writes are read back by the rules of FastCGI.
use fuzz_httpd.Base.{
  ℕ, ◌+◌, ◌-◌, ◌*◌, ◌^◌, ◌<◌, true, [], ◌∷◌, ◌++◌, ◌≡◌, refl, ap, ◌∙◌, Option, none, some, Bytes,
  length, take, drop, ltb, if◌then◌else◌, arith, append_assoc, Bool-cases, inl, inr,
}
use fuzz_httpd.Fcgi.{param_length, param_bytes}

-- A length by the FastCGI specification: one byte below 128, or four bytes, the highest bit set.
read_length : Bytes → Option (ℕ × Bytes)
read_length [] = none
read_length (a ∷ []) = if ltb a 128 then some (a, []) else none
read_length (a ∷ b ∷ []) = if ltb a 128 then some (a, b ∷ []) else none
read_length (a ∷ b ∷ c ∷ []) = if ltb a 128 then some (a, b ∷ c ∷ []) else none
read_length (a ∷ b ∷ c ∷ d ∷ r) =
    if ltb a 128
    then some (a, b ∷ c ∷ d ∷ r)
    else some ((a - 128) * 2 ^ 24 + b * 2 ^ 16 + c * 2 ^ 8 + d, r)

abbrev value_at : ℕ → Option (ℕ × Bytes) → Option (Bytes × Bytes × Bytes)
value_at k none = none
value_at k (some (v, r)) = some (take k r, take v (drop k r), drop v (drop k r))

abbrev key_at : Option (ℕ × Bytes) → Option (Bytes × Bytes × Bytes)
key_at none = none
key_at (some (k, r)) = value_at k (read_length r)

-- A pair by the FastCGI specification: both lengths, the name, the value; and what follows.
pub read_pair : Bytes → Option (Bytes × Bytes × Bytes)
read_pair s = key_at (read_length s)

read_short : (n : ℕ) (r : Bytes) → ltb n 128 ≡ true → read_length (n ∷ r) ≡ some (n, r)
unfolding read_length
read_short n [] h = rw h
read_short n (b ∷ []) h = rw h
read_short n (b ∷ c ∷ []) h = rw h
read_short n (b ∷ c ∷ d ∷ r) h = rw h

read_length-param_length :
    (n : ℕ) (r : Bytes) → n < 2 ^ 31 → read_length (param_length n ++ r) ≡ some (n, r)
unfolding param_length
read_length-param_length n r h = elim (Bool-cases (ltb 127 n)) [
  | inl long ↦ rw long (unfold read_length in ground arith)
  | inr short ↦ rw short (read_short n r (ground arith))
]

take-append : (s r : Bytes) → take (length s) (s ++ r) ≡ s
take-append [] r = refl
take-append (c ∷ s) r = rw (take-append s r)

drop-append : (s r : Bytes) → drop (length s) (s ++ r) ≡ r
drop-append [] r = refl
drop-append (c ∷ s) r = drop-append s r

regroup :
    (n m key val r : Bytes) → (n ++ (m ++ (key ++ val))) ++ r ≡ n ++ (m ++ (key ++ (val ++ r)))
regroup n m key val r = simp append_assoc

-- A reader of FastCGI finds the name and the value of each parameter, both shorter than 2^31 bytes,
-- and what follows it.
pub read_pair-param_bytes :
    (key val r : Bytes)
    → length key < 2 ^ 31
    → length val < 2 ^ 31
    → read_pair (param_bytes key val ++ r) ≡ some (key, val, r)
unfolding read_pair param_bytes
read_pair-param_bytes key val r hk hv =
    let n = param_length (length key) in
    let m = param_length (length val) in
    ap (λ s. key_at (read_length s)) (regroup n m key val r)
    ∙ ap key_at (read_length-param_length (length key) (m ++ (key ++ (val ++ r))) hk)
    ∙ ap (value_at (length key)) (read_length-param_length (length val) (key ++ (val ++ r)) hv)
    ∙ rw (
      take-append key (val ++ r),
      drop-append key (val ++ r),
      take-append val r,
      drop-append val r,
    )
