-- ===== src/Expand/Replaced.antt =====
-- `expand_string` of httpd.c replaces every place of the macro, from the left.
use fuzz_httpd.Base.{
  ℕ, zero, suc, ◌+◌, ◌≤◌, ◌<◌, ◌≡◌, refl, sym, ap, ap₂, ◌∙◌, true, [], ◌∷◌, ◌++◌, Option, none,
  some, Bytes, Bool-cases, inl, inr, if-intro, append_assoc, has_prefix, cut_later, drop, leb,
  length, length-append, arith, if◌then◌else◌, &&-eq_true, ==_iff, ◌==◌,
}
use fuzz_httpd.Reply.{then_do}
use fuzz_httpd.Expand.{strstr, expand_round, expand_loop, expand_string}

-- `t` is `s` with `repl` in each place where `srch` stands, from the left.
pub data Replaced (srch repl : Bytes) : Bytes → Bytes → Type 0 where
  rest : (s : Bytes) → strstr srch s ≡ none → Replaced srch repl s s
  place :
      (s a b t : Bytes)
      → strstr srch s ≡ some (a, b)
      → s ≡ a ++ (srch ++ b)
      → Replaced srch repl b t
      → Replaced srch repl s (a ++ (repl ++ t))

-- The text if it fits an array of `len` bytes.
abbrev pub fitting : ℕ → Bytes → Option Bytes
fitting len t = if leb len (length t) then none else some t

has_prefix-drop : (p s : Bytes) → has_prefix p s ≡ true → s ≡ p ++ drop (length p) s
has_prefix-drop [] s h = refl
has_prefix-drop (c ∷ p) [] h = absurd (ground (arith, h))
has_prefix-drop (c ∷ p) (d ∷ s) h =
    let (same, more) = &&-eq_true (c == d) (has_prefix p s) h in
    ap₂ (λ x r. x ∷ r) (sym ((==_iff c d).0 same)) (has_prefix-drop p s more)

-- The parts and the text between them are the whole.
abbrev pub Parts : Bytes → Bytes → Option (Bytes × Bytes) → Type 0
Parts srch s none = Unit
Parts srch s (some (a, b)) = s ≡ a ++ (srch ++ b)

Parts-later :
    (srch s : Bytes) (c : ℕ) (o : Option (Bytes × Bytes))
    → Parts srch s o
    → Parts srch (c ∷ s) (cut_later c o)
Parts-later srch s c none h = tt
Parts-later srch s c (some (a, b)) h = ap (λ r. c ∷ r) h

pub strstr-Parts : (srch s : Bytes) → Parts srch s (strstr srch s)
unfolding strstr
strstr-Parts srch [] = tt
strstr-Parts srch (c ∷ s) =
    if-intro (Parts srch (c ∷ s)) (has_prefix srch (c ∷ s)) (some ([], drop (length srch) (c ∷ s)))
      _ (has_prefix-drop srch (c ∷ s))
      (λ _. Parts-later srch s c (strstr srch s) (strstr-Parts srch s))

fitting_then :
    (len : ℕ) (x t : Bytes) (k : Bytes → Option Bytes)
    → length x ≤ length t
    → k x ≡ fitting len t
    → then_do (fitting len x) k ≡ fitting len t
fitting_then len x t k h e = elim (Bool-cases (leb len (length x))) [
  | inl long ↦ let longer : leb len (length t) ≡ true = ground arith in rw (long, longer) refl
  | inr fits ↦ rw fits e
]

module _ (len : ℕ) (srch repl : Bytes) (some_text : 0 < length srch) where
  -- What the loop has when it starts at `p`.
  abbrev Expands : ℕ → Bytes → Bytes → Type 0
  Expands fuel tmp p =
      (t : Bytes) × (Replaced srch repl p t
        × (expand_loop fuel len srch repl tmp p ≡ fitting len (tmp ++ t)))

  round :
      (fuel : ℕ) (tmp p : Bytes) (o : Option (Bytes × Bytes))
      → strstr srch p ≡ o
      → Parts srch p o
      → length p < suc fuel
      → ((tmp b : Bytes) → length b < fuel → Expands fuel tmp b)
      → (t : Bytes) × (Replaced srch repl p t
          × (expand_round (expand_loop fuel len srch repl) len repl tmp p o
              ≡ fitting len (tmp ++ t)))
  round fuel tmp p none e h f next = (p, (rest p e, refl))
  round fuel tmp p (some (a, b)) e h f next =
      let sizes : length p ≡ length a + (length srch + length b) =
        omega (arith, ap length h, length-append a (srch ++ b), length-append srch b) in
      let (t, (r, same)) = next ((tmp ++ a) ++ repl) b (omega (arith, sizes, some_text, f)) in
      let all = tmp ++ (a ++ (repl ++ t)) in
      let whole : ((tmp ++ a) ++ repl) ++ t ≡ all =
        append_assoc (tmp ++ a) repl t ∙ append_assoc tmp a (repl ++ t) in
      let size = ap length whole in
      let size_a = length-append (tmp ++ a) repl in
      let size_t = length-append ((tmp ++ a) ++ repl) t in
      (
        a ++ (repl ++ t),
        (
          place p a b t e h r,
          fitting_then len (tmp ++ a) all _ (omega (arith, size, size_a, size_t)) (
              fitting_then len ((tmp ++ a) ++ repl) all _ (omega (arith, size, size_t))
                (same ∙ ap (fitting len) whole)),
        ),
      )

  loop-Expands : (fuel : ℕ) (tmp p : Bytes) → length p < fuel → Expands fuel tmp p
  unfolding expand_loop
  loop-Expands zero tmp p h = absurd (omega arith)
  loop-Expands (suc fuel) tmp p h =
      round fuel tmp p (strstr srch p) refl (strstr-Parts srch p) h (loop-Expands fuel)

  -- For a macro that is not empty: the loop ends, and the result is the label with the replacement in
  -- each place of the macro, from the left, or -1 if that does not fit in `len` bytes.
  pub expand_string-Replaced :
      (label : Bytes)
      → (t : Bytes) × (Replaced srch repl label t
          × (expand_string label len srch repl ≡ fitting len t))
  unfolding expand_string
  expand_string-Replaced label = loop-Expands (length label + 1) [] label (omega arith)
