-- ===== src/Path/Bounds.antt =====
-- `canonicalize_path` of httpd.c ends and stays inside its array, whatever the array holds.
use fuzz_httpd.Base.{
  ℕ, zero, suc, ◌+◌, ◌≤◌, ◌<◌, Bool, true, false, [], ◌∷◌, ◌≡◌, refl, arith, Bytes, ◌==◌,
  if◌then◌else◌, Bool-cases, inl, inr, char_at, length, leb, length-drop, length-rev_onto,
  length-set, ltb, le→ltb, not, ltb→le, leb→lt, ||-eq_false, ◌||◌,
}
use fuzz_httpd.Path.{
  Buffer, Element, repeated, parent, current, other, put, clear, rewind, element, advance,
  skip_slashes, finish, Canonical, canonical, null, out_of_fuel, overrun, loop, canonicalize_path,
}
use fuzz_httpd.Path.Steps.{rewind-whole}

-- A result that fits into `len` bytes with its NUL, or the NULL of a path that does not fit; no write
-- behind the array.
abbrev pub Fits : ℕ → Canonical → Type 0
Fits len (canonical t) = length t < len
Fits len null = Unit
Fits len overrun = ⊥
Fits len out_of_fuel = ⊥

-- Both parts make up the array, and the write position is inside.
record Inside (len : ℕ) (b : Buffer) : Type 0 where
  whole : length b.before + length b.after ≡ len
  in_range : 0 < length b.after
  three : 3 ≤ len

rewind-Inside : {len : ℕ} {b : Buffer} → Inside len b → Inside len (clear (rewind b.before b.after))
rewind-Inside {b} i =
    let (whole, more) = rewind-whole b.before b.after in
    let kept = length-set (rewind b.before b.after).after 0 0 in omega (arith, whole, more, kept)

put-Inside :
    {len : ℕ} {b : Buffer} (c : ℕ) → 1 < length b.after → Inside len b → Inside len (put c b)
put-Inside {b} c h i = omega (arith, length-drop 1 b.after)

finish_at-Fits :
    (len : ℕ) (before after : Bytes)
    → Inside len (record { before = before; after = after })
    → Fits len (finish (record { before = before; after = after }))
unfolding finish
finish_at-Fits len [] after i = rw (le→ltb (length after) 2 (omega arith)) (omega arith)
finish_at-Fits len (c ∷ before) after i =
    rw (le→ltb (length after) 1 (omega arith)) (omega (arith, length-rev_onto before (c ∷ [])))

length-skip_slashes : (i : Bytes) → length (skip_slashes i) ≤ length i
unfolding skip_slashes
length-skip_slashes [] = omega arith
length-skip_slashes (c ∷ i) = ground (arith, length-skip_slashes i)

repeated_skips :
    (c : ℕ) (i : Bytes) → element (c ∷ i) ≡ repeated → length (skip_slashes (c ∷ i)) ≤ length i
unfolding skip_slashes element
repeated_skips c i h = ground (arith, length-skip_slashes i)

-- Every round of the loop takes at least a byte of the input and leaves the position inside.
advance-Fits :
    (len c : ℕ) (i : Bytes) (b : Buffer) (next : Bytes → Buffer → Canonical)
    → Inside len b
    → 1 < length b.after
    → ((i' : Bytes) (b' : Buffer) → length i' ≤ length i → Inside len b' → Fits len (next i' b'))
    → (e : Element) → element (c ∷ i) ≡ e
    → Fits len (advance e (c ∷ i) b next)
unfolding advance
advance-Fits len c i b next h room ih repeated is = ih _ b (repeated_skips c i is) h
advance-Fits len c i b next h room ih parent is =
    rw
      (le→ltb (length (rewind b.before b.after).after) 1
        (omega (arith, (rewind-whole b.before b.after).1)))
      (ih _ _ (omega (arith, length-drop 2 i)) (rewind-Inside h))
advance-Fits len c i b next h room ih current is = ih _ b (omega (arith, length-drop 1 i)) h
advance-Fits len c i b next h room ih other is =
    rw (le→ltb (length b.after) 1 (omega arith))
      (ih i (put c b) (omega arith) (put-Inside c room h))

loop-Fits :
    (len fuel : ℕ) (i : Bytes) (b : Buffer)
    → length i ≤ fuel
    → Inside len b
    → Fits len (loop fuel i b)
unfolding loop
loop-Fits len fuel [] b enough h = finish_at-Fits len b.before b.after h
loop-Fits len zero (c ∷ i) b enough h = absurd (omega arith)
loop-Fits len (suc fuel) (c ∷ i) b enough h = elim (Bool-cases (leb (length b.after) 1)) [
  | inl full ↦ rw full tt
  | inr room ↦ rw room (
      advance-Fits len c i b (loop fuel) h (leb→lt (length b.after) 1 room)
        (λ i' b' shorter h'. loop-Fits len fuel i' b' (omega arith) h') (element (c ∷ i)) refl)
]

Fits-if :
    (len : ℕ) (b : Bool) (x : Canonical)
    → (b ≡ false → Fits len x)
    → Fits len (if b then null else x)
Fits-if len true x h = tt
Fits-if len false x h = h refl

-- For every input and every array, whatever it holds, the loop ends, no byte is written behind the
-- array, neither in the loop nor behind it, and a result is shorter than the array.
pub canonicalize_path-Fits :
    (input path : Bytes) → Fits (length path) (canonicalize_path input path)
unfolding canonicalize_path
canonicalize_path-Fits input path =
    Fits-if (length path) (not (char_at input 0 == b'/') || ltb (length path) 3) _ λ passed.
      let long =
        ltb→le (length path) 3
          (||-eq_false (not (char_at input 0 == b'/')) (ltb (length path) 3) passed).1 in
      loop-Fits (length path) (length input) input (record { before = []; after = path })
        (omega arith) (omega arith)
