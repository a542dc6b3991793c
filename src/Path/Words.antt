-- ===== src/Path/Words.antt =====
-- How `canonicalize_path` of httpd.c takes one segment: what it sees at the slash, the word that it
-- copies behind it, the slashes that it skips and the directory that `..` removes.
use fuzz_httpd.Base.{
  rev_onto, Lacks-rev_onto, length-rev_onto, length-append, ℕ, zero, suc, ◌+◌, ◌≤◌, ◌<◌, false,
  List, [], ◌∷◌, ◌++◌, ◌≡◌, ◌≢◌, ◌⊎◌, refl, arith, Bytes, All, Lacks, ◌==◌, Bool-cases, ==_iff, inl,
  inr, length, drop, length-drop, lt→leb, sym, subst,
}
use fuzz_httpd.Path.{
  Buffer, rewind, clear, Element, repeated, parent, current, other, element, skip_slashes, advance,
  loop, canonical,
}
use fuzz_httpd.Path.Spec.{written, pop, kind, Kind, empty, dot, dot_dot, name}
use fuzz_httpd.Path.Steps.{Gives, Gives-other}

-- A segment ends at a slash or at the end of the path.
abbrev pub AtEnd : Bytes → Type 0
AtEnd [] = Unit
AtEnd (c ∷ r) = c ≡ b'/'

abbrev pub element_of : Kind → Element
element_of empty = repeated
element_of dot = current
element_of dot_dot = parent
element_of name = other

-- At a slash before a segment the loop sees what the segment stands for; at the end of the path an
-- empty segment is no repeated slash.
pub element-segment :
    (s r : Bytes)
    → Lacks b'/' s
    → Lacks 0 s
    → AtEnd r
    → (kind s ≢ empty) ⊎ (r ≢ [])
    → element (b'/' ∷ s ++ r) ≡ element_of (kind s)
unfolding element kind
element-segment [] [] l z e h = ground arith
element-segment [] (c ∷ r) l z e h = ground arith
element-segment (a ∷ []) [] l z e h = ground arith
element-segment (a ∷ []) (c ∷ r) l z e h = ground arith
element-segment (a ∷ b ∷ []) [] l z e h = ground arith
element-segment (a ∷ b ∷ []) (c ∷ r) l z e h = ground arith
element-segment (a ∷ b ∷ d ∷ s) r l z e h = ground arith

pub element-ne_slash : (c : ℕ) (i : Bytes) → c ≢ b'/' → element (c ∷ i) ≡ other
unfolding element
element-ne_slash c i h = ground arith

drop-drop_one : (n : ℕ) (xs : Bytes) → drop n (drop 1 xs) ≡ drop (suc n) xs
drop-drop_one zero [] = refl
drop-drop_one zero (x ∷ xs) = refl
drop-drop_one (suc n) [] = refl
drop-drop_one (suc n) (x ∷ xs) = refl

-- A word without a slash is copied.
pub Gives-word :
    (w r before after t : Bytes)
    → Lacks b'/' w
    → length w + length r < length after
    → Gives r (rev_onto w before) (drop (length w) after) t
    → Gives (w ++ r) before after t
Gives-word [] r before after t l room next = next
Gives-word (c ∷ w) r before after t (hc, hw) room next =
    Gives-other c (w ++ r) before after t (omega arith) (element-ne_slash c (w ++ r) hc) (
      Gives-word w r (c ∷ before) (drop 1 after) t hw (omega (arith, length-drop 1 after))
        (rw (drop-drop_one (length w) after) next))

element_repeated : (r : Bytes) → element (b'/' ∷ b'/' ∷ r) ≡ repeated
unfolding element
element_repeated r = refl

skip_slashes_two : (r : Bytes) → skip_slashes (b'/' ∷ b'/' ∷ r) ≡ skip_slashes (b'/' ∷ r)
unfolding skip_slashes
skip_slashes_two r = refl

pub loop_repeated :
    (fuel : ℕ) (r before after : Bytes)
    → 1 < length after
    → loop (suc fuel) (b'/' ∷ b'/' ∷ r) (record { before = before; after = after })
      ≡ loop fuel (skip_slashes (b'/' ∷ r)) (record { before = before; after = after })
unfolding loop advance
loop_repeated fuel r before after room =
    rw (lt→leb 1 (length after) room, element_repeated r, skip_slashes_two r)

pub loop_again :
    (fuel : ℕ) (r before after : Bytes)
    → 1 < length after
    → loop (suc fuel) (b'/' ∷ b'/' ∷ b'/' ∷ r) (record { before = before; after = after })
      ≡ loop (suc fuel) (b'/' ∷ b'/' ∷ r) (record { before = before; after = after })
loop_again fuel r before after room = rw (
  loop_repeated fuel (b'/' ∷ r) before after room,
  loop_repeated fuel r before after room,
  skip_slashes_two r,
)

pub loop_plain :
    (fuel c : ℕ) (r before after : Bytes)
    → 1 < length after
    → (c == b'/') ≡ false
    → loop (suc fuel) (b'/' ∷ b'/' ∷ c ∷ r) (record { before = before; after = after })
      ≡ loop fuel (b'/' ∷ c ∷ r) (record { before = before; after = after })
unfolding skip_slashes
loop_plain fuel c r before after room n = rw (loop_repeated fuel (c ∷ r) before after room, n)

-- Of several slashes all but the last are skipped.
pub Gives-repeated :
    (r before after t : Bytes)
    → 1 < length after
    → Gives (b'/' ∷ r) before after t
    → Gives (b'/' ∷ b'/' ∷ r) before after t
Gives-repeated r before after t room next zero h = absurd (omega arith)
Gives-repeated [] before after t room next (suc fuel) h =
    rw (loop_repeated fuel [] before after room) (unfold skip_slashes in next fuel (omega arith))
Gives-repeated (c ∷ r) before after t room next (suc fuel) h = elim (Bool-cases (c == b'/')) [
  | inl e ↦
      let slash = (==_iff c b'/').0 e in
      subst
        (λ x.
          loop (suc fuel) (b'/' ∷ x ∷ r) (record { before = before; after = after }) ≡ canonical t
          → loop (suc fuel) (b'/' ∷ b'/' ∷ x ∷ r) (record { before = before; after = after })
            ≡ canonical t)
        (sym slash) (λ k. rw (loop_again fuel r before after room) k)
        (next (suc fuel) (omega arith))
  | inr n ↦ rw (loop_plain fuel c r before after room n) (next fuel (omega arith))
]

-- Reading backwards through bytes that are no slashes.
rewind-word :
    (w before after : Bytes)
    → Lacks b'/' w
    → Lacks b'/' after
    → rewind (w ++ before) after ≡ rewind before (rev_onto w after)
unfolding rewind
rewind-word [] before after hw ha = refl
rewind-word (c ∷ w) before [] (hc, hw) ha = rewind-word w before (c ∷ []) hw (hc, tt)
rewind-word (c ∷ w) before (a ∷ after) (hc, hw) ha =
    ground (arith, rewind-word w before (c ∷ a ∷ after) hw (hc, ha))

rewind-slash :
    (before after : Bytes)
    → Lacks b'/' after
    → rewind (b'/' ∷ before) after ≡ record { before = before; after = b'/' ∷ after }
unfolding rewind
rewind-slash [] [] ha = refl
rewind-slash [] (a ∷ after) ha = ground arith
rewind-slash (c ∷ before) [] ha = refl
rewind-slash (c ∷ before) (a ∷ after) ha = ground arith

pub Lacks-drop : (b n : ℕ) (xs : Bytes) → Lacks b xs → Lacks b (drop n xs)
Lacks-drop b zero xs h = h
Lacks-drop b (suc n) [] h = tt
Lacks-drop b (suc n) (x ∷ xs) (_, h) = Lacks-drop b n xs h

-- What `..` leaves: the directory above, and no slash and no less room behind it.
pub record Removed (st : List Bytes) (after : Bytes) (b : Buffer) : Type 0 where
  pub before_lem : b.before ≡ written (pop st)
  pub after-Lacks : Lacks b'/' b.after
  pub room : length after ≤ length b.after
  pub whole : length b.before + length b.after ≡ length (written st) + length after

pub clear-rewind :
    (st : List Bytes) (after : Bytes)
    → All (Lacks b'/') st
    → Lacks b'/' after
    → Removed st after (clear (rewind (written st) after))
clear-rewind [] [] hs ha =
    unfold rewind in
    record { before_lem = refl; after-Lacks = tt; room = omega arith; whole = refl }
clear-rewind [] (a ∷ after) hs (_, ha) =
    unfold rewind in
    record { before_lem = refl; after-Lacks = (omega arith, ha); room = omega arith; whole = refl }
clear-rewind (s ∷ st) after (hw, hs) ha =
    let word = Lacks-rev_onto b'/' s [] hw tt in
    let moved = Lacks-rev_onto b'/' (rev_onto s []) after word ha in
    rw
      (
        rewind-word (rev_onto s []) (b'/' ∷ written st) after word ha,
        rewind-slash (written st) _ moved,
      )
      (record {
        before_lem = refl;
        after-Lacks = (omega arith, moved);
        room = omega (arith, length-rev_onto (rev_onto s []) after);
        whole = omega (
          arith,
          length-rev_onto (rev_onto s []) after,
          length-append (rev_onto s []) (b'/' ∷ written st),
        );
      })
