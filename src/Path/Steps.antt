-- ===== src/Path/Steps.antt =====
-- How `canonicalize_path` of httpd.c takes one segment: the words it copies, and the element that
-- it sees at a slash.
use fuzz_httpd.Base.{
  ℕ, zero, suc, ◌+◌, ◌≤◌, ◌<◌, [], ◌∷◌, ◌≡◌, arith, Bytes, length, drop, length-drop, lt→leb,
  le→ltb,
}
use fuzz_httpd.Path.{
  rewind, clear, Element, parent, current, other, element, canonical, advance, loop,
}

-- To read backwards moves bytes, and takes none.
pub rewind-whole :
    (before after : Bytes)
    → (length (rewind before after).before + length (rewind before after).after
        ≡ length before + length after)
      × (length after ≤ length (rewind before after).after)
unfolding rewind
rewind-whole [] after = omega arith
rewind-whole (c ∷ before) after = ground (arith, rewind-whole before (c ∷ after))

-- The loop from `i`, at every fuel that suffices, writes `t`.
abbrev pub Gives : Bytes → Bytes → Bytes → Bytes → Type 0
Gives i before after t =
    (fuel : ℕ)
    → length i ≤ fuel
    → loop fuel i (record { before = before; after = after }) ≡ canonical t

module _ (c : ℕ) (i before after t : Bytes) (room : 1 < length after) where
  Gives-step :
      (e : Element)
      → element (c ∷ i) ≡ e
      → ((fuel : ℕ)
          → length i ≤ fuel
          → advance e (c ∷ i) (record { before = before; after = after }) (loop fuel) ≡ canonical t)
      → Gives (c ∷ i) before after t
  unfolding loop
  Gives-step e is next zero h = absurd (omega arith)
  Gives-step e is next (suc fuel) h =
      rw (is, lt→leb 1 (length after) room) (next fuel (omega arith))

  pub Gives-other :
      element (c ∷ i) ≡ other → Gives i (c ∷ before) (drop 1 after) t → Gives (c ∷ i) before after t
  unfolding advance
  Gives-other is next =
      Gives-step other is (λ fuel h. rw (le→ltb (length after) 1 (omega arith)) (next fuel h))

  pub Gives-current :
      element (c ∷ i) ≡ current → Gives (drop 1 i) before after t → Gives (c ∷ i) before after t
  unfolding advance
  Gives-current is next =
      Gives-step current is (λ fuel h. next fuel (omega (arith, length-drop 1 i)))

  pub Gives-parent :
      element (c ∷ i) ≡ parent
      → Gives (drop 2 i) (clear (rewind before after)).before (clear (rewind before after)).after t
      → Gives (c ∷ i) before after t
  unfolding advance
  Gives-parent is next =
      let fits =
        le→ltb (length (rewind before after).after) 1
          (omega (arith, (rewind-whole before after).1)) in
      Gives-step parent is (λ fuel h. rw fits (next fuel (omega (arith, length-drop 2 i))))
