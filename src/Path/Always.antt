-- ===== src/Path/Always.antt =====
-- What `canonicalize_path` of httpd.c writes into an array that may hold anything, as the local array
-- of `server_response` does when a rewritten path is read from it.
use fuzz_httpd.Base.{
  rev_onto, Lacks-rev_onto, ℕ, zero, suc, true, false, List, [], ◌∷◌, ◌++◌, ◌≡◌, refl, Bytes, codes,
  All, Lacks, char_at, ◌==◌, ==_iff, Bool-cases, inl, inr, length, drop, leb, ltb, if-intro, sym,
  subst, arith, rev_onto-append,
}
use fuzz_httpd.Path.{
  rewind, clear, Element, parent, current, other, element, Canonical, canonical, null, overrun,
  out_of_fuel, writes, finish, advance, loop, canonicalize_path, skip_slashes,
}
use fuzz_httpd.Path.Spec.{
  written, render, spell, split, spell-split, split-Lacks, split-Lacks_nul, kind, name,
}
use fuzz_httpd.Path.Safe.{IsName, AreNames, AreNames-names}
use fuzz_httpd.Path.Resolve.{Kind-cases, kind-empty, kind-dot, kind-dot_dot, AtEnd-spell}
use fuzz_httpd.Path.Words.{element-segment, element-ne_slash, loop_repeated, loop_again, loop_plain}

-- What is written is a path of names.
abbrev pub Named : Canonical → Type 0
Named (canonical t) = (st : List Bytes) × (t ≡ render st) × AreNames st
Named null = Unit
Named overrun = Unit
Named out_of_fuel = Unit

abbrev Safe : Bytes → Bytes → Bytes → Type 0
Safe i before after = (fuel : ℕ) → Named (loop fuel i (record { before = before; after = after }))

writes-Named : (n : ℕ) (after : Bytes) (r : Canonical) → Named r → Named (writes n after r)
writes-Named n after r h = if-intro Named (ltb (length after) n) overrun r (λ _. tt) (λ _. h)

module _ (c : ℕ) (i before after : Bytes) where
  Safe-step :
      (e : Element)
      → element (c ∷ i) ≡ e
      → ((fuel : ℕ)
          → Named (advance e (c ∷ i) (record { before = before; after = after }) (loop fuel)))
      → Safe (c ∷ i) before after
  unfolding loop
  Safe-step e is next zero = tt
  Safe-step e is next (suc fuel) =
      if-intro Named (leb (length after) 1) null _ (λ _. tt) (λ _. rw is (next fuel))

  Safe-other :
      element (c ∷ i) ≡ other → Safe i (c ∷ before) (drop 1 after) → Safe (c ∷ i) before after
  unfolding advance
  Safe-other is next = Safe-step other is (λ fuel. writes-Named 1 after _ (next fuel))

  Safe-current :
      element (c ∷ i) ≡ current → Safe (drop 1 i) before after → Safe (c ∷ i) before after
  unfolding advance
  Safe-current is next = Safe-step current is next

  Safe-parent :
      element (c ∷ i) ≡ parent
      → Safe (drop 2 i) (rewind before after).before (clear (rewind before after)).after
      → Safe (c ∷ i) before after
  unfolding advance
  Safe-parent is next =
      Safe-step parent is (λ fuel. writes-Named 1 (rewind before after).after _ (next fuel))

Safe-word :
    (w r before after : Bytes)
    → Lacks b'/' w
    → ((after' : Bytes) → Safe r (rev_onto w before) after')
    → Safe (w ++ r) before after
Safe-word [] r before after l next = next after
Safe-word (c ∷ w) r before after (hc, hw) next =
    Safe-other c (w ++ r) before after (element-ne_slash c (w ++ r) hc)
      (Safe-word w r (c ∷ before) (drop 1 after) hw next)

-- without room for a byte and the NUL, nothing is written
crowded :
    (fuel c : ℕ) (i before after : Bytes)
    → leb (length after) 1 ≡ true
    → Named (loop fuel (c ∷ i) (record { before = before; after = after }))
unfolding loop
crowded zero c i before after e = tt
crowded (suc fuel) c i before after e = rw e tt

module _ (before after : Bytes) (roomy : leb (length after) 1 ≡ false) where
  roomy_repeated : (r : Bytes) → Safe (b'/' ∷ r) before after → Safe (b'/' ∷ b'/' ∷ r) before after
  unfolding skip_slashes loop
  roomy_repeated r next zero = tt
  roomy_repeated [] next (suc fuel) =
      rw (loop_repeated fuel [] before after (ground arith)) (next fuel)
  roomy_repeated (c ∷ r) next (suc fuel) = elim (Bool-cases (c == b'/')) [
    | inl e ↦
        let slash = (==_iff c b'/').0 e in
        subst
          (λ x.
            Named (loop (suc fuel) (b'/' ∷ x ∷ r) (record { before = before; after = after }))
            → Named
                (loop (suc fuel) (b'/' ∷ b'/' ∷ x ∷ r) (record { before = before; after = after })))
          (sym slash) (λ k. rw (loop_again fuel r before after (ground arith)) k) (next (suc fuel))
    | inr n ↦ rw (loop_plain fuel c r before after (ground arith) n) (next fuel)
  ]

Safe-repeated :
    (r before after : Bytes) → Safe (b'/' ∷ r) before after → Safe (b'/' ∷ b'/' ∷ r) before after
Safe-repeated r before after next = elim (Bool-cases (leb (length after) 1)) [
  | inl e ↦ λ fuel. crowded fuel b'/' (b'/' ∷ r) before after e
  | inr n ↦ roomy_repeated before after n r next
]

-- `..` goes back to a slash that was written, or stays where the array held one.
rewind_stays :
    (before after : Bytes)
    → (char_at after 0 == b'/') ≡ true
    → (rewind before after).before ≡ before
unfolding rewind
rewind_stays [] after e = refl
rewind_stays (c ∷ before) after e = rw e refl

rewind_word :
    (w before after : Bytes)
    → Lacks b'/' w
    → (char_at after 0 == b'/') ≡ false
    → (rewind (w ++ b'/' ∷ before) after).before ≡ before
unfolding rewind
rewind_word [] before after l n = rw n (rewind_stays before (b'/' ∷ after) refl)
rewind_word (c ∷ w) before after (hc, hw) n =
    rw n (rewind_word w before (c ∷ after) hw (ground (arith, ==_iff c b'/')))

rewind_names :
    (st : List Bytes) (after : Bytes)
    → All IsName st
    → (st' : List Bytes) × (written st' ≡ (rewind (written st) after).before) × All IsName st'
unfolding rewind
rewind_names [] after h = ([], refl, h)
rewind_names (s ∷ st) after (hs, h) = elim (Bool-cases (char_at after 0 == b'/')) [
  | inl e ↦ (s ∷ st, sym (rewind_stays (written (s ∷ st)) after e), (hs, h))
  | inr n ↦ (
    st,
    sym (
        rewind_word (rev_onto s []) (written st) after (Lacks-rev_onto b'/' s [] hs.no_slash tt) n),
    h,
  )
]

finish_word :
    (w : Bytes) (c : ℕ) (before after : Bytes)
    → Named (canonical (rev_onto (w ++ c ∷ before) []))
    → Named (finish (record { before = w ++ c ∷ before; after = after }))
unfolding finish
finish_word [] c before after h = writes-Named 1 after _ h
finish_word (d ∷ w) c before after h = writes-Named 1 after _ h

finish-Named :
    (st : List Bytes) (after : Bytes)
    → AreNames st
    → Named (finish (record { before = written st; after = after }))
finish-Named [] after h = unfold finish in writes-Named 2 after _ ([], refl, h)
finish-Named (s ∷ st) after h =
    finish_word (rev_onto s []) b'/' (written st) after (s ∷ st, refl, h)

Safe-end : (st : List Bytes) (after : Bytes) → AreNames st → Safe [] (written st) after
unfolding loop
Safe-end st after h fuel = finish-Named st after h

Safe-name :
    (s : Bytes) (ws st : List Bytes) (after : Bytes)
    → kind s ≡ name
    → Lacks b'/' s
    → Lacks 0 s
    → ((after' : Bytes) → Safe (spell ws) (written (s ∷ st)) after')
    → Safe (spell (s ∷ ws)) (written st) after
Safe-name s ws st after k l z next =
    let seen = element-segment s (spell ws) l z (AtEnd-spell ws) (inl (rw k (cc))) in
    Safe-other b'/' (s ++ spell ws) (written st) after (rw k at seen) (
      Safe-word s (spell ws) (b'/' ∷ written st) (drop 1 after) l
        (λ after'. rw (rev_onto-append s (b'/' ∷ written st)) (next after')))

Safe-dot :
    (ws st : List Bytes) (after : Bytes)
    → Safe (spell ws) (written st) after
    → Safe (spell (codes "." ∷ ws)) (written st) after
unfolding kind
Safe-dot ws st after next =
    Safe-current b'/' (b'.' ∷ spell ws) (written st) after
      (element-segment (codes ".") (spell ws) (omega arith) (omega arith) (AtEnd-spell ws)
        (inl (cc)))
      next

Safe-dot_dot :
    (ws st : List Bytes) (after : Bytes)
    → Safe (spell ws) (rewind (written st) after).before (clear (rewind (written st) after)).after
    → Safe (spell (codes ".." ∷ ws)) (written st) after
unfolding kind
Safe-dot_dot ws st after next =
    Safe-parent b'/' (b'.' ∷ b'.' ∷ spell ws) (written st) after
      (element-segment (codes "..") (spell ws) (omega arith) (omega arith) (AtEnd-spell ws)
        (inl (cc)))
      next

Safe-empty :
    (ws st : List Bytes) (after : Bytes)
    → All IsName st
    → Safe (spell ws) (written st) after
    → Safe (spell ([] ∷ ws)) (written st) after
unfolding element
Safe-empty [] st after h next =
    Safe-other b'/' [] (written st) after refl (Safe-end ([] ∷ st) (drop 1 after) (inr refl, h))
Safe-empty (w ∷ ws) st after h next = Safe-repeated (w ++ spell ws) (written st) after next

Safe-segments :
    (ws st : List Bytes) (after : Bytes)
    → All (Lacks b'/') ws
    → All (Lacks 0) ws
    → All IsName st
    → Safe (spell ws) (written st) after
Safe-segments [] st after l z h = Safe-end st after (AreNames-names st h)
Safe-segments (s ∷ ws) st after (lw, l) (zw, z) h = elim (Kind-cases (kind s)) [
  | inl k ↦ rw (kind-empty s k) (Safe-empty ws st after h (Safe-segments ws st after l z h))
  | inr (inl k) ↦ rw (kind-dot s k) (Safe-dot ws st after (Safe-segments ws st after l z h))
  | inr (inr (inl k)) ↦
      let (st', back, names) = rewind_names st after h in
      let cleared = (clear (rewind (written st) after)).after in
      rw (kind-dot_dot s k) (
        Safe-dot_dot ws st after
          (subst (λ x. Safe (spell ws) x cleared) back (Safe-segments ws st' cleared l z names)))
  | inr (inr (inr k)) ↦
      Safe-name s ws st after k lw zw
        (λ after'. Safe-segments ws (s ∷ st) after' l z (record { is_name = k; no_slash = lw }, h))
]

refuses : (c : ℕ) (s path : Bytes) → (c == b'/') ≡ false → canonicalize_path (c ∷ s) path ≡ null
unfolding canonicalize_path
refuses c s path n = rw n refl

-- Whatever the array holds and however long it is: a path that is written names only names from the
-- root, but that its last segment may be empty.
pub canonicalize_path-Named : (s path : Bytes) → Lacks 0 s → Named (canonicalize_path s path)
unfolding canonicalize_path
canonicalize_path-Named [] path z = tt
canonicalize_path-Named (c ∷ s) path (zc, z) = elim (Bool-cases (c == b'/')) [
  | inl e ↦ rw ((==_iff c b'/').0 e) (
      if-intro Named (ltb (length path) 3) null _ (λ _. tt)
        (λ _.
          subst (λ i. (fuel : ℕ) → Named (loop fuel i (record { before = []; after = path })))
            (spell-split s)
            (Safe-segments (split s) [] path (split-Lacks s) (split-Lacks_nul s z) tt)
            (length (b'/' ∷ s))))
  | inr n ↦ rw (refuses c s path n) tt
]
