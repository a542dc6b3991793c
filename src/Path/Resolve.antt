-- ===== src/Path/Resolve.antt =====
-- `canonicalize_path` of httpd.c computes what Path/Spec.antt tells on segments.
use fuzz_httpd.Base.{
  rev_onto, rev_onto-append, ℕ, suc, ◌≤◌, ◌<◌, List, [], ◌∷◌, ◌++◌, ◌≡◌, ◌⊎◌, refl, arith, Bytes,
  codes, All, Lacks, inl, inr, length, drop, length-drop, length-append, str_eq_iff, le→ltb, ap,
  ◌+◌, subst, ◌∙◌,
}
use fuzz_httpd.Path.{Buffer, clear, rewind, element, finish, canonical, loop, canonicalize_path}
use fuzz_httpd.Path.Spec.{
  written, render, resolve, spell, split, enter, is_nil, spell-split, split-Lacks, split-Lacks_nul,
  pop, kind, Kind, empty, dot, dot_dot, name,
}
use fuzz_httpd.Path.Steps.{Gives, Gives-other, Gives-current, Gives-parent}
use fuzz_httpd.Path.Words.{
  AtEnd, element-segment, element_of, Gives-word, Gives-repeated, Lacks-drop, Removed, clear-rewind,
}

pub Kind-cases : (k : Kind) → (k ≡ empty) ⊎ (k ≡ dot) ⊎ (k ≡ dot_dot) ⊎ (k ≡ name)
Kind-cases empty = inl refl
Kind-cases dot = inr (inl refl)
Kind-cases dot_dot = inr (inr (inl refl))
Kind-cases name = inr (inr (inr refl))

pub kind-empty : (s : Bytes) → kind s ≡ empty → s ≡ []
unfolding kind
kind-empty s h = ground (arith, str_eq_iff s [])

pub kind-dot : (s : Bytes) → kind s ≡ dot → s ≡ codes "."
unfolding kind
kind-dot s h = ground (arith, str_eq_iff s (codes "."))

pub kind-dot_dot : (s : Bytes) → kind s ≡ dot_dot → s ≡ codes ".."
unfolding kind
kind-dot_dot s h = ground (arith, str_eq_iff s (codes ".."))

pub AtEnd-spell : (ws : List Bytes) → AtEnd (spell ws)
AtEnd-spell [] = tt
AtEnd-spell (w ∷ ws) = refl

finish-append :
    (w : Bytes) (c : ℕ) (acc after : Bytes)
    → 0 < length after
    → finish (record { before = w ++ c ∷ acc; after = after })
      ≡ canonical (rev_onto (w ++ c ∷ acc) [])
unfolding finish
finish-append [] c acc after room = rw (le→ltb (length after) 1 room)
finish-append (d ∷ w) c acc after room = rw (le→ltb (length after) 1 room)

finish-written :
    (st : List Bytes) (after : Bytes)
    → 0 < length after
    → 2 ≤ length (written st) + length after
    → finish (record { before = written st; after = after }) ≡ canonical (render st)
finish-written [] after room two = unfold finish in rw (le→ltb (length after) 2 (omega arith))
finish-written (s ∷ st) after room two = finish-append (rev_onto s []) b'/' (written st) after room

Gives-nil :
    (st : List Bytes) (after : Bytes)
    → 0 < length after
    → 2 ≤ length (written st) + length after
    → Gives [] (written st) after (render st)
unfolding loop
Gives-nil st after room two fuel h = finish-written st after room two

module _ (s : Bytes) (ws st : List Bytes) (after t : Bytes)
    (room : length (spell (s ∷ ws)) < length after) where
  Gives-name :
      kind s ≡ name
      → Lacks b'/' s
      → Lacks 0 s
      → Gives (spell ws) (written (s ∷ st)) (drop (length s) (drop 1 after)) t
      → Gives (spell (s ∷ ws)) (written st) after t
  Gives-name k l z next =
      let size = length-append s (spell ws) in
      let seen = element-segment s (spell ws) l z (AtEnd-spell ws) (inl (rw k (cc))) in
      Gives-other b'/' (s ++ spell ws) (written st) after t (omega (arith, size))
        (seen ∙ ap element_of k)
        (Gives-word s (spell ws) (b'/' ∷ written st) (drop 1 after) t l
          (omega (arith, size, length-drop 1 after))
          (rw (rev_onto-append s (b'/' ∷ written st)) next))

Gives-dot :
    (ws st : List Bytes) (after t : Bytes)
    → length (spell (codes "." ∷ ws)) < length after
    → Gives (spell ws) (written st) after t
    → Gives (spell (codes "." ∷ ws)) (written st) after t
unfolding kind
Gives-dot ws st after t room next =
    Gives-current b'/' (b'.' ∷ spell ws) (written st) after t (omega arith)
      (element-segment (codes ".") (spell ws) (omega arith) (omega arith) (AtEnd-spell ws)
        (inl (cc)))
      next

Gives-dot_dot :
    (ws st : List Bytes) (after t : Bytes)
    → length (spell (codes ".." ∷ ws)) < length after
    → (b : Buffer) → clear (rewind (written st) after) ≡ b
    → Gives (spell ws) b.before b.after t
    → Gives (spell (codes ".." ∷ ws)) (written st) after t
unfolding kind
Gives-dot_dot ws st after t room b e next =
    Gives-parent b'/' (b'.' ∷ b'.' ∷ spell ws) (written st) after t (omega arith)
      (element-segment (codes "..") (spell ws) (omega arith) (omega arith) (AtEnd-spell ws)
        (inl (cc)))
      (rw e next)

-- Only an empty segment at the end of the path is written.
abbrev behind : List Bytes → Bytes → Bytes
behind [] after = drop 1 after
behind (w ∷ ws) after = after

Gives-empty :
    (ws st : List Bytes) (after t : Bytes)
    → length (spell ([] ∷ ws)) < length after
    → Gives (spell ws) (written (enter empty (is_nil ws) [] st)) (behind ws after) t
    → Gives (spell ([] ∷ ws)) (written st) after t
unfolding element
Gives-empty [] st after t room next = Gives-other b'/' [] (written st) after t room refl next
Gives-empty (w ∷ ws) st after t room next =
    Gives-repeated (w ++ spell ws) (written st) after t (omega arith) next

enter_empty-Lacks :
    (ws st : List Bytes) → All (Lacks b'/') st → All (Lacks b'/') (enter empty (is_nil ws) [] st)
enter_empty-Lacks [] st h = (tt, h)
enter_empty-Lacks (w ∷ ws) st h = h

behind-Lacks : (ws : List Bytes) (after : Bytes) → Lacks b'/' after → Lacks b'/' (behind ws after)
behind-Lacks [] after h = Lacks-drop b'/' 1 after h
behind-Lacks (w ∷ ws) after h = h

behind_room :
    (ws : List Bytes) (after : Bytes)
    → suc (length (spell ws)) < length after
    → length (spell ws) < length (behind ws after)
behind_room [] after h = omega (arith, length-drop 1 after)
behind_room (w ∷ ws) after h = omega arith

pop-Lacks : (st : List Bytes) → All (Lacks b'/') st → All (Lacks b'/') (pop st)
pop-Lacks [] h = h
pop-Lacks (s ∷ st) (_, h) = h

-- The root and its NUL have room, whatever was removed.
behind_two :
    (ws st : List Bytes) (after : Bytes)
    → suc (length (spell ws)) < length after
    → 2 ≤ length (written st) + length after
    → 2 ≤ length (written (enter empty (is_nil ws) [] st)) + length (behind ws after)
behind_two [] st after room two = omega (arith, length-drop 1 after)
behind_two (w ∷ ws) st after room two = two

popped_two :
    (st : List Bytes) (after : Bytes)
    → (b : Buffer) → Removed st after b
    → 2 ≤ length (written st) + length after
    → 2 ≤ length (written (pop st)) + length b.after
popped_two st after b removed two =
    subst (λ x. 2 ≤ length x + length b.after) removed.before_lem (omega (arith, removed.whole))

written_pos : (s : Bytes) (st : List Bytes) → 0 < length (written (s ∷ st))
written_pos s st = omega (arith, length-append (rev_onto s []) (b'/' ∷ written st))

-- The whole walk over the segments.
Gives-resolve :
    (ws st : List Bytes) (after : Bytes)
    → All (Lacks b'/') ws
    → All (Lacks 0) ws
    → All (Lacks b'/') st
    → Lacks b'/' after
    → length (spell ws) < length after
    → 2 ≤ length (written st) + length after
    → Gives (spell ws) (written st) after (render (resolve st ws))
Gives-resolve [] st after l z ls la room two = Gives-nil st after room two
Gives-resolve (s ∷ ws) st after (lw, l) (zw, z) ls la room two =
    let size = length-append s (spell ws) in
    elim (Kind-cases (kind s)) [
      | inl k ↦
          let e = kind-empty s k in
          rw (k, e)
            (Gives-empty ws st after _ (rw e at room) (
              Gives-resolve ws (enter empty (is_nil ws) [] st) (behind ws after) l z
                (enter_empty-Lacks ws st ls) (behind-Lacks ws after la)
                (behind_room ws after (rw e at room)) (behind_two ws st after (rw e at room) two)))
      | inr (inl k) ↦
          let e = kind-dot s k in
          rw (k, e)
            (Gives-dot ws st after _ (rw e at room)
              (Gives-resolve ws st after l z ls la (omega (arith, size)) two))
      | inr (inr (inl k)) ↦
          let e = kind-dot_dot s k in
          let b = clear (rewind (written st) after) in
          let removed = clear-rewind st after ls la in
          rw (k, e)
            (Gives-dot_dot ws st after _ (rw e at room) b refl (
              rw removed.before_lem (
                Gives-resolve ws (pop st) b.after l z (pop-Lacks st ls) removed.after-Lacks
                  (omega (arith, size, removed.room)) (popped_two st after b removed two))))
      | inr (inr (inr k)) ↦ rw k (
          Gives-name s ws st after (render (resolve (s ∷ st) ws)) room k lw zw (
            Gives-resolve ws (s ∷ st) (drop (length s) (drop 1 after)) l z (lw, ls)
              (Lacks-drop b'/' (length s) (drop 1 after) (Lacks-drop b'/' 1 after la))
              (omega (arith, size, length-drop 1 after, length-drop (length s) (drop 1 after)))
              (omega (
                arith,
                size,
                length-drop 1 after,
                length-drop (length s) (drop 1 after),
                written_pos s st,
              ))))
    ]

canonicalize_path-loop :
    (s path : Bytes)
    → 3 ≤ length path
    → canonicalize_path (b'/' ∷ s) path
      ≡ loop (length (b'/' ∷ s)) (b'/' ∷ s) (record { before = []; after = path })
unfolding canonicalize_path
canonicalize_path-loop s path h = rw (le→ltb (length path) 3 h)

-- In an array that is long enough and holds no slash yet, `canonicalize_path` writes the path that
-- its segments resolve to.
pub canonicalize_path-resolve :
    (s path : Bytes)
    → Lacks 0 s
    → Lacks b'/' path
    → 3 ≤ length path
    → length (b'/' ∷ s) < length path
    → canonicalize_path (b'/' ∷ s) path ≡ canonical (render (resolve [] (split s)))
canonicalize_path-resolve s path z l three room =
    let walk =
      subst (λ i. Gives i [] path (render (resolve [] (split s)))) (spell-split s)
        (Gives-resolve (split s) [] path (split-Lacks s) (split-Lacks_nul s z) tt l
          (rw (spell-split s) room) (omega arith)) in
    canonicalize_path-loop s path three ∙ walk (length (b'/' ∷ s)) (omega arith)
