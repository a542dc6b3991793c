-- ===== src/Media/Find.antt =====
-- What media_find of httpd.c finds once a type was added.
use fuzz_httpd.Base.{
  ℕ, zero, suc, ◌+◌, ◌≤◌, ◌<◌, ◌≡◌, refl, sym, ap, ◌∙◌, Bool, true, false, ◌||◌, List, [], ◌∷◌,
  ◌++◌, none, some, Bytes, Bool-cases, inl, inr, &&-eq_true, ==_iff, arith, char_at, drop, is_empty,
  leb, length, length-append, if-true, str_case_eq, to_lower, ◌==◌, if◌then◌else◌,
}
use fuzz_httpd.Request.Print.{if-false}
use fuzz_httpd.Media.{
  MediaType, component_start, find_component, find_entry, media_add, media_delete, media_eq,
  media_find, media_namemax,
}

-- Two names that are equal to a third, but for case, are equal.
case_via :
    (s t u : Bytes) → str_case_eq s u ≡ true → str_case_eq t u ≡ true → str_case_eq s t ≡ true
unfolding str_case_eq
case_via [] [] u h k = refl
case_via [] (d ∷ t) [] h k = absurd (ground (arith, k))
case_via [] (d ∷ t) (e ∷ u) h k = absurd (ground (arith, h))
case_via (c ∷ s) t [] h k = absurd (ground (arith, h))
case_via (c ∷ s) [] (e ∷ u) h k = absurd (ground (arith, k))
case_via (c ∷ s) (d ∷ t) (e ∷ u) h k =
    let (same, more) = &&-eq_true (to_lower c == to_lower e) (str_case_eq s u) h in
    let (same', more') = &&-eq_true (to_lower d == to_lower e) (str_case_eq t u) k in
    let equal : (to_lower c == to_lower d) ≡ true = (==_iff (to_lower c) (to_lower d)).1 (
      (==_iff (to_lower c) (to_lower e)).0 same
      ∙ sym ((==_iff (to_lower d) (to_lower e)).0 same')) in
    rw equal (case_via s t u more more')

-- Another name is not found where an entry was taken out.
find_entry-media_delete :
    (name other : Bytes) (types : List MediaType)
    → str_case_eq name other ≡ false
    → find_entry name (media_delete other types) ≡ find_entry name types
unfolding find_entry media_delete
find_entry-media_delete name other [] h = refl
find_entry-media_delete name other (media ∷ types) h = elim (Bool-cases (media_eq other media)) [
  | inl same ↦ elim (Bool-cases (media_eq name media)) [
    | inl found ↦ absurd (ground (arith, h, case_via name other media.media_name found same))
    | inr not_found ↦ rw same (rw not_found refl)
  ]
  | inr differs ↦ rw differs (
      ap (λ x. if media_eq name media then some media else x)
        (find_entry-media_delete name other types h))
]

at_end : (s e : Bytes) → drop (length s) (s ++ e) ≡ e
at_end [] e = refl
at_end (c ∷ s) e = at_end s e

-- no end of a component in a name
abbrev pub IsPlain : Bytes → Type 0
IsPlain [] = Unit
IsPlain (c ∷ s) = ((c == b'.' || c == b'/') ≡ false) × IsPlain s

plain-at :
    (e : Bytes) (i : ℕ)
    → IsPlain e
    → i < length e
    → (char_at e i == b'.' || char_at e i == b'/') ≡ false
plain-at [] i h l = absurd (omega arith)
plain-at (c ∷ e) zero (h, hs) l = h
plain-at (c ∷ e) (suc i) (h, hs) l = plain-at e i hs (omega arith)

char_at-append : (s e : Bytes) (i : ℕ) → char_at (s ++ e) (length s + i) ≡ char_at e i
char_at-append [] e i = ap (char_at e) (omega arith)
char_at-append (c ∷ s) e i =
    let later : suc (length s) + i ≡ suc (length s + i) = omega arith in
    ap (char_at (c ∷ (s ++ e))) later ∙ char_at-append s e i

drop_after : (s e : Bytes) (d : ℕ) → drop (suc (length s)) (s ++ d ∷ e) ≡ e
drop_after [] e d = refl
drop_after (c ∷ s) e d = drop_after s e d

abbrev ends : ℕ → Bool
ends c = c == b'.' || c == b'/'

module _ (s e : Bytes) (d : ℕ) (is_end : ends d ≡ true) (plain : IsPlain e) where
  -- From a place in the last component the loop goes back to its start.
  component_start-lem :
      (k n : ℕ)
      → k ≤ length e
      → n ≡ suc (length s) + k
      → component_start (s ++ d ∷ e) n ≡ suc (length s)
  unfolding component_start
  component_start-lem k zero l at = absurd (omega (arith, at))
  component_start-lem zero (suc p) l at =
      let place : p ≡ length s + 0 = omega (arith, at) in
      let here : ends (char_at (s ++ d ∷ e) p) ≡ true =
        ap (λ i. ends (char_at (s ++ d ∷ e) i)) place
        ∙ ap ends (char_at-append s (d ∷ e) 0)
        ∙ is_end in
      if-true (ends (char_at (s ++ d ∷ e) p)) (suc p) (component_start (s ++ d ∷ e) p) here
      ∙ omega (arith, at)
  component_start-lem (suc k) (suc p) l at =
      let place : p ≡ length s + suc k = omega (arith, at) in
      let inside : ends (char_at (s ++ d ∷ e) p) ≡ false =
        ap (λ i. ends (char_at (s ++ d ∷ e) i)) place
        ∙ ap ends (char_at-append s (d ∷ e) (suc k))
        ∙ plain-at e k plain (omega (arith, l)) in
      if-false (ends (char_at (s ++ d ∷ e) p)) (suc p) (component_start (s ++ d ∷ e) p) inside
      ∙ component_start-lem k p (omega (arith, l)) (omega (arith, at))

  component : drop (component_start (s ++ d ∷ e) (length (s ++ d ∷ e))) (s ++ d ∷ e) ≡ e
  component =
      ap (λ n. drop n (s ++ d ∷ e))
        (component_start-lem (length e) (length (s ++ d ∷ e)) (omega arith)
          (omega (arith, length-append s (d ∷ e))))
      ∙ drop_after s e d

  found_by :
      is_empty e ≡ false
      → length e < media_namemax
      → (types : List MediaType) → media_find types (s ++ d ∷ e) ≡ find_entry e types
  unfolding media_find
  found_by some_bytes short types =
      ap (find_component types) component
      ∙ if-false (is_empty e) none _ some_bytes
      ∙ if-false (leb media_namemax (length e)) none (find_entry e types) (ground arith)

  -- For a file whose last component ends in an extension of fewer than 128 bytes: once a type was
  -- added, it is found for its own extension, whatever the case, and any other extension finds what it
  -- found before.
  pub media_find-media_add :
      (types : List MediaType) (media : MediaType)
      → is_empty e ≡ false
      → length e < media_namemax
      → media_find (media_add types media) (s ++ d ∷ e)
        ≡ (if str_case_eq e media.media_name then some media else media_find types (s ++ d ∷ e))
  unfolding media_add find_entry
  media_find-media_add types media some_bytes short =
      let found = found_by some_bytes short in
      found (media_add types media) ∙ elim (Bool-cases (str_case_eq e media.media_name)) [
        | inl same ↦ rw same refl
        | inr other ↦
            rw other (find_entry-media_delete e media.media_name types other ∙ sym (found types))
      ]
