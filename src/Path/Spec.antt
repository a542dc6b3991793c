-- ===== src/Path/Spec.antt =====
-- What `canonicalize_path` of httpd.c is to compute, told on the segments of the path.
use fuzz_httpd.Base.{
  ℕ, Bool, true, false, List, [], ◌∷◌, ◌++◌, ◌≡◌, ◌≢◌, refl, rev_onto, arith, Bytes, codes, All,
  Lacks, ◌==◌, if◌then◌else◌, Bool-cases, inl, inr, str_eq,
}

-- What a segment stands for.
pub data Kind : Type 0 where
  empty dot dot_dot name : Kind

unfoldable pub kind : Bytes → Kind
kind s =
    if str_eq s []
    then empty
    else if str_eq s (codes ".")
    then dot
    else if str_eq s (codes "..")
    then dot_dot
    else name

abbrev pub push_front : ℕ → List Bytes → List Bytes
push_front c [] = (c ∷ []) ∷ []
push_front c (w ∷ ws) = (c ∷ w) ∷ ws

-- The segments of the text behind the first slash.
abbrev pub split : Bytes → List Bytes
split [] = [] ∷ []
split (c ∷ s) = if c == b'/' then [] ∷ split s else push_front c (split s)

abbrev pub pop : List Bytes → List Bytes
pop [] = []
pop (s ∷ st) = st

-- A segment acts on the stack of directories; an empty one counts only at the end of the path,
-- where it keeps the trailing slash.
abbrev pub enter : Kind → Bool → Bytes → List Bytes → List Bytes
enter empty true s st = s ∷ st
enter empty false s st = st
enter dot last s st = st
enter dot_dot last s st = pop st
enter name last s st = s ∷ st

abbrev pub is_nil : List Bytes → Bool
is_nil [] = true
is_nil (w ∷ ws) = false

abbrev pub resolve : List Bytes → List Bytes → List Bytes
resolve st [] = st
resolve st (s ∷ ws) = resolve (enter (kind s) (is_nil ws) s st) ws

-- The stack as a path, last byte first.
abbrev pub written : List Bytes → Bytes
written [] = []
written (s ∷ st) = rev_onto s [] ++ b'/' ∷ written st

-- The stack as a path; the empty stack is the root.
abbrev pub render : List Bytes → Bytes
render [] = b'/' ∷ []
render (s ∷ st) = rev_onto (written (s ∷ st)) []

-- The path that the segments spell.
abbrev pub spell : List Bytes → Bytes
spell [] = []
spell (s ∷ ws) = b'/' ∷ s ++ spell ws

spell-push_front :
    (c : ℕ) (s : Bytes) (ws : List Bytes)
    → spell ws ≡ b'/' ∷ s
    → spell (push_front c ws) ≡ b'/' ∷ c ∷ s
spell-push_front c s [] h = cc
spell-push_front c s (w ∷ ws) h = cc

pub spell-split : (s : Bytes) → spell (split s) ≡ b'/' ∷ s
spell-split [] = refl
spell-split (c ∷ s) = elim (Bool-cases (c == b'/')) [
  | inl e ↦ rw e (ground (arith, spell-split s))
  | inr n ↦ rw n (spell-push_front c s (split s) (spell-split s))
]

All-push_front :
    (b c : ℕ) (ws : List Bytes) → c ≢ b → All (Lacks b) ws → All (Lacks b) (push_front c ws)
All-push_front b c [] h l = ((h, tt), tt)
All-push_front b c (w ∷ ws) h (hw, l) = ((h, hw), l)

-- No segment holds a slash.
pub split-Lacks : (s : Bytes) → All (Lacks b'/') (split s)
split-Lacks [] = (tt, tt)
split-Lacks (c ∷ s) = elim (Bool-cases (c == b'/')) [
  | inl e ↦ rw e (tt, split-Lacks s)
  | inr n ↦ rw n (All-push_front b'/' c (split s) (ground arith) (split-Lacks s))
]

pub split-Lacks_nul : (s : Bytes) → Lacks 0 s → All (Lacks 0) (split s)
split-Lacks_nul [] h = (tt, tt)
split-Lacks_nul (c ∷ s) (hc, hs) = elim (Bool-cases (c == b'/')) [
  | inl e ↦ rw e (tt, split-Lacks_nul s hs)
  | inr n ↦ rw n (All-push_front 0 c (split s) hc (split-Lacks_nul s hs))
]
