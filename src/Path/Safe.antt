-- ===== src/Path/Safe.antt =====
-- What a path that `canonicalize_path` of httpd.c wrote can name.
use fuzz_httpd.Base.{
  ◌≤◌, ◌<◌, true, false, List, [], ◌∷◌, ◌≡◌, ◌⊎◌, refl, Bytes, All, Lacks, inl, inr, length,
}
use fuzz_httpd.Path.{canonical, canonicalize_path}
use fuzz_httpd.Path.Spec.{
  render, resolve, split, enter, split-Lacks, pop, kind, Kind, empty, dot, dot_dot, name,
}
use fuzz_httpd.Path.Resolve.{kind-empty, canonicalize_path-resolve}

-- A directory or file name: no slash, and neither empty nor one of the two special names.
pub record IsName (s : Bytes) : Type 0 where
  pub is_name : kind s ≡ name
  pub no_slash : Lacks b'/' s

-- All the segments are names, but that the last, the top of the stack, may be empty.
abbrev pub AreNames : List Bytes → Type 0
AreNames [] = Unit
AreNames (s ∷ st) = (IsName s ⊎ (s ≡ [])) × All IsName st

pop-names : (st : List Bytes) → All IsName st → All IsName (pop st)
pop-names [] h = tt
pop-names (s ∷ st) (_, h) = h

enter-names :
    (s : Bytes) (st : List Bytes) (k : Kind)
    → kind s ≡ k
    → Lacks b'/' s
    → All IsName st
    → All IsName (enter k false s st)
enter-names s st empty e l h = h
enter-names s st dot e l h = h
enter-names s st dot_dot e l h = pop-names st h
enter-names s st name e l h = (record { is_name = e; no_slash = l }, h)

pub AreNames-names : (st : List Bytes) → All IsName st → AreNames st
AreNames-names [] h = tt
AreNames-names (s ∷ st) (hs, h) = (inl hs, h)

enter-AreNames :
    (s : Bytes) (st : List Bytes) (k : Kind)
    → kind s ≡ k
    → Lacks b'/' s
    → All IsName st
    → AreNames (enter k true s st)
enter-AreNames s st empty e l h = (inr (kind-empty s e), h)
enter-AreNames s st dot e l h = AreNames-names st h
enter-AreNames s st dot_dot e l h = AreNames-names (pop st) (pop-names st h)
enter-AreNames s st name e l h = (inl (record { is_name = e; no_slash = l }), h)

resolve-AreNames :
    (ws st : List Bytes) → All (Lacks b'/') ws → All IsName st → AreNames (resolve st ws)
resolve-AreNames [] st l h = AreNames-names st h
resolve-AreNames (s ∷ []) st (ls, l) h = enter-AreNames s st (kind s) refl ls h
resolve-AreNames (s ∷ w ∷ ws) st (ls, l) h =
    resolve-AreNames (w ∷ ws) _ l (enter-names s st (kind s) refl ls h)

-- In an array that is long enough and holds no slash yet, the result is a slash-separated path of
-- names from the root: no `.`, no `..` and no repeated slash is left, so it cannot leave the root.
-- Only its last segment may be empty, for a trailing slash.
pub canonicalize_path-AreNames :
    (s path : Bytes)
    → Lacks 0 s
    → Lacks b'/' path
    → 3 ≤ length path
    → length (b'/' ∷ s) < length path
    → (st : List Bytes) × (canonicalize_path (b'/' ∷ s) path ≡ canonical (render st)) × AreNames st
canonicalize_path-AreNames s path z l three room = (
  resolve [] (split s),
  canonicalize_path-resolve s path z l three room,
  resolve-AreNames (split s) [] (split-Lacks s) tt,
)
