-- ===== src/Path/Strip.antt =====
-- `server_root_strip` of server_http.c and `path_info` of httpd.c. Whether `stat` finds a path is
-- an argument of `path_info`.
use fuzz_httpd.Base.{
  ℕ, zero, suc, ◌≤◌, ◌<◌, Bool, true, false, ◌&&◌, not, List, [], ◌∷◌, ◌++◌, ◌≡◌, ◌≢◌, inl, inr,
  refl, arith, Bytes, All, Lacks, ◌==◌, if◌then◌else◌, char_at, length, ltb, take, drop, Bool-cases,
}
use native.Mathlib.Decide.{dec_lt}
use fuzz_httpd.Path.Spec.{spell}

-- `strchr(path, '/')`, or the end of the path
unfoldable pub from_slash : Bytes → Bytes
from_slash [] = []
from_slash (c ∷ s) = if c == b'/' then c ∷ s else from_slash s

unfoldable pub server_root_strip : Bytes → ℕ → Bytes
unfolding from_slash
server_root_strip path zero = path
server_root_strip [] (suc n) = []
server_root_strip (c ∷ path) (suc n) = server_root_strip (from_slash path) n

from_slash-word :
    (w : Bytes) (ws : List Bytes) → Lacks b'/' w → from_slash (w ++ spell ws) ≡ spell ws
unfolding from_slash
from_slash-word [] [] h = refl
from_slash-word [] (w ∷ ws) h = refl
from_slash-word (c ∷ w) ws (hc, hw) = ground (arith, from_slash-word w ws hw)

-- Of a path of segments without slashes, the first `n` are stripped, and the rest is untouched.
pub server_root_strip-spell :
    (ws : List Bytes) (n : ℕ)
    → All (Lacks b'/') ws
    → server_root_strip (spell ws) n ≡ spell (drop n ws)
unfolding server_root_strip
server_root_strip-spell ws zero h = refl
server_root_strip-spell [] (suc n) h = refl
server_root_strip-spell (w ∷ ws) (suc n) (hw, h) =
    rw (from_slash-word w ws hw) (server_root_strip-spell ws n h)

module _ (exists : Bytes → Bool) (path : Bytes) where
  -- Whether the loop looks at the path up to `p`: at its end and before each slash.
  abbrev pub is_cut : ℕ → Bool
  is_cut p = not (ltb p (length path) && not (char_at path p == b'/'))

  unfoldable pub scan_back : ℕ → ℕ
  scan_back zero = zero
  scan_back (suc p) =
      let rest = scan_back p in
      if is_cut (suc p) then (if exists (take (suc p) path) then suc p else rest) else rest

  unfoldable pub path_info : ℕ
  unfolding scan_back
  path_info = scan_back (length path)

  -- The position is the last cut at which `stat` finds a file, or the start.
  pub record LastFound (last p : ℕ) : Type 0 where
    pub in_path : p ≤ last
    pub found : p ≢ 0 → (is_cut p ≡ true) × (exists (take p path) ≡ true)
    pub none_later : (k : ℕ) → p < k → k ≤ last → is_cut k ≡ true → exists (take k path) ≡ false

  LastFound-later :
      (last p : ℕ)
      → (is_cut (suc last) ≡ true → exists (take (suc last) path) ≡ false)
      → LastFound last p
      → LastFound (suc last) p
  LastFound-later last p absent h = record {
    in_path = omega (arith, h.in_path);
    found = h.found;
    none_later = λ k after_p in_path cut. elim (dec_lt k (suc last)) [
      | yes before_last ↦ h.none_later k after_p (omega arith) cut
      | no not_before ↦ let e : k ≡ suc last = omega arith in rw e (absent (rw e at cut))
    ];
  }

  scan_back-LastFound : (last : ℕ) → LastFound last (scan_back last)
  unfolding scan_back
  scan_back-LastFound zero = record {
    in_path = omega arith;
    found = λ ne. absurd (ne refl);
    none_later = λ k after_p in_path. absurd (omega arith);
  }
  scan_back-LastFound (suc p) = elim (Bool-cases (is_cut (suc p))) [
    | inr uncut ↦
        rw uncut (LastFound-later p (scan_back p) (λ cut. ground arith) (scan_back-LastFound p))
    | inl cut ↦ elim (Bool-cases (exists (take (suc p) path))) [
      | inl found ↦
          rw (cut, found)
            (record {
              in_path = omega arith;
              found = λ _. (cut, found);
              none_later = λ k after_p in_path. absurd (omega arith);
            })
      | inr absent ↦
          rw (cut, absent) (LastFound-later p (scan_back p) (λ _. absent) (scan_back-LastFound p))
    ]
  ]

  -- `path_info` stops at the longest leading part of the path that exists.
  pub path_info-LastFound : LastFound (length path) path_info
  unfolding path_info
  path_info-LastFound = scan_back-LastFound (length path)
