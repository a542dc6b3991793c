-- ===== src/Url/Html.antt =====
-- `escape_html` of httpd.c: what a browser reads from its result, and the room that it needs.
use fuzz_httpd.Base.{
  ℕ, ◌+◌, ◌*◌, ◌≤◌, ◌<◌, ◌≢◌, [], ◌∷◌, ◌++◌, ◌≡◌, arith, Bytes, length, length-append, codes, ◌==◌,
  Bool-cases, inl, inr,
}
use fuzz_httpd.Url.{escape_byte, escape_html}

-- The markup `h` is text without tags, and shows as `t`: a byte other than `<`, `>` and `&` stands
-- for itself, and an entity stands for its byte.
pub data Shows : Bytes → Bytes → Type 0 where
  empty : Shows [] []
  plain : {c : ℕ} {h t : Bytes} → c ≢ b'<' → c ≢ b'>' → c ≢ b'&' → Shows h t → Shows (c ∷ h) (c ∷ t)
  less : {c : ℕ} {h t : Bytes} → c ≡ b'<' → Shows h t → Shows (codes "&lt;" ++ h) (c ∷ t)
  greater : {c : ℕ} {h t : Bytes} → c ≡ b'>' → Shows h t → Shows (codes "&gt;" ++ h) (c ∷ t)
  ampersand : {c : ℕ} {h t : Bytes} → c ≡ b'&' → Shows h t → Shows (codes "&amp;" ++ h) (c ∷ t)

-- The escaped text is free of tags and shows as the text that was escaped, whatever it holds.
pub escape_html-Shows : (s : Bytes) → Shows (escape_html s) s
unfolding escape_html
escape_html-Shows [] = empty
escape_html-Shows (c ∷ s) = elim (Bool-cases (c == b'<')) [
  | inl e ↦ rw e (less (ground arith) (escape_html-Shows s))
  | inr n ↦ elim (Bool-cases (c == b'>')) [
    | inl e ↦ rw (n, e) (greater (ground arith) (escape_html-Shows s))
    | inr m ↦ elim (Bool-cases (c == b'&')) [
      | inl e ↦ rw (n, m, e) (ampersand (ground arith) (escape_html-Shows s))
      | inr k ↦
          rw (n, m, k) (plain (ground arith) (ground arith) (ground arith) (escape_html-Shows s))
    ]
  ]
]

length-escape_byte : (c : ℕ) → length (escape_byte c) ≤ 5
unfolding escape_byte
length-escape_byte c = ground arith

-- The text and its NUL fit into the `5 * (strlen(src) + 1)` bytes that `escape_html` allocates.
pub length-escape_html : (s : Bytes) → length (escape_html s) < 5 * (length s + 1)
unfolding escape_html
length-escape_html [] = omega arith
length-escape_html (c ∷ s) = omega (
  arith,
  length-append (escape_byte c) (escape_html s),
  length-escape_byte c,
  length-escape_html s,
)
