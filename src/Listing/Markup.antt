-- ===== src/Listing/Markup.antt =====
-- What names of files can add to the page that `server_file_index` of server_file.c writes.
use fuzz_httpd.Base.{
  ℕ, ◌≡◌, ◌≢◌, Bool, true, false, not, ◌&&◌, List, [], ◌∷◌, ◌++◌, Bytes, All, codes,
}
use fuzz_httpd.Listing.{
  Entry, EntryKind, gone, folder, other_kind, file, is_hidden, page_end, page_head,
}

-- Text between tags: no `<` and no `>`.
abbrev pub InText : Bytes → Type 0
InText = All (λ c. (c ≢ b'<') × (c ≢ b'>'))

-- The value of an attribute in double quotes: no quote, and no `<`.
abbrev pub InQuotes : Bytes → Type 0
InQuotes = All (λ c. (c ≢ b'<') × (c ≢ b'"'))

abbrev Encoded : ℕ → Type 0
Encoded c = (c ≢ b'<') × (c ≢ b'"')

abbrev Shown : ℕ → Type 0
Shown c = (c ≢ b'<') × (c ≢ b'>')

abbrev pub has_line : EntryKind → Bool
has_line gone = false
has_line other_kind = false
has_line folder = true
has_line (file size) = true

-- An entry that has a line.
abbrev pub is_shown : Entry → Bool
is_shown e = not (is_hidden e.d_name) && has_line e.kind

-- One link for each entry that is shown, in order: its address within quotes, its text, and what stands
-- behind it up to the next link.
pub data AreLinks : List Entry → Bytes → Type 0 where
  done : AreLinks [] []
  skip :
      {e : Entry} {entries : List Entry} {s : Bytes}
      → is_shown e ≡ false
      → AreLinks entries s
      → AreLinks (e ∷ entries) s
  link_to :
      {e : Entry} {entries : List Entry} {s : Bytes} (address text behind : Bytes)
      → is_shown e ≡ true
      → InQuotes address
      → InText text
      → InText behind
      → AreLinks entries s
      → AreLinks (e ∷ entries) (
          codes "<a href=\""
          ++ (address ++ (codes "\">" ++ (text ++ (codes "</a>" ++ (behind ++ s))))))

-- The page: the texts of the head hold no markup, and then come the links.
abbrev pub IsPage : List Entry → Bytes → Type 0
IsPage entries page =
    (title : Bytes) × (links : Bytes) × InText title
    × AreLinks entries links
    × (page ≡ page_head title ++ (links ++ page_end))

-- The dates of the entries are texts.
abbrev pub PlainTimes : List Entry → Type 0
PlainTimes = All (λ e. InText e.tmstr)
