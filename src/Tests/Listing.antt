-- ===== src/Tests/Listing.antt =====
-- The page of a directory with a file whose name is markup.
use fuzz_httpd.Base.{ℕ, ◌+◌, ◌%◌, [], ◌∷◌, List, Bytes, codes}
use fuzz_httpd.Listing.{Entry, EntryKind, file, folder}

abbrev entry : Bytes → EntryKind → Entry
entry name kind = record { d_name = name; kind = kind; tmstr = codes "01-Jan-2024 10:00" }

abbrev entries : List Entry
entries =
    entry (codes ".hidden") (file 3)
    ∷ entry (codes "<b>") (file 3)
    ∷ entry (codes "a:b") folder
    ∷ []

abbrev last_digit : ℕ → Bytes
last_digit n = (b'0' + n % 10) ∷ []
