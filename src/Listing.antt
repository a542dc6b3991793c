-- ===== src/Listing.antt =====
-- The page of a directory: the document that `server_file_index` of usr.sbin/httpd/server_file.c
-- writes. What `fstatat` and `strftime` give for an entry, and the numbers of `printf`, are parameters.
-- Allocation is assumed to succeed.
pub mod Markup
use fuzz_httpd.Base.{
  ℕ, suc, ◌+◌, ◌-◌, Bool, true, false, not, ◌&&◌, List, [], ◌∷◌, ◌++◌, Option, none, some, Bytes,
  char_at, codes, cut, length, replicate, ◌==◌, if◌then◌else◌,
}
use fuzz_httpd.Url.{escape_html, url_encode}

-- What `fstatat` says of an entry: an error, a directory, a file with its size, or anything else.
pub data EntryKind : Type 0 where
  gone folder other_kind : EntryKind
  file : ℕ → EntryKind

pub record Entry : Type 0 where
  pub d_name : Bytes
  pub kind : EntryKind
  pub tmstr : Bytes

-- a name with a dot in front, but not the parent directory
abbrev pub is_hidden : Bytes → Bool
is_hidden name = char_at name 0 == b'.' && not (char_at name 1 == b'.' && char_at name 2 == 0)

-- `%*s` of a space
abbrev pub gap : ℕ → Bytes
gap width = if width == 0 then 32 ∷ [] else replicate width 32

-- `%20s`
abbrev pub right_20 : Bytes → Bytes
right_20 text = replicate (20 - length text) 32 ++ text

-- a name with a colon must not be read as a scheme
abbrev pub dot_slash : Option (Bytes × Bytes) → Bytes
dot_slash none = []
dot_slash (some parts) = codes "./"

-- the format strings of the two lines; `slash` is that behind a directory
abbrev pub link : Bytes → Bytes → ℕ → Bytes → Bytes → Bytes
link slash name width tmstr size =
    codes "<a href=\""
    ++ (dot_slash (cut b':' (url_encode name))
        ++ (url_encode name
            ++ (slash
                ++ (codes "\">"
                    ++ (escape_html name
                        ++ (slash
                            ++ (codes "</a>"
                                ++ (gap width ++ (tmstr ++ (right_20 size ++ 10 ∷ []))))))))))

abbrev pub style : Bytes
style =
    codes
      "body { background-color: white; color: black; font-family: sans-serif; }\nhr { border: 0; border-bottom: 1px dashed; }\n@media (prefers-color-scheme: dark) {\nbody { background-color: #1E1F21; color: #EEEFF1; }\na { color: #BAD7FF; }\n}"

abbrev pub page_head : Bytes → Bytes
page_head escapedpath =
    codes "<!DOCTYPE html>\n<html>\n<head>\n<meta charset=\"utf-8\">\n<title>Index of "
    ++ (escapedpath
        ++ (codes "</title>\n<style type=\"text/css\"><!--\n"
            ++ (style
                ++ (codes "\n--></style>\n</head>\n<body>\n<h1>Index of "
                    ++ (escapedpath ++ codes "</h1>\n<hr>\n<pre>\n")))))

abbrev pub page_end : Bytes
page_end = codes "</pre>\n<hr>\n</body>\n</html>\n"

module _ (number : ℕ → Bytes) where
  abbrev pub line_by : Entry → EntryKind → Bytes
  line_by e gone = []
  line_by e other_kind = []
  line_by e folder = link (codes "/") e.d_name (51 - length e.d_name - 1) e.tmstr (codes "-")
  line_by e (file size) = link [] e.d_name (51 - length e.d_name) e.tmstr (number size)

  -- the line of an entry, which may be none
  unfoldable pub entry_line : Entry → Bytes
  unfolding url_encode escape_html cut
  entry_line e = if is_hidden e.d_name then [] else line_by e e.kind

  unfoldable pub entry_lines : List Entry → Bytes
  unfolding entry_line
  entry_lines [] = []
  entry_lines (e ∷ entries) = entry_line e ++ entry_lines entries

  unfoldable pub index_page : Bytes → List Entry → Bytes
  unfolding entry_lines
  index_page path entries = page_head (escape_html path) ++ (entry_lines entries ++ page_end)
