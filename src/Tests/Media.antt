-- ===== src/Tests/Media.antt =====
-- Media types.
use fuzz_httpd.Base.{
  ◌≡◌, ◌++◌, ◌∷◌, refl, true, [], List, none, some, Bytes, codes, str_case_eq, arith, if◌then◌else◌,
}
use fuzz_httpd.Media.{MediaType, media_add, media_find, media_find_config}
use fuzz_httpd.Media.Find.{media_find-media_add}

abbrev type_of : Bytes → Bytes → MediaType
type_of name subtype = record {
  media_name = name;
  media_type = codes "text";
  media_subtype = subtype;
  media_encoding = none;
}

abbrev types : List MediaType
types = type_of (codes "html") (codes "html") ∷ type_of (codes "txt") (codes "plain") ∷ []

upper : media_find types (codes "/a.b/index.HTML") ≡ some (type_of (codes "html") (codes "html"))
unfolding media_find
upper = refl

none_found : media_find types (codes "/html/") ≡ none
unfolding media_find
none_found = refl

default_found :
    media_find_config types true (type_of [] (codes "a")) (type_of [] (codes "b")) (codes "x.png")
    ≡ type_of [] (codes "a")
unfolding media_find_config
default_found = refl

media_find-media_add_example :
    media_find
      (media_add types (type_of (codes "Txt") (codes "css")))
      (codes "/a" ++ b'.' ∷ codes "tXT")
    ≡ (if str_case_eq (codes "tXT") (codes "Txt")
        then some (type_of (codes "Txt") (codes "css"))
        else media_find types (codes "/a" ++ b'.' ∷ codes "tXT"))
media_find-media_add_example =
    media_find-media_add (codes "/a") (codes "tXT") b'.' refl (refl, (refl, (refl, tt))) types
      (type_of (codes "Txt") (codes "css")) refl (omega arith)
