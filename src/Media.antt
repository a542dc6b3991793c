-- ===== src/Media.antt =====
-- Media types: media_add, media_find and media_find_config of usr.sbin/httpd/httpd.c, with media_delete,
-- media_purge and media_cmp. The tree is the list of its entries; nothing here depends on its order.
-- Allocation is assumed to succeed.
pub mod Find
use fuzz_httpd.Base.{
  ℕ, zero, suc, ◌-◌, Bool, true, false, ◌||◌, List, [], ◌∷◌, Option, none, some, Bytes, char_at,
  drop, is_empty, leb, length, str_case_eq, ◌==◌, if◌then◌else◌,
}

pub record MediaType : Type 0 where
  pub media_name : Bytes
  pub media_type : Bytes
  pub media_subtype : Bytes
  pub media_encoding : Option Bytes

-- `media_cmp(a, b) == 0`
abbrev pub media_eq : Bytes → MediaType → Bool
media_eq name media = str_case_eq name media.media_name

-- `RB_FIND`
unfoldable pub find_entry : Bytes → List MediaType → Option MediaType
unfolding str_case_eq
find_entry name [] = none
find_entry name (media ∷ types) = if media_eq name media then some media else find_entry name types

-- `RB_REMOVE` of the entry that was found
unfoldable pub media_delete : Bytes → List MediaType → List MediaType
unfolding str_case_eq
media_delete name [] = []
media_delete name (media ∷ types) =
    if media_eq name media then types else media ∷ media_delete name types

-- An entry with the same name is overwritten: it is deleted first, so `RB_INSERT` finds none and always
-- inserts. The order of the tree decides nothing else, so the new entry stands in front.
unfoldable pub media_add : List MediaType → MediaType → List MediaType
unfolding media_delete
media_add types media = media ∷ media_delete media.media_name types

-- one round for each entry
unfoldable pub media_purge : List MediaType → List MediaType
media_purge [] = []
media_purge (media ∷ types) = media_purge types

-- sizeof(media.media_name)
abbrev pub media_namemax : ℕ
media_namemax = 128

-- The loop for the last component of a name, from the place `p`.
unfoldable pub component_start : Bytes → ℕ → ℕ
component_start file zero = zero
component_start file (suc p) =
    let rest = component_start file p in
    if char_at file p == b'.' || char_at file p == b'/' then suc p else rest

abbrev pub find_component : List MediaType → Bytes → Option MediaType
find_component types p =
    if is_empty p then none else if leb media_namemax (length p) then none else find_entry p types

unfoldable pub media_find : List MediaType → Bytes → Option MediaType
unfolding component_start find_entry
media_find types file = find_component types (drop (component_start file (length file)) file)

-- SRVFLAG_DEFAULT_TYPE with the type of the server, and that of the configuration
abbrev pub or_default : Option MediaType → Bool → MediaType → MediaType → MediaType
or_default (some media) flag_default_type default_type sc_default_type = media
or_default none flag_default_type default_type sc_default_type =
    if flag_default_type then default_type else sc_default_type

unfoldable pub media_find_config : List MediaType → Bool → MediaType → MediaType → Bytes → MediaType
unfolding media_find
media_find_config types flag_default_type default_type sc_default_type file =
    or_default (media_find types file) flag_default_type default_type sc_default_type
