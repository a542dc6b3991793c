-- ===== src/Path.antt =====
-- The path functions of usr.sbin/httpd/httpd.c and server_http.c: `canonicalize_path`, `path_info`
-- and `server_root_strip`. The output array of `canonicalize_path` is cut at the write position
-- `p`; what lies behind `p` is what the array held before, which the loop for `..` reads.
pub mod Spec
pub mod Steps
pub mod Words
pub mod Resolve
pub mod Safe
pub mod Always
pub mod Bounds
pub mod Strip
use fuzz_httpd.Base.{
  ℕ, zero, suc, ◌-◌, Bool, true, false, ◌&&◌, ◌||◌, not, List, [], ◌∷◌, ◌++◌, rev_onto, ◌≡◌, refl,
  Bytes, codes, char_at, drop, take, set, length, leb, ltb, ◌==◌, if◌then◌else◌, replicate,
}

-- `path .. p`, last byte first, and `p .. path + len`
pub record Buffer : Type 0 where
  pub before : Bytes
  pub after : Bytes

-- `*p++ = c`
abbrev pub put : ℕ → Buffer → Buffer
put c b = record { before = c ∷ b.before; after = drop 1 b.after }

-- `while (p > start && *p != '/') p--`
unfoldable pub rewind : Bytes → Bytes → Buffer
rewind [] after = record { before = []; after = after }
rewind (c ∷ before) after =
    if char_at after 0 == b'/'
    then record { before = c ∷ before; after = after }
    else rewind before (c ∷ after)

-- `*p = '\0'`
abbrev pub clear : Buffer → Buffer
clear b = record b { after = set b.after 0 0 }

-- What stands at `i`: the three special path elements, or any other character.
pub data Element : Type 0 where
  repeated parent current other : Element

unfoldable pub element : Bytes → Element
element i =
    if char_at i 0 == b'/'
    then if char_at i 1 == b'/'
      then repeated
      else if char_at i 1 == b'.'
          && char_at i 2 == b'.'
          && (char_at i 3 == b'/' || char_at i 3 == 0)
      then parent
      else if char_at i 1 == b'.' && (char_at i 2 == b'/' || char_at i 2 == 0)
      then current
      else other
    else other

-- `while (i[1] == '/') i++`
unfoldable pub skip_slashes : Bytes → Bytes
skip_slashes [] = []
skip_slashes (c ∷ i) = if char_at i 0 == b'/' then skip_slashes i else c ∷ i

-- `null` where the function returns NULL, `overrun` where it writes behind the array; `out_of_fuel`
-- belongs to the model only.
pub data Canonical : Type 0 where
  canonical : Bytes → Canonical
  null overrun out_of_fuel : Canonical

-- `n` bytes are written from `p` on, if the array has them.
abbrev pub writes : ℕ → Bytes → Canonical → Canonical
writes n after next = if ltb (length after) n then overrun else next

-- behind the loop: the slash of the root, and the NUL
unfoldable pub finish : Buffer → Canonical
finish b = elim (b.before) [
  | [] ↦ writes 2 b.after (canonical (b'/' ∷ []))
  | c ∷ before ↦ writes 1 b.after (canonical (rev_onto (c ∷ before) []))
]

-- The body of the loop from the element at `i`; `next` is the rest of the loop.
unfoldable pub advance : Element → Bytes → Buffer → (Bytes → Buffer → Canonical) → Canonical
unfolding skip_slashes
advance repeated i b next = next (skip_slashes i) b
advance parent i b next =
    let b' = rewind b.before b.after in writes 1 b'.after (next (drop 3 i) (clear b'))
advance current i b next = next (drop 2 i) b
advance other i b next = writes 1 b.after (next (drop 1 i) (put (char_at i 0) b))

-- `p >= end` is `length b.after ≤ 1`, since `end` is the last byte of the array.
unfoldable pub loop : ℕ → Bytes → Buffer → Canonical
unfolding finish
loop fuel [] b = finish b
loop zero (c ∷ i) b = out_of_fuel
loop (suc fuel) (c ∷ i) b =
    if leb (length b.after) 1 then null else advance (element (c ∷ i)) (c ∷ i) b (loop fuel)

-- The array comes with what it holds at the call; its length is `len`.
unfoldable pub canonicalize_path : Bytes → Bytes → Canonical
unfolding loop advance element rewind skip_slashes
canonicalize_path input path =
    if not (char_at input 0 == b'/') || ltb (length path) 3
    then null
    else loop (length input) input (record { before = []; after = path })
