-- ===== src/Range/Spec.antt =====
-- `parse_range_spec` of server_file.c against the byte ranges of RFC 7233.
use fuzz_httpd.Base.{
  ℕ, ◌-◌, ◌≤◌, ◌<◌, Bool, ◌&&◌, [], ◌∷◌, ◌≡◌, refl, Option, none, some, arith, Bytes, cut, strtonum,
  strtonum_bounds, leb, ltb, if◌then◌else◌,
}
use fuzz_httpd.Range.{
  llong_max, sub64, Range, parse_end, parse_start, parse_positions, Parsed, spec_at, end_at,
  start_at, parse_range_spec, in_order, then_start,
}

-- What the text of a position stands for: no position, or a number that fits an off_t.
abbrev pub Reads : Bytes → Option ℕ → Type 0
Reads [] none = Unit
Reads [] (some n) = ⊥
Reads (c ∷ s) none = ⊥
Reads (c ∷ s) (some n) = strtonum (c ∷ s) 0 llong_max ≡ some n

abbrev smaller : ℕ → ℕ → ℕ
smaller a b = if leb a b then a else b

-- The range that RFC 7233 gives to `first-last`, `first-` and `-suffix` in a file of `size` bytes.
abbrev pub byte_range : Option ℕ → Option ℕ → ℕ → Option Range
byte_range none none size = none
byte_range (some a) none size =
    if ltb a size then some (record { start = a; end = size - 1 }) else none
byte_range (some a) (some b) size =
    if ltb a size && leb a b then some (record { start = a; end = smaller b (size - 1) }) else none
byte_range none (some n) size =
    if ltb 0 n && ltb 0 size
    then some (record { start = size - smaller n size; end = size - 1 })
    else none

-- A suffix is shorter than the file.
abbrev pub FitsSuffix : Option ℕ → Option ℕ → ℕ → Type 0
FitsSuffix none (some n) size = n < size
FitsSuffix _ _ size = Unit

abbrev range_of : Bool × Range → Option Range
range_of (ok, r) = if ok then some r else none

abbrev pub accepted_range : Parsed → Option Range
accepted_range p = if p.accepted then some p.range else none

positions-byte_range :
    (s e : Bytes) (x y : Option ℕ) (size : ℕ) (r : Range)
    → size ≤ llong_max
    → Reads s x
    → Reads e y
    → FitsSuffix x y size
    → range_of (parse_positions s e size r) ≡ byte_range x y size
unfolding parse_positions parse_end parse_start
positions-byte_range [] [] none none size r fits hx hy suffix = refl
positions-byte_range [] (c ∷ e) none (some n) size r fits hx hy suffix =
    ground (arith, strtonum_bounds (c ∷ e) 0 llong_max hy)
positions-byte_range (c ∷ s) [] (some a) none size r fits hx hy suffix =
    ground (arith, strtonum_bounds (c ∷ s) 0 llong_max hx)
positions-byte_range (c ∷ s) (d ∷ e) (some a) (some b) size r fits hx hy suffix =
    ground (arith, strtonum_bounds (c ∷ s) 0 llong_max hx, strtonum_bounds (d ∷ e) 0 llong_max hy)
positions-byte_range [] [] none (some n) size r fits hx hy suffix = elim hy [ ]
positions-byte_range [] [] (some a) y size r fits hx hy suffix = elim hx [ ]
positions-byte_range [] (c ∷ e) none none size r fits hx hy suffix = elim hy [ ]
positions-byte_range [] (c ∷ e) (some a) y size r fits hx hy suffix = elim hx [ ]
positions-byte_range (c ∷ s) [] none y size r fits hx hy suffix = elim hx [ ]
positions-byte_range (c ∷ s) [] (some a) (some n) size r fits hx hy suffix = elim hy [ ]
positions-byte_range (c ∷ s) (d ∷ e) none y size r fits hx hy suffix = elim hx [ ]
positions-byte_range (c ∷ s) (d ∷ e) (some a) none size r fits hx hy suffix = elim hy [ ]

-- Of a specification with readable positions `parse_range_spec` accepts the range that RFC 7233
-- gives it, and rejects it where there is none, as long as a suffix is shorter than the file and the
-- size of the file fits an `off_t`.
pub parse_range_spec-byte_range :
    (str s e : Bytes) (x y : Option ℕ) (size : ℕ) (r : Range)
    → size ≤ llong_max
    → cut b'-' str ≡ some (s, e)
    → Reads s x
    → Reads e y
    → FitsSuffix x y size
    → accepted_range (parse_range_spec str size r) ≡ byte_range x y size
unfolding parse_range_spec
parse_range_spec-byte_range str s e x y size r fits dash hx hy suffix =
    rw (dash, spec_at) (positions-byte_range s e x y size r fits hx hy suffix)

-- A suffix as long as the file, or longer, loses the first byte of a file of two bytes or more,
-- whose size fits an `off_t`, where RFC 7233 has the whole file.
pub parse_range_spec-long_suffix :
    (str e : Bytes) (c n size : ℕ) (r : Range)
    → size ≤ llong_max
    → 2 ≤ size
    → size ≤ n
    → cut b'-' str ≡ some ([], c ∷ e)
    → strtonum (c ∷ e) 0 llong_max ≡ some n
    → (accepted_range (parse_range_spec str size r) ≡ some (record { start = 1; end = size - 1 }))
      × (byte_range none (some n) size ≡ some (record { start = 0; end = size - 1 }))
unfolding parse_range_spec parse_positions parse_end parse_start
parse_range_spec-long_suffix str e c n size r fits two long dash number =
    (rw (dash, spec_at) (ground arith), ground arith)

abbrev pub InFile : ℕ → Option Range → Type 0
InFile size none = Unit
InFile size (some r) = (r.start ≤ r.end) × (r.end < size)

abbrev Small : Option ℕ → Type 0
Small none = Unit
Small (some n) = n ≤ llong_max

strtonum-Small : (s : Bytes) (o : Option ℕ) → strtonum s 0 llong_max ≡ o → Small o
strtonum-Small s none e = tt
strtonum-Small s (some n) e = (strtonum_bounds s 0 llong_max e).1

module _ (size : ℕ) (r : Range) (fits : size ≤ llong_max) where
  suffix-InFile :
      (o : Option ℕ) → Small o → InFile size (range_of (then_start (end_at o size r) [] size))
  unfolding parse_start
  suffix-InFile none h = tt
  suffix-InFile (some n) h = ground arith

  first-InFile :
      (o : Option ℕ)
      → Small o
      → InFile size (range_of (in_order (start_at o size (record r { end = sub64 size 1 }))))
  first-InFile none h = tt
  first-InFile (some n) h = ground arith

  both-InFile :
      (x y : Option ℕ) (c : ℕ) (s : Bytes)
      → strtonum (c ∷ s) 0 llong_max ≡ x
      → Small x
      → Small y
      → InFile size (range_of (then_start (end_at y size r) (c ∷ s) size))
  unfolding parse_start
  both-InFile x none c s e hx hy = tt
  both-InFile none (some n) c s e hx hy = rw (e, start_at) tt
  both-InFile (some m) (some n) c s e hx hy = rw (e, start_at) (ground arith)

positions-InFile :
    (s e : Bytes) (size : ℕ) (r : Range)
    → size ≤ llong_max
    → InFile size (range_of (parse_positions s e size r))
unfolding parse_positions parse_end parse_start
positions-InFile [] [] size r fits = tt
positions-InFile [] (d ∷ e) size r fits =
    suffix-InFile size r fits _ (strtonum-Small (d ∷ e) _ refl)
positions-InFile (c ∷ s) [] size r fits = first-InFile size r fits _ (strtonum-Small (c ∷ s) _ refl)
positions-InFile (c ∷ s) (d ∷ e) size r fits =
    both-InFile size r fits _ (strtonum (d ∷ e) 0 llong_max) c s refl
      (strtonum-Small (c ∷ s) _ refl) (strtonum-Small (d ∷ e) _ refl)

spec_at-InFile :
    (str : Bytes) (o : Option (Bytes × Bytes)) (size : ℕ) (r : Range)
    → size ≤ llong_max
    → InFile size (accepted_range (spec_at str o size r))
unfolding spec_at
spec_at-InFile str none size r fits = tt
spec_at-InFile str (some (s, e)) size r fits = positions-InFile s e size r fits

-- Whatever the header says, and of every file whose size fits an `off_t`, an accepted range is not
-- empty and lies in the file.
pub parse_range_spec-InFile :
    (str : Bytes) (size : ℕ) (r : Range)
    → size ≤ llong_max
    → InFile size (accepted_range (parse_range_spec str size r))
unfolding parse_range_spec
parse_range_spec-InFile str size r fits = spec_at-InFile str (cut b'-' str) size r fits
