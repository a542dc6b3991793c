-- ===== src/Range.antt =====
-- The Range header: `parse_ranges` and `parse_range_spec` of usr.sbin/httpd/server_file.c.
-- An `off_t` is the bit pattern of its 64 bits; `parse_range_spec` cuts its argument at the dash,
-- so the text that the caller goes on with is part of the result.
pub mod Spec
pub mod Count
use fuzz_httpd.Base.{
  ℕ, zero, suc, ◌+◌, ◌-◌, ◌%◌, ◌^◌, Bool, true, false, ◌&&◌, List, [], ◌∷◌, ◌≡◌, refl, Option, none,
  some, Bytes, codes, cut, strtonum, str_eq, is_empty, length, get_or, set, leb, ltb, ◌==◌,
  if◌then◌else◌, replicate,
}

abbrev pub llong_max : ℕ
llong_max = 2 ^ 63 - 1

-- a - b of size_t
abbrev pub sub64 : ℕ → ℕ → ℕ
sub64 a b = (a + 2 ^ 64 - b) % 2 ^ 64

-- `a < b` of off_t
abbrev pub off_lt : ℕ → ℕ → Bool
off_lt a b = ltb ((a + 2 ^ 63) % 2 ^ 64) ((b + 2 ^ 63) % 2 ^ 64)

pub record Range : Type 0 where
  pub start : ℕ
  pub end : ℕ

-- behind `strtonum` of the end, `none` where it set `errstr`
abbrev pub end_at : Option ℕ → ℕ → Range → Bool × Range
end_at none size r = (false, record r { end = 0 })
end_at (some n) size r = (true, record r { end = (if leb size n then sub64 size 1 else n) })

-- behind `strtonum` of the start
abbrev pub start_at : Option ℕ → ℕ → Range → Bool × Range
start_at none size r = (false, record r { start = 0 })
start_at (some n) size r = (if leb size n then false else true, record r { start = n })

-- `end_str`: whether it is acceptable, and the range with its end
unfoldable pub parse_end : Bytes → ℕ → Range → Bool × Range
parse_end [] size r = (true, record r { end = sub64 size 1 })
parse_end (c ∷ s) size r = end_at (strtonum (c ∷ s) 0 llong_max) size r

-- `start_str`, behind the end; with no start the end counts the bytes from the end of the file
unfoldable pub parse_start : Bytes → ℕ → Range → Bool × Range
parse_start [] size r = (true, record { start = sub64 size r.end; end = sub64 size 1 })
parse_start (c ∷ s) size r = start_at (strtonum (c ∷ s) 0 llong_max) size r

-- the last test
abbrev pub in_order : Bool × Range → Bool × Range
in_order (ok, r) = (if ok then (if off_lt r.end r.start then false else true) else false, r)

abbrev pub then_start : Bool × Range → Bytes → ℕ → Bool × Range
then_start (ok, r) start_str size =
    if ok then in_order (parse_start start_str size r) else (false, r)

unfoldable pub parse_positions : Bytes → Bytes → ℕ → Range → Bool × Range
parse_positions start_str end_str size r =
    if is_empty start_str && is_empty end_str
    then (false, r)
    else then_start (parse_end end_str size r) start_str size

pub record Parsed : Type 0 where
  pub accepted : Bool
  pub range : Range
  pub rest : Bytes

-- behind `strchr(str, '-')`
unfoldable pub spec_at : Bytes → Option (Bytes × Bytes) → ℕ → Range → Parsed
unfolding parse_positions parse_end parse_start
spec_at str none size r = record { accepted = false; range = r; rest = str }
spec_at str (some (start_str, end_str)) size r =
    let result = parse_positions start_str end_str size r in
    record { accepted = result.0; range = result.1; rest = start_str }

unfoldable pub parse_range_spec : Bytes → ℕ → Range → Parsed
unfolding spec_at
parse_range_spec str size r = spec_at str (cut b'-' str) size r

abbrev pub server_max_ranges : ℕ
server_max_ranges = 4

pub record RangeData : Type 0 where
  pub range : List Range
  pub range_count : ℕ
  pub range_total : ℕ

abbrev pub no_range : Range
no_range = record { start = 0; end = 0 }

-- `memset(r, 0, sizeof(*r))`
abbrev pub no_ranges : RangeData
no_ranges = record {
  range = replicate server_max_ranges no_range;
  range_count = 0;
  range_total = 0;
}

-- `refused` is the result -1. `overrun`, a write behind the array, and `out_of_fuel` belong to the
-- model only.
pub data Outcome : Type 0 where
  counted : ℕ → RangeData → Outcome
  refused overrun out_of_fuel : Outcome

-- the last specification, behind the loop
unfoldable pub last_range : Bytes → ℕ → ℕ → List Range → Outcome
last_range p size i ranges =
    let parsed = parse_range_spec p size (get_or ranges i no_range) in
    let count = if parsed.accepted then i + 1 else i in
    if ltb i (length ranges)
    then counted count
        (record { range = set ranges i parsed.range; range_count = count; range_total = size })
    else overrun

-- One round, behind `strchr(p, ',')`; `next` is the rest of the loop. A specification that is not
-- accepted leaves `p` where it is, and what it points to cut at the comma and at the dash.
unfoldable pub range_round :
    (Bytes → ℕ → List Range → Outcome)
    → Option (Bytes × Bytes)
    → Bytes
    → ℕ
    → ℕ
    → List Range
    → Outcome
range_round next none p size i ranges = last_range p size i ranges
range_round next (some (spec, q)) p size i ranges =
    let parsed = parse_range_spec spec size (get_or ranges i no_range) in
    let ranges' = set ranges i parsed.range in
    if ltb i (length ranges)
    then if parsed.accepted
      then (if i + 1 == server_max_ranges then refused else next q (i + 1) ranges')
      else next parsed.rest i ranges'
    else overrun

unfoldable pub range_loop : ℕ → Bytes → ℕ → ℕ → List Range → Outcome
range_loop zero p size i ranges = out_of_fuel
range_loop (suc fuel) p size i ranges =
    range_round (λ p' i' ranges'. range_loop fuel p' size i' ranges') (cut b',' p) p size i ranges

-- behind `strchr(str, '=')`
unfoldable pub ranges_at : Option (Bytes × Bytes) → ℕ → Outcome
unfolding range_loop range_round last_range parse_range_spec cut
ranges_at none file_sz = refused
ranges_at (some (unit, p)) file_sz =
    if str_eq unit (codes "bytes")
    then range_loop (length p + 1) p file_sz 0 no_ranges.range
    else refused

unfoldable pub parse_ranges : Bytes → ℕ → Outcome
unfolding ranges_at
parse_ranges str file_sz = ranges_at (cut b'=' str) file_sz
