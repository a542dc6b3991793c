-- ===== src/Range/Count.antt =====
-- `parse_ranges` of server_file.c: what it counts lies in its array and in the file.
use fuzz_httpd.Base.{
  ℕ, zero, suc, ◌+◌, ◌≤◌, ◌<◌, Bool, true, false, List, [], ◌∷◌, ◌≡◌, refl, Option, none, some,
  arith, Bytes, cut, CutBelow, cut-CutBelow, codes, ◌==◌, if◌then◌else◌, Bool-cases, inl, inr,
  length, get_or, set, length-set, lt→ltb, str_eq,
}
use native.Mathlib.Numerals.{add-one}
use fuzz_httpd.Range.{
  llong_max, Range, spec_at, parse_range_spec, server_max_ranges, no_range, no_ranges, Outcome,
  counted, refused, overrun, out_of_fuel, last_range, range_round, range_loop, ranges_at,
  parse_ranges,
}
use fuzz_httpd.Range.Spec.{InFile, parse_range_spec-InFile}

-- The first `n` entries of the array.
abbrev pub AllInFile : ℕ → ℕ → List Range → Type 0
AllInFile size zero rs = Unit
AllInFile size (suc n) [] = ⊥
AllInFile size (suc n) (r ∷ rs) = (r.start ≤ r.end) × (r.end < size) × AllInFile size n rs

-- What a run ends in: at most four ranges, all of them in the file, or a refusal.
abbrev pub Sound : ℕ → Outcome → Type 0
Sound size (counted n d) =
    (n ≤ server_max_ranges)
    × (d.range_count ≡ n)
    × (d.range_total ≡ size)
    × AllInFile size n d.range
Sound size refused = Unit
Sound size overrun = ⊥
Sound size out_of_fuel = ⊥

length-spec_at :
    (p : Bytes) (o : Option (Bytes × Bytes)) (size : ℕ) (r : Range)
    → CutBelow (length p) o
    → length (spec_at p o size r).rest ≤ length p
unfolding spec_at
length-spec_at p none size r h = omega arith
length-spec_at p (some (s, e)) size r h = omega arith

length-rest :
    (p : Bytes) (size : ℕ) (r : Range) → length (parse_range_spec p size r).rest ≤ length p
unfolding parse_range_spec
length-rest p size r = length-spec_at p (cut b'-' p) size r (cut-CutBelow b'-' p)

AllInFile-set :
    (size n : ℕ) (rs : List Range) (r : Range) → AllInFile size n rs → AllInFile size n (set rs n r)
AllInFile-set size zero rs r h = tt
AllInFile-set size (suc n) [] r h = h
AllInFile-set size (suc n) (x ∷ rs) r (a, b, h) = (a, b, AllInFile-set size n rs r h)

AllInFile-push :
    (size n : ℕ) (rs : List Range) (r : Range)
    → n < length rs
    → InFile size (some r)
    → AllInFile size n rs
    → AllInFile size (suc n) (set rs n r)
AllInFile-push size zero [] r room fresh h = absurd (omega arith)
AllInFile-push size zero (x ∷ rs) r room fresh h = (fresh.0, fresh.1, tt)
AllInFile-push size (suc n) [] r room fresh h = h
AllInFile-push size (suc n) (x ∷ rs) r room fresh (a, b, h) =
    (a, b, AllInFile-push size n rs r (omega arith) fresh h)

accepted-InFile :
    (p : Bytes) (size : ℕ) (r : Range)
    → size ≤ llong_max
    → (parse_range_spec p size r).accepted ≡ true
    → InFile size (some (parse_range_spec p size r).range)
accepted-InFile p size r fits ok = rw ok at (parse_range_spec-InFile p size r fits)

last_range-Sound :
    (p : Bytes) (size i : ℕ) (rs : List Range)
    → size ≤ llong_max
    → length rs ≡ server_max_ranges
    → i < server_max_ranges
    → AllInFile size i rs
    → Sound size (last_range p size i rs)
unfolding last_range
last_range-Sound p size i rs fits four room h =
    let r = get_or rs i no_range in
    let inside : i < length rs = omega arith in
    rw (lt→ltb i (length rs) inside) (elim (Bool-cases (parse_range_spec p size r).accepted) [
      | inl ok ↦ rw ok (
        omega arith,
        refl,
        refl,
        rw (add-one i) (AllInFile-push size i rs _ inside (accepted-InFile p size r fits ok) h),
      )
      | inr bad ↦ rw bad (omega arith, refl, refl, AllInFile-set size i rs _ h)
    ])

-- What the loop keeps: the array is whole, an entry is left, and those before it are in the file.
record Filled (size i : ℕ) (rs : List Range) : Type 0 where
  four : length rs ≡ server_max_ranges
  room : i < server_max_ranges
  in_file : AllInFile size i rs

module _ (size : ℕ) (fits : size ≤ llong_max) (p : Bytes) (next : Bytes → ℕ → List Range → Outcome)
    (ih : (p' : Bytes) (i : ℕ) (rs : List Range)
      → length p' < length p
      → Filled size i rs
      → Sound size (next p' i rs)) where
  accepted-Sound :
      (spec q : Bytes) (i : ℕ) (rs : List Range) (r : Range)
      → length q < length p
      → InFile size (some r)
      → Filled size i rs
      → Sound size (if i + 1 == server_max_ranges then refused else next q (i + 1) (set rs i r))
  accepted-Sound spec q i rs r shorter fresh h = elim (Bool-cases (i + 1 == server_max_ranges)) [
    | inl full ↦ rw full tt
    | inr more ↦
        let pushed = AllInFile-push size i rs r (omega arith) fresh h.in_file in
        rw more (
          ih q (i + 1) (set rs i r) shorter (record {
            four = omega (arith, length-set rs i r);
            room = ground arith;
            in_file = rw (add-one i) pushed;
          }))
  ]

  range_round-Sound :
      (o : Option (Bytes × Bytes)) (i : ℕ) (rs : List Range)
      → CutBelow (length p) o
      → Filled size i rs
      → Sound size (range_round next o p size i rs)
  unfolding range_round
  range_round-Sound none i rs below h = last_range-Sound p size i rs fits h.four h.room h.in_file
  range_round-Sound (some (spec, q)) i rs below h =
      let r = get_or rs i no_range in
      let parsed = parse_range_spec spec size r in
      rw (lt→ltb i (length rs) (omega arith)) (elim (Bool-cases parsed.accepted) [
        | inl ok ↦ rw ok (
            accepted-Sound spec q i rs parsed.range below.1 (accepted-InFile spec size r fits ok) h)
        | inr bad ↦ rw bad (
            ih parsed.rest i (set rs i parsed.range)
              (omega (arith, below.0, length-rest spec size r))
              (record {
                four = omega (arith, length-set rs i parsed.range);
                room = h.room;
                in_file = AllInFile-set size i rs parsed.range h.in_file;
              }))
      ])

range_loop-Sound :
    (size : ℕ) (fits : size ≤ llong_max) (fuel : ℕ) (p : Bytes) (i : ℕ) (rs : List Range)
    → length p < fuel
    → Filled size i rs
    → Sound size (range_loop fuel p size i rs)
unfolding range_loop
range_loop-Sound size fits zero p i rs enough h = absurd (omega arith)
range_loop-Sound size fits (suc fuel) p i rs enough h =
    range_round-Sound size fits p (λ p' i' rs'. range_loop fuel p' size i' rs')
      (λ p' i' rs' shorter. range_loop-Sound size fits fuel p' i' rs' (omega arith)) (cut b',' p) i
      rs (cut-CutBelow b',' p) h

Sound-if :
    (size : ℕ) (b : Bool) (x : Outcome) → Sound size x → Sound size (if b then x else refused)
Sound-if size true x h = h
Sound-if size false x h = tt

ranges_at-Sound :
    (o : Option (Bytes × Bytes)) (size : ℕ) → size ≤ llong_max → Sound size (ranges_at o size)
unfolding ranges_at
ranges_at-Sound none size fits = tt
ranges_at-Sound (some (unit, p)) size fits = Sound-if size (str_eq unit (codes "bytes")) _ (
    range_loop-Sound size fits (length p + 1) p 0 no_ranges.range (omega arith)
      (record { four = refl; room = omega arith; in_file = tt }))

-- For every header, and a file whose size fits an `off_t`, the loop ends, no entry is written behind
-- the array, and what is counted is at most four ranges, each of them in the file.
pub parse_ranges-Sound :
    (str : Bytes) (size : ℕ) → size ≤ llong_max → Sound size (parse_ranges str size)
unfolding parse_ranges
parse_ranges-Sound str size fits = ranges_at-Sound (cut b'=' str) size fits
