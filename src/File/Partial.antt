-- ===== src/File/Partial.antt =====
-- The Content-Length of a partial reply of server_file.c, and what `server_read_httprange` of
-- server_http.c then writes.
use fuzz_httpd.Base.{
  ℕ, zero, suc, ◌+◌, ◌-◌, ◌%◌, ◌^◌, ◌≤◌, ◌<◌, ◌≡◌, ap, ◌∙◌, Bool, true, false, List, [], ◌∷◌, ◌++◌,
  Option, Bytes, length, length-append, length-take, append-nil, length-drop, get_or, ltb, ◌==◌,
  if-true, arith, Bool-cases, inl, inr, ==_iff, drop,
}
use fuzz_httpd.File.Ranged.{add_range, add_ranges, end_text, partial_length}
use fuzz_httpd.Range.{Range, no_range}
use fuzz_httpd.Range.Count.{AllInFile}
use fuzz_httpd.Transfer.{Reply, part_header}
use fuzz_httpd.Transfer.Whole.{parts, slice}

range_in_file :
    (size n i : ℕ) (rs : List Range)
    → AllInFile size n rs
    → i < n
    → ((get_or rs i no_range).start ≤ (get_or rs i no_range).end)
      × ((get_or rs i no_range).end < size)
range_in_file size zero i rs h l = absurd (omega arith)
range_in_file size (suc n) i [] h l = absurd h
range_in_file size (suc n) zero (r ∷ rs) (a, b, h) l = (a, b)
range_in_file size (suc n) (suc i) (r ∷ rs) (a, b, h) l = range_in_file size n i rs h (omega arith)

wraps : (n : ℕ) → n < 2 ^ 64 → n % 2 ^ 64 ≡ n
wraps n h = omega (arith, h)

added :
    (acc len : ℕ) (r : Range)
    → r.start ≤ r.end
    → acc + len + (r.end + 1 - r.start) < 2 ^ 64
    → add_range acc len r ≡ acc + len + (r.end + 1 - r.start)
added acc len r a h = omega (arith, a, h)

one_range : (n : ℕ) → (n == 1) ≡ true → n ≡ 1
one_range n h = (==_iff n 1).0 h

module _ (w : Bytes → Bytes → Option Bytes) (lseek : ℕ → Bool) (number : ℕ → Bytes) (c : Reply)
    (file : Bytes) where
  length-slice :
      (r : Range)
      → r.start ≤ r.end
      → r.end < length file
      → length (slice w lseek number c file r) ≡ r.end + 1 - r.start
  length-slice r a b =
      omega (arith, length-take (r.end + 1 - r.start) (drop r.start file), length-drop r.start file)

  abbrev total : ℕ → ℕ → ℕ
  total = add_ranges number c.boundary c.media_type c.media_subtype c.ranges

  single :
      c.ranges.range_count ≡ 1
      → AllInFile (length file) c.ranges.range_count c.ranges.range
      → length (parts w lseek number c file c.ranges.range_count) < 2 ^ 64
      → add_range 0 0 (get_or c.ranges.range 0 no_range)
        ≡ length (parts w lseek number c file c.ranges.range_count)
  unfolding parts
  single one all room =
      let lone : ltb 1 c.ranges.range_count ≡ false = ap (ltb 1) one in
      let r = get_or c.ranges.range 0 no_range in
      let (a, b) =
        range_in_file (length file) c.ranges.range_count 0 c.ranges.range all
          (omega (arith, one)) in
      let p : parts w lseek number c file 1 ≡ slice w lseek number c file r =
        rw lone (rw one (append-nil (slice w lseek number c file r))) in
      let n = ap length (ap (parts w lseek number c file) one ∙ p) in
      let l = length-slice r a b in added 0 0 r a (omega (arith, n, l, room)) ∙ omega (arith, n, l)

  many :
      (k acc : ℕ)
      → ltb 1 c.ranges.range_count ≡ true
      → k ≤ c.ranges.range_count
      → AllInFile (length file) c.ranges.range_count c.ranges.range
      → acc + length (parts w lseek number c file k) < 2 ^ 64
      → total k acc ≡ acc + length (parts w lseek number c file k)
  unfolding add_ranges parts
  many zero acc several le all room =
      let p : parts w lseek number c file 0 ≡ end_text number c.boundary = if-true _ _ _ several in
      let n = ap length p in
      wraps (acc + length (end_text number c.boundary)) (omega (arith, n, room)) ∙ omega (arith, n)
  many (suc k) acc several le all room =
      let r = get_or c.ranges.range (c.ranges.range_count - suc k) no_range in
      let (a, b) =
        range_in_file (length file) c.ranges.range_count (c.ranges.range_count - suc k)
          c.ranges.range all (omega (arith, le)) in
      let head = part_header w lseek number c r in
      let rest = parts w lseek number c file k in
      let p : parts w lseek number c file (suc k)
          ≡ head ++ (slice w lseek number c file r ++ rest) =
        ap (λ h. h ++ (slice w lseek number c file r ++ rest)) (if-true _ _ _ several) in
      let n = ap length p in
      let l1 = length-append head (slice w lseek number c file r ++ rest) in
      let l2 = length-append (slice w lseek number c file r) rest in
      let l3 = length-slice r a b in
      let step : add_range acc (length head) r ≡ acc + length head + (r.end + 1 - r.start) =
        added acc (length head) r a (omega (arith, n, l1, l2, l3, room)) in
      ap (total k) step
      ∙ many k (acc + length head + (r.end + 1 - r.start)) several (omega (arith, le)) all
          (omega (arith, n, l1, l2, l3, room))
      ∙ omega (arith, n, l1, l2, l3)

  -- Where the ranges lie in the file, as `parse_ranges` leaves them, and the reply is not longer than
  -- a number can say: the Content-Length of the header is the number of bytes that
  -- `server_read_httprange` writes for the ranges, with their headers and the end marker.
  pub partial_length-parts :
      0 < c.ranges.range_count
      → AllInFile (length file) c.ranges.range_count c.ranges.range
      → length (parts w lseek number c file c.ranges.range_count) < 2 ^ 64
      → partial_length number c.boundary c.media_type c.media_subtype c.ranges
        ≡ length (parts w lseek number c file c.ranges.range_count)
  unfolding partial_length parts
  partial_length-parts some_range all room = elim (Bool-cases (c.ranges.range_count == 1)) [
    | inl one ↦ rw one (single (one_range c.ranges.range_count one) all room)
    | inr other ↦ rw other (
        many c.ranges.range_count 0 (ground (arith, other, some_range)) (omega arith) all
          (omega (arith, room))
        ∙ omega arith)
  ]
