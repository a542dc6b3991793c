-- ===== src/Tests/Range.antt =====
-- Runs of the Range header parser, and its theorems at concrete headers.
use fuzz_httpd.Base.{◌≡◌, refl, true, arith, [], codes, strtonum, cut, ℕ, Option, some, none}
use fuzz_httpd.Range.Spec.{accepted_range, byte_range, parse_range_spec-byte_range}
use fuzz_httpd.Range.Count.{Sound, parse_ranges-Sound}
use fuzz_httpd.Range.{
  Outcome, counted, refused, parse_ranges, parse_range_spec, no_range, llong_max,
}

abbrev count_of : Outcome → Option ℕ
count_of (counted n d) = some n
count_of _ = none

two_ranges : count_of (parse_ranges (codes "bytes=0-4,10-") 100) ≡ some 2
unfolding parse_ranges strtonum
two_ranges = refl

five_ranges : parse_ranges (codes "bytes=0-1,2-3,4-5,6-7,8-9") 100 ≡ refused
unfolding parse_ranges strtonum
five_ranges = refl

bad_first : count_of (parse_ranges (codes "bytes=x,0-4") 100) ≡ some 0
unfolding parse_ranges strtonum
bad_first = refl

long_suffix :
    parse_range_spec (codes "-500") 100 no_range
    ≡ record { accepted = true; range = record { start = 1; end = 99 }; rest = [] }
unfolding parse_range_spec strtonum cut
long_suffix = refl

dash : cut b'-' (codes "10-250") ≡ some (codes "10", codes "250")
unfolding cut
dash = refl

dash_first : cut b'-' (codes "-500") ≡ some ([], codes "500")
unfolding cut
dash_first = refl

ten : strtonum (codes "10") 0 llong_max ≡ some 10
unfolding strtonum
ten = refl

much : strtonum (codes "250") 0 llong_max ≡ some 250
unfolding strtonum
much = refl

five_hundred : strtonum (codes "500") 0 llong_max ≡ some 500
unfolding strtonum
five_hundred = refl

parse_range_spec-byte_range_example :
    accepted_range (parse_range_spec (codes "10-250") 100 no_range)
    ≡ byte_range (some 10) (some 250) 100
parse_range_spec-byte_range_example =
    parse_range_spec-byte_range (codes "10-250") (codes "10") (codes "250") (some 10) (some 250) 100
      no_range (omega arith) dash ten much tt

parse_ranges-Sound_example : Sound 100 (parse_ranges (codes "bytes=0-4,10-") 100)
parse_ranges-Sound_example = parse_ranges-Sound (codes "bytes=0-4,10-") 100 (omega arith)
