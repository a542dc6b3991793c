-- ===== src/Tests/Transfer.antt =====
-- A reply with two ranges of a file of six bytes, read in pieces that end nowhere in particular.
use fuzz_httpd.Base.{
  ◌≡◌, ◌+◌, ℕ, refl, [], ◌∷◌, ◌++◌, some, false, true, Option, Bool, Bytes, codes, arith, ◌≤◌, ◌<◌,
  zero, suc, length, get_or,
}
use fuzz_httpd.Range.{RangeData, no_range}
use fuzz_httpd.Transfer.{Reply, Transfer, running, no_more, server_read_httprange}
use fuzz_httpd.Transfer.Finish.{Finishes, server_read_httprange-Finishes}
use fuzz_httpd.Transfer.Whole.{Reads, here, read, first, parts, server_read_httprange-parts}

abbrev pub append : Bytes → Bytes → Option Bytes
append out b = some (out ++ b)

abbrev pub seek : ℕ → Bool
seek n = true

-- numbers of one digit
abbrev pub digit : ℕ → Bytes
digit n = (b'0' + n) ∷ []

abbrev pub text : Bytes
text = codes "abcdef"

abbrev two_ranges : RangeData
two_ranges = record {
  range = record { start = 1; end = 2 } ∷ record { start = 4; end = 4 } ∷ no_range ∷ no_range ∷ [];
  range_count = 2;
  range_total = 6;
}

abbrev pub reply : Reply
reply = record {
  ranges = two_ranges;
  boundary = 7;
  media_type = codes "text";
  media_subtype = codes "plain";
  done = false;
  sndbufsiz = 1;
}

abbrev sent : Bytes
sent =
    codes "\r\n--7\r\nContent-Type: text/plain\r\nContent-Range: bytes 1-2/6\r\n\r\nbc"
    ++ codes
        "\r\n--7\r\nContent-Type: text/plain\r\nContent-Range: bytes 4-4/6\r\n\r\ne\r\n--7--\r\n"

abbrev last : Transfer
last = record {
  range_toread = no_more;
  range_index = 2;
  offset = 6;
  input = codes "f";
  output = sent;
  throttled = false;
}

run : Reads append seek digit reply text (first []) (running last)
unfolding server_read_httprange fuzz_httpd.Transfer.next_part fuzz_httpd.Transfer.read_data
run = read 2 0 (read 4 0 (read 1 0 (read 0 0 here)))

server_read_httprange-parts_example : sent ≡ [] ++ parts append seek digit reply text 2
server_read_httprange-parts_example =
    server_read_httprange-parts append seek digit reply text (λ a b. refl) (λ n. refl)
      (λ i h. ground arith) [] last run refl

in_text :
    (i : ℕ)
    → i < 2
    → ((get_or two_ranges.range i no_range).start ≤ (get_or two_ranges.range i no_range).end)
      × ((get_or two_ranges.range i no_range).end < length text)
in_text zero h = (omega arith, omega arith)
in_text (suc zero) h = (omega arith, omega arith)
in_text (suc (suc i)) h = absurd (omega arith)

server_read_httprange-Finishes_example :
    Finishes append seek digit reply text (λ a b. refl) (λ n. refl) refl (first [])
server_read_httprange-Finishes_example =
    server_read_httprange-Finishes append seek digit reply text (λ a b. refl) (λ n. refl) refl
      in_text []
