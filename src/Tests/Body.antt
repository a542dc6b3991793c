-- ===== src/Tests/Body.antt =====
-- Bodies of requests that arrive in pieces or in chunks, with a line splitter and a reader of one
-- digit in the place of the libraries.
use fuzz_httpd.Base.{
  ℕ, ◌-◌, ◌≡◌, refl, List, [], ◌∷◌, ◌++◌, Option, some, none, Bytes, codes, arith,
}
use fuzz_httpd.RequestLine.{Client, left, chunk_length}
use fuzz_httpd.Request.FirstLine.{first_state}
use fuzz_httpd.Chunks.{server_read_httpchunks}
use fuzz_httpd.Chunks.Text.{
  chunked_text, rounds, reading, behind_body, server_read_httpchunks-chunked_text,
}
use fuzz_httpd.Chunks.Ends.{Ends, server_read_httpchunks-Ends}
use fuzz_httpd.Tests.Request.{crlf_line, crlf_line-shorter, crlf_line-finds}

abbrev write : Bytes → Bytes → Option Bytes
write out b = some (out ++ b)

abbrev append_lem : (a b : Bytes) → write a b ≡ some (a ++ b)
append_lem a b = refl

abbrev client : Client
client = first_state []

abbrev pieces : List Bytes
pieces = codes "he" ∷ codes "llo" ∷ []

abbrev scan_digit : Bytes → Option ℕ
scan_digit [] = none
scan_digit (c ∷ s) = some (c - b'0')

abbrev chunks : List (Bytes × Bytes)
chunks = (codes "2", codes "he") ∷ (codes "3;x", codes "llo") ∷ []

server_read_httpchunks-chunked_text_example :
    server_read_httpchunks write crlf_line scan_digit
      (rounds chunks)
      (reading chunk_length (chunked_text chunks (codes "0") (codes "GET")) client)
      []
    ≡ behind_body (codes "GET") client ([] ++ chunked_text chunks (codes "0") [])
server_read_httpchunks-chunked_text_example =
    server_read_httpchunks-chunked_text write crlf_line scan_digit append_lem crlf_line-finds chunks
      (codes "0") (codes "GET") client []
      (
        ((cc), (omega arith, omega arith, refl, refl)),
        (((cc), (omega arith, omega arith, refl, refl)), tt),
      )
      (omega arith, omega arith, refl, refl)

server_read_httpchunks-Ends_example : Ends (
    server_read_httpchunks write crlf_line scan_digit 8
      (reading (left 0) (codes "2\r\n") client)
      [])
server_read_httpchunks-Ends_example =
    server_read_httpchunks-Ends write crlf_line scan_digit crlf_line-shorter 8
      (reading (left 0) (codes "2\r\n") client) [] tt (omega arith)
