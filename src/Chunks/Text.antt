-- ===== src/Chunks/Text.antt =====
-- A chunked body that stands in the buffer is read to its end and not further.
use fuzz_httpd.Base.{
  ℕ, suc, ◌≡◌, ◌≢◌, refl, sym, ap, ◌∙◌, true, false, List, [], ◌∷◌, ◌++◌, append_assoc, Option,
  some, Bytes, Lacks, All, is_empty, length, length-append, take, drop, lt→ltb, if◌then◌else◌,
  arith,
}
use fuzz_httpd.RequestLine.{
  Client, ClientToread, left, http_header, chunk_length, read_http, read_httpchunks,
}
use fuzz_httpd.Request.Print.{c_str-Lacks, if-false}
use fuzz_httpd.Chunks.{
  Chunked, returns, calls, size_toread, next_chunk, print_line, server_read_httpchunks,
}

-- Chunks, each with the line of its size; the line of the last; and what follows the body.
abbrev pub chunked_text : List (Bytes × Bytes) → Bytes → Bytes → Bytes
chunked_text [] last rest = last ++ 13 ∷ 10 ∷ 13 ∷ 10 ∷ rest
chunked_text ((line, chunk) ∷ chunks) last rest =
    line ++ 13 ∷ 10 ∷ (chunk ++ 13 ∷ 10 ∷ chunked_text chunks last rest)

-- Two calls for each chunk, and two for the end.
abbrev pub rounds : List (Bytes × Bytes) → ℕ
rounds [] = 2
rounds (chunk ∷ chunks) = suc (suc (rounds chunks))

-- the state before a call
abbrev pub reading : ClientToread → Bytes → Client → Client
reading toread s c = record c {
  clt_toread = toread;
  input = s;
  clt_done = false;
  readcb = read_httpchunks;
}

-- The state behind the body: the next request is read, at once if bytes are there.
abbrev pub behind_body : Bytes → Client → Bytes → Chunked
behind_body rest c out =
    let c' = record c {
      clt_toread = http_header;
      input = rest;
      clt_done = false;
      readcb = read_http;
    } in
    if is_empty rest then returns (record c' { reads = true }) out else calls c' out

-- A line that is a size.
abbrev pub IsSize : (Bytes → Option ℕ) → ℕ → Bytes → Type 0
IsSize scan n line = Lacks 13 line × Lacks 0 line × (is_empty line ≡ false) × (scan line ≡ some n)

abbrev pub IsChunk : (Bytes → Option ℕ) → Bytes × Bytes → Type 0
IsChunk scan (line, chunk) = (chunk ≢ []) × IsSize scan (length chunk) line

take-front : (a b : Bytes) → take (length a) (a ++ b) ≡ a
take-front [] b = refl
take-front (c ∷ a) b = ap (λ s. c ∷ s) (take-front a b)

drop-front : (a b : Bytes) → drop (length a) (a ++ b) ≡ b
drop-front [] b = refl
drop-front (c ∷ a) b = drop-front a b

some_front : (a b : Bytes) → is_empty (a ++ 13 ∷ b) ≡ false
some_front [] b = refl
some_front (c ∷ a) b = refl

two_ends :
    (out last : Bytes)
    → (out ++ (last ++ 13 ∷ 10 ∷ [])) ++ 13 ∷ 10 ∷ [] ≡ out ++ (last ++ 13 ∷ 10 ∷ 13 ∷ 10 ∷ [])
two_ends out last = simp append_assoc

module _ (w : Bytes → Bytes → Option Bytes) (readln : Bytes → Option (Bytes × Bytes))
    (scan : Bytes → Option ℕ) (appends : (a b : Bytes) → w a b ≡ some (a ++ b))
    (finds : (l r : Bytes) → Lacks 13 l → readln (l ++ 13 ∷ 10 ∷ r) ≡ some (l, r)) where
  prints :
      (line out : Bytes) (next : Bytes → Chunked)
      → print_line w readln scan line out next ≡ next (out ++ (line ++ 13 ∷ 10 ∷ []))
  prints line out next =
      rw (appends out line, appends (out ++ line) (13 ∷ 10 ∷ []))
        (ap next (append_assoc out line (13 ∷ 10 ∷ [])))

  reads_size :
      (fuel n : ℕ) (line s : Bytes) (c : Client) (out : Bytes)
      → IsSize scan n line
      → is_empty s ≡ false
      → server_read_httpchunks w readln scan
          (suc fuel)
          (reading chunk_length (line ++ 13 ∷ 10 ∷ s) c)
          out
        ≡ server_read_httpchunks w readln scan fuel
            (reading (size_toread n) s c)
            (out ++ (line ++ 13 ∷ 10 ∷ []))
  unfolding server_read_httpchunks next_chunk
  reads_size fuel n line s c out (no_return, no_nul, some_line, size) some_s =
      rw
        (some_front line (10 ∷ s), finds line s no_return, c_str-Lacks line no_nul, some_line, size)
        (prints line out _ ∙ if-false (is_empty s) _ _ some_s)

  reads_chunk :
      (fuel n : ℕ) (chunk s : Bytes) (c : Client) (out : Bytes)
      → length chunk ≡ suc n
      → is_empty s ≡ false
      → server_read_httpchunks w readln scan
          (suc fuel)
          (reading (left (suc n)) (chunk ++ 13 ∷ 10 ∷ s) c)
          out
        ≡ server_read_httpchunks w readln scan fuel
            (reading chunk_length s c)
            (out ++ (chunk ++ 13 ∷ 10 ∷ []))
  unfolding server_read_httpchunks next_chunk
  reads_chunk fuel n chunk s c out size some_s =
      let all = length-append chunk (13 ∷ 10 ∷ s) in
      let more = lt→ltb (suc n) (length (chunk ++ 13 ∷ 10 ∷ s)) (omega (arith, all, size)) in
      let front =
        ap (λ k. take k (chunk ++ 13 ∷ 10 ∷ s)) (sym size) ∙ take-front chunk (13 ∷ 10 ∷ s) in
      let back =
        ap (λ k. drop k (chunk ++ 13 ∷ 10 ∷ s)) (sym size) ∙ drop-front chunk (13 ∷ 10 ∷ s) in
      rw
        (
          some_front chunk (10 ∷ s),
          more,
          front,
          back,
          appends out chunk,
          appends (out ++ chunk) (13 ∷ 10 ∷ []),
          finds [] s tt,
        )
        (if-false (is_empty s) _ _ some_s
          ∙ ap (server_read_httpchunks w readln scan fuel (reading chunk_length s c))
              (append_assoc out chunk (13 ∷ 10 ∷ [])))

  reads_end :
      (fuel : ℕ) (last rest : Bytes) (c : Client) (out : Bytes)
      → IsSize scan 0 last
      → server_read_httpchunks w readln scan
          (suc (suc fuel))
          (reading chunk_length (chunked_text [] last rest) c)
          out
        ≡ behind_body rest c (out ++ chunked_text [] last [])
  unfolding server_read_httpchunks next_chunk
  reads_end fuel last rest c out size =
      reads_size (suc fuel) 0 last (13 ∷ 10 ∷ rest) c out size refl
      ∙ rw (finds [] rest tt) (
          prints [] (out ++ (last ++ 13 ∷ 10 ∷ [])) _ ∙ ap (behind_body rest c) (two_ends out last))

  some_text :
      (chunks : List (Bytes × Bytes)) (last rest : Bytes)
      → is_empty (chunked_text chunks last rest) ≡ false
  some_text [] last rest = some_front last (10 ∷ 13 ∷ 10 ∷ rest)
  some_text ((line, chunk) ∷ chunks) last rest = some_front line _

  regroup :
      (a b c d : Bytes)
      → ((a ++ (b ++ 13 ∷ 10 ∷ [])) ++ (c ++ 13 ∷ 10 ∷ [])) ++ d
        ≡ a ++ (b ++ 13 ∷ 10 ∷ (c ++ 13 ∷ 10 ∷ d))
  regroup a b c d = simp append_assoc

  -- Where every write appends, `evbuffer_readln` finds the lines and `scan` reads the sizes: a chunked
  -- body in the buffer is read to its end, what follows it stays in the buffer for the next request,
  -- and the body has been written, byte for byte, to the client.
  pub server_read_httpchunks-chunked_text :
      (chunks : List (Bytes × Bytes)) (last rest : Bytes) (c : Client) (out : Bytes)
      → All (IsChunk scan) chunks
      → IsSize scan 0 last
      → server_read_httpchunks w readln scan
          (rounds chunks)
          (reading chunk_length (chunked_text chunks last rest) c)
          out
        ≡ behind_body rest c (out ++ chunked_text chunks last [])
  server_read_httpchunks-chunked_text [] last rest c out h size = reads_end 0 last rest c out size
  server_read_httpchunks-chunked_text ((line, []) ∷ chunks) last rest c out
        ((some_chunk, is_size), h) size =
      absurd (some_chunk refl)
  server_read_httpchunks-chunked_text ((line, x ∷ chunk) ∷ chunks) last rest c out
        ((some_chunk, is_size), h) size =
      let s = chunked_text chunks last rest in
      let out1 = out ++ (line ++ 13 ∷ 10 ∷ []) in
      reads_size (suc (rounds chunks)) (suc (length chunk)) line ((x ∷ chunk) ++ 13 ∷ 10 ∷ s) c out
        is_size refl
      ∙ reads_chunk (rounds chunks) (length chunk) (x ∷ chunk) s c out1 refl
          (some_text chunks last rest)
      ∙ server_read_httpchunks-chunked_text chunks last rest c
          (out1 ++ ((x ∷ chunk) ++ 13 ∷ 10 ∷ [])) h size
      ∙ ap (behind_body rest c) (regroup out line (x ∷ chunk) (chunked_text chunks last []))
