-- ===== src/Chunks/Ends.antt =====
-- The callback `server_read_httpchunks`, which calls itself while bytes are left, ends.
use fuzz_httpd.Base.{
  ℕ, zero, suc, ◌-◌, ◌+◌, ◌*◌, ◌<◌, ◌≤◌, ◌≡◌, refl, true, false, [], ◌∷◌, Option, none, some, Bytes,
  c_str, is_empty, length, length-drop, drop, take, ltb, if-intro, arith,
}
use fuzz_httpd.RequestLine.{
  Client, ClientToread, left, http_header, chunk_length, chunk_trailer, unlimited, nothing,
  read_http,
}
use fuzz_httpd.Chunks.{
  Chunked, fuel_gone, is_chunks, or_fail, size_toread, next_chunk, size_line, print_line,
  behind_line, on_length, on_trailer, on_end, on_toread, read_chunk, with_data,
  server_read_httpchunks,
}

-- A state of a chunked body.
abbrev pub IsChunkState : ClientToread → Type 0
IsChunkState (left n) = Unit
IsChunkState chunk_length = Unit
IsChunkState chunk_trailer = Unit
IsChunkState _ = ⊥

abbrev pub extra : ClientToread → ℕ
extra (left zero) = 1
extra _ = 0

-- Twice the bytes in the buffer, and one for the end of a chunk.
abbrev pub measure : Client → ℕ
measure c = 2 * length c.input + extra c.clt_toread

abbrev pub Ends : Chunked → Type 0
Ends fuel_gone = ⊥
Ends _ = Unit

module _ (w : Bytes → Bytes → Option Bytes) (readln : Bytes → Option (Bytes × Bytes))
    (scan : Bytes → Option ℕ)
    (shorter : (s l r : Bytes) → readln s ≡ some (l, r) → length r < length s) where
  module _ (again : Client → Bytes → Chunked) (m : ℕ)
      (ends : (c : Client) (out : Bytes)
        → IsChunkState c.clt_toread
        → measure c < m
        → Ends (again c out)) where
    next_chunk-Ends :
        (c : Client) (out : Bytes)
        → (is_chunks c.readcb ≡ true → IsChunkState c.clt_toread × (measure c < m))
        → Ends (next_chunk w readln scan again c out)
    unfolding next_chunk
    next_chunk-Ends c out h =
        if-intro Ends c.clt_done _ _ (λ _. tt)
          (λ _.
            if-intro Ends (is_empty c.input) _ _ (λ _. tt)
              (λ _.
                if-intro Ends (is_chunks c.readcb) _ _ (λ e. ends c out (h e).0 (h e).1) (λ _. tt)))

    or_fail-Ends :
        (o : Option Bytes) (next : Bytes → Chunked)
        → ((out : Bytes) → Ends (next out))
        → Ends (or_fail o next)
    or_fail-Ends none next h = tt
    or_fail-Ends (some out) next h = h out

    print_line-Ends :
        (line out : Bytes) (next : Bytes → Chunked)
        → ((out : Bytes) → Ends (next out))
        → Ends (print_line w readln scan line out next)
    print_line-Ends line out next h =
        or_fail-Ends (w out line) _ (λ out'. or_fail-Ends (w out' (13 ∷ 10 ∷ [])) next h)

    size-state : (n : ℕ) → IsChunkState (size_toread n) × (extra (size_toread n) ≡ 0)
    size-state zero = (tt, refl)
    size-state (suc n) = (tt, refl)

    size_line-Ends :
        (o : Option ℕ) (line : Bytes) (c : Client) (out : Bytes)
        → 2 * length c.input < m
        → Ends (size_line w readln scan again o line c out)
    size_line-Ends none line c out h = tt
    size_line-Ends (some n) line c out h = print_line-Ends line out _ (λ out'.
        next_chunk-Ends (record c { clt_toread = size_toread n }) out'
          (λ _. let (a, b) = size-state n in (a, omega (arith, h, b))))

    on_length-Ends :
        (o : Option (Bytes × Bytes)) (c : Client) (out : Bytes)
        → ((l r : Bytes) → o ≡ some (l, r) → 2 * length r < m)
        → IsChunkState c.clt_toread
        → extra c.clt_toread ≡ 0
        → Ends (on_length w readln scan again o c out)
    on_length-Ends none c out h st e = tt
    on_length-Ends (some (line, rest)) c out h st e =
        if-intro Ends (is_empty (c_str line)) _ _
          (λ _.
            next_chunk-Ends (record c { input = rest }) out
              (λ _. (st, omega (arith, h line rest refl, e))))
          (λ _.
            size_line-Ends (scan (c_str line)) (c_str line) (record c { input = rest }) out
              (h line rest refl))

    on_trailer-Ends :
        (o : Option (Bytes × Bytes)) (c : Client) (out : Bytes)
        → ((l r : Bytes) → o ≡ some (l, r) → 2 * length r < m)
        → IsChunkState c.clt_toread
        → extra c.clt_toread ≡ 0
        → Ends (on_trailer w readln scan again o c out)
    on_trailer-Ends none c out h st e = tt
    on_trailer-Ends (some (line, rest)) c out h st e = print_line-Ends (c_str line) out _ (λ out'.
        if-intro (λ d. Ends (next_chunk w readln scan again d out')) (is_empty (c_str line)) _ _
          (λ _.
            next_chunk-Ends
              (record c { input = rest; clt_toread = http_header; readcb = read_http }) out'
              (λ no. cc))
          (λ _.
            next_chunk-Ends (record c { input = rest }) out'
              (λ _. (st, omega (arith, h line rest refl, e)))))

    behind_line-shorter :
        (o : Option (Bytes × Bytes)) (s : Bytes)
        → ((l r : Bytes) → o ≡ some (l, r) → length r < length s)
        → length (behind_line w readln scan again o s) ≤ length s
    behind_line-shorter none s h = omega arith
    behind_line-shorter (some (l, r)) s h = omega (arith, h l r refl)

    on_end-Ends :
        (c : Client) (out : Bytes)
        → 2 * length c.input < m
        → Ends (on_end w readln scan again c out)
    on_end-Ends c out h =
        let s = behind_line-shorter (readln c.input) c.input (shorter c.input) in
        or_fail-Ends (w out (13 ∷ 10 ∷ [])) _ (λ out'.
          next_chunk-Ends
            (record c {
              input = behind_line w readln scan again (readln c.input) c.input;
              clt_toread = chunk_length;
            })
            out' (λ _. (tt, omega (arith, s, h))))

    rest-Ends :
        (k : ℕ) (c : Client) (out : Bytes)
        → 2 * length c.input < m
        → Ends (on_toread w readln scan again (left k) (record c { clt_toread = left k }) out)
    rest-Ends zero c out h = on_end-Ends (record c { clt_toread = left 0 }) out h
    rest-Ends (suc k) c out h =
        next_chunk-Ends (record c { clt_toread = left (suc k) }) out (λ _. (tt, omega (arith, h)))

    read_chunk-Ends :
        (n : ℕ) (c : Client) (out : Bytes)
        → 0 < n
        → 2 * length c.input ≤ m
        → 0 < length c.input
        → Ends (read_chunk w readln scan again n c out)
    read_chunk-Ends n c out some_n h some_input =
        if-intro Ends (ltb n (length c.input)) _ _
          (λ _. or_fail-Ends (w out (take n c.input)) _ (λ out'.
            rest-Ends 0 (record c { input = drop n c.input }) out'
              (omega (arith, length-drop n c.input, h, some_n, some_input))))
          (λ _. or_fail-Ends (w out c.input) _ (λ out'.
            rest-Ends (n - length c.input) (record c { input = [] }) out'
              (omega (arith, h, some_input))))

    with_data-Ends :
        (t : ClientToread) (c : Client) (out : Bytes)
        → IsChunkState t
        → 0 < length c.input
        → 2 * length c.input + extra t ≤ m
        → Ends (with_data w readln scan again t (record c { clt_toread = t }) out)
    with_data-Ends (left zero) c out st some_input h =
        on_end-Ends (record c { clt_toread = left 0 }) out (omega (arith, h))
    with_data-Ends (left (suc n)) c out st some_input h =
        read_chunk-Ends (suc n) (record c { clt_toread = left (suc n) }) out (omega arith)
          (omega (arith, h)) some_input
    with_data-Ends chunk_length c out st some_input h =
        on_length-Ends (readln c.input) (record c { clt_toread = chunk_length }) out
          (λ l r e. omega (arith, shorter c.input l r e, h)) tt refl
    with_data-Ends chunk_trailer c out st some_input h =
        on_trailer-Ends (readln c.input) (record c { clt_toread = chunk_trailer }) out
          (λ l r e. omega (arith, shorter c.input l r e, h)) tt refl
    with_data-Ends unlimited c out st some_input h = absurd st
    with_data-Ends http_header c out st some_input h = absurd st
    with_data-Ends nothing c out st some_input h = absurd st

  some_length : (s : Bytes) → is_empty s ≡ false → 0 < length s
  some_length [] h = cc
  some_length (x ∷ s) h = omega arith

  -- Where `evbuffer_readln` takes bytes from the buffer: from each state of a chunked body the calls
  -- end, after twice as many as there are bytes in the buffer, and one or two more.
  pub server_read_httpchunks-Ends :
      (fuel : ℕ) (c : Client) (out : Bytes)
      → IsChunkState c.clt_toread
      → measure c < fuel
      → Ends (server_read_httpchunks w readln scan fuel c out)
  unfolding server_read_httpchunks
  server_read_httpchunks-Ends zero c out st h = absurd (omega arith)
  server_read_httpchunks-Ends (suc fuel) c out st h =
      if-intro Ends (is_empty c.input) _ _ (λ _. tt)
        (λ some_input.
          with_data-Ends (server_read_httpchunks w readln scan fuel) fuel
            (λ c' out' st' h'. server_read_httpchunks-Ends fuel c' out' st' h') c.clt_toread c out
            st (some_length c.input some_input) (omega (arith, h)))
