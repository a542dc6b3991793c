-- ===== src/Transfer/Whole.antt =====
-- The reply that `server_read_httprange` writes, over all its calls.
use fuzz_httpd.Base.{
  ℕ, zero, suc, ◌+◌, ◌-◌, ◌≤◌, ◌<◌, Bool, true, false, [], ◌++◌, ◌≡◌, refl, sym, ap, ◌∙◌, Option,
  some, Bytes, is_empty, length, get_or, take, drop, leb, ltb, leb→le, ltb→lt, ltb→le,
  if◌then◌else◌, append_assoc, append-nil, arith,
}
use fuzz_httpd.Transfer.Pieces.{take-take, take-split, drop-drop, is_empty-nil}
use fuzz_httpd.Range.{Range, no_range}
use fuzz_httpd.Transfer.{
  Toread, bytes, next_range, no_more, Reply, Transfer, Progress, running, ended, closed, written,
  end_marker, part_header, leave, start_range, next_part, dispatch, left_to_read, read_data,
  on_data, server_read_httprange,
}

-- What a read of at most `k` bytes of the file gives to the buffer.
abbrev pub receive : Bytes → ℕ → Transfer → Transfer
receive file k t =
    let chunk = take k (drop t.offset file) in
    record t { input = t.input ++ chunk; offset = t.offset + length chunk }

-- A reply begins before the first range.
abbrev pub first : Bytes → Transfer
first out = record {
  range_toread = next_range;
  range_index = 0;
  offset = 0;
  input = [];
  output = out;
  throttled = false;
}

module _ (w : Bytes → Bytes → Option Bytes) (lseek : ℕ → Bool) (number : ℕ → Bytes) (c : Reply)
    (file : Bytes) where
  abbrev range_at : ℕ → Range
  range_at i = get_or c.ranges.range i no_range

  -- the bytes of a range
  abbrev pub slice : Range → Bytes
  slice r = take (r.end + 1 - r.start) (drop r.start file)

  abbrev header_of : Range → Bytes
  header_of r = if ltb 1 c.ranges.range_count then part_header w lseek number c r else []

  -- What the last `k` ranges make of a reply: of several, each has its header and an end marker
  -- follows.
  unfoldable pub parts : ℕ → Bytes
  parts zero = if ltb 1 c.ranges.range_count then end_marker w lseek number c else []
  parts (suc k) =
      let r = range_at (c.ranges.range_count - suc k) in header_of r ++ (slice r ++ parts k)

  -- What is still to be written, from an offset in the file and a place among the ranges.
  abbrev pub to_come : Toread → ℕ → ℕ → Bytes
  to_come (bytes n) offset i = take n (drop offset file) ++ parts (c.ranges.range_count - i)
  to_come next_range offset i = parts (c.ranges.range_count - i)
  to_come no_more offset i = []

  -- What was written and what is to come.
  abbrev pub whole : Transfer → Bytes
  whole t = t.output ++ to_come t.range_toread t.offset t.range_index

  -- Where bytes are to be read, there is at least one, and the buffer is empty.
  abbrev pub Drained : Toread → Bytes → Type 0
  Drained (bytes n) input = (0 < n) × (input ≡ [])
  Drained _ input = Unit

  abbrev pub Good : Bytes → Transfer → Type 0
  Good all t = (whole t ≡ all) × Drained t.range_toread t.input

  -- Whatever follows, the reply stays what it is, and nothing fails.
  abbrev pub Keeps : Bytes → Progress → Type 0
  Keeps all (running t) = Good all t
  Keeps all (ended t) = Good all t
  Keeps all closed = ⊥

  Keeps-if :
      (all : Bytes) (b : Bool) (x y : Progress)
      → (b ≡ true → Keeps all x)
      → (b ≡ false → Keeps all y)
      → Keeps all (if b then x else y)
  Keeps-if all true x y hx hy = hx refl
  Keeps-if all false x y hx hy = hy refl

  leave-Keeps :
      (all : Bytes) (unsent : ℕ) (t : Transfer)
      → Good all t
      → Keeps all (leave w lseek number c unsent t)
  leave-Keeps all unsent t h = Keeps-if all c.done _ _ (λ _. h) (λ _. h)

  parts_at_end :
      (i : ℕ)
      → leb c.ranges.range_count i ≡ true
      → parts (c.ranges.range_count - i)
        ≡ (if ltb 1 c.ranges.range_count then end_marker w lseek number c else [])
  unfolding parts
  parts_at_end i h =
      let e : c.ranges.range_count - i ≡ 0 = omega (arith, leb→le c.ranges.range_count i h) in
      ap parts e

  parts_at :
      (i : ℕ)
      → leb c.ranges.range_count i ≡ false
      → parts (c.ranges.range_count - i)
        ≡ header_of (range_at i) ++ (slice (range_at i) ++ parts (c.ranges.range_count - (i + 1)))
  unfolding parts
  parts_at i h =
      let k = c.ranges.range_count - (i + 1) in
      let here : c.ranges.range_count - i ≡ suc k = ground arith in
      let there : c.ranges.range_count - suc k ≡ i = ground arith in
      ap parts here ∙ ap (λ n. header_of (range_at n) ++ (slice (range_at n) ++ parts k)) there

  -- The states that reads of the file, each with the call of the callback, lead to.
  pub data Reads (start : Transfer) : Progress → Type 0 where
    here : Reads start (running start)
    read :
        (k unsent : ℕ) {t : Transfer}
        → Reads start (running t)
        → Reads start (server_read_httprange w lseek number c unsent (receive file k t))

  module _ (appends : (a b : Bytes) → w a b ≡ some (a ++ b)) (seeks : (n : ℕ) → lseek n ≡ true)
      (ordered : (i : ℕ) → i < c.ranges.range_count → (range_at i).start ≤ (range_at i).end) where
    start_range-Keeps :
        (all : Bytes) (r : Range) (unsent : ℕ) (t : Transfer)
        → r.start ≤ r.end
        → t.output ++ (slice r ++ parts (c.ranges.range_count - (t.range_index + 1))) ≡ all
        → Keeps all (start_range w lseek number c r unsent t)
    start_range-Keeps all r unsent t le h = rw (seeks r.start) (
        leave-Keeps all unsent
          (record t {
            range_toread = bytes (r.end + 1 - r.start);
            offset = r.start;
            input = [];
            range_index = t.range_index + 1;
          })
          (h, (omega arith, refl)))

    written-Keeps :
        (all out s : Bytes) (next : Bytes → Progress)
        → Keeps all (next (out ++ s))
        → Keeps all (written (w out s) next)
    written-Keeps all out s next h = rw (appends out s) h

    next_part-Keeps :
        (all : Bytes) (unsent : ℕ) (t : Transfer)
        → t.output ++ parts (c.ranges.range_count - t.range_index) ≡ all
        → Keeps all (next_part w lseek number c unsent t)
    unfolding next_part
    next_part-Keeps all unsent t h =
        let r = range_at t.range_index in
        Keeps-if all (leb c.ranges.range_count t.range_index) _ _
          (λ e.
            let g = rw (parts_at_end t.range_index e) at h in
            Keeps-if all (ltb 1 c.ranges.range_count) _ _
              (λ several. written-Keeps all t.output (end_marker w lseek number c) _ (
                leave-Keeps all unsent
                  (record t {
                    output = t.output ++ end_marker w lseek number c;
                    range_toread = no_more;
                  })
                  (append-nil _ ∙ (rw several at g), tt)))
              (λ one.
                leave-Keeps all unsent (record t { range_toread = no_more }) (rw one at g, tt)))
          (λ e.
            let g = rw (parts_at t.range_index e) at h in
            let le = ordered t.range_index (ground arith) in
            Keeps-if all (ltb 1 c.ranges.range_count) _ _
              (λ several. written-Keeps all t.output (part_header w lseek number c r) _ (
                start_range-Keeps all r unsent
                  (record t { output = t.output ++ part_header w lseek number c r }) le
                  (append_assoc t.output (part_header w lseek number c r) _ ∙ (rw several at g))))
              (λ one. start_range-Keeps all r unsent t le (rw one at g)))

    after_read-Keeps :
        (all : Bytes) (m unsent : ℕ) (t : Transfer)
        → t.output ++ to_come (bytes m) t.offset t.range_index ≡ all
        → Keeps all (
            dispatch w lseek number c
              (left_to_read m)
              unsent
              (record t { input = []; range_toread = left_to_read m }))
    after_read-Keeps all zero unsent t h =
        next_part-Keeps all unsent (record t { input = []; range_toread = next_range }) h
    after_read-Keeps all (suc m) unsent t h =
        leave-Keeps all unsent (record t { input = []; range_toread = bytes (suc m) })
          (h, (omega arith, refl))

    -- the bytes that were read, and those that are left
    slice_read :
        (n k off : ℕ) (rest : Bytes)
        → length (take k (drop off file)) ≤ n
        → take k (drop off file)
            ++ (take
                  (n - length (take k (drop off file)))
                  (drop (off + length (take k (drop off file))) file)
                ++ rest)
          ≡ take n (drop off file) ++ rest
    slice_read n k off rest h =
        let s = take k (drop off file) in
        let m = n - length s in
        let split = take-split m n k (drop off file) (omega (arith, h)) in
        sym (append_assoc s (take m (drop (off + length s) file)) rest)
        ∙ ap (λ d. (s ++ take m d) ++ rest) (sym (drop-drop (length s) off file))
        ∙ ap (λ d. d ++ rest) split

    read_data-Keeps :
        (all : Bytes) (n unsent k : ℕ) (t : Transfer)
        → 0 < n
        → t.output ++ to_come (bytes n) t.offset t.range_index ≡ all
        → Keeps all (
            read_data w lseek number c n unsent
              (receive file k (record t { input = []; range_toread = bytes n })))
    unfolding read_data
    read_data-Keeps all n unsent k t some_n h =
        let s = take k (drop t.offset file) in
        let p = parts (c.ranges.range_count - t.range_index) in
        Keeps-if all (is_empty s) _ _
          (λ e.
            let z = is_empty-nil s e in
            let o : t.offset + length s ≡ t.offset =
              ap (λ r. t.offset + length r) z ∙ omega arith in
            (ap (λ i. t.output ++ (take n (drop i file) ++ p)) o ∙ h, (some_n, z)))
          (λ _.
            Keeps-if all (ltb n (length s)) _ _
              (λ more. written-Keeps all t.output (take n s) _ (
                next_part-Keeps all unsent
                  (record t {
                    output = t.output ++ take n s;
                    input = drop n s;
                    offset = t.offset + length s;
                    range_toread = next_range;
                  })
                  (append_assoc t.output (take n s) p
                    ∙ ap (λ r. t.output ++ (r ++ p))
                        (take-take n k (drop t.offset file) (ltb→lt n (length s) more))
                    ∙ h)))
              (λ some_left. written-Keeps all t.output s _ (
                after_read-Keeps all (n - length s) unsent
                  (record t { output = t.output ++ s; offset = t.offset + length s })
                  (append_assoc t.output s _
                    ∙ ap (λ r. t.output ++ r)
                        (slice_read n k t.offset p (ltb→le n (length s) some_left))
                    ∙ h))))

    on_data-Keeps :
        (all : Bytes) (toread : Toread) (unsent k : ℕ) (t : Transfer)
        → Good all (record t { range_toread = toread })
        → Keeps all (
            on_data w lseek number c toread unsent
              (receive file k (record t { range_toread = toread })))
    on_data-Keeps all (bytes zero) unsent k t (h, (some_n, d)) = absurd (omega arith)
    on_data-Keeps all (bytes (suc n)) unsent k t (h, (some_n, d)) =
        rw d (read_data-Keeps all (suc n) unsent k t some_n h)
    on_data-Keeps all next_range unsent k t (h, d) = next_part-Keeps all unsent _ h
    on_data-Keeps all no_more unsent k t (h, d) = (h, tt)

    Reads-Keeps :
        (start : Transfer) (all : Bytes) {p : Progress}
        → Good all start
        → Reads start p
        → Keeps all p
    unfolding server_read_httprange
    Reads-Keeps start all h here = h
    Reads-Keeps start all h (read k unsent {t = t} r) =
        on_data-Keeps all t.range_toread unsent k t (Reads-Keeps start all h r)

    -- Where every write appends, `lseek` succeeds and no range ends before it starts: however the
    -- reads of the file are cut, once there is no more to do, what was written behind `out` is each
    -- range's bytes of the file in order, and of several, each with its header and an end marker
    -- behind the last.
    pub server_read_httprange-parts :
        (out : Bytes) (t : Transfer)
        → Reads (first out) (running t)
        → t.range_toread ≡ no_more
        → t.output ≡ out ++ parts c.ranges.range_count
    server_read_httprange-parts out t r e =
        let (h, _) =
          Reads-Keeps (first out) (out ++ parts (c.ranges.range_count - 0)) (refl, tt) r in
        sym (append-nil t.output) ∙ (rw e at h) ∙ ap (λ n. out ++ parts n) (omega arith)
