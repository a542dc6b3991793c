-- ===== src/Transfer/Finish.antt =====
-- The callback `server_read_httprange` gets to the end of the reply.
use fuzz_httpd.Base.{
  ℕ, zero, suc, ◌∷◌, ◌+◌, ◌-◌, ◌*◌, ◌≤◌, ◌<◌, Bool, true, false, ◌||◌, [], ◌++◌, ◌≡◌, refl, ap, ◌∙◌,
  subst, Option, some, Bytes, is_empty, length, get_or, take, drop, leb, ltb, ltb→le, Bool-cases,
  inl, inr, arith, length-take, length-drop,
}
use fuzz_httpd.Range.{Range, no_range}
use fuzz_httpd.Transfer.{
  end_marker, part_header, server_max_prefetch, bytes, next_range, no_more, Reply, Transfer,
  running, next_part, server_read_httprange, read_data,
}
use fuzz_httpd.Transfer.Whole.{receive, first, Reads, here, read}

non_empty : {m : ℕ} (s : Bytes) → m < length s → is_empty s ≡ false
non_empty [] h = absurd (omega arith)
non_empty (c ∷ s) h = refl

module _ (w : Bytes → Bytes → Option Bytes) (lseek : ℕ → Bool) (number : ℕ → Bytes) (c : Reply)
    (file : Bytes) (appends : (a b : Bytes) → w a b ≡ some (a ++ b))
    (seeks : (n : ℕ) → lseek n ≡ true) (open_still : c.done ≡ false) where
  abbrev range_at : ℕ → Range
  range_at i = get_or c.ranges.range i no_range

  abbrev started : Range → ℕ → Transfer → Transfer
  started r i t = record t {
    range_toread = bytes (r.end + 1 - r.start);
    offset = r.start;
    input = [];
    range_index = i + 1;
  }

  abbrev throttled_at : ℕ → Transfer → Bool
  throttled_at unsent t = t.throttled || ltb (server_max_prefetch * c.sndbufsiz) unsent

  next_part_last :
      (unsent : ℕ) (t : Transfer)
      → leb c.ranges.range_count t.range_index ≡ true
      → (t' : Transfer) × (next_part w lseek number c unsent t ≡ running t')
        × (t'.range_toread ≡ no_more)
  unfolding next_part
  next_part_last unsent t e = elim (Bool-cases (ltb 1 c.ranges.range_count)) [
    | inl several ↦ (
      record t {
        output = t.output ++ end_marker w lseek number c;
        range_toread = no_more;
        throttled = throttled_at unsent t;
      },
      simp (e, several, appends, open_still),
      refl,
    )
    | inr one ↦ (
      record t { range_toread = no_more; throttled = throttled_at unsent t },
      simp (e, one, open_still),
      refl,
    )
  ]

  next_part_more :
      (unsent : ℕ) (t : Transfer)
      → leb c.ranges.range_count t.range_index ≡ false
      → (t' : Transfer) × (next_part w lseek number c unsent t
          ≡ running (started (range_at t.range_index) t.range_index t'))
  unfolding next_part
  next_part_more unsent t e = elim (Bool-cases (ltb 1 c.ranges.range_count)) [
    | inl several ↦ (
      record t {
        output = t.output ++ part_header w lseek number c (range_at t.range_index);
        throttled = throttled_at unsent t;
      },
      simp (e, several, appends, seeks, open_still),
    )
    | inr one ↦ (record t { throttled = throttled_at unsent t }, simp (e, one, seeks, open_still))
  ]

  read_rest :
      (m : ℕ) (t : Transfer)
      → m < length (take (length file) (drop t.offset file))
      → (t' : Transfer) × (server_read_httprange w lseek number c 0
            (receive file (length file) (record t { range_toread = bytes (suc m); input = [] }))
          ≡ next_part w lseek number c 0 t')
        × (t'.range_index ≡ t.range_index)
  unfolding server_read_httprange read_data
  read_rest m t h =
      let s = take (length file) (drop t.offset file) in
      let some_read : is_empty s ≡ false = non_empty s h in
      elim (Bool-cases (ltb (suc m) (length s))) [
        | inl more ↦ (
          record t {
            output = t.output ++ take (suc m) s;
            input = drop (suc m) s;
            offset = t.offset + length s;
            range_toread = next_range;
          },
          simp (some_read, more, appends),
          refl,
        )
        | inr all ↦
            let none_left : suc m - length s ≡ 0 =
              omega (arith, ltb→le (suc m) (length s) all, h) in
            (
              record t {
                output = t.output ++ s;
                input = [];
                offset = t.offset + length s;
                range_toread = next_range;
              },
              simp (some_read, all, appends, none_left),
              refl,
            )
      ]

  -- What a run gets to.
  abbrev pub Finishes : Transfer → Type 0
  Finishes start =
      (t : Transfer) × Reads w lseek number c file start (running t) × (t.range_toread ≡ no_more)

  module _
      (in_file : (i : ℕ)
        → i < c.ranges.range_count
        → ((range_at i).start ≤ (range_at i).end) × ((range_at i).end < length file)) where
    next_part-Finishes :
        (start : Transfer) (k : ℕ) (t : Transfer)
        → c.ranges.range_count - t.range_index ≡ k
        → Reads w lseek number c file start (next_part w lseek number c 0 t)
        → Finishes start
    next_part-Finishes start zero t e r =
        let (t', f, end) = next_part_last 0 t (ground arith) in
        (t', subst (Reads w lseek number c file start) f r, end)
    next_part-Finishes start (suc k) t e r =
        let i = t.range_index in
        let (ordered, inside) = in_file i (omega arith) in
        let (t', f) = next_part_more 0 t (ground arith) in
        let m = (range_at i).end - (range_at i).start in
        let one_more : (range_at i).end + 1 - (range_at i).start ≡ suc m = omega (arith, ordered) in
        let t1 = record t' { offset = (range_at i).start; range_index = i + 1 } in
        let behind = drop (range_at i).start file in
        let long : m < length (take (length file) behind) = omega (
          arith,
          ordered,
          inside,
          length-take (length file) behind,
          length-drop (range_at i).start file,
        ) in
        let (t'', g, same) = read_rest m t1 long in
        let r' = read (length file) 0 (subst (Reads w lseek number c file start) f r) in
        next_part-Finishes start k t'' (omega (arith, same)) (
          subst (Reads w lseek number c file start)
            (ap
                (λ n.
                  server_read_httprange w lseek number c 0
                    (receive file (length file) (record t1 { range_toread = bytes n; input = [] })))
                one_more
              ∙ g)
            r')

    -- Where every write appends, `lseek` succeeds, the client is not done and the ranges lie in the
    -- file, there are reads of the file after which there is no more to do.
    pub server_read_httprange-Finishes : (out : Bytes) → Finishes (first out)
    unfolding server_read_httprange
    server_read_httprange-Finishes out =
        next_part-Finishes (first out) c.ranges.range_count (first out) (omega arith)
          (read 0 0 here)
