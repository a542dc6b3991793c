-- ===== src/FcgiRead/Loop.antt =====
-- The rounds of `server_fcgi_read` of server_fcgi.c: what one round takes, and how a call ends.
use fuzz_httpd.Base.{
  ℕ, zero, suc, ◌+◌, ◌-◌, ◌<◌, ◌≤◌, ◌≡◌, refl, sym, ap, ◌∙◌, subst, Bool, true, false, not, ◌&&◌,
  [], Option, none, some, Bytes, ap₂, append-nil, drop, length, length-take, length-drop, take,
  ◌==◌, if-intro, if-true, arith, Bool-cases, inl, inr,
}
use native.Mathlib.Decide.{dec_lt}
use fuzz_httpd.Reply.{Config}
use fuzz_httpd.Request.Print.{if-false}
use fuzz_httpd.FcgiRead.{
  FcgiReading, waits, aborted, fuel_gone, Record, next_record, aborts, received, complete, on_state,
  on_content, parse_header, after_content, then_next, read_records, server_fcgi_read,
}
use fuzz_httpd.FcgiHead.{
  FcgiClient, FcgiState, read_header, read_content, read_padding, fcgi_stdout,
}
use fuzz_httpd.FcgiRead.Cut.{take_all, drop_all, some_taken}

-- More bytes are asked for.
abbrev pub Asks : FcgiClient → Type 0
Asks c = 0 < c.clt_fcgi.toread

abbrev pub AsksNext : Record → Type 0
AsksNext (next_record c) = Asks c
AsksNext (aborts code) = Unit

-- A call ends in an abort or in a wait for more bytes; its fuel is enough.
abbrev pub Ends : FcgiReading → Type 0
Ends (waits c) = Asks c
Ends (aborted code) = Unit
Ends fuel_gone = ⊥

-- behind a part that came as a whole
abbrev pub settled : Record → FcgiReading
settled (next_record c) = waits c
settled (aborts code) = aborted code

module _ (w : Bytes → Bytes → Option Bytes) (number hex : ℕ → Bytes) (logged : Bool) (conf : Config)
    (now : Option Bytes) where
  after_content-Asks :
      (o : Option FcgiClient) → AsksNext (after_content w number hex logged conf now o)
  after_content-Asks none = tt
  after_content-Asks (some c) = elim (Bool-cases (c.clt_fcgi.padding_len == 0)) [
    | inl e ↦ rw e (omega arith)
    | inr e ↦ rw e (ground arith)
  ]

  on_state-Asks :
      (st : FcgiState) (c : FcgiClient) → AsksNext (on_state w number hex logged conf now st c)
  on_state-Asks read_header c =
      let c' = parse_header w number hex logged conf now c in
      if-intro AsksNext (not (c'.clt_fcgi.toread == 0)) _ _ (λ e. ground arith)
        (λ _.
          if-intro AsksNext (c'.clt_fcgi.type == fcgi_stdout && c'.clt_chunk == 0) _ _ (λ _. tt)
            (λ _. after_content-Asks (on_content w number hex logged conf now c')))
  on_state-Asks read_content c = after_content-Asks (on_content w number hex logged conf now c)
  on_state-Asks read_padding c = omega arith

  -- The end of each part of a record asks for at least one byte.
  complete-Asks : (c : FcgiClient) → AsksNext (complete w number hex logged conf now c)
  unfolding complete
  complete-Asks c = on_state-Asks c.clt_fcgi.state c

  unfoldable pub read : ℕ → Bytes → FcgiClient → FcgiReading
  unfolding read_records
  read = read_records w number hex logged conf now

  abbrev pub got : Bytes → FcgiClient → FcgiClient
  got = received w number hex logged conf now

  unfoldable pub done : FcgiClient → Record
  unfolding complete
  done = complete w number hex logged conf now

  pub done-Asks : (c : FcgiClient) → AsksNext (done c)
  unfolding done
  done-Asks c = complete-Asks c

  abbrev pub go_on : (FcgiClient → FcgiReading) → Record → FcgiReading
  go_on next r = then_next w number hex logged conf now next true r

  -- Less than is asked for.
  pub read_short :
      (f : ℕ) (s : Bytes) (c : FcgiClient)
      → length s < c.clt_fcgi.toread
      → read (suc f) s c ≡ waits (got s c)
  unfolding read
  read_short f s c h = rw (take_all c.clt_fcgi.toread s (omega (arith, h))) (
      let left : not (c.clt_fcgi.toread - length s == 0) ≡ true = ground arith in
      if-true _ _ _ left)

  -- All that is asked for.
  pub read_long :
      (f : ℕ) (s : Bytes) (c : FcgiClient)
      → Asks c
      → c.clt_fcgi.toread ≤ length s
      → read (suc f) s c
        ≡ go_on (read f (drop c.clt_fcgi.toread s)) (done (got (take c.clt_fcgi.toread s) c))
  unfolding read done
  read_long f s c asks h =
      let t = take c.clt_fcgi.toread s in
      let n : length t ≡ c.clt_fcgi.toread = omega (arith, length-take c.clt_fcgi.toread s, h) in
      let all : not (c.clt_fcgi.toread - length t == 0) ≡ false = ground (arith, n) in
      if-false _ _ _ all
      ∙ ap
          (λ b.
            then_next w number hex logged conf now (read f (drop c.clt_fcgi.toread s)) b
              (done (got t c)))
          (some_taken t (omega (arith, n, asks)))

  -- What the loop makes of the next record depends on what is left only.
  pub go_on-same :
      (k l : FcgiClient → FcgiReading) (r : Record)
      → AsksNext r
      → ((c : FcgiClient) → Asks c → k c ≡ l c)
      → go_on k r ≡ go_on l r
  go_on-same k l (aborts code) h e = refl
  go_on-same k l (next_record c) h e = e c h

  pub fuel_same :
      (f g : ℕ) (s : Bytes) (c : FcgiClient)
      → length s < f
      → length s < g
      → Asks c
      → read f s c ≡ read g s c
  fuel_same zero g s c hf hg a = absurd (omega arith)
  fuel_same (suc f) zero s c hf hg a = absurd (omega arith)
  fuel_same (suc f) (suc g) s c hf hg a = elim (dec_lt (length s) c.clt_fcgi.toread) [
    | yes short ↦ read_short f s c short ∙ sym (read_short g s c short)
    | no long ↦
        read_long f s c a (omega (arith, long))
        ∙ go_on-same _ _ (done (got (take c.clt_fcgi.toread s) c)) (done-Asks _) (λ d asks.
          fuel_same f g (drop c.clt_fcgi.toread s) d
            (omega (arith, length-drop c.clt_fcgi.toread s, a, long, hf))
            (omega (arith, length-drop c.clt_fcgi.toread s, a, long, hg)) asks)
        ∙ sym (read_long g s c a (omega (arith, long)))
  ]

  go_on-Ends :
      (k : FcgiClient → FcgiReading) (r : Record)
      → AsksNext r
      → ((c : FcgiClient) → Asks c → Ends (k c))
      → Ends (go_on k r)
  go_on-Ends k (aborts code) h e = tt
  go_on-Ends k (next_record c) h e = e c h

  read-Ends : (f : ℕ) (s : Bytes) (c : FcgiClient) → length s < f → Asks c → Ends (read f s c)
  read-Ends zero s c hf a = absurd (omega arith)
  read-Ends (suc f) s c hf a = elim (dec_lt (length s) c.clt_fcgi.toread) [
    | yes short ↦ subst Ends (sym (read_short f s c short)) (omega (arith, short))
    | no long ↦ subst Ends (sym (read_long f s c a (omega (arith, long)))) (
        go_on-Ends _ (done (got (take c.clt_fcgi.toread s) c)) (done-Asks _) (λ d more.
          read-Ends f (drop c.clt_fcgi.toread s) d
            (omega (arith, length-drop c.clt_fcgi.toread s, a, long, hf)) more))
  ]

  -- While bytes are asked for: a call ends in an abort, or waits with bytes asked for again, so that
  -- the next call reads on.
  pub server_fcgi_read-Ends :
      (s : Bytes) (c : FcgiClient)
      → Asks c
      → Ends (server_fcgi_read w number hex logged conf now s c)
  unfolding server_fcgi_read read
  server_fcgi_read-Ends s c a = read-Ends (length s + 1) s c (omega arith) a

  read_nothing : (f : ℕ) (r : Record) → AsksNext r → go_on (read (suc f) []) r ≡ settled r
  read_nothing f (aborts code) a = refl
  read_nothing f (next_record c) a =
      read_short f [] c a
      ∙ ap₂
          (λ e k. waits (record c { clt_srvevb = e; clt_fcgi = record c.clt_fcgi { toread = k } }))
          (append-nil c.clt_srvevb) (omega arith)

  -- All that is asked for, and no more.
  pub server_fcgi_read_part :
      (s : Bytes) (c : FcgiClient)
      → Asks c
      → length s ≡ c.clt_fcgi.toread
      → server_fcgi_read w number hex logged conf now s c
        ≡ settled
            (complete w number hex logged conf now (received w number hex logged conf now s c))
  unfolding server_fcgi_read read done
  server_fcgi_read_part s c a n =
      let one_more : length s + 1 ≡ suc (length s) = omega arith in
      let one_less : length s ≡ suc (length s - 1) = omega (arith, n, a) in
      ap (λ k. read k s c) one_more
      ∙ read_long (length s) s c a (omega (arith, n))
      ∙ ap₂ (λ u v. go_on (read (length s) u) (done (got v c)))
          (drop_all c.clt_fcgi.toread s (omega (arith, n)))
          (take_all c.clt_fcgi.toread s (omega (arith, n)))
      ∙ ap (λ k. go_on (read k []) (done (got s c))) one_less
      ∙ read_nothing (length s - 1) (done (got s c)) (done-Asks (got s c))

  pub server_fcgi_read_nothing :
      (c : FcgiClient) → Asks c → server_fcgi_read w number hex logged conf now [] c ≡ waits c
  unfolding server_fcgi_read read
  server_fcgi_read_nothing c a = read_nothing 0 (next_record c) a
