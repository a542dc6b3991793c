-- ===== src/FcgiRead/Arrival.antt =====
-- How the bytes of a FastCGI response are cut on their way makes no difference.
use fuzz_httpd.Base.{
  ℕ, zero, suc, ◌+◌, ◌-◌, ◌<◌, ◌≤◌, ◌≡◌, refl, sym, ap, ◌∙◌, Bool, ◌++◌, Option, Bytes, ap₂,
  append_assoc, drop, length, length-append, length-drop, take, arith,
}
use native.Mathlib.Decide.{dec_lt}
use fuzz_httpd.Reply.{Config}
use fuzz_httpd.FcgiRead.{
  FcgiReading, waits, aborted, fuel_gone, Record, next_record, aborts, received, server_fcgi_read,
}
use fuzz_httpd.FcgiHead.{FcgiClient}
use fuzz_httpd.FcgiRead.Cut.{
  take-append_long, drop-append_long, take-append_short, drop-append_short,
}
use fuzz_httpd.FcgiRead.Loop
use fuzz_httpd.FcgiRead.Loop.{Asks, AsksNext}

-- behind a call: the rest arrives
abbrev pub and_then : FcgiReading → (FcgiClient → FcgiReading) → FcgiReading
and_then (waits c) k = k c
and_then (aborted code) k = aborted code
and_then fuel_gone k = fuel_gone

module _ (w : Bytes → Bytes → Option Bytes) (number hex : ℕ → Bytes) (logged : Bool) (conf : Config)
    (now : Option Bytes) where
  abbrev read : ℕ → Bytes → FcgiClient → FcgiReading
  read = Loop.read w number hex logged conf now

  abbrev done : FcgiClient → Record
  done = Loop.done w number hex logged conf now

  abbrev got : Bytes → FcgiClient → FcgiClient
  got = received w number hex logged conf now

  abbrev go_on : (FcgiClient → FcgiReading) → Record → FcgiReading
  go_on = Loop.go_on w number hex logged conf now

  got-got : (s t : Bytes) (c : FcgiClient) → got t (got s c) ≡ got (s ++ t) c
  got-got s t c =
      let n : c.clt_fcgi.toread - length s - length t ≡ c.clt_fcgi.toread - length (s ++ t) =
        omega (arith, length-append s t) in
      ap₂ (λ e k. record c { clt_srvevb = e; clt_fcgi = record c.clt_fcgi { toread = k } })
        (append_assoc c.clt_srvevb s t) n

  abbrev again : Bytes → FcgiClient → FcgiReading
  again b c = read (suc (length b)) b c

  and_then-go_on :
      (k l : FcgiClient → FcgiReading) (r : Record) (b : Bytes)
      → AsksNext r
      → ((c : FcgiClient) → Asks c → k c ≡ and_then (l c) (again b))
      → go_on k r ≡ and_then (go_on l r) (again b)
  and_then-go_on k l (aborts code) b h e = refl
  and_then-go_on k l (next_record c) b h e = e c h

  -- Less than is asked for, and the rest of it.
  arrives_short :
      (f g : ℕ) (a b : Bytes) (c : FcgiClient)
      → length a < suc f
      → length (a ++ b) < suc g
      → Asks c
      → length a < c.clt_fcgi.toread
      → read (suc g) (a ++ b) c ≡ and_then (read (suc f) a c) (again b)
  arrives_short f g a b c hf hg asks short =
      let n = c.clt_fcgi.toread in
      let m = n - length a in
      let l = length-append a b in
      let sum : length a + m ≡ n = omega (arith, short) in
      let there =
        ap (λ r. and_then r (again b))
          (sym (Loop.read_short w number hex logged conf now f a c short)) in
      elim (dec_lt (length b) m) [
        | yes few ↦
            Loop.read_short w number hex logged conf now g (a ++ b) c (omega (arith, l, few))
            ∙ ap waits (sym (got-got a b c))
            ∙ sym (Loop.read_short w number hex logged conf now (length b) b (got a c) few)
            ∙ there
        | no enough ↦
            Loop.read_long w number hex logged conf now g (a ++ b) c asks (omega (arith, l, enough))
            ∙ ap₂ (λ s t. go_on (read g s) (done (got t c))) (drop-append_short n m a b sum)
                (take-append_short n m a b sum)
            ∙ ap (λ d. go_on (read g (drop m b)) (done d)) (sym (got-got a (take m b) c))
            ∙ Loop.go_on-same w number hex logged conf now (read g (drop m b))
                (read (length b) (drop m b)) (done (got (take m b) (got a c)))
                (Loop.done-Asks w number hex logged conf now _)
                (λ d more.
                  Loop.fuel_same w number hex logged conf now g (length b) (drop m b) d
                    (omega (arith, length-drop m b, l, hg))
                    (omega (arith, length-drop m b, enough, short)) more)
            ∙ sym (
                Loop.read_long w number hex logged conf now (length b) b (got a c)
                  (omega (arith, short)) (omega (arith, enough)))
            ∙ there
      ]

  arrives :
      (f g : ℕ) (a b : Bytes) (c : FcgiClient)
      → length a < f
      → length (a ++ b) < g
      → Asks c
      → read g (a ++ b) c ≡ and_then (read f a c) (again b)
  arrives zero g a b c hf hg asks = absurd (omega arith)
  arrives (suc f) zero a b c hf hg asks = absurd (omega arith)
  arrives (suc f) (suc g) a b c hf hg asks = elim (dec_lt (length a) c.clt_fcgi.toread) [
    | yes short ↦ arrives_short f g a b c hf hg asks short
    | no long ↦
        let n = c.clt_fcgi.toread in
        let le : n ≤ length a = omega (arith, long) in
        Loop.read_long w number hex logged conf now g (a ++ b) c asks
          (omega (arith, length-append a b, le))
        ∙ ap₂ (λ s t. go_on (read g s) (done (got t c))) (drop-append_long n a b le)
            (take-append_long n a b le)
        ∙ and_then-go_on (read g (drop n a ++ b)) (read f (drop n a)) (done (got (take n a) c)) b
            (Loop.done-Asks w number hex logged conf now _)
            (λ d more.
              arrives f g (drop n a) b d (omega (arith, length-drop n a, asks, le, hf))
                (omega (
                  arith,
                  length-append (drop n a) b,
                  length-append a b,
                  length-drop n a,
                  asks,
                  le,
                  hg,
                ))
                more)
        ∙ ap (λ r. and_then r (again b))
            (sym (Loop.read_long w number hex logged conf now f a c asks le))
  ]

  -- While bytes are asked for: to read bytes at once is to read the first of them and then the rest,
  -- wherever they are cut.
  pub server_fcgi_read-append :
      (a b : Bytes) (c : FcgiClient)
      → Asks c
      → server_fcgi_read w number hex logged conf now (a ++ b) c
        ≡ and_then
            (server_fcgi_read w number hex logged conf now a c)
            (server_fcgi_read w number hex logged conf now b)
  unfolding server_fcgi_read Loop.read
  server_fcgi_read-append a b c asks =
      let one_more : suc (length b) ≡ length b + 1 = omega arith in
      arrives (length a + 1) (length (a ++ b) + 1) a b c (omega arith) (omega arith) asks
      ∙ ap (λ n. and_then (read (length a + 1) a c) (read n b)) one_more
