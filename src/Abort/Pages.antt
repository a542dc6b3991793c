-- ===== src/Abort/Pages.antt =====
-- The pages of `server_abort_http`: the loop of `replace_var` ends, and what it leaves.
use fuzz_httpd.Base.{
  count, count-append, ℕ, zero, suc, ◌+◌, ◌-◌, ◌≤◌, ◌<◌, ◌≡◌, refl, ap, Bool, true, List, [], ◌∷◌,
  ◌++◌, Option, none, some, Bytes, codes, length, replicate, ◌==◌, arith, Bool-cases, inl, inr,
  ◌&&◌, &&-eq_true, ==_iff,
}
use fuzz_httpd.Abort.{
  Aborted, closes, fuel_gone, replace_round, replace_loop, replace_var, code_text, error_body,
  find_errdoc, httpd_servername, or_unknown, server_abort_http, with_body, with_date, with_extra,
  extra, Extra,
}
use fuzz_httpd.Expand.{strstr}
use fuzz_httpd.Expand.Replaced.{Parts, strstr-Parts}
use fuzz_httpd.Http.{find_error, http_errors, server_httperror_byid}
use fuzz_httpd.Reply.{Config, then_do}
use fuzz_httpd.Server.{Session}

-- how many `$` a text has
abbrev pub count_dollar : Bytes → ℕ
count_dollar = count b'$'

count_dollar-length : (s : Bytes) → count_dollar s ≤ length s
count_dollar-length [] = omega arith
count_dollar-length (c ∷ s) = ground (arith, count_dollar-length s)

-- a text in which the variable does not occur
abbrev pub Done : Bytes → Option Bytes → Type 0
Done var none = ⊥
Done var (some t) = strstr var t ≡ none

module _ (var repl : Bytes) (plain : count_dollar repl ≡ 0) (dollar : 0 < count_dollar var) where
  round-Done :
      (next : Bytes → Option Bytes) (str : Bytes) (o : Option (Bytes × Bytes))
      → strstr var str ≡ o
      → Parts var str o
      → ((str' : Bytes) → count_dollar str' < count_dollar str → Done var (next str'))
      → Done var (replace_round next str repl o)
  round-Done next str none e h ends = e
  round-Done next str (some (before, behind)) e h ends = ends (before ++ (repl ++ behind)) (
      omega (
        arith,
        ap count_dollar h,
        count-append b'$' before (var ++ behind),
        count-append b'$' var behind,
        count-append b'$' before (repl ++ behind),
        count-append b'$' repl behind,
      ))

  loop-Done :
      (fuel : ℕ) (str : Bytes) → count_dollar str < fuel → Done var (replace_loop fuel str var repl)
  unfolding replace_loop
  loop-Done zero str h = absurd (omega arith)
  loop-Done (suc fuel) str h =
      round-Done (λ str'. replace_loop fuel str' var repl) str (strstr var str) refl
        (strstr-Parts var str) (λ str' fewer. loop-Done fuel str' (omega arith))

  -- For a variable with a `$` and a value without one: the loop, which starts again at the start of the
  -- text after each replacement, ends, and the variable does not occur in what it leaves.
  pub replace_var-Done : (str : Bytes) → Done var (replace_var str var repl)
  unfolding replace_var
  replace_var-Done str = loop-Done (length str + 1) str (omega (arith, count_dollar-length str))

-- a text with no `$`, if there is one
abbrev Plain : Option Bytes → Type 0
Plain none = Unit
Plain (some t) = count_dollar t ≡ 0

abbrev all_plain : List (ℕ × Bytes) → Bool
all_plain [] = true
all_plain ((code, name) ∷ table) = count_dollar name == 0 && all_plain table

find_error-Plain :
    (code : ℕ) (table : List (ℕ × Bytes)) → all_plain table ≡ true → Plain (find_error code table)
unfolding find_error
find_error-Plain code [] h = tt
find_error-Plain code ((id, name) ∷ table) h =
    let (plain, more) = &&-eq_true (count_dollar name == 0) (all_plain table) h in
    elim (Bool-cases (id == code)) [
      | inl same ↦ rw same ((==_iff (count_dollar name) 0).0 plain)
      | inr other ↦ rw other (find_error-Plain code table more)
    ]

unknown-Plain : (o : Option Bytes) → Plain o → count_dollar (or_unknown o) ≡ 0
unknown-Plain none h = refl
unknown-Plain (some t) h = h

httperr-Plain : (code : ℕ) → count_dollar (or_unknown (server_httperror_byid code)) ≡ 0
unfolding server_httperror_byid
httperr-Plain code = unknown-Plain _ (find_error-Plain code http_errors refl)

zeros-Plain : (n : ℕ) → count_dollar (replicate n b'0') ≡ 0
zeros-Plain zero = refl
zeros-Plain (suc n) = zeros-Plain n

-- What a step of the body leaves, if its loop ends.
abbrev pub Ended : Option Bytes → Type 0
Ended none = ⊥
Ended (some t) = Unit

then_do-Ended :
    (var : Bytes) (o : Option Bytes) (k : Bytes → Option Bytes)
    → Done var o
    → ((t : Bytes) → Ended (k t))
    → Ended (then_do o k)
then_do-Ended var none k h ends = h
then_do-Ended var (some t) k h ends = ends t

Done-Ended : (var : Bytes) (o : Option Bytes) → Done var o → Ended o
Done-Ended var none h = h
Done-Ended var (some t) h = tt

-- a call that ends
abbrev pub Closes : Aborted → Type 0
Closes (closes reply msg) = Unit
Closes fuel_gone = ⊥

module _ (number : ℕ → Bytes) (read_file : Bytes → Option Bytes) (stravis : Bytes → Bytes)
    (ibuf_read_size : ℕ) (plain : (n : ℕ) → count_dollar (number n) ≡ 0) where
  code-Plain : (code : ℕ) → count_dollar (code_text number code) ≡ 0
  code-Plain code = omega (
    arith,
    count-append b'$' (replicate (3 - length (number code)) b'0') (number code),
    zeros-Plain (3 - length (number code)),
    plain code,
  )

  body-Ended :
      (code : ℕ) (httperr : Bytes) (o : Option Bytes)
      → count_dollar httperr ≡ 0
      → Ended (error_body number read_file stravis ibuf_read_size code httperr o)
  unfolding error_body
  body-Ended code httperr none h = tt
  body-Ended code httperr (some text) h =
      then_do-Ended (codes "$HTTP_ERROR") _ _
        (replace_var-Done (codes "$HTTP_ERROR") httperr h (omega arith) text)
        (λ body.
          then_do-Ended (codes "$RESPONSE_CODE") _ _
            (replace_var-Done (codes "$RESPONSE_CODE") _ (code-Plain code) (omega arith) body)
            (λ body'. Done-Ended (codes "$SERVER_SOFTWARE") _ (
              replace_var-Done (codes "$SERVER_SOFTWARE") httpd_servername refl (omega arith)
                body')))

  with_body-Closes :
      (code : ℕ) (httperr tmbuf : Bytes) (conf : Config) (c : Session) (e : Extra)
      (o : Option Bytes)
      → Ended o
      → Closes (with_body number read_file stravis ibuf_read_size code httperr tmbuf conf c e o)
  with_body-Closes code httperr tmbuf conf c e none h = h
  with_body-Closes code httperr tmbuf conf c e (some body) h = tt

  with_extra-Closes :
      (code : ℕ) (httperr tmbuf : Bytes) (conf : Config) (msg : Option Bytes) (c : Session)
      (o : Option Extra)
      → count_dollar httperr ≡ 0
      → Closes (with_extra number read_file stravis ibuf_read_size code httperr tmbuf conf msg c o)
  with_extra-Closes code httperr tmbuf conf msg c none h = tt
  with_extra-Closes code httperr tmbuf conf msg c (some e) h =
      with_body-Closes code httperr tmbuf conf c e _ (
        body-Ended code httperr
          (find_errdoc number read_file stravis ibuf_read_size c.clt_srv_conf code) h)

  with_date-Closes :
      (code : ℕ) (httperr : Bytes) (conf : Config) (msg : Option Bytes) (c : Session)
      (date : Option Bytes)
      → count_dollar httperr ≡ 0
      → Closes (with_date number read_file stravis ibuf_read_size code httperr conf msg c date)
  with_date-Closes code httperr conf msg c none h = tt
  with_date-Closes code httperr conf msg c (some tmbuf) h =
      with_extra-Closes code httperr tmbuf conf msg c
        (extra number read_file stravis ibuf_read_size code msg c) h

  -- Where decimal numbers have no `$`: for every code and message, and whatever the files for errors
  -- hold, the loops of `replace_var` end and the connection is closed.
  pub server_abort_http-Closes :
      (can_write : Bool) (date : Option Bytes) (conf : Config) (code : ℕ) (msg : Option Bytes)
      (c : Session)
      → Closes
          (server_abort_http number read_file stravis ibuf_read_size can_write date conf code msg c)
  unfolding server_abort_http
  server_abort_http-Closes can_write date conf code msg c = ground (
    arith,
    with_date-Closes code (or_unknown (server_httperror_byid code)) conf msg c date
        (httperr-Plain code),
  )
