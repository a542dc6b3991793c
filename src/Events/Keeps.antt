-- ===== src/Events/Keeps.antt =====
-- What the callbacks of server_file.c and server_fcgi.c at the end of a reply do with what is not yet
-- written.
use fuzz_httpd.Base.{
  ◌≡◌, refl, sym, ap, ◌∙◌, Bool, true, false, not, ◌&&◌, ◌||◌, [], ◌∷◌, ◌++◌, Option, some, Bytes,
  codes, append-nil, append_assoc, is_empty, if-intro, if-true, arith, if◌then◌else◌, ◌==◌, subst,
}
use fuzz_httpd.Request.Print.{if-false}
use fuzz_httpd.Events.{
  Conn, Event, EventEnd, aborts, closes, reads_http, returns, end_chunks, end_reply, finish,
  or_unwritten, server_fcgi_error, server_file_error, start_next,
}

-- Behind what was in the buffer stands what is in it now.
abbrev pub Behind : Bytes → Conn → Type 0
Behind out c = (more : Bytes) × (c.output ≡ out ++ more)

-- `server_close` is called only when nothing was left to write. `server_abort_http`, which closes too, is
-- called with 500 at an end that came before the headers of the reply, as `early` says.
abbrev pub Keeps : Bool → Bytes → EventEnd → Type 0
Keeps early out (returns c) = Behind out c
Keeps early out (closes msg c) = out ≡ []
Keeps early out (aborts code msg c) = (early ≡ true) × (code ≡ 500) × Behind out c
Keeps early out (reads_http c) = Behind out c

is_empty-nil : (s : Bytes) → is_empty s ≡ true → s ≡ []
is_empty-nil [] h = refl
is_empty-nil (c ∷ s) h = absurd (ground (arith, h))

same : (c : Conn) → Behind c.output c
same c = ([], sym (append-nil c.output))

finish-Keeps : (early : Bool) (c : Conn) → Keeps early c.output (finish c)
finish-Keeps early c =
    if-intro (Keeps early c.output) (is_empty c.output) _ _ (λ e. is_empty-nil c.output e)
      (λ _. same c)

start_next-Keeps : (early : Bool) (c : Conn) → Keeps early c.output (start_next c)
start_next-Keeps early c =
    if-intro (Keeps early c.output) (is_empty c.input) _ _ (λ _. same c) (λ _. same c)

end_reply-Keeps : (early : Bool) (c : Conn) → Keeps early c.output (end_reply c)
end_reply-Keeps early c =
    if-intro (Keeps early c.output)
      ((if not (c.clt_pipelining == 0) && is_empty c.input then 0 else c.clt_persist) == 0) _ _
      (λ _. finish-Keeps early _) (λ _. start_next-Keeps early _)

-- An event that ends a reply, and nothing else.
pub record EndsReply (e : Event) : Type 0 where
  pub in_time : e.timeout ≡ false
  pub no_error : e.error ≡ false
  pub ends : (e.read || e.write || e.eof) ≡ true

file_error-Keeps :
    (early : Bool) (e : Event) (c : Conn)
    → EndsReply e
    → Keeps early c.output (server_file_error e c)
unfolding server_file_error
file_error-Keeps early e c h =
    let ended : server_file_error e c ≡ end_reply c =
      if-false e.timeout _ _ h.in_time
      ∙ if-false e.error _ _ h.no_error
      ∙ if-true (e.read || e.write || e.eof) _ _ h.ends in
    subst (Keeps early c.output) (sym ended) (end_reply-Keeps early c)

nothing_left : (out more : Bytes) → out ++ more ≡ [] → out ≡ []
nothing_left [] more h = refl
nothing_left (x ∷ out) more h = absurd (ground (arith, ap is_empty h))

Keeps-more :
    (early : Bool) (out more : Bytes) (o : EventEnd)
    → Keeps early (out ++ more) o
    → Keeps early out o
Keeps-more early out more (returns c) (rest, h) = (more ++ rest, h ∙ append_assoc out more rest)
Keeps-more early out more (closes msg c) h = nothing_left out more h
Keeps-more early out more (aborts code msg c) (first, five, (rest, h)) =
    (first, five, (more ++ rest, h ∙ append_assoc out more rest))
Keeps-more early out more (reads_http c) (rest, h) = (more ++ rest, h ∙ append_assoc out more rest)

module _ (w : Bytes → Bytes → Option Bytes) (appends : (a b : Bytes) → w a b ≡ some (a ++ b)) where
  end_chunks-Behind : (c : Conn) → Behind c.output (end_chunks w c)
  end_chunks-Behind c =
      if-intro (Behind c.output) (c.fcgi_end == 0) _ _
        (λ _.
          subst (λ o. Behind c.output (or_unwritten w c o))
            (sym (appends c.output (codes "0\r\n\r\n"))) (codes "0\r\n\r\n", refl))
        (λ _. same c)

  marked-Behind : (c : Conn) (b : Bool) → Behind c.output (if b then end_chunks w c else c)
  marked-Behind c true = end_chunks-Behind c
  marked-Behind c false = same c

  -- Where libevent appends what it is given, and the event is the end of a reply and neither a timeout
  -- nor an error: unless the response ended before its headers were read, the function returns or reads
  -- the next request with what was written to the client still in front of what is in its buffer, or
  -- calls `server_close` with nothing left to write. Where it ended before them, `server_abort_http` may
  -- be called, with status 500 and no byte taken from the buffer; what that call does to it is not part
  -- of this.
  pub server_fcgi_error-Keeps :
      (e : Event) (c : Conn)
      → EndsReply e
      → Keeps (e.eof && not c.fcgi_headersdone) c.output (server_fcgi_error w e c)
  unfolding server_fcgi_error
  server_fcgi_error-Keeps e c h =
      let early = e.eof && not c.fcgi_headersdone in
      if-intro (Keeps early c.output) early _ _ (λ is. (is, refl, same c))
        (λ _.
          let marked = (if not c.is_head && c.fcgi_chunked then end_chunks w c else c) in
          let (more, behind) = marked-Behind c (not c.is_head && c.fcgi_chunked) in
          Keeps-more early c.output more (server_file_error e marked) (
            subst (λ out. Keeps early out (server_file_error e marked)) behind
              (file_error-Keeps early e marked h)))
