-- ===== src/FcgiRead/Records.antt =====
-- Whole records of a FastCGI response: the server handles the content of one after another.
use fuzz_httpd.Base.{
  ℕ, ◌+◌, ◌-◌, ◌*◌, ◌/◌, ◌%◌, ◌<◌, ◌≡◌, refl, sym, ap, ◌∙◌, Bool, true, false, not, ◌&&◌, List, [],
  ◌∷◌, ◌++◌, Option, none, some, Bytes, is_empty, length, ◌==◌, if◌then◌else◌, if-true, arith,
}
use fuzz_httpd.Reply.{Config}
use fuzz_httpd.Fcgi.{RecordHeader, header_bytes}
use fuzz_httpd.FcgiRead.{
  FcgiReading, waits, aborted, Record, aborts, complete, on_header, on_content, after_content,
  server_fcgi_read,
}
use fuzz_httpd.FcgiHead.{
  FcgiClient, read_header, read_content, read_padding, fcgi_stdout, header_size,
}
use fuzz_httpd.FcgiRead.Loop.{settled, server_fcgi_read_part, server_fcgi_read_nothing}
use fuzz_httpd.FcgiRead.Arrival.{and_then, server_fcgi_read-append}
use fuzz_httpd.FcgiRead.Padding.{Pads, PadsAfter, kept, on_content-PadsAfter}

-- a record of the protocol
pub record Message : Type 0 where
  pub version : ℕ
  pub type : ℕ
  pub id : ℕ
  pub content : Bytes
  pub padding : Bytes
  pub reserved : ℕ

-- The sizes fit their fields.
abbrev pub Fits : Message → Type 0
Fits m = (length m.content < 65536) × (length m.padding < 256)

abbrev pub AllFit : List Message → Type 0
AllFit [] = Unit
AllFit (m ∷ ms) = Fits m × AllFit ms

abbrev pub record_header : Message → RecordHeader
record_header m = record {
  version = m.version;
  type = m.type;
  id = m.id;
  content_len = length m.content;
  padding_len = length m.padding;
  reserved = m.reserved;
}

abbrev pub header_text : Message → Bytes
header_text m = header_bytes (record_header m)

abbrev pub message_text : Message → Bytes
message_text m = header_text m ++ (m.content ++ m.padding)

abbrev pub messages_text : List Message → Bytes
messages_text [] = []
messages_text (m ∷ ms) = message_text m ++ messages_text ms

-- a client that waits for a record
abbrev pub between : FcgiClient → FcgiClient
between c = record c {
  clt_srvevb = [];
  clt_fcgi = record c.clt_fcgi { state = read_header; toread = header_size };
}

-- a client whose record is opened, with `n` bytes of content to come
abbrev opened : Message → ℕ → FcgiClient → FcgiClient
opened m n c = record c {
  clt_srvevb = [];
  clt_fcgi = record c.clt_fcgi {
    state = read_content;
    type = m.type;
    toread = n;
    padding_len = length m.padding;
  };
}

-- a client that has the content of a record
abbrev pub loaded : Message → FcgiClient → FcgiClient
loaded m c = record (opened m 0 c) { clt_srvevb = m.content }

-- behind the content: an abort, or the wait for the next record
abbrev pub finished : Option FcgiClient → FcgiReading
finished none = aborted 500
finished (some c) = waits (between c)

high_low : (n : ℕ) → n < 65536 → n / 256 % 256 * 256 + n % 256 ≡ n
high_low n h = omega (arith, h)

module _ (w : Bytes → Bytes → Option Bytes) (number hex : ℕ → Bytes) (logged : Bool) (conf : Config)
    (now : Option Bytes) where
  abbrev reads : Bytes → FcgiClient → FcgiReading
  reads = server_fcgi_read w number hex logged conf now

  abbrev content_of : FcgiClient → Option FcgiClient
  content_of = on_content w number hex logged conf now

  -- The content of a record in the hands of the server.
  abbrev pub handle : Message → FcgiClient → FcgiReading
  handle m c =
      if is_empty m.content && (m.type == fcgi_stdout && c.clt_chunk == 0)
      then aborted 500
      else finished (on_content w number hex logged conf now (loaded m c))

  abbrev pub handle_all : List Message → FcgiClient → FcgiReading
  handle_all [] c = waits c
  handle_all (m ∷ ms) c = and_then (handle m c) (handle_all ms)

  reads_header :
      (m : Message) (c : FcgiClient)
      → Fits m
      → reads (header_text m) (between c)
        ≡ settled (on_header w number hex logged conf now (opened m (length m.content) c))
  unfolding complete
  reads_header m c (f, g) =
      server_fcgi_read_part w number hex logged conf now (header_text m) (between c) (omega arith)
        (omega arith)
      ∙ ap (λ n. settled (on_header w number hex logged conf now (opened m n c)))
          (high_low (length m.content) f)

  abbrev behind : Bool → FcgiClient → FcgiClient
  behind padded c = record c {
    clt_srvevb = [];
    clt_fcgi = record c.clt_fcgi {
      state = (if padded then read_padding else read_header);
      toread = (if padded then c.clt_fcgi.padding_len else header_size);
    };
  }

  reads_padding :
      (padding : Bytes) (c : FcgiClient)
      → Pads (length padding) c
      → and_then (settled (after_content w number hex logged conf now (some c))) (reads padding)
        ≡ waits (between c)
  unfolding complete
  reads_padding [] c p =
      let padded : not (c.clt_fcgi.padding_len == 0) ≡ false = ground (arith, p) in
      ap (λ b. reads [] (behind b c)) padded
      ∙ server_fcgi_read_nothing w number hex logged conf now (between c) (omega arith)
  reads_padding (x ∷ s) c p =
      let padded : not (c.clt_fcgi.padding_len == 0) ≡ true = ground (arith, p) in
      ap (λ b. reads (x ∷ s) (behind b c)) padded
      ∙ server_fcgi_read_part w number hex logged conf now (x ∷ s) (behind true c)
          (omega (arith, p)) (sym p)

  reads_after :
      (padding : Bytes) (o : Option FcgiClient)
      → PadsAfter (length padding) o
      → and_then (settled (after_content w number hex logged conf now o)) (reads padding)
        ≡ finished o
  reads_after padding none p = refl
  reads_after padding (some c) (kept d p) = reads_padding padding c p

  abbrev settles : Bytes → Record → FcgiReading
  settles padding r = and_then (settled r) (reads padding)

  content_after :
      (m : Message) (c : FcgiClient)
      → settles m.padding (after_content w number hex logged conf now (content_of (loaded m c)))
        ≡ finished (content_of (loaded m c))
  content_after m c =
      reads_after m.padding (content_of (loaded m c))
        (on_content-PadsAfter w number hex logged conf now (length m.padding) (loaded m c) refl)

  unless_aborted :
      (b : Bool) (padding : Bytes) (r : Record) (o : FcgiReading)
      → settles padding r ≡ o
      → settles padding (if b then aborts 500 else r) ≡ (if b then aborted 500 else o)
  unless_aborted true padding r o e = refl
  unless_aborted false padding r o e = e

  -- Behind the header of `m`, whose content is `s`.
  reads_content :
      (m : Message) (s : Bytes) (c : FcgiClient)
      → and_then
          (settled (on_header w number hex logged conf now (opened m (length s) c)))
          (reads (s ++ m.padding))
        ≡ handle (record m { content = s }) c
  unfolding complete
  reads_content m [] c =
      unless_aborted (m.type == fcgi_stdout && c.clt_chunk == 0) m.padding _ _
        (content_after (record m { content = [] }) c)
  reads_content m (x ∷ s) c =
      let some_content : not (length (x ∷ s) == 0) ≡ true = ground arith in
      let all : length (x ∷ s) - length (x ∷ s) ≡ 0 = omega arith in
      let d = opened m (length (x ∷ s)) c in
      ap (λ r. and_then (settled r) (reads ((x ∷ s) ++ m.padding))) (if-true _ _ _ some_content)
      ∙ server_fcgi_read-append w number hex logged conf now (x ∷ s) m.padding d (omega arith)
      ∙ ap (λ r. and_then r (reads m.padding))
          (server_fcgi_read_part w number hex logged conf now (x ∷ s) d (omega arith) refl)
      ∙ ap
          (λ n. settles m.padding (
            after_content w number hex logged conf now
              (content_of (record (opened m n c) { clt_srvevb = x ∷ s }))))
          all
      ∙ content_after (record m { content = x ∷ s }) c

  reads_message :
      (m : Message) (c : FcgiClient) → Fits m → reads (message_text m) (between c) ≡ handle m c
  reads_message m c f =
      server_fcgi_read-append w number hex logged conf now (header_text m) (m.content ++ m.padding)
        (between c) (omega arith)
      ∙ ap (λ r. and_then r (reads (m.content ++ m.padding))) (reads_header m c f)
      ∙ reads_content m m.content c

  -- What follows a record.
  next_messages :
      (b : Bool) (o : Option FcgiClient) (k l : FcgiClient → FcgiReading)
      → ((d : FcgiClient) → k (between d) ≡ l (between d))
      → and_then (if b then aborted 500 else finished o) k
        ≡ and_then (if b then aborted 500 else finished o) l
  next_messages true o k l h = refl
  next_messages false none k l h = refl
  next_messages false (some d) k l h = h d

  -- The bytes of records whose sizes fit: the server that waits for a record handles the content of
  -- one after another, and then waits for a record, unless it aborts.
  pub server_fcgi_read-messages_text :
      (ms : List Message) (c : FcgiClient)
      → AllFit ms
      → server_fcgi_read w number hex logged conf now (messages_text ms) (between c)
        ≡ handle_all ms (between c)
  server_fcgi_read-messages_text [] c f =
      server_fcgi_read_nothing w number hex logged conf now (between c) (omega arith)
  server_fcgi_read-messages_text (m ∷ ms) c (f, fs) =
      server_fcgi_read-append w number hex logged conf now (message_text m) (messages_text ms)
        (between c) (omega arith)
      ∙ ap (λ r. and_then r (reads (messages_text ms))) (reads_message m c f)
      ∙ next_messages (is_empty m.content && (m.type == fcgi_stdout && c.clt_chunk == 0))
          (content_of (loaded m c)) _ _ (λ d. server_fcgi_read-messages_text ms d fs)
