-- ===== src/Upload/Pieces.antt =====
-- A body that arrives in pieces goes to the FastCGI server record by record.
use fuzz_httpd.Base.{
  ℕ, suc, ◌+◌, ◌<◌, ◌≡◌, ◌≢◌, refl, ap, ◌∙◌, false, List, [], ◌∷◌, ◌++◌, append_assoc, Option, none,
  some, Bytes, is_empty, length, lt→ltb, arith,
}
use fuzz_httpd.RequestLine.{Client, left, http_header, read_http, read_httpcontent}
use fuzz_httpd.Fcgi.{header_bytes, stdin_header, write_content, fcgi_add_stdin}
use fuzz_httpd.Upload.{Upload, returns, server_read_httpcontent}

module _ (w : Bytes → Bytes → Option Bytes) where
  -- The record of a piece, and the one that ends the stream.
  abbrev pub stdin_record : Bytes → Bytes
  stdin_record s = header_bytes (stdin_header w (length s)) ++ s

  abbrev pub stream : List Bytes → Bytes
  stream [] = stdin_record []
  stream (s ∷ pieces) = stdin_record s ++ stream pieces

  abbrev pub total : List Bytes → ℕ
  total [] = 0
  total (s ∷ pieces) = length s + total pieces

  -- The pieces arrive one by one, each with a call.
  unfoldable pub arrive : List Bytes → Upload → Upload
  arrive [] u = u
  arrive (s ∷ pieces) (returns c out) =
      arrive pieces (server_read_httpcontent w (record c { input = s }) out)
  arrive (s ∷ pieces) u = u

  module _ (appends : (a b : Bytes) → w a b ≡ some (a ++ b)) where
    adds_stdin : (s out : Bytes) → fcgi_add_stdin w (some s) out ≡ some (out ++ stdin_record s)
    unfolding fcgi_add_stdin
    adds_stdin s out =
        ap (λ o. write_content w o s) (appends out (header_bytes (stdin_header w (length s))))
        ∙ appends (out ++ header_bytes (stdin_header w (length s))) s
        ∙ ap some (append_assoc out (header_bytes (stdin_header w (length s))) s)

    adds_end : (out : Bytes) → fcgi_add_stdin w none out ≡ some (out ++ stdin_record [])
    unfolding fcgi_add_stdin
    adds_end out = appends out (stdin_record [])

    -- the state while a body of `n` bytes is to come
    abbrev pub waiting : ℕ → Client → Client
    waiting n c = record c {
      clt_toread = left n;
      readcb = read_httpcontent;
      input = [];
      clt_done = false;
    }

    -- the state behind the body
    abbrev pub finished : Client → Client
    finished c = record c {
      clt_toread = http_header;
      readcb = read_http;
      input = [];
      clt_done = false;
      reads = false;
    }

    some_piece : (s : Bytes) → s ≢ [] → is_empty s ≡ false
    some_piece [] h = absurd (h refl)
    some_piece (x ∷ s) h = refl

    -- Where every write appends: bytes behind the body that are in the buffer with its last piece go
    -- out in the same record, as if they belonged to it, and the server never sees them as a request.
    pub server_read_httpcontent-takes_more :
        (n : ℕ) (s : Bytes) (c : Client) (out : Bytes)
        → suc n < length s
        → server_read_httpcontent w (record (waiting (suc n) c) { input = s }) out
          ≡ returns (finished c) (out ++ stream (s ∷ []))
    unfolding server_read_httpcontent
    server_read_httpcontent-takes_more n s c out more =
        rw
          (
            some_piece s (λ e. ground (arith, ap length e)),
            adds_stdin s out,
            lt→ltb (suc n) (length s) more,
            adds_end (out ++ stdin_record s),
          )
          (ap (returns (finished c)) (append_assoc out (stdin_record s) (stdin_record [])))
