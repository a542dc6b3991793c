-- ===== src/Reply/Text.antt =====
-- The text of the head of a reply.
use fuzz_httpd.Base.{
  ℕ, ◌≡◌, sym, ap, ◌∙◌, true, List, [], ◌∷◌, ◌++◌, append_assoc, append-nil, Option, none, some,
  Bytes, codes,
}
use fuzz_httpd.Http.{server_httperror_byid}
use fuzz_httpd.Reply.{
  then_do, ReplyState, header_lines, print_all, server_writeresponse_http, server_writeheader_http,
  each_header, server_headers, write_head, Config, end_head, reply_state, server_response_http,
}

abbrev pub header_line : Bytes × Option Bytes → Bytes
header_line (key, none) = key
header_line (key, some value) = key ++ (codes ": " ++ (value ++ codes "\r\n"))

abbrev pub lines_text : List (Bytes × Option Bytes) → Bytes
lines_text [] = []
lines_text (h ∷ hs) = header_line h ++ lines_text hs

-- The status line, a line for each header and each of its values in the order of the tree, and the
-- empty line.
abbrev pub head_text : ReplyState → Bytes
head_text r =
    r.http_version
    ++ (codes " "
        ++ (r.http_rescode
            ++ (codes " "
                ++ (r.http_resmesg
                    ++ (codes "\r\n"
                        ++ (lines_text (header_lines r.http_headers) ++ codes "\r\n"))))))

module _ (w : Bytes → Bytes → Option Bytes) (appends : (a b : Bytes) → w a b ≡ some (a ++ b)) where
  abbrev join : List Bytes → Bytes
  join [] = []
  join (s ∷ texts) = s ++ join texts

  pub prints : (texts : List Bytes) (out : Bytes) → print_all w texts out ≡ some (out ++ join texts)
  prints [] out = ap some (sym (append-nil out))
  prints (s ∷ texts) out =
      ap (λ o. then_do o (print_all w texts)) (appends out s)
      ∙ prints texts (out ++ s)
      ∙ ap some (append_assoc out s (join texts))

  writes_header :
      (h : Bytes × Option Bytes) (out : Bytes)
      → server_writeheader_http w h out ≡ some (out ++ header_line h)
  unfolding server_writeheader_http
  writes_header (key, none) out = prints (key ∷ []) out ∙ ap (λ s. some (out ++ s)) (append-nil key)
  writes_header (key, some value) out = prints (key ∷ codes ": " ∷ value ∷ codes "\r\n" ∷ []) out

  writes_each :
      (hs : List (Bytes × Option Bytes)) (out : Bytes)
      → each_header w (server_writeheader_http w) hs out ≡ some (out ++ lines_text hs)
  writes_each [] out = ap some (sym (append-nil out))
  writes_each (h ∷ hs) out =
      ap (λ o. then_do o (each_header w (server_writeheader_http w) hs)) (writes_header h out)
      ∙ writes_each hs (out ++ header_line h)
      ∙ ap some (append_assoc out (header_line h) (lines_text hs))

  -- Where every write appends, the whole head of the reply is written.
  pub write_head-head_text : (r : ReplyState) → write_head w r ≡ some (r.output ++ head_text r)
  unfolding write_head server_headers server_writeresponse_http
  write_head-head_text r =
      rw
        (prints (r.http_version ∷ codes " " ∷ r.http_rescode ∷ codes " " ∷ r.http_resmesg ∷ [])
          r.output)
        (rw
          (
            appends
                (r.output
                  ++ join (
                      r.http_version
                      ∷ codes " "
                      ∷ r.http_rescode
                      ∷ codes " "
                      ∷ r.http_resmesg
                      ∷ []))
                (codes "\r\n"),
            writes_each (header_lines r.http_headers) (
                (r.output
                  ++ join (
                      r.http_version
                      ∷ codes " "
                      ∷ r.http_rescode
                      ∷ codes " "
                      ∷ r.http_resmesg
                      ∷ []))
                ++ codes "\r\n"),
          )
          (appends _ (codes "\r\n") ∙ ap some (simp (append_assoc, append-nil))))

  -- The call as a write of one text.
  pub server_response_http-write :
      (number : ℕ → Bytes) (conf : Config) (date mtime media error : Bytes) (code : ℕ)
      (size : Option ℕ) (r : ReplyState)
      → server_httperror_byid code ≡ some error
      → server_response_http w number true conf (some date) (some mtime) code (some media) size r
        ≡ (let r' =
              reply_state w number true conf
                (some date)
                (some mtime)
                code
                error
                media
                size
                mtime
                date
                r in
            some (end_head w size (record r' { output = r.output ++ head_text r' })))
  unfolding server_response_http
  server_response_http-write number conf date mtime media error code size r e =
      let r' =
        reply_state w number true conf (some date) (some mtime) code error media size mtime date
          r in
      rw e (
        ap (λ o. then_do o (λ out. some (end_head w size (record r' { output = out }))))
          (write_head-head_text r'))
