-- ===== src/Reply/Head.antt =====
-- The head of a reply and its body, byte for byte, for `server_response_http` of server_http.c.
use fuzz_httpd.Base.{
  ℕ, zero, suc, ◌≡◌, refl, ap, ◌∙◌, Bool, true, false, ◌&&◌, [], ◌∷◌, ◌++◌, Option, none, some,
  Bytes, codes, if◌then◌else◌, arith, Bool-cases, inl, inr,
}
use fuzz_httpd.Http.{HttpMethod, server_httperror_byid}
use fuzz_httpd.Kv.{Kvtree, kv_add, kv_set, kv_insert, case_compare, update}
use fuzz_httpd.Reply.{
  Config, ReplyState, add, add_hsts, add_length, add_set, all_headers, end_head, header_lines,
  reply_state, server_response_http,
}
use fuzz_httpd.Reply.Text.{head_text, lines_text, server_response_http-write}

-- A header that is there or not.
abbrev pub maybe_line : Bytes → Option Bytes → Bytes → Bytes
maybe_line key none rest = rest
maybe_line key (some value) rest = key ++ (codes ": " ++ (value ++ codes "\r\n")) ++ rest

abbrev pub written_size : (ℕ → Bytes) → Option ℕ → Option Bytes
written_size number none = none
written_size number (some size) = some (number size)

-- The value of Strict-Transport-Security, which only a server with TLS sends.
abbrev pub transport : (ℕ → Bytes) → Config → Option Bytes
transport number conf =
    if conf.server_hsts && conf.server_tls
    then some (
        codes "max-age="
        ++ (number conf.hsts_max_age
            ++ ((if conf.hsts_subdomains then codes "; includeSubDomains" else [])
                ++ (if conf.hsts_preload then codes "; preload" else []))))
    else none

-- The lines of the headers, in the order of their names.
abbrev pub headers_text :
    Bool → Option Bytes → Option Bytes → Option Bytes → Bytes → Bytes → Bytes → Option Bytes → Bytes
headers_text persist encoding size range media mtime date hsts =
    maybe_line (codes "Connection") (some (if persist then codes "keep-alive" else codes "close")) (
      maybe_line (codes "Content-Encoding") encoding (
        maybe_line (codes "Content-Length") size (
          maybe_line (codes "Content-Range") range (
            maybe_line (codes "Content-Type") (some media) (
              maybe_line (codes "Date") (some date) (
                maybe_line (codes "Last-Modified") (some mtime) (
                  maybe_line (codes "Server") (some (codes "OpenBSD httpd"))
                    (maybe_line (codes "Strict-Transport-Security") hsts []))))))))

-- The headers that the callers have added before.
abbrev pub node : Bytes → Option Bytes → Kvtree → Kvtree
node key none keys = keys
node key (some value) keys = record { kv_key = key; kv_value = some value; kv_children = [] } ∷ keys

abbrev pub extras : Option Bytes → Option Bytes → Kvtree
extras encoding range =
    node (codes "Content-Encoding") encoding (node (codes "Content-Range") range [])

-- whether a body follows the head
abbrev pub sends_body : Option ℕ → HttpMethod → Bool
sends_body none m = false
sends_body (some zero) m = false
sends_body (some (suc n)) HttpMethod.head = false
sends_body (some (suc n)) m = true

abbrev sized : Option Bytes → Kvtree → Kvtree
sized none keys = keys
sized (some size) keys = add_set (codes "Content-Length") size keys

abbrev secured : Option Bytes → Kvtree → Kvtree
secured none keys = keys
secured (some hsts) keys = add_set (codes "Strict-Transport-Security") hsts keys

headers_lem :
    (persist : Bool) (encoding size range : Option Bytes) (media mtime date : Bytes)
    (hsts : Option Bytes)
    → lines_text (
        header_lines (
          add (codes "Date") date (
            secured hsts (
              add (codes "Last-Modified") mtime (
                sized size (
                  add_set (codes "Content-Type") media (
                    add
                      (codes "Connection")
                      (if persist then codes "keep-alive" else codes "close")
                      (add (codes "Server") (codes "OpenBSD httpd") (extras encoding range)))))))))
      ≡ headers_text persist encoding size range media mtime date hsts
unfolding header_lines kv_add kv_set kv_insert case_compare update
headers_lem persist none none none media mtime date none = refl
headers_lem persist none none none media mtime date (some h) = refl
headers_lem persist none none (some r) media mtime date none = refl
headers_lem persist none none (some r) media mtime date (some h) = refl
headers_lem persist none (some n) none media mtime date none = refl
headers_lem persist none (some n) none media mtime date (some h) = refl
headers_lem persist none (some n) (some r) media mtime date none = refl
headers_lem persist none (some n) (some r) media mtime date (some h) = refl
headers_lem persist (some e) none none media mtime date none = refl
headers_lem persist (some e) none none media mtime date (some h) = refl
headers_lem persist (some e) none (some r) media mtime date none = refl
headers_lem persist (some e) none (some r) media mtime date (some h) = refl
headers_lem persist (some e) (some n) none media mtime date none = refl
headers_lem persist (some e) (some n) none media mtime date (some h) = refl
headers_lem persist (some e) (some n) (some r) media mtime date none = refl
headers_lem persist (some e) (some n) (some r) media mtime date (some h) = refl

head_text-lines :
    (r : ReplyState) (headers : Bytes)
    → lines_text (header_lines r.http_headers) ≡ headers
    → head_text r
      ≡ r.http_version
        ++ (codes " "
            ++ (r.http_rescode
                ++ (codes " " ++ (r.http_resmesg ++ (codes "\r\n" ++ (headers ++ codes "\r\n"))))))
head_text-lines r headers h = rw h

add_length-sized :
    (number : ℕ → Bytes) (size : Option ℕ) (keys : Kvtree)
    → add_length number size keys ≡ sized (written_size number size) keys
add_length-sized number none keys = refl
add_length-sized number (some size) keys = refl

add_hsts-secured :
    (number : ℕ → Bytes) (conf : Config) (keys : Kvtree)
    → add_hsts number conf keys ≡ secured (transport number conf) keys
add_hsts-secured number conf keys = elim (Bool-cases (conf.server_hsts && conf.server_tls)) [
  | inl on ↦ rw on
  | inr off ↦ rw off
]

module _ (w : Bytes → Bytes → Option Bytes) (appends : (a b : Bytes) → w a b ≡ some (a ++ b)) where
  end_head-output :
      (size : Option ℕ) (r : ReplyState)
      → ((end_head w size r).0.output ≡ r.output)
        × ((end_head w size r).1 ≡ sends_body size r.resp_method)
  end_head-output none r = (refl, refl)
  end_head-output (some zero) r = (refl, refl)
  end_head-output (some (suc n)) r = head_or_not n r r.resp_method refl
    where
      head_or_not :
          (n : ℕ) (r : ReplyState) (m : HttpMethod)
          → r.resp_method ≡ m
          → ((end_head w (some (suc n)) r).0.output ≡ r.output)
            × ((end_head w (some (suc n)) r).1 ≡ sends_body (some (suc n)) r.resp_method)
      head_or_not n r m e = ground (arith, e)

  module _ (number : ℕ → Bytes) (conf : Config) (date mtime media : Bytes) (code : ℕ)
      (size : Option ℕ) where
    headers_written :
        (persist : Bool) (encoding range : Option Bytes) (keys : Kvtree)
        → keys ≡ extras encoding range
        → lines_text (
            header_lines (
              all_headers w number true conf
                (some date)
                (some mtime)
                persist
                media
                size
                mtime
                date
                keys))
          ≡ headers_text persist encoding
              (written_size number size)
              range
              media
              mtime
              date
              (transport number conf)
    headers_written persist encoding range keys e =
        rw (e, add_length-sized number size, add_hsts-secured number conf)
          (headers_lem persist encoding (written_size number size) range media mtime date
            (transport number conf))

    -- Where every write appends, the request was logged, both dates are known, the status has a message,
    -- and the caller added no header but Content-Encoding and Content-Range, each or none: what is
    -- written is the status line, Connection, Content-Length where the size is known, Content-Type,
    -- Date, Last-Modified, Server, those two where they were added, Strict-Transport-Security where the
    -- server has TLS and it is configured, in the order of their names, and an empty line. A body
    -- follows just where the size is known and not 0 and the method is not HEAD.
    pub server_response_http-reply_text :
        (error : Bytes) (encoding range : Option Bytes) (r : ReplyState)
        → server_httperror_byid code ≡ some error
        → r.http_headers ≡ extras encoding range
        → (r' : ReplyState) × (server_response_http w number true conf
              (some date)
              (some mtime)
              code
              (some media)
              size
              r
            ≡ some (r', sends_body size r.resp_method))
          × (r'.output
              ≡ r.output
                ++ (r.http_version
                    ++ (codes " "
                        ++ (number code
                            ++ (codes " "
                                ++ (error
                                    ++ (codes "\r\n"
                                        ++ (headers_text r.clt_persist encoding
                                              (written_size number size)
                                              range
                                              media
                                              mtime
                                              date
                                              (transport number conf)
                                            ++ codes "\r\n"))))))))
    server_response_http-reply_text error encoding range r found before =
        let state =
          reply_state w number true conf (some date) (some mtime) code error media size mtime date
            r in
        let full = record state { output = r.output ++ head_text state } in
        let ended = end_head-output size full in
        (
          (end_head w size full).0,
          server_response_http-write w appends number conf date mtime media error code size r found
              ∙ ap (λ b. some ((end_head w size full).0, b)) ended.1,
          ended.0
              ∙ ap (λ t. r.output ++ t)
                  (head_text-lines state _
                    (headers_written r.clt_persist encoding range r.http_headers before)),
        )
