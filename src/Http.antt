-- ===== src/Http.antt =====
-- The tables of usr.sbin/httpd/http.h and their lookups in server_http.c. The C library's `bsearch`
-- finds, in an array that `server_http` has sorted, the entry that compares equal, or none; the
-- entries differ in their keys, so a walk over the table gives the same.
pub mod Lookup
use fuzz_httpd.Base.{
  ℕ, Bool, List, [], ◌∷◌, ◌≡◌, refl, Option, none, some, Bytes, codes, str_eq, ◌==◌, if◌then◌else◌,
}

-- `enum httpmethod`; `no_method` is HTTP_METHOD_NONE, and `delete` to `patch` carry their C names.
pub data HttpMethod : Type 0 where
  no_method : HttpMethod
  get head post put delete : HttpMethod
  options trace connect propfind proppatch : HttpMethod
  mkcol copy move lock unlock : HttpMethod
  version_control report checkout checkin uncheckout : HttpMethod
  mkworkspace update label merge baseline_control : HttpMethod
  mkactivity orderpatch acl mkredirectref updateredirectref : HttpMethod
  search patch response : HttpMethod

-- the place in the enumeration
abbrev pub method_id : HttpMethod → ℕ
method_id no_method = 0
method_id get = 1
method_id head = 2
method_id post = 3
method_id put = 4
method_id delete = 5
method_id options = 6
method_id trace = 7
method_id connect = 8
method_id propfind = 9
method_id proppatch = 10
method_id mkcol = 11
method_id copy = 12
method_id move = 13
method_id lock = 14
method_id unlock = 15
method_id version_control = 16
method_id report = 17
method_id checkout = 18
method_id checkin = 19
method_id uncheckout = 20
method_id mkworkspace = 21
method_id update = 22
method_id label = 23
method_id merge = 24
method_id baseline_control = 25
method_id mkactivity = 26
method_id orderpatch = 27
method_id acl = 28
method_id mkredirectref = 29
method_id updateredirectref = 30
method_id search = 31
method_id patch = 32
method_id response = 33

-- `http_methods`
abbrev pub http_methods : List (HttpMethod × Bytes)
http_methods =
    (get, codes "GET")
    ∷ (head, codes "HEAD")
    ∷ (post, codes "POST")
    ∷ (put, codes "PUT")
    ∷ (delete, codes "DELETE")
    ∷ (options, codes "OPTIONS")
    ∷ (trace, codes "TRACE")
    ∷ (connect, codes "CONNECT")
    ∷ (propfind, codes "PROPFIND")
    ∷ (proppatch, codes "PROPPATCH")
    ∷ (mkcol, codes "MKCOL")
    ∷ (copy, codes "COPY")
    ∷ (move, codes "MOVE")
    ∷ (lock, codes "LOCK")
    ∷ (unlock, codes "UNLOCK")
    ∷ (version_control, codes "VERSION-CONTROL")
    ∷ (report, codes "REPORT")
    ∷ (checkout, codes "CHECKOUT")
    ∷ (checkin, codes "CHECKIN")
    ∷ (uncheckout, codes "UNCHECKOUT")
    ∷ (mkworkspace, codes "MKWORKSPACE")
    ∷ (update, codes "UPDATE")
    ∷ (label, codes "LABEL")
    ∷ (merge, codes "MERGE")
    ∷ (baseline_control, codes "BASELINE-CONTROL")
    ∷ (mkactivity, codes "MKACTIVITY")
    ∷ (orderpatch, codes "ORDERPATCH")
    ∷ (acl, codes "ACL")
    ∷ (mkredirectref, codes "MKREDIRECTREF")
    ∷ (updateredirectref, codes "UPDATEREDIRECTREF")
    ∷ (search, codes "SEARCH")
    ∷ (patch, codes "PATCH")
    ∷ []

-- `http_errors`
abbrev pub http_errors : List (ℕ × Bytes)
http_errors =
    (100, codes "Continue")
    ∷ (101, codes "Switching Protocols")
    ∷ (102, codes "Processing")
    ∷ (200, codes "OK")
    ∷ (201, codes "Created")
    ∷ (202, codes "Accepted")
    ∷ (203, codes "Non-Authoritative Information")
    ∷ (204, codes "No Content")
    ∷ (205, codes "Reset Content")
    ∷ (206, codes "Partial Content")
    ∷ (207, codes "Multi-Status")
    ∷ (208, codes "Already Reported")
    ∷ (226, codes "IM Used")
    ∷ (300, codes "Multiple Choices")
    ∷ (301, codes "Moved Permanently")
    ∷ (302, codes "Found")
    ∷ (303, codes "See Other")
    ∷ (304, codes "Not Modified")
    ∷ (305, codes "Use Proxy")
    ∷ (306, codes "Switch Proxy")
    ∷ (307, codes "Temporary Redirect")
    ∷ (308, codes "Permanent Redirect")
    ∷ (400, codes "Bad Request")
    ∷ (401, codes "Unauthorized")
    ∷ (402, codes "Payment Required")
    ∷ (403, codes "Forbidden")
    ∷ (404, codes "Not Found")
    ∷ (405, codes "Method Not Allowed")
    ∷ (406, codes "Not Acceptable")
    ∷ (407, codes "Proxy Authentication Required")
    ∷ (408, codes "Request Timeout")
    ∷ (409, codes "Conflict")
    ∷ (410, codes "Gone")
    ∷ (411, codes "Length Required")
    ∷ (412, codes "Precondition Failed")
    ∷ (413, codes "Payload Too Large")
    ∷ (414, codes "URI Too Long")
    ∷ (415, codes "Unsupported Media Type")
    ∷ (416, codes "Range Not Satisfiable")
    ∷ (417, codes "Expectation Failed")
    ∷ (418, codes "I'm a teapot")
    ∷ (420, codes "Enhance Your Calm")
    ∷ (422, codes "Unprocessable Entity")
    ∷ (423, codes "Locked")
    ∷ (424, codes "Failed Dependency")
    ∷ (426, codes "Upgrade Required")
    ∷ (428, codes "Precondition Required")
    ∷ (429, codes "Too Many Requests")
    ∷ (431, codes "Request Header Fields Too Large")
    ∷ (451, codes "Unavailable For Legal Reasons")
    ∷ (500, codes "Internal Server Error")
    ∷ (501, codes "Not Implemented")
    ∷ (502, codes "Bad Gateway")
    ∷ (503, codes "Service Unavailable")
    ∷ (504, codes "Gateway Timeout")
    ∷ (505, codes "HTTP Version Not Supported")
    ∷ (506, codes "Variant Also Negotiates")
    ∷ (507, codes "Insufficient Storage")
    ∷ (508, codes "Loop Detected")
    ∷ (510, codes "Not Extended")
    ∷ (511, codes "Network Authentication Required")
    ∷ []

unfoldable pub find_name : Bytes → List (HttpMethod × Bytes) → HttpMethod
find_name name [] = no_method
find_name name ((m, n) ∷ table) = if str_eq name n then m else find_name name table

unfoldable pub server_httpmethod_byname : Bytes → HttpMethod
unfolding find_name
server_httpmethod_byname name = find_name name http_methods

unfoldable pub find_id : ℕ → List (HttpMethod × Bytes) → Bytes
find_id id [] = codes "<UNKNOWN>"
find_id id ((m, n) ∷ table) = if method_id m == id then n else find_id id table

unfoldable pub server_httpmethod_byid : ℕ → Bytes
unfolding find_id
server_httpmethod_byid id = find_id id http_methods

unfoldable pub find_error : ℕ → List (ℕ × Bytes) → Option Bytes
find_error id [] = none
find_error id ((code, name) ∷ table) = if code == id then some name else find_error id table

unfoldable pub server_httperror_byid : ℕ → Option Bytes
unfolding find_error
server_httperror_byid id = find_error id http_errors
