-- ===== src/Lib.antt =====
-- A verification library for the web server httpd of src/usr.sbin/httpd (paths are from the root of
-- the repository). It models the functions that stand between what a client sends and what the
-- server reads, keeps and passes on, and proves what they promise.
--
-- The program. A request line and its headers are read by `server_http.c` into a `http_descriptor`,
-- whose headers are a tree of `struct kv`. The path is decoded by `url_decode`, brought into
-- canonical form by `canonicalize_path`, matched against the locations of the configuration, and
-- then served from a file (`server_file.c`, with `parse_ranges` for partial requests) or by a
-- FastCGI server (`server_fcgi.c`, which sends the headers as parameters). Redirects and error pages
-- go out through `url_encode` and `escape_html`.
--
-- The files.
-- - Base: names of the libraries, Boolean tests on numbers, lists and bytes over the native numbers
--   (Base/Tests, Base/Lists), and C strings with the parts of the C library that the program calls
--   (Base/Str). A C string is the list of its bytes without the NUL; `char_at` reads 0 at its end.
-- - Url: `url_decode`, `url_encode` and `escape_html` of src/usr.sbin/httpd/httpd.c; Url/Decode,
--   Url/Encode and Url/Html prove their properties.
-- - Path: `canonicalize_path` of httpd.c. The output is an array with its old contents, cut at the
--   write position, because the loop for `..` reads what stands there. Path/Spec says what a path
--   means: its segments, resolved one by one on a stack. Path/Steps and Path/Words follow the loop
--   over one segment, Path/Resolve over all; Path/Safe and Path/Bounds are about the result and the
--   array, Path/Always about the result in an array that may hold anything. Path/Strip models `server_root_strip` of server_http.c and `path_info` of httpd.c.
-- - Range: `parse_ranges` and `parse_range_spec` of server_file.c on `struct range_data` of httpd.h;
--   Range/Spec states the ranges of RFC 7233, Range/Count is about the loop.
-- - Transfer: `server_read_httprange` of server_http.c, which sends the ranges piece by piece as the
--   file is read; Transfer/Pieces is about lists in pieces, Transfer/Whole about all the calls, and
--   Transfer/Finish about the end of the reply.
-- - Http: `enum httpmethod`, HTTP_METHODS and HTTP_ERRORS of http.h, and their lookups in
--   server_http.c; Http/Lookup.
-- - Kv: `struct kv` and the functions kv_* of httpd.c on the tree of headers; Kv/Order and Kv/Find.
-- - RequestLine: one line of the head of a request, as `server_read_http` of server_http.c handles it,
--   with `http_version_num`. Request: the loop of `server_read_http` and what follows the head.
--   Request/Lengths, Request/Head and Request/Framing are about what holds between the calls and
--   what they end in, Request/Print and Request/RoundTrip about a request that is written out.
-- - Host: `server_http_parsehost` of server_http.c; Host/Parts.
-- - Upload: `server_read_httpcontent` of server_http.c, a body with a Content-Length on its way to the
--   FastCGI server; Upload/Pieces.
-- - Chunks: `server_read_httpchunks` of server_http.c, a chunked body; Chunks/Text and Chunks/Ends.
-- - Reply: `server_response_http` and what it calls in server_http.c, the head of a reply;
--   Reply/Text and Reply/Head.
-- - Location: `server_getlocation` and `server_locationaccesstest` of server_http.c, the choice of a
--   location by the path; Location/Choice.
-- - Address: `sockaddr_cmp`, `prefixlen2mask` and `prefixlen2mask6` of httpd.c; Address/Bits and
--   Address/Masks are about the masks, Address/Network about the addresses under them.
-- - Servers: the searches of server.c in the list of servers, `server_privinit`, and which sockets
--   `config_setserver` of config.c and `parent_configure` of httpd.c open; Servers/Find and
--   Servers/Configure.
-- - Server: `struct server_config` and `struct client` of httpd.h, as what answers a request uses them.
-- - Expand: `expand_string` of httpd.c and `server_expand_http` of server_http.c, the macros of a
--   location; Expand/Replaced is about one macro, Expand/Fits about all of them.
-- - Response: `server_response` and `server_http_host` of server_http.c, from the request to the file
--   or the abort; Response/Guards is about what is served, Response/Hosts about the Host header and
--   what is refused.
-- - Listing: the page that `server_file_index` of server_file.c writes; Listing/Markup.
-- - File: what `server_file` of server_file.c does up to the head of the reply, with the file system as a
--   parameter: `server_file_request` in File, `server_partial_file_request` in File/Ranged, and
--   `server_file`, `server_file_access` and `server_file_index` in File/Access. File/Ends and File/Status
--   are about the ends of a call, File/Sends about the file that is sent, File/Partial about the size of a reply with ranges, which Transfer
--   sends.
-- - Abort: `server_abort_http`, `read_errdoc` and `replace_var` of server_http.c, the replies to errors;
--   Abort/Pages is about the loop over the variables of a page, Abort/Silent about what a client learns.
-- - Login: `server_http_authenticate` of server_http.c, which compares the Authorization header with a
--   file of users; Login/Listed and Login/Granted.
-- - Auth: `struct auth` and the functions auth_* of httpd.c; Auth/Paths.
-- - Fcgi: the records that `fcgi_add_param` and `fcgi_add_stdin` of server_fcgi.c write; Fcgi/Params
--   is about the buffer, Fcgi/Pairs about the encoding.
-- - FcgiRequest: `server_fcgi` and `server_fcgi_writeheader` of server_fcgi.c, the start of a request
--   with its variables; FcgiRequest/Names is about the variables of headers, FcgiRequest/Buffer and
--   FcgiRequest/Stream about the records.
-- - FcgiHead: the state of a FastCGI response and `server_fcgi_getheaders` of server_fcgi.c, with
--   `evbuffer_getline` and `get_string` of httpd.c.
-- - FcgiRead: `server_fcgi_read` of server_fcgi.c and what it calls there: the records of a response and the reply that is made of them;
--   FcgiRead/Cut is about pieces of a buffer, FcgiRead/Loop about the rounds, FcgiRead/Arrival about
--   the cuts between calls, FcgiRead/Padding and FcgiRead/Records about whole records,
--   FcgiRead/Lines about the lines of the headers, and FcgiRead/Early about a record that ends within
--   them.
-- - Clients: `server_accept`, `server_close` and `server_inflight_dec` of server.c with `accept_reserve`
--   of httpd.c, the counters of the clients; Clients/Tree is about the tree,
--   Clients/Counted about all sequences of their calls.
-- - Events: `server_file_error` of server_file.c, `server_fcgi_error` of server_fcgi.c, and
--   `server_error`, `server_write` and `server_read` of server.c, the ends of replies; Events/Keeps.
-- - Media: media_add, media_find and media_find_config of httpd.c; Media/Find.
-- - Log: `server_log_http` of server_http.c, the access log; Log/Texts and Log/Lines.
-- - Tests: runs on concrete inputs, and the theorems at concrete arguments.
--
-- Numbers and fuel. Numbers are the native naturals; an `off_t` is the pattern of its 64 bits, with
-- the wrap-around written out. The loop of `canonicalize_path` has the length of its input as fuel,
-- that of `parse_ranges` one more than the length of its text, `kv_purge` one round for each node,
-- `server_read_http` and `server_fcgi_read` one more than the bytes that are there,
-- `server_fcgi_getheaders` one more than the bytes in its buffer, and `server_read_httpchunks` what
-- Chunks/Ends names. `expand_string` has one more than the bytes of the label, `replace_var` one
-- more than the bytes of its text, and `server_file_access` two calls, one for a directory and one
-- for its index. The results named below, and the lemmas of the files, say that these never run
-- out.
--
-- Not modelled. Allocation is taken to succeed. libevent's `bufferevent_write` and
-- `evbuffer_readln`, the C library's `b64_pton`, `crypt_checkpass` and `fnmatch`, the decimal
-- numbers of `printf`, the hexadecimal ones of `sscanf`, and the system calls on files are
-- parameters; so are the dates of `server_http_time`, `stravis`, and `str_match` of patterns.c,
-- which is taken from Lua. The C library's `strtonum`, `strcasecmp`, `bsearch` and the tree of
-- sys/tree.h are given by what they document. The configuration (parse.y, and config.c but for its
-- sockets), the processes (proc.c, control.c), the sockets and TLS of server.c, the logger, and the
-- copies of the C library under src/lib are outside this library.
pub mod Base
pub mod Url
pub mod Path
pub mod RequestLine
pub mod Request
pub mod Host
pub mod Upload
pub mod Chunks
pub mod Reply
pub mod Range
pub mod Transfer
pub mod Http
pub mod Kv
pub mod Address
pub mod Servers
pub mod Server
pub mod Location
pub mod Expand
pub mod Response
pub mod Listing
pub mod File
pub mod Abort
pub mod Auth
pub mod Login
pub mod Fcgi
pub mod FcgiRequest
pub mod FcgiHead
pub mod FcgiRead
pub mod Media
pub mod Events
pub mod Clients
pub mod Log
pub mod Tests
