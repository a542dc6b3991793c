-- ===== src/Server.antt =====
-- What the functions that answer a request read and change: `struct server_config` of
-- usr.sbin/httpd/httpd.h, with each flag on its own, and `struct client` with its request.
use fuzz_httpd.Base.{ℕ, Bool, List, Option, Bytes}
use fuzz_httpd.RequestLine.{ClientToread, HttpDescriptor}

-- An address of a socket: `print_host` gives its text, if it can.
pub data Family : Type 0 where
  inet inet6 other_family : Family

pub record Address : Type 0 where
  pub family : Family
  pub text : Option Bytes
  pub socket_port : ℕ

-- `id` stands for the address of the structure; `auth_htpasswd` is that of `auth`, and `tls_verify` the
-- text of `tls_flags`, if any is set.
pub record ServerConfig : Type 0 where
  pub id : ℕ
  pub parent_id : ℕ
  pub name : Bytes
  pub location : Bytes
  pub root : Bytes
  pub path : Bytes
  pub index : Bytes
  pub port : ℕ
  pub ss : Address
  pub maxrequests : ℕ
  pub maxrequestbody : ℕ
  pub strip : ℕ
  pub auth_htpasswd : Bytes
  pub auth_realm : Bytes
  pub return_code : ℕ
  pub return_uri : Option Bytes
  pub errdocroot : Bytes
  pub fcgistrip : ℕ
  pub fcgiparams : List (Bytes × Bytes)
  pub tls_verify : Option Bytes
  pub flag_errdocs : Bool
  pub flag_location : Bool
  pub flag_location_match : Bool
  pub flag_location_found : Bool
  pub flag_location_not_found : Bool
  pub flag_server_match : Bool
  pub flag_path_rewrite : Bool
  pub flag_block : Bool
  pub flag_auth : Bool
  pub flag_tls : Bool
  pub flag_fcgi : Bool
  pub flag_no_index : Bool
  pub flag_auto_index : Bool
  pub flag_gzip_static : Bool

-- `struct client`, its request, and the method and the version of its reply. `clt_ss` and `clt_port`
-- are the client's, `clt_srv_ss` is the address that it reached.
pub record Session : Type 0 where
  pub desc : HttpDescriptor
  pub http_host : Option Bytes
  pub http_path_alias : Option Bytes
  pub http_query_alias : Option Bytes
  pub http_path_orig : Option Bytes
  pub resp_is_set : Bool
  pub clt_persist : ℕ
  pub clt_pipelining : Bool
  pub clt_toread : ClientToread
  pub clt_srv_conf : ServerConfig
  pub clt_srv_match : List Bytes
  pub clt_remote_user : Option Bytes
  pub clt_ss : Address
  pub clt_port : ℕ
  pub clt_srv_ss : Address
