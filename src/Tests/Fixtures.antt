-- ===== src/Tests/Fixtures.antt =====
-- A server and a client whose request has been read, for the tests.
use fuzz_httpd.Base.{◌+◌, false, true, [], ◌∷◌, none, some, codes, str_eq}
use fuzz_httpd.Http.{HttpMethod}
use fuzz_httpd.RequestLine.{HttpDescriptor, left}
use fuzz_httpd.Response.{Platform, str_not_found}
use fuzz_httpd.Server.{Address, ServerConfig, Session, inet}

abbrev pub address : Address
address = record { family = inet; text = none; socket_port = 80 }

abbrev pub server : ServerConfig
server = record {
  id = 0;
  parent_id = 1;
  name = codes "www";
  location = [];
  root = codes "/";
  path = [];
  index = codes "index.html";
  port = 80;
  ss = address;
  maxrequests = 100;
  maxrequestbody = 1000;
  strip = 0;
  auth_htpasswd = codes "users";
  auth_realm = [];
  return_code = 0;
  return_uri = none;
  errdocroot = codes "/errdocs";
  fcgistrip = 0;
  fcgiparams = [];
  tls_verify = none;
  flag_errdocs = true;
  flag_location = false;
  flag_location_match = false;
  flag_location_found = false;
  flag_location_not_found = false;
  flag_server_match = false;
  flag_path_rewrite = false;
  flag_block = false;
  flag_auth = false;
  flag_tls = false;
  flag_fcgi = false;
  flag_no_index = false;
  flag_auto_index = false;
  flag_gzip_static = false;
}

abbrev pub request : HttpDescriptor
request = record {
  http_method = HttpMethod.get;
  http_path = some (codes "/a/../b%20c");
  http_query = some (codes "q=1");
  http_version = some (codes "HTTP/1.0");
  http_chunked = false;
  http_headers = [];
  http_lastheader = none;
}

abbrev pub session : Session
session = record {
  desc = request;
  http_host = none;
  http_path_alias = none;
  http_query_alias = none;
  http_path_orig = none;
  resp_is_set = false;
  clt_persist = 0;
  clt_pipelining = false;
  clt_toread = left 0;
  clt_srv_conf = server;
  clt_srv_match = [];
  clt_remote_user = none;
  clt_ss = record address { text = some (codes "10.0.0.1") };
  clt_port = 4000;
  clt_srv_ss = record address { text = some (codes "10.0.0.2") };
}

-- Patterns and files are compared as they are; a pattern is never found.
abbrev pub platform : Platform
platform = record {
  fnmatch = str_eq;
  str_find = λ text pattern. str_not_found;
  str_match = λ text pattern. none;
  b64_pton = λ text. none;
  crypt_checkpass = str_eq;
  number = λ n. (b'0' + n) ∷ [];
  can_open = λ root. true;
  is_there = λ root path. true;
  read_file = λ path. none;
  behind = [];
  hostname_size = 32;
}
