-- ===== src/Tests/File.antt =====
-- Files, directories and ranges.
use fuzz_httpd.Base.{
  ◌++◌, ◌||◌, All, Lacks, List, ℕ, ◌≡◌, refl, true, [], ◌∷◌, none, some, Bytes, codes, arith,
  length, str_eq, if◌then◌else◌,
}
use fuzz_httpd.File.{
  FileAnswer, Files, Stat, file_aborts, no_file, enoent, directory, out_of_fuel, regular, replies,
  server_fcgi,
}
use fuzz_httpd.File.Access.{server_file}
use fuzz_httpd.File.Ranged.{partial_length}
use fuzz_httpd.File.Partial.{partial_length-parts}
use fuzz_httpd.File.Ends.{Ends, SizesFit}
use fuzz_httpd.File.Sends.{Sends, server_file-Sends}
use fuzz_httpd.Path.Spec.{spell}
use fuzz_httpd.File.Status.{server_file-Ends}
use fuzz_httpd.Server.{Session}
use fuzz_httpd.Tests.Fixtures.{platform, request, server, session}
use fuzz_httpd.Tests.Transfer.{append, digit, reply, seek, text}
use fuzz_httpd.Transfer.Whole.{parts}

partial_length-parts_example :
    partial_length digit 7 (codes "text") (codes "plain") reply.ranges
    ≡ length (parts append seek digit reply text 2)
unfolding parts
partial_length-parts_example =
    partial_length-parts append seek digit reply text (omega arith)
      (omega arith, omega arith, (omega arith, omega arith, tt)) (omega arith)

abbrev a_size : ℕ
a_size = 6

abbrev stat_of : Bytes → Stat
stat_of path =
    if str_eq path (codes "//d/")
    then directory 5
    else if str_eq path (codes "//d/index.html") || str_eq path (codes "//f")
    then regular a_size 9
    else no_file enoent

abbrev files : Files
files = record {
  stat = stat_of;
  can_read = λ path. true;
  time = 1000;
  scandir = λ path. none;
  strptime = λ value. none;
  path_max = 1024;
}

abbrev media : Bytes → Bytes × Bytes
media path = (codes "text", codes "plain")

abbrev asks : Bytes → Session
asks path = record session { desc = record request { http_path = some path } }

abbrev code_of : FileAnswer → ℕ
code_of (replies r c) = r.code
code_of (file_aborts code msg c) = code
code_of (server_fcgi c) = 0
code_of out_of_fuel = 0

missing : code_of (server_file platform files 7 media (server ∷ []) (asks (codes "/x"))) ≡ 404
unfolding server_file
missing = refl

index_file : code_of (server_file platform files 7 media (server ∷ []) (asks (codes "/d/"))) ≡ 200
unfolding server_file
index_file = refl

files-SizesFit : SizesFit files
files-SizesFit path size mtime h = ground (arith, h)

server_file-Ends_example :
    Ends files (server_file platform files 7 media (server ∷ []) (asks (codes "/d/")))
server_file-Ends_example =
    server_file-Ends platform files 7 media files-SizesFit (server ∷ []) (asks (codes "/d/"))

abbrev segments : List Bytes
segments = codes "f" ∷ []

no_slashes : All (Lacks b'/') segments
no_slashes = ((λ e. absurd (omega (arith, e)), tt), tt)

server_file-Sends_example :
    Sends
      (server.root ++ spell segments)
      (server_file platform files 7 media (server ∷ []) (asks (codes "/f")))
server_file-Sends_example =
    server_file-Sends platform files 7 media (server ∷ []) (asks (codes "/f")) segments refl refl
      no_slashes refl
