-- ===== src/File/Ends.antt =====
-- How the requests for a file that exists end, in server_file.c.
use fuzz_httpd.Base.{
  ℕ, zero, suc, ◌≤◌, ◌<◌, ◌≡◌, refl, true, ◌||◌, Option, none, some, Bytes, ◌==◌, Bool-cases, inl,
  inr, arith,
}
use fuzz_httpd.File.{
  Accessed, answered, status, Content, no_content, page, whole_file, ranges, Errno, enoent, enotdir,
  eacces, other_errno, FileAnswer, file_aborts, out_of_fuel, replies, server_fcgi, Files, Stat,
  directory, no_file, regular, special, errno_status, is_get, open_file, open_zipped, send_file,
  server_file_method, server_file_modified_since, server_file_request, since_time, since_value,
  unless_modified, with_method,
}
use fuzz_httpd.File.Access.{index_by}
use fuzz_httpd.File.Ranged.{open_ranges, server_partial_file_request, with_ranges}
use fuzz_httpd.Http.{HttpMethod}
use fuzz_httpd.Range.{Outcome, counted, overrun, refused, llong_max, parse_ranges}
use fuzz_httpd.Range.Count.{AllInFile, Sound, parse_ranges-Sound}
use fuzz_httpd.Response.{Platform}
use fuzz_httpd.Server.{Session}

-- The statuses that `server_file` aborts with.
abbrev pub IsFileError : ℕ → Type 0
IsFileError code =
    (code == 301)
      || (code == 403)
      || (code == 404)
      || (code == 405)
      || (code == 416)
      || (code == 500)
    ≡ true

-- What follows a header with a status: ranges lie in the file as `stat` finds it.
abbrev pub Follows : Files → Content → ℕ → Type 0
Follows fs no_content code = code ≡ 304
Follows fs (page text) code = code ≡ 200
Follows fs (whole_file path) code = code ≡ 200
Follows fs (ranges path d) code =
    (size : ℕ) × (mtime : ℕ) × (fs.stat path ≡ regular size mtime)
    × (code ≡ 206)
    × (0 < d.range_count)
    × (d.range_count ≤ 4)
    × (d.range_total ≡ size)
    × AllInFile size d.range_count d.range

-- A request that may be answered with a file.
abbrev pub Reads : HttpMethod → Type 0
Reads m = server_file_method m ≡ none

abbrev pub Ends : Files → FileAnswer → Type 0
Ends fs (replies r c) = Reads c.desc.http_method × Follows fs r.content r.code
Ends fs (file_aborts code msg c) = IsFileError code
Ends fs (server_fcgi c) = c.clt_srv_conf.flag_fcgi ≡ true
Ends fs out_of_fuel = ⊥

abbrev pub EndsAccess : Files → Accessed → Type 0
EndsAccess fs (answered a) = Ends fs a
EndsAccess fs (status code c) = IsFileError code

-- The sizes of files are those of an `off_t`.
abbrev pub SizesFit : Files → Type 0
SizesFit fs = (path : Bytes) (size mtime : ℕ) → fs.stat path ≡ regular size mtime → size ≤ llong_max

pub errno_status-IsFileError : (e : Errno) → IsFileError (errno_status e)
errno_status-IsFileError enoent = refl
errno_status-IsFileError enotdir = refl
errno_status-IsFileError eacces = refl
errno_status-IsFileError other_errno = refl

is_get-Reads : (m : HttpMethod) → is_get m ≡ true → Reads m
is_get-Reads HttpMethod.get h = refl
is_get-Reads HttpMethod.head h = refl
is_get-Reads m h = ground (arith, h)

module _ (fs : Files) where
  open_file-Ends :
      (path : Bytes) (c : Session) (s : Stat)
      → Reads c.desc.http_method
      → Ends fs (open_file fs path c s)
  open_file-Ends path c (regular size t) m = elim (Bool-cases (fs.can_read path)) [
    | inl readable ↦ rw readable (m, refl)
    | inr shut ↦ rw shut refl
  ]
  open_file-Ends path c (no_file e) m = refl
  open_file-Ends path c (directory t) m = refl
  open_file-Ends path c special m = refl

  open_zipped-Ends :
      (path : Bytes) (mtime : ℕ) (c : Session) (o : Option ℕ)
      → Reads c.desc.http_method
      → Ends fs (open_zipped fs path mtime c o)
  open_zipped-Ends path mtime c none m = open_file-Ends path c (fs.stat path) m
  open_zipped-Ends path mtime c (some size) m = (m, refl)

  send_file-Ends :
      (path : Bytes) (mtime : ℕ) (c : Session)
      → Reads c.desc.http_method
      → Ends fs (send_file fs path mtime c)
  send_file-Ends path mtime c m = grind (arith, open_zipped-Ends, open_file-Ends, m)

  since_time-304 :
      (mtime : ℕ) (t : Option ℕ) (code : ℕ) → since_time fs mtime t ≡ some code → code ≡ 304
  since_time-304 mtime t code h = ground (arith, h)

  since_value-304 :
      (mtime : ℕ) (v : Option Bytes) (code : ℕ) → since_value fs mtime v ≡ some code → code ≡ 304
  since_value-304 mtime none code h = ground (arith, h)
  since_value-304 mtime (some v) code h = since_time-304 mtime (fs.strptime v) code h

  unless_modified-Ends :
      (path : Bytes) (mtime : ℕ) (c : Session) (o : Option ℕ)
      → Reads c.desc.http_method
      → ((code : ℕ) → o ≡ some code → code ≡ 304)
      → Ends fs (unless_modified fs path mtime c o)
  unless_modified-Ends path mtime c none m h = send_file-Ends path mtime c m
  unless_modified-Ends path mtime c (some code) m h = (m, h code refl)

  with_method-Ends :
      (m : HttpMethod) (next : Session → FileAnswer) (c : Session)
      → (Reads m → Ends fs (next c))
      → Ends fs (with_method (server_file_method m) next c)
  with_method-Ends HttpMethod.get next c h = h refl
  with_method-Ends HttpMethod.head next c h = h refl
  with_method-Ends m next c h = refl

  pub server_file_request-Ends :
      (path : Bytes) (mtime : ℕ) (c : Session) → Ends fs (server_file_request fs path mtime c)
  unfolding server_file_request server_file_modified_since
  server_file_request-Ends path mtime c = with_method-Ends c.desc.http_method _ c (λ m.
      unless_modified-Ends path mtime c (server_file_modified_since fs c mtime) m
        (since_value-304 mtime _))

pub index_by-Ends :
    (fs : Files) (m : HttpMethod) (next : Session → FileAnswer) (c : Session)
    → (Reads m → Ends fs (next c))
    → Ends fs (index_by (server_file_method m) next c)
index_by-Ends fs HttpMethod.get next c h = h refl
index_by-Ends fs HttpMethod.head next c h = h refl
index_by-Ends fs m next c h = refl

module _ (sys : Platform) (fs : Files) (boundary : ℕ)
    (media_find_config : Bytes → Bytes × Bytes) where
  with_ranges-Ends :
      (path : Bytes) (size mtime : ℕ) (c : Session) (o : Outcome)
      → fs.stat path ≡ regular size mtime
      → Reads c.desc.http_method
      → Sound size o
      → Ends fs (with_ranges sys fs boundary media_find_config path size mtime c o)
  with_ranges-Ends path size mtime c (counted zero d) e m h = refl
  with_ranges-Ends path size mtime c (counted (suc n) d) e m (four, count, total, all) = (
    m,
    (size, mtime, e, refl, omega (arith, count), omega (arith, count, four), total, rw count all),
  )
  with_ranges-Ends path size mtime c refused e m h = refl
  with_ranges-Ends path size mtime c overrun e m h = h
  with_ranges-Ends path size mtime c Outcome.out_of_fuel e m h = h

  open_ranges-Ends :
      (path range_str : Bytes) (c : Session) (s : Stat)
      → fs.stat path ≡ s
      → Reads c.desc.http_method
      → ((size mtime : ℕ) → s ≡ regular size mtime → size ≤ llong_max)
      → Ends fs (open_ranges sys fs boundary media_find_config path range_str c s)
  open_ranges-Ends path range_str c (regular size mtime) e m fits =
      elim (Bool-cases (fs.can_read path)) [
        | inl readable ↦ rw readable (
            with_ranges-Ends path size mtime c (parse_ranges range_str size) e m
              (parse_ranges-Sound range_str size (fits size mtime refl)))
        | inr shut ↦ rw shut refl
      ]
  open_ranges-Ends path range_str c (no_file x) e m fits = refl
  open_ranges-Ends path range_str c (directory t) e m fits = refl
  open_ranges-Ends path range_str c special e m fits = refl

  module _ (fits : SizesFit fs) where
    pub partial-Ends :
        (path : Bytes) (mtime : ℕ) (range_str : Bytes) (c : Session)
        → Ends fs
            (server_partial_file_request sys fs boundary media_find_config path mtime range_str c)
    unfolding server_partial_file_request
    partial-Ends path mtime range_str c = elim (Bool-cases (is_get c.desc.http_method)) [
      | inl yes_get ↦ rw yes_get (
          open_ranges-Ends path range_str c (fs.stat path) refl
            (is_get-Reads c.desc.http_method yes_get) (fits path))
      | inr other ↦ rw other (server_file_request-Ends fs path mtime c)
    ]
