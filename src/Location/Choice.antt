-- ===== src/Location/Choice.antt =====
-- Which location `server_getlocation` of server_http.c takes.
use fuzz_httpd.Base.{
  Bool, true, false, ◌&&◌, List, [], ◌∷◌, ◌++◌, ◌≡◌, refl, sym, ap, ap₂, ◌∙◌, ◌⊎◌, inl, inr, All,
  Option, none, some, Bytes, ◌==◌, if◌then◌else◌, if-intro,
}
use fuzz_httpd.Server.{ServerConfig}
use fuzz_httpd.Location.{
  Access, passes, rejects, fails, Located, captured, match_location, on_access, server_getlocation,
  server_locationaccesstest,
}

-- `str_match` matched
abbrev pub is_match : Option (List Bytes) → Bool
is_match none = false
is_match (some captures) = true

captured_or :
    (b : Bool) (o : Option (List Bytes)) (f : Bool) (m : List Bytes)
    → (if b then captured o else (f, m)).0 ≡ (if b then is_match o else f)
captured_or true none f m = refl
captured_or true (some captures) f m = refl
captured_or false o f m = refl

module _ (fnmatch : Bytes → Bytes → Bool) (str_match : Bytes → Bytes → Option (List Bytes))
    (can_open : Bytes → Bool) (is_there : Bytes → Bytes → Bool) (behind : Bytes)
    (srv_conf : ServerConfig) (path : Bytes) where
  abbrev pub is_matched : ServerConfig → Bool
  is_matched l =
      if l.flag_location_match
      then is_match (str_match path l.location)
      else fnmatch l.location path

  -- The entry is a location of the server, and its pattern matches the path.
  abbrev pub applies : ServerConfig → Bool
  applies l = (l.flag_location && l.parent_id == srv_conf.parent_id) && is_matched l

  abbrev pub access : ServerConfig → Access
  access l = server_locationaccesstest fnmatch str_match can_open is_there behind l path

  abbrev pub PassedOver : ServerConfig → Type 0
  PassedOver l = (applies l ≡ false) ⊎ (access l ≡ rejects)

  -- the end of the search at `l`
  abbrev pub Stops : ServerConfig → Located → Type 0
  Stops l r =
      ((access l ≡ passes) × ((r.ret ≡ some l) × (r.clt_srv_conf ≡ l)))
      ⊎ ((access l ≡ fails) × ((r.ret ≡ none) × (r.clt_srv_conf ≡ srv_conf)))

  -- All entries are passed over, or there is a first one that is not.
  pub data Chooses : List ServerConfig → Located → Type 0 where
    stays :
        (hosts : List ServerConfig) (r : Located)
        → All PassedOver hosts
        → r.ret ≡ some srv_conf
        → r.clt_srv_conf ≡ srv_conf
        → Chooses hosts r
    stops :
        (before : List ServerConfig) (l : ServerConfig) (after : List ServerConfig) (r : Located)
        → All PassedOver before
        → applies l ≡ true
        → Stops l r
        → Chooses (before ++ l ∷ after) r

  further :
      (l : ServerConfig) (hosts : List ServerConfig) (r : Located)
      → PassedOver l
      → Chooses hosts r
      → Chooses (l ∷ hosts) r
  further l hosts r p (stays h r' all e f) = stays (l ∷ hosts) r (p, all) e f
  further l hosts r p (stops before l' after r' all a s) =
      stops (l ∷ before) l' after r (p, all) a s

  abbrev search : List ServerConfig → List Bytes → Located
  search hosts m =
      server_getlocation fnmatch str_match can_open is_there behind hosts srv_conf path m

  by_access :
      (l : ServerConfig) (hosts : List ServerConfig) (m : List Bytes) (a : Access)
      → access l ≡ a
      → applies l ≡ true
      → ((m : List Bytes) → Chooses hosts (search hosts m))
      → Chooses
          (l ∷ hosts)
          (on_access fnmatch str_match can_open is_there behind (search hosts) srv_conf l m a)
  by_access l hosts m passes e t h = stops [] l hosts _ tt t (inl (e, (refl, refl)))
  by_access l hosts m rejects e t h = further l hosts (search hosts m) (inr e) (h m)
  by_access l hosts m fails e t h = stops [] l hosts _ tt t (inr (e, (refl, refl)))

  matches :
      (l : ServerConfig) (m : List Bytes)
      → (match_location fnmatch str_match can_open is_there behind l path m).0 ≡ is_matched l
  matches l m =
      captured_or l.flag_location_match (str_match path l.location) (fnmatch l.location path) m

  by_match :
      (l : ServerConfig) (hosts : List ServerConfig) (p : Bool × List Bytes)
      → (p.0 ≡ true → applies l ≡ true)
      → (p.0 ≡ false → applies l ≡ false)
      → ((m : List Bytes) → Chooses hosts (search hosts m))
      → Chooses (l ∷ hosts) (
          if p.0
          then on_access fnmatch str_match can_open is_there behind
              (search hosts)
              srv_conf
              l
              p.1
              (access l)
          else search hosts p.1)
  by_match l hosts (true, m) t f h = by_access l hosts m (access l) refl (t refl) h
  by_match l hosts (false, m) t f h = further l hosts (search hosts m) (inl (f refl)) (h m)

  -- The search ends at the first location of the server whose pattern matches the path and whose test
  -- does not reject it: that location is taken, or nothing is returned where the test fails. Without
  -- such a location the configuration stays as it was.
  pub server_getlocation-Chooses :
      (hosts : List ServerConfig) (m : List Bytes)
      → Chooses hosts
          (server_getlocation fnmatch str_match can_open is_there behind hosts srv_conf path m)
  unfolding server_getlocation
  server_getlocation-Chooses [] m = stays [] _ tt refl refl
  server_getlocation-Chooses (l ∷ hosts) m =
      if-intro (Chooses (l ∷ hosts)) (l.flag_location && l.parent_id == srv_conf.parent_id) _ _
        (λ e.
          by_match l hosts (match_location fnmatch str_match can_open is_there behind l path m)
            (λ t. ap₂ (λ a b. a && b) e (sym (matches l m) ∙ t))
            (λ t. ap₂ (λ a b. a && b) e (sym (matches l m) ∙ t)) (server_getlocation-Chooses hosts))
        (λ e.
          further l hosts (search hosts m) (inl (ap (λ b. b && is_matched l) e))
            (server_getlocation-Chooses hosts m))
