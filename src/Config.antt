-- ===== src/Config.antt =====
-- internal/config/config.go: the checks of a configuration and the environment of its OIDC part.
-- Parameters: the parsing of addresses, URLs, Booleans and durations by Go's library.
pub mod Valid
use sshgatew.Prelude.{
  ℕ, ◌⊎◌, inl, inr, Bool, true, false, not, ◌&&◌, ◌||◌, ◌*◌, List, [], ◌∷◌, Option, none, some, map,
  filter, ◌==◌, if◌then◌else◌,
}
use sshgatew.Prelude.Int.{ℤ, pos, ltb_ℤ}
use sshgatew.Prelude.Lists.{length}
use sshgatew.Prelude.Texts.{
  Text, codes, text_eq, to_lower, trim_space, is_empty, is_space, cons_head,
}

-- Durations are in nanoseconds.
pub record OidcConfig : Type 0 where
  pub enabled : Bool
  pub issuer_url : Text
  pub client_id : Text
  pub client_secret : Text
  pub username_claim : Text
  pub scopes : List Text
  pub login_timeout : ℤ

pub record Config : Type 0 where
  pub listen_address : Text
  pub database_path : Text
  pub master_key_path : Text
  pub host_key_path : Text
  pub idle_timeout : ℤ
  pub downstream_timeout : ℤ
  pub max_sessions : ℤ
  pub max_sessions_per_user : ℤ
  pub log_level : Text
  pub log_format : Text
  pub oidc : OidcConfig

pub record Url : Type 0 where
  pub scheme : Text
  pub host : Text
  pub hostname : Text
  pub raw_query : Text
  pub fragment : Text

-- What the code uses of `net`, `net/url`, `strconv` and `time`.
pub record Library : Type 0 where
  pub has_host_port : Text → Bool
  pub parse_url : Text → Option Url
  pub is_loopback_ip : Text → Bool
  pub parse_bool : Text → Option Bool
  pub parse_duration : Text → Option ℤ

pub data ConfigError : Type 0 where
  bad_listen_address paths_missing bad_timeouts bad_session_limits bad_log_level : ConfigError
  bad_log_format issuer_or_client_missing bad_issuer_url issuer_not_https : ConfigError
  username_claim_missing bad_login_timeout bad_scope openid_missing : ConfigError
  bad_enabled_variable bad_timeout_variable : ConfigError

abbrev pub second : ℕ
second = 1000000000

-- The pieces between white space, and those that are not empty: strings.Fields
unfoldable pub pieces : Text → List Text
pieces [] = [] ∷ []
pieces (c ∷ s) = let rest = pieces s in if is_space c then [] ∷ rest else cons_head c rest

unfoldable pub fields : Text → List Text
fields s = filter (λ w. not (is_empty w)) (pieces s)

unfoldable pub default : Config
default = record {
  listen_address = codes "0.0.0.0:2222";
  database_path = codes "/var/lib/sshgatew/sshgatew.db";
  master_key_path = codes "/var/lib/sshgatew/master.key";
  host_key_path = codes "/var/lib/sshgatew/ssh_host_ed25519_key";
  idle_timeout = pos (1800 * second);
  downstream_timeout = pos (10 * second);
  max_sessions = pos 100;
  max_sessions_per_user = pos 5;
  log_level = codes "info";
  log_format = codes "json";
  oidc = record {
    enabled = false;
    issuer_url = [];
    client_id = [];
    client_secret = [];
    username_claim = codes "preferred_username";
    scopes = codes "openid" ∷ codes "profile" ∷ codes "email" ∷ [];
    login_timeout = pos (300 * second);
  };
}

module _ (lib : Library) where
  unfoldable pub is_loopback_host : Text → Bool
  is_loopback_host host = text_eq (to_lower host) (codes "localhost") || lib.is_loopback_ip host

  -- The loop over the scopes; `none` is no error.
  unfoldable pub check_scopes : Bool → List Text → Option ConfigError
  check_scopes has_openid [] = if not has_openid then some openid_missing else none
  check_scopes has_openid (scope ∷ scopes) =
      let rest = check_scopes (has_openid || text_eq scope (codes "openid")) scopes in
      if is_empty (trim_space scope) || not (length (fields scope) == 1)
      then some bad_scope
      else rest

  abbrev pub is_issuer : Url → Bool
  is_issuer u = not (is_empty u.host) && is_empty u.raw_query && is_empty u.fragment

  abbrev pub is_secure : Url → Bool
  is_secure u =
      text_eq u.scheme (codes "https")
      || text_eq u.scheme (codes "http") && is_loopback_host u.hostname

  -- The checks that follow those of the issuer.
  abbrev pub validate_login : OidcConfig → Option ConfigError
  validate_login c =
      if is_empty (trim_space c.username_claim)
      then some username_claim_missing
      else if ltb_ℤ c.login_timeout (pos (30 * second))
          || ltb_ℤ (pos (900 * second)) c.login_timeout
      then some bad_login_timeout
      else check_scopes false c.scopes

  abbrev pub validate_issuer : OidcConfig → Option Url → Option ConfigError
  validate_issuer c none = some bad_issuer_url
  validate_issuer c (some u) =
      if not (is_issuer u)
      then some bad_issuer_url
      else if not (is_secure u)
      then some issuer_not_https
      else validate_login c

  unfoldable pub validate_oidc : OidcConfig → Option ConfigError
  validate_oidc c =
      if not c.enabled
      then none
      else if is_empty c.issuer_url || is_empty c.client_id
      then some issuer_or_client_missing
      else validate_issuer c (lib.parse_url c.issuer_url)

  abbrev pub is_positive : ℤ → Bool
  is_positive n = ltb_ℤ (pos 0) n

  abbrev pub is_level : Text → Bool
  is_level l =
      text_eq l (codes "debug")
      || text_eq l (codes "info")
      || text_eq l (codes "warn")
      || text_eq l (codes "error")

  abbrev pub is_format : Text → Bool
  is_format f = text_eq f (codes "json") || text_eq f (codes "text")

  unfoldable pub validate_config : Config → Option ConfigError
  validate_config c =
      if not (lib.has_host_port c.listen_address)
      then some bad_listen_address
      else if is_empty c.database_path || is_empty c.master_key_path || is_empty c.host_key_path
      then some paths_missing
      else if not (is_positive c.idle_timeout) || not (is_positive c.downstream_timeout)
      then some bad_timeouts
      else if not (is_positive c.max_sessions)
          || not (is_positive c.max_sessions_per_user)
          || ltb_ℤ c.max_sessions c.max_sessions_per_user
      then some bad_session_limits
      else if not (is_level c.log_level)
      then some bad_log_level
      else if not (is_format c.log_format)
      then some bad_log_format
      else validate_oidc c.oidc

  -- `nonEmptyEnvironment`, of a variable's value if it is set.
  unfoldable pub non_empty : Option Text → Option Text
  non_empty none = none
  non_empty (some v) = if is_empty (trim_space v) then none else some v

  abbrev set_text : (OidcConfig → Text → OidcConfig) → Option Text → OidcConfig → OidcConfig
  set_text set none c = c
  set_text set (some v) c = set c v

  abbrev set_enabled : Option Text → OidcConfig → Option OidcConfig
  set_enabled none c = some c
  set_enabled (some v) c = elim (lib.parse_bool v) [
    | none ↦ none
    | some b ↦ some (record c { enabled = b })
  ]

  abbrev set_timeout : Option Text → OidcConfig → ConfigError ⊎ OidcConfig
  set_timeout none c = inr c
  set_timeout (some v) c = elim (lib.parse_duration v) [
    | none ↦ inl bad_timeout_variable
    | some d ↦ inr (record c { login_timeout = d })
  ]

  abbrev scopes_of : Text → List Text
  scopes_of v = fields (map (λ c. if c == b',' then b' ' else c) v)

  -- `applyOIDCEnvironment`, where `env` reads the variable that is named by the last part of its name.
  unfoldable pub apply_oidc_environment :
      (Text → Option Text) → OidcConfig → ConfigError ⊎ OidcConfig
  apply_oidc_environment env c =
      let get : Text → Option Text = λ n. non_empty (env n) in
      elim (set_enabled (get (codes "ENABLED")) c) [
        | none ↦ inl bad_enabled_variable
        | some c1 ↦
            let c2 =
              set_text (λ o v. record o { issuer_url = trim_space v }) (get (codes "ISSUER")) c1 in
            let c3 = set_text (λ o v. record o { client_id = v }) (get (codes "CLIENT_ID")) c2 in
            let c4 =
              set_text (λ o v. record o { client_secret = v }) (get (codes "CLIENT_SECRET")) c3 in
            let c5 =
              set_text (λ o v. record o { username_claim = trim_space v })
                (get (codes "USERNAME_CLAIM")) c4 in
            let c6 =
              set_text (λ o v. record o { scopes = scopes_of v }) (get (codes "SCOPES")) c5 in
            set_timeout (get (codes "LOGIN_TIMEOUT")) c6
      ]
