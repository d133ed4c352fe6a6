-- ===== src/Config/Valid.antt =====
-- internal/config/config.go: `Validate` accepts exactly the configurations of a plain description.
use sshgatew.Prelude.{
  ◌≡◌, ◌⊎◌, inl, inr, Bool, true, false, not, ◌&&◌, ◌||◌, List, [], ◌∷◌, none, some, any, arith,
  Option-cases, Bool-cases, ◌==◌,
}
use sshgatew.Prelude.Int.{pos, ◌<ℤ◌, ◌≤ℤ◌}
use sshgatew.Prelude.Lists.{all, length}
use sshgatew.Prelude.Texts.{is_ascii, to_lower, Text, codes, text_eq, is_empty, trim_space}
use sshgatew.Config.{
  OidcConfig, Config, Url, Library, fields, check_scopes, validate_oidc, is_loopback_host,
  validate_config,
}

-- One word.
abbrev pub is_scope : Text → Bool
is_scope s = not (is_empty (trim_space s)) && length (fields s) == 1

pub record IsValidOidc (lib : Library) (c : OidcConfig) : Type 0 where
  pub url : Url
  pub parsed : lib.parse_url c.issuer_url ≡ some url
  pub client : is_empty c.client_id ≡ false
  pub present : is_empty c.issuer_url ≡ false
  pub host : is_empty url.host ≡ false
  pub no_query : url.raw_query ≡ []
  pub no_fragment : url.fragment ≡ []
  pub secure :
      (url.scheme ≡ codes "https")
      ⊎ ((url.scheme ≡ codes "http")
          × ((to_lower url.hostname ≡ codes "localhost")
              ⊎ (lib.is_loopback_ip url.hostname ≡ true)))
  pub claim : is_empty (trim_space c.username_claim) ≡ false
  pub at_least : pos 30000000000 ≤ℤ c.login_timeout
  pub at_most : c.login_timeout ≤ℤ pos 900000000000
  pub scopes : all is_scope c.scopes ≡ true
  pub openid : any (λ s. text_eq s (codes "openid")) c.scopes ≡ true

pub record IsValid (lib : Library) (c : Config) : Type 0 where
  pub address : lib.has_host_port c.listen_address ≡ true
  pub database : is_empty c.database_path ≡ false
  pub master_key : is_empty c.master_key_path ≡ false
  pub host_key : is_empty c.host_key_path ≡ false
  pub idle : pos 0 <ℤ c.idle_timeout
  pub downstream : pos 0 <ℤ c.downstream_timeout
  pub per_user : pos 0 <ℤ c.max_sessions_per_user
  pub in_total : c.max_sessions_per_user ≤ℤ c.max_sessions
  pub level :
      (c.log_level ≡ codes "debug")
      ⊎ (c.log_level ≡ codes "info")
      ⊎ (c.log_level ≡ codes "warn")
      ⊎ (c.log_level ≡ codes "error")
  pub format : (c.log_format ≡ codes "json") ⊎ (c.log_format ≡ codes "text")
  pub oidc : (c.oidc.enabled ≡ false) ⊎ IsValidOidc lib c.oidc

-- The texts in which the code looks for white space or compares letters without case are ASCII.
pub record IsAscii (lib : Library) (c : OidcConfig) : Type 0 where
  pub claim : all is_ascii c.username_claim ≡ true
  pub scopes : all (λ s. all is_ascii s) c.scopes ≡ true
  pub hostname : (u : Url) → lib.parse_url c.issuer_url ≡ some u → all is_ascii u.hostname ≡ true

module _ (lib : Library) where
  check_scopes_lem :
      (has : Bool) (scopes : List Text)
      → (check_scopes lib has scopes ≡ none
          → (all is_scope scopes ≡ true)
            × ((has || any (λ s. text_eq s (codes "openid")) scopes) ≡ true))
        × (all is_scope scopes ≡ true
            → (has || any (λ s. text_eq s (codes "openid")) scopes) ≡ true
            → check_scopes lib has scopes ≡ none)
  unfolding check_scopes all any
  check_scopes_lem has [] = (λ e. ground arith, λ a o. ground arith)
  check_scopes_lem has (s ∷ scopes) =
      let (forth, back) = check_scopes_lem (has || text_eq s (codes "openid")) scopes in
      (λ e. ground (arith, forth), λ a o. ground (arith, back))

  validate_oidc_sound :
      (c : OidcConfig) → validate_oidc lib c ≡ none → (c.enabled ≡ false) ⊎ IsValidOidc lib c
  unfolding validate_oidc is_empty is_loopback_host
  validate_oidc_sound c e = elim (Bool-cases c.enabled) [
    | inr off ↦ inl off
    | inl on ↦ elim (Option-cases (lib.parse_url c.issuer_url)) [
      | inl k ↦ absurd (ground (arith, on, k))
      | inr (url, k) ↦
          let scopes = check_scopes_lem false c.scopes in
          inr (record {
            url = url;
            parsed = k;
            client = ground (arith, on, k);
            present = ground (arith, on, k);
            host = ground (arith, on, k);
            no_query = ground (arith, on, k);
            no_fragment = ground (arith, on, k);
            secure = ground (arith, on, k);
            claim = ground (arith, on, k);
            at_least = ground (arith, on, k);
            at_most = ground (arith, on, k);
            scopes = ground (arith, on, k, scopes.0);
            openid = ground (arith, on, k, scopes.0);
          })
    ]
  ]

  validate_oidc_complete :
      (c : OidcConfig) → (c.enabled ≡ false) ⊎ IsValidOidc lib c → validate_oidc lib c ≡ none
  unfolding validate_oidc is_empty is_loopback_host
  validate_oidc_complete c (inl off) = rw off
  validate_oidc_complete c (inr v) =
      let scopes = (check_scopes_lem false c.scopes).1 v.scopes v.openid in
      ground (
        arith, v.parsed, v.client, v.present, v.host, v.no_query, v.no_fragment, v.secure, v.claim,
        v.at_least, v.at_most, scopes,
      )

  -- Of the configurations whose user name claim, scopes and host name of the issuer are in ASCII,
  -- `Validate` returns no error exactly for those that have a listen address with a port,
  -- the three paths, positive timeouts, a positive limit of sessions for each user that is at most the
  -- total one, a known log level and format, and, if OIDC is enabled, a client and an issuer by HTTPS
  -- (or by HTTP on a loopback host), a user name claim, a login timeout from 30 seconds to 15 minutes,
  -- and scopes of one word each with `openid` among them.
  pub validate_config_lem :
      (c : Config)
      → IsAscii lib c.oidc
      → (validate_config lib c ≡ none → IsValid lib c)
        × (IsValid lib c → validate_config lib c ≡ none)
  unfolding validate_config
  validate_config_lem c ascii = (
    λ e. record {
      address = ground arith;
      database = ground arith;
      master_key = ground arith;
      host_key = ground arith;
      idle = ground arith;
      downstream = ground arith;
      per_user = ground arith;
      in_total = ground arith;
      level = ground arith;
      format = ground arith;
      oidc = validate_oidc_sound c.oidc (ground arith);
    },
    λ v. ground (
      arith,
      v.address,
      v.database,
      v.master_key,
      v.host_key,
      v.idle,
      v.downstream,
      v.per_user,
      v.in_total,
      v.level,
      v.format,
      validate_oidc_complete c.oidc v.oidc,
    ),
  )
