-- ===== src/OidcDevice.antt =====
-- internal/oidcdevice/oidcdevice.go: the device login at an OIDC provider. Parameters: the OIDC, OAuth2
-- and HTTP libraries, the parsing of URLs, and the dropping of control characters (`strings.Map`).
pub mod Endpoints
use sshgatew.Prelude.{
  ℕ, Bool, true, false, not, ◌&&◌, ◌||◌, List, [], ◌∷◌, ◌++◌, Option, none, some, if◌then◌else◌,
}
use sshgatew.Prelude.Lists.{take}
use sshgatew.Prelude.Texts.{Text, codes, text_eq, is_empty, to_lower, trim_space}

pub record Url : Type 0 where
  pub scheme : Text
  pub host : Text
  pub hostname : Text
  pub has_user : Bool
  pub fragment : Text

-- What the discovery of a provider found; `none` for the claims that cannot be read.
pub record Metadata : Type 0 where
  pub device_auth_url : Text
  pub token_url : Text
  pub jwks_url : Option Text

pub record DeviceResponse : Type 0 where
  pub device_code : Text
  pub user_code : Text
  pub verification_uri : Text
  pub verification_uri_complete : Text

-- A verified ID token, and those of its claims that are texts.
pub record Claims : Type 0 where
  pub subject : Text
  pub claim : Text → Option Text

-- What the other side answers: the discovery, the device endpoint, the ID token that the token endpoint
-- gives for a device code, and the verification of an ID token.
pub record Internet : Type 0 where
  pub discovered : Option Metadata
  pub request_device_auth : Text → Option DeviceResponse
  pub id_token : Text → Text → Option Text
  pub verify : Text → Option Claims
  pub parse_url : Text → Option Url
  pub is_loopback_ip : Text → Bool
  pub drop_controls : Text → Text

-- `Authenticator`: the issuer, the claim that holds the name, and the provider once it is discovered.
pub record Authenticator : Type 0 where
  pub issuer_url : Text
  pub username_claim : Text
  pub provider : Option Metadata

pub record Login : Type 0 where
  pub user_code : Text
  pub verification_uri : Text
  pub verification_uri_complete : Text
  pub response : DeviceResponse
  pub token_url : Text

pub record Identity : Type 0 where
  pub subject : Text
  pub username : Text

-- `New`
abbrev pub new : (issuer claim : Text) → Authenticator
new issuer claim = record {
  issuer_url = issuer;
  username_claim = trim_space claim;
  provider = none;
}

module _ (net : Internet) where
  unfoldable pub is_loopback : Text → Bool
  is_loopback host = text_eq (to_lower host) (codes "localhost") || net.is_loopback_ip host

  abbrev valid_url : Option Url → Bool
  valid_url none = false
  valid_url (some u) =
      if is_empty u.host || u.has_user || not (is_empty u.fragment)
      then false
      else if text_eq u.scheme (codes "https")
      then true
      else text_eq u.scheme (codes "http") && is_loopback u.hostname

  -- Whether `validateEndpoint` returns no error.
  unfoldable pub validate_endpoint : Text → Bool
  validate_endpoint raw = valid_url (net.parse_url raw)

  unfoldable pub display_text : Text → ℕ → Text
  display_text value limit = take limit (net.drop_controls value)

  abbrev keep_provider : Authenticator → Metadata → Option Text → Authenticator × Option Metadata
  keep_provider a m none = (a, none)
  keep_provider a m (some jwks) =
      if validate_endpoint jwks then (record a { provider = some m }, some m) else (a, none)

  abbrev find_provider : Authenticator → Option Metadata → Authenticator × Option Metadata
  find_provider a none = (a, none)
  find_provider a (some m) = keep_provider a m m.jwks_url

  -- A provider that is known is not discovered again.
  abbrev discover_if : Authenticator → Option Metadata → Authenticator × Option Metadata
  discover_if a (some m) = (a, some m)
  discover_if a none = find_provider a net.discovered

  unfoldable pub discover : Authenticator → Authenticator × Option Metadata
  discover a = discover_if a a.provider

  abbrev accept : Text → Option DeviceResponse → Option Login
  accept token_url none = none
  accept token_url (some r) =
      if is_empty r.device_code || is_empty r.user_code || is_empty r.verification_uri
      then none
      else if not (validate_endpoint r.verification_uri)
      then none
      else if not (is_empty r.verification_uri_complete)
          && not (validate_endpoint r.verification_uri_complete)
      then none
      else some (record {
        user_code = display_text r.user_code 128;
        verification_uri = display_text r.verification_uri 2048;
        verification_uri_complete = display_text r.verification_uri_complete 2048;
        response = r;
        token_url = token_url;
      })

  -- The URL that the device request goes to, and the login.
  abbrev begin_at : Option Metadata → List Text × Option Login
  begin_at none = ([], none)
  begin_at (some m) =
      if is_empty m.device_auth_url
      then ([], none)
      else if not (validate_endpoint m.device_auth_url)
      then ([], none)
      else if not (validate_endpoint m.token_url)
      then ([], none)
      else (m.device_auth_url ∷ [], accept m.token_url (net.request_device_auth m.device_auth_url))

  -- A provider that is not known yet is discovered at the issuer.
  abbrev discovery : Authenticator → Option Metadata → List Text
  discovery a (some m) = []
  discovery a none = a.issuer_url ∷ []

  -- The URLs that `Begin` sends requests to, and the login.
  unfoldable pub begin : Authenticator → Authenticator × List Text × Option Login
  begin a =
      let found = discover a in
      let r = begin_at found.1 in (found.0, discovery a a.provider ++ r.0, r.1)

  abbrev name_of : Claims → Option Text → Option Identity
  name_of c none = none
  name_of c (some value) =
      if is_empty (trim_space value)
      then none
      else some (record { subject = c.subject; username = to_lower (trim_space value) })

  abbrev verified : Text → Option Claims → Option Identity
  verified claim none = none
  verified claim (some c) = name_of c (c.claim claim)

  abbrev with_token : Text → Option Text → Option Identity
  with_token claim none = none
  with_token claim (some raw) = if is_empty raw then none else verified claim (net.verify raw)

  -- The login is one that `begin` gave, so it has its response, endpoints and verifier.
  unfoldable pub complete : Authenticator → Login → Option Identity
  complete a login =
      with_token a.username_claim (net.id_token login.token_url login.response.device_code)
