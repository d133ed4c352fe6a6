-- ===== src/OidcDevice/Endpoints.antt =====
-- internal/oidcdevice/oidcdevice.go: whom the device login trusts.
use sshgatew.Prelude.{
  ℕ, ◌≡◌, refl, arith, ◌⊎◌, inl, inr, true, false, List, [], ◌∷◌, ◌++◌, Option, none, some,
  Bool-cases,
}
use sshgatew.Prelude.Lists.{take}
use sshgatew.Prelude.Texts.{Text, codes, is_empty, to_lower, trim_space}
use sshgatew.OidcDevice.{
  Url, Metadata, DeviceResponse, Claims, Internet, Authenticator, Login, Identity, is_loopback,
  valid_url, discovery, validate_endpoint, display_text, discover, discover_if, find_provider,
  keep_provider, accept, begin_at, begin, complete, name_of, verified, with_token,
}

-- An absolute URL without user information and fragment, by HTTPS or to this host.
abbrev pub IsSafe : Internet → Text → Type 0
IsSafe net raw =
    (u : Url) × (net.parse_url raw ≡ some u)
    × (is_empty u.host ≡ false)
    × (u.has_user ≡ false)
    × (u.fragment ≡ [])
    × ((u.scheme ≡ codes "https")
        ⊎ ((u.scheme ≡ codes "http")
            × ((to_lower u.hostname ≡ codes "localhost") ⊎ (net.is_loopback_ip u.hostname ≡ true))))

valid_url-IsSafe :
    (net : Internet) (raw : Text) (o : Option Url)
    → net.parse_url raw ≡ o
    → valid_url net o ≡ true
    → IsSafe net raw
unfolding is_empty is_loopback
valid_url-IsSafe net raw none q h = ground (arith, h)
valid_url-IsSafe net raw (some u) q h =
    (u, q, ground (arith, h), ground (arith, h), ground (arith, h), ground (arith, h))

validate_endpoint-IsSafe :
    (net : Internet) (raw : Text) → validate_endpoint net raw ≡ true → IsSafe net raw
unfolding validate_endpoint
validate_endpoint-IsSafe net raw h = valid_url-IsSafe net raw (net.parse_url raw) refl h

-- The provider that is known has its keys at a safe URL.
abbrev pub IsTrusted : Internet → Option Metadata → Type 0
IsTrusted net none = Unit
IsTrusted net (some m) = (jwks : Text) × (m.jwks_url ≡ some jwks) × IsSafe net jwks

abbrev pub AllSafe : Internet → List Text → Type 0
AllSafe net [] = Unit
AllSafe net (url ∷ urls) = IsSafe net url × AllSafe net urls

-- The login: its endpoints are safe, and what is shown to the client is a bounded part of the response.
abbrev pub IsSafeLogin : Internet → Option Login → Type 0
IsSafeLogin net none = Unit
IsSafeLogin net (some l) =
    IsSafe net l.token_url
    × IsSafe net l.response.verification_uri
    × (is_empty l.response.verification_uri_complete ≡ true
        ⊎ IsSafe net l.response.verification_uri_complete)
    × (l.user_code ≡ take 128 (net.drop_controls l.response.user_code))
    × (l.verification_uri ≡ take 2048 (net.drop_controls l.response.verification_uri))
    × (l.verification_uri_complete
        ≡ take 2048 (net.drop_controls l.response.verification_uri_complete))

keep_provider-IsTrusted :
    (net : Internet) (a : Authenticator) (m : Metadata) (jwks : Option Text)
    → m.jwks_url ≡ jwks
    → IsTrusted net a.provider
    → IsTrusted net (keep_provider net a m jwks).0.provider
      × IsTrusted net (keep_provider net a m jwks).1
keep_provider-IsTrusted net a m none q h = (h, tt)
keep_provider-IsTrusted net a m (some jwks) q h = elim (Bool-cases (validate_endpoint net jwks)) [
  | inl e ↦ rw e (
    (jwks, q, validate_endpoint-IsSafe net jwks e),
    (jwks, q, validate_endpoint-IsSafe net jwks e),
  )
  | inr e ↦ rw e (h, tt)
]

find_provider-IsTrusted :
    (net : Internet) (a : Authenticator) (m : Option Metadata)
    → IsTrusted net a.provider
    → IsTrusted net (find_provider net a m).0.provider × IsTrusted net (find_provider net a m).1
find_provider-IsTrusted net a none h = (h, tt)
find_provider-IsTrusted net a (some m) h = keep_provider-IsTrusted net a m m.jwks_url refl h

discover_if-IsTrusted :
    (net : Internet) (a : Authenticator) (m : Option Metadata)
    → a.provider ≡ m
    → IsTrusted net m
    → IsTrusted net (discover_if net a m).0.provider
discover_if-IsTrusted net a (some m) q h = rw q h
discover_if-IsTrusted net a none q h = (find_provider-IsTrusted net a net.discovered (rw q h)).0

discover-IsTrusted :
    (net : Internet) (a : Authenticator)
    → IsTrusted net a.provider
    → IsTrusted net (discover net a).0.provider
unfolding discover
discover-IsTrusted net a h = discover_if-IsTrusted net a a.provider refl h

display_text_lem :
    (net : Internet) (value : Text) (limit : ℕ)
    → display_text net value limit ≡ take limit (net.drop_controls value)
unfolding display_text
display_text_lem net value limit = refl

AllSafe-append :
    (net : Internet) (urls more : List Text)
    → AllSafe net urls
    → AllSafe net more
    → AllSafe net (urls ++ more)
AllSafe-append net [] more h k = k
AllSafe-append net (url ∷ urls) more h k = (h.0, AllSafe-append net urls more h.1 k)

discovery-AllSafe :
    (net : Internet) (a : Authenticator) (m : Option Metadata)
    → IsSafe net a.issuer_url
    → AllSafe net (discovery net a m)
discovery-AllSafe net a (some m) h = tt
discovery-AllSafe net a none h = (h, tt)

accept-IsSafeLogin :
    (net : Internet) (token_url : Text) (r : Option DeviceResponse)
    → IsSafe net token_url
    → IsSafeLogin net (accept net token_url r)
accept-IsSafeLogin net token_url none t = tt
accept-IsSafeLogin net token_url (some r) t = ground (
  arith,
  validate_endpoint-IsSafe net r.verification_uri,
  validate_endpoint-IsSafe net r.verification_uri_complete,
  display_text_lem net r.user_code 128,
  display_text_lem net r.verification_uri 2048,
  display_text_lem net r.verification_uri_complete 2048,
)

-- What one start of a login leaves: the provider known, the URLs requested, and the login.
abbrev pub IsSafeStart : Internet → Authenticator × List Text × Option Login → Type 0
IsSafeStart net (a, urls, login) =
    IsTrusted net a.provider × AllSafe net urls × IsSafeLogin net login

begin_at-IsSafe :
    (net : Internet) (m : Option Metadata)
    → AllSafe net (begin_at net m).0 × IsSafeLogin net (begin_at net m).1
begin_at-IsSafe net none = (tt, tt)
begin_at-IsSafe net (some m) = ground (
  arith,
  validate_endpoint-IsSafe net m.device_auth_url,
  validate_endpoint-IsSafe net m.token_url,
  accept-IsSafeLogin net m.token_url (net.request_device_auth m.device_auth_url),
)

-- Where the issuer is a safe URL (absolute, without user information and fragment, by HTTPS or by HTTP
-- to this host), and the provider known so far, if any, has its keys at one, so has the provider known
-- after the start of a login; the discovery at the issuer, if the provider was not known, and the
-- device request go to safe URLs; and a login that is offered has a safe token endpoint, the URIs of
-- the response are safe, and what is shown is the code and the URIs without their control characters,
-- cut to 128 and 2048 bytes.
pub begin-IsSafeStart :
    (net : Internet) (a : Authenticator)
    → IsSafe net a.issuer_url
    → IsTrusted net a.provider
    → IsSafeStart net (begin net a)
unfolding begin
begin-IsSafeStart net a i h =
    let r = begin_at-IsSafe net (discover net a).1 in
    (
      discover-IsTrusted net a h,
      AllSafe-append net (discovery net a a.provider) _ (discovery-AllSafe net a a.provider i) r.0,
      r.1,
    )

-- An identity that the token endpoint led to.
abbrev pub IsVerified : Internet → Authenticator → Login → Option Identity → Type 0
IsVerified net a l none = Unit
IsVerified net a l (some i) =
    (raw : Text) × (c : Claims) × (value : Text) × (net.id_token l.token_url l.response.device_code
      ≡ some raw)
    × (net.verify raw ≡ some c)
    × (c.claim a.username_claim ≡ some value)
    × (i.subject ≡ c.subject)
    × (i.username ≡ to_lower (trim_space value))
    × (is_empty (trim_space value) ≡ false)

name_of-IsVerified :
    (net : Internet) (a : Authenticator) (l : Login) (raw : Text) (c : Claims) (v : Option Text)
    → net.id_token l.token_url l.response.device_code ≡ some raw
    → net.verify raw ≡ some c
    → c.claim a.username_claim ≡ v
    → IsVerified net a l (name_of net c v)
name_of-IsVerified net a l raw c none t q e = tt
name_of-IsVerified net a l raw c (some v) t q e = elim (Bool-cases (is_empty (trim_space v))) [
  | inl b ↦ rw b tt
  | inr b ↦ rw b (raw, c, v, t, q, e, refl, refl, b)
]

verified-IsVerified :
    (net : Internet) (a : Authenticator) (l : Login) (raw : Text) (c : Option Claims)
    → net.id_token l.token_url l.response.device_code ≡ some raw
    → net.verify raw ≡ c
    → IsVerified net a l (verified net a.username_claim c)
verified-IsVerified net a l raw none t q = tt
verified-IsVerified net a l raw (some c) t q =
    name_of-IsVerified net a l raw c (c.claim a.username_claim) t q refl

with_token-IsVerified :
    (net : Internet) (a : Authenticator) (l : Login) (raw : Option Text)
    → net.id_token l.token_url l.response.device_code ≡ raw
    → IsVerified net a l (with_token net a.username_claim raw)
with_token-IsVerified net a l none t = tt
with_token-IsVerified net a l (some raw) t = elim (Bool-cases (is_empty raw)) [
  | inl b ↦ rw b tt
  | inr b ↦ rw b (verified-IsVerified net a l raw (net.verify raw) t refl)
]

-- An identity comes only from an ID token that the login's token endpoint gave for its device code and
-- that was verified: its subject is the token's, and its name the configured claim, which is there and
-- not blank, without the white space around it and in lower case.
pub complete-IsVerified :
    (net : Internet) (a : Authenticator) (l : Login) → IsVerified net a l (complete net a l)
unfolding complete
complete-IsVerified net a l =
    with_token-IsVerified net a l (net.id_token l.token_url l.response.device_code) refl
