-- ===== src/Tests/Devices.antt =====
-- internal/oidcdevice: a login at a small provider.
use sshgatew.Prelude.{refl, inl, false, [], some}
use sshgatew.Prelude.Texts.{codes, is_empty}
use sshgatew.OidcDevice
use sshgatew.OidcDevice.{Internet, Authenticator, Login, Url, begin, complete}
use sshgatew.OidcDevice.Endpoints.{
  IsSafe, IsSafeStart, IsVerified, begin-IsSafeStart, complete-IsVerified,
}

abbrev url : Url
url = record {
  scheme = codes "https";
  host = codes "id:443";
  hostname = codes "id";
  has_user = false;
  fragment = [];
}

abbrev net : Internet
net = record {
  discovered = some (record {
    device_auth_url = codes "https://id/device";
    token_url = codes "https://id/token";
    jwks_url = some (codes "https://id/keys");
  });
  request_device_auth = λ u. some (record {
    device_code = codes "d";
    user_code = codes "AB-CD";
    verification_uri = codes "https://id/visit";
    verification_uri_complete = [];
  });
  id_token = λ u d. some (codes "raw");
  verify = λ r. some (record { subject = codes "s"; claim = λ n. some (codes " Bob ") });
  parse_url = λ s. some url;
  is_loopback_ip = λ s. false;
  drop_controls = λ s. s;
}

abbrev authenticator : Authenticator
authenticator = OidcDevice.new (codes "https://id") (codes "preferred_username")

abbrev login : Login
login = record {
  user_code = codes "AB-CD";
  verification_uri = codes "https://id/visit";
  verification_uri_complete = [];
  response = record {
    device_code = codes "d";
    user_code = codes "AB-CD";
    verification_uri = codes "https://id/visit";
    verification_uri_complete = [];
  };
  token_url = codes "https://id/token";
}

issuer-IsSafe : IsSafe net authenticator.issuer_url
unfolding is_empty
issuer-IsSafe = (url, refl, refl, refl, refl, inl refl)

begin-IsSafeStart_example : IsSafeStart net (begin net authenticator)
begin-IsSafeStart_example = begin-IsSafeStart net authenticator issuer-IsSafe tt

complete-IsVerified_example : IsVerified net authenticator login (complete net authenticator login)
complete-IsVerified_example = complete-IsVerified net authenticator login
