-- ===== src/Tests/Settings.antt =====
-- internal/config/config.go and the listings of internal/store/store.go: the theorems applied.
use sshgatew.Prelude.Lists.{all}
use sshgatew.Prelude.{
  arith, find?, count, ◌+◌, Bool, ℕ, ◌≡◌, refl, true, false, List, [], ◌∷◌, none, some, any, filter,
  map, ◌&&◌, ◌==◌, ℕ_discrete,
}
use sshgatew.Prelude.Order.{IsOrdered, order_by, insert, keys_le, text_le}
use sshgatew.Prelude.Texts.{Text, codes, text_discrete, is_empty, trim_space, trim_left, is_space}
use sshgatew.Config.{
  Config, Library, openid_missing, default, validate_config, validate_oidc, check_scopes, fields,
  pieces,
}
use sshgatew.Config.Valid.{IsAscii, IsValid, validate_config_lem}
use sshgatew.Store.Grants.{can_access_capability}
use sshgatew.Store.Lists.{target_key, list_users, list_authorized_targets}
use sshgatew.Store.Lists.{Grant, grant_key, list_grants, joined}
use sshgatew.Store.Lists.Shown.{user_line, group_line, list_grants_lem}
use sshgatew.Store.{Db, GrantRow}
use sshgatew.Store.Lists.Listings.{list_authorized_targets_lem}
use sshgatew.Tests.Data.{office, alice, bob, bob_user}

-- A library that knows one URL.
abbrev library : Library
library = record {
  has_host_port = λ s. true;
  parse_url = λ s. some (record {
    scheme = codes "https";
    host = codes "id";
    hostname = codes "id";
    raw_query = [];
    fragment = [];
  });
  is_loopback_ip = λ s. false;
  parse_bool = λ s. some true;
  parse_duration = λ s. none;
}

abbrev with_oidc : List Text → Config
with_oidc scopes = record default {
  oidc = record default.oidc {
    enabled = true;
    issuer_url = codes "https://id";
    client_id = codes "gateway";
    scopes = scopes;
  };
}

valid_oidc : validate_config library (with_oidc (codes "email" ∷ codes "openid" ∷ [])) ≡ none
unfolding validate_config validate_oidc check_scopes fields pieces default text_discrete ℕ_discrete
    is_empty trim_space trim_left is_space filter
valid_oidc = refl

without_openid : validate_config library (with_oidc (codes "email" ∷ [])) ≡ some openid_missing
unfolding validate_config validate_oidc check_scopes fields pieces default text_discrete ℕ_discrete
    is_empty trim_space trim_left is_space filter
without_openid = refl

with_oidc-IsAscii : IsAscii library (with_oidc (codes "email" ∷ codes "openid" ∷ [])).oidc
unfolding all default
with_oidc-IsAscii = record { claim = refl; scopes = refl; hostname = λ u e. ground (arith, e) }

validate_config_lem_example :
    (validate_config library (with_oidc (codes "email" ∷ codes "openid" ∷ [])) ≡ none
      → IsValid library (with_oidc (codes "email" ∷ codes "openid" ∷ [])))
    × (IsValid library (with_oidc (codes "email" ∷ codes "openid" ∷ []))
        → validate_config library (with_oidc (codes "email" ∷ codes "openid" ∷ [])) ≡ none)
validate_config_lem_example =
    validate_config_lem library (with_oidc (codes "email" ∷ codes "openid" ∷ [])) with_oidc-IsAscii

list_authorized_targets_lem_example :
    IsOrdered target_key (list_authorized_targets office bob_user)
    × ((tid : ℕ) (capability : Text)
        → can_access_capability office bob_user tid capability ≡ true
        → any (λ x. x.id == tid && x.enabled) (list_authorized_targets office bob_user) ≡ true)
list_authorized_targets_lem_example = list_authorized_targets_lem office bob_user

-- The users in the order of their names, from rows in another order.
users_test : map (λ u. u.id) (list_users (record office { users = bob ∷ alice ∷ [] })) ≡ 1 ∷ 2 ∷ []
unfolding list_users order_by insert keys_le text_le any text_discrete ℕ_discrete
users_test = refl

abbrev ops_grant : GrantRow
ops_grant = record {
  principal_id = 1;
  target_id = 1;
  allow_shell = false;
  allow_sftp = true;
  allow_scp = false;
  allow_tcp_forward = false;
}

-- A grant to the group `ops` beside the one to Bob.
abbrev two_grants : Db
two_grants = record office {
  groups = record { id = 1; name = codes "ops" } ∷ [];
  group_grants = ops_grant ∷ [];
}

list_grants_lem_example :
    IsOrdered grant_key (list_grants two_grants)
    × ((p : Grant → Bool)
        → count p (list_grants two_grants)
          ≡ count (user_line two_grants p) two_grants.user_grants
            + count (group_line two_grants p) two_grants.group_grants)
list_grants_lem_example = list_grants_lem two_grants

two_grants_test : map (λ g. g.principal) (list_grants two_grants) ≡ codes "ops" ∷ codes "bob" ∷ []
unfolding list_grants order_by insert keys_le text_le any text_discrete ℕ_discrete joined find?
two_grants_test = refl
