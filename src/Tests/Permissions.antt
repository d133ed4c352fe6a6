-- ===== src/Tests/Permissions.antt =====
-- internal/store/store.go: the theorems on access, forwarding and OIDC bindings, at the small gateway.
use sshgatew.Prelude.{
  ◌≡◌, refl, ◌&&◌, ◌||◌, [], ◌∷◌, true, false, some, any, find?, count, ◌==◌, if◌then◌else◌,
  ℕ_discrete,
}
use sshgatew.Prelude.Texts.{
  is_ascii, text_eq, text_discrete, codes, to_lower, lower_byte, is_upper, trim_space, trim_left,
  is_space, is_empty,
}
use sshgatew.Prelude.Lists.{all}
use sshgatew.Store.Users.{user_by_name, is_admin}
use sshgatew.Store.Targets.{target_by_name}
use sshgatew.Store.Grants.{
  set_grant_capabilities, column, user_granted, group_granted, can_access_capability, write_grant,
}
use sshgatew.Store.Forwards.{add_forward_rule, forward_allowed}
use sshgatew.Store.Oidc.{
  OidcValues, validate_oidc_value, match_oidc, normalize_oidc_values, authenticate_oidc,
}
use sshgatew.Store.Access.{can_access-set_grant, forward_allowed-add_forward_rule}
use sshgatew.Store.Access.GroupGrants.{has_from, can_access-set_group_grant}
use sshgatew.Store.Groups.{group_by_name}
use sshgatew.Store.Bindings.{bound, authenticate_oidc_sound, authenticate_oidc-bound}
use sshgatew.Store.Columns.{Capability}
use sshgatew.Store.{Db, Group, ok, after, capability_sftp}
use sshgatew.Tests.Data.{office, web, bob_user, all_capabilities}

abbrev wider : Db
wider =
    after office (
      set_grant_capabilities office (codes "web") (codes "user") (codes "BOB") true
        all_capabilities)

find_web : target_by_name office (codes "web") ≡ ok web
unfolding target_by_name text_discrete ℕ_discrete find?
find_web = refl

find_bob : user_by_name office (codes "BOB") ≡ ok bob_user
unfolding user_by_name text_discrete ℕ_discrete find? any to_lower lower_byte is_upper
find_bob = refl

widened :
    set_grant_capabilities office (codes "web") (codes "user") (codes "BOB") true all_capabilities
    ≡ ok wider
unfolding set_grant_capabilities target_by_name user_by_name text_discrete ℕ_discrete find? any
    to_lower lower_byte is_upper
widened = refl

bob_member : is_admin bob_user.role ≡ false
unfolding text_discrete ℕ_discrete
bob_member = refl

-- After the grant, the member may copy files by sftp.
can_access-set_grant_example : can_access_capability wider bob_user 1 capability_sftp ≡ (
    any (λ x. x.id == 1 && x.enabled) office.targets
    && ((if 2 == 2 && 1 == 1 then true && true else user_granted office (λ g. g.allow_sftp) 2 1)
        || group_granted office (λ g. g.allow_sftp) 2 1))
can_access-set_grant_example =
    can_access-set_grant office (codes "web") (codes "BOB") true all_capabilities wider web bob_user
      find_web find_bob widened bob_user 1 Capability.sftp refl bob_member

abbrev ops : Group
ops = record { id = 1; name = codes "ops" }

-- Bob is in the group `ops`.
abbrev team : Db
team = record office { groups = ops ∷ []; members = record { group_id = 1; user_id = 2 } ∷ [] }

abbrev team_wider : Db
team_wider =
    after team (
      set_grant_capabilities team (codes "web") (codes "group") (codes "OPS") true all_capabilities)

find_web_again : target_by_name team (codes "web") ≡ ok web
unfolding target_by_name text_discrete ℕ_discrete find?
find_web_again = refl

find_ops : group_by_name team (codes "OPS") ≡ ok ops
unfolding text_discrete ℕ_discrete find? to_lower lower_byte is_upper
find_ops = refl

team_widened :
    set_grant_capabilities team (codes "web") (codes "group") (codes "OPS") true all_capabilities
    ≡ ok team_wider
unfolding set_grant_capabilities target_by_name text_discrete ℕ_discrete find? any to_lower
    lower_byte is_upper
team_widened = refl

-- After the grant to the group, its member may copy files by sftp.
can_access-set_group_grant_example : can_access_capability team_wider bob_user 1 capability_sftp ≡ (
    any (λ x. x.id == 1 && x.enabled) team.targets
    && (is_admin bob_user.role
        || user_granted team (λ g. g.allow_sftp) 2 1
        || any
            (λ m.
              m.user_id == 2
              && (if m.group_id == 1 && 1 == 1
                  then true && true
                  else has_from team.group_grants (λ g. g.allow_sftp) m.group_id 1))
            team.members))
can_access-set_group_grant_example =
    can_access-set_group_grant team (codes "web") (codes "OPS") true all_capabilities team_wider web
      ops find_web_again find_ops team_widened bob_user 1 Capability.sftp refl

team_member_copies : can_access_capability team_wider bob_user 1 capability_sftp ≡ true
unfolding can_access_capability set_grant_capabilities target_by_name column text_discrete
    ℕ_discrete find? any to_lower lower_byte is_upper write_grant count
team_member_copies = refl

abbrev open_mail : Db
open_mail = after office (add_forward_rule office (codes "web") (codes " Mail ") 25)

mail_opened : add_forward_rule office (codes "web") (codes " Mail ") 25 ≡ ok open_mail
unfolding add_forward_rule target_by_name text_discrete ℕ_discrete find? any trim_space trim_left
    is_space is_empty
mail_opened = refl

ascii_mail : all is_ascii (codes " Mail ") ≡ true
unfolding all
ascii_mail = refl

ascii_capitals : all is_ascii (codes "MAIL") ≡ true
unfolding all
ascii_capitals = refl

forward_allowed-add_forward_rule_example : forward_allowed open_mail 1 (codes "MAIL") 25 ≡ (
    forward_allowed office 1 (codes "MAIL") 25
    || (1 == 1
        && text_eq (to_lower (trim_space (codes "MAIL"))) (to_lower (trim_space (codes " Mail ")))
        && 25 == 25))
forward_allowed-add_forward_rule_example =
    forward_allowed-add_forward_rule office (codes "web") (codes " Mail ") 25 open_mail web find_web
      mail_opened ascii_mail 1 (codes "MAIL") 25 ascii_capitals

abbrev bob_bound : Db
bob_bound = record office {
  oidc =
      record {
        id = 1;
        user_id = 2;
        issuer = codes "https://id";
        subject = some (codes "sub-b");
        provider_username = codes "bob@corp";
      }
      ∷ [];
}

abbrev bob_values : OidcValues
bob_values = record {
  issuer = codes "https://id";
  subject = codes "sub-b";
  provider_username = codes "bob@corp";
}

bob_normal :
    normalize_oidc_values (codes "https://id") (codes "sub-b") (codes "Bob@corp") ≡ ok bob_values
unfolding normalize_oidc_values validate_oidc_value trim_space trim_left is_space all to_lower
    lower_byte is_upper is_empty
bob_normal = refl

bob_binds :
    authenticate_oidc office (codes "bob") (codes "https://id") (codes "sub-b") (codes "Bob@corp")
    ≡ ok (bob_user, bob_bound)
unfolding authenticate_oidc match_oidc normalize_oidc_values validate_oidc_value trim_space
    trim_left is_space all to_lower lower_byte is_upper is_empty find? any text_discrete ℕ_discrete
bob_binds = refl

bob_returns :
    authenticate_oidc bob_bound
      (codes "bob")
      (codes "https://id")
      (codes "sub-b")
      (codes "Bob@corp")
    ≡ ok (bob_user, bob_bound)
unfolding authenticate_oidc match_oidc normalize_oidc_values validate_oidc_value trim_space
    trim_left is_space all to_lower lower_byte is_upper is_empty find? any text_discrete ℕ_discrete
bob_returns = refl

-- The first login binds the subject.
authenticate_oidc_sound_example :
    (bob_user.enabled ≡ true)
    × (bob_user.username ≡ to_lower (trim_space (codes "bob")))
    × (bound bob_bound (codes "https://id") (codes "sub-b") ≡ some 2)
authenticate_oidc_sound_example =
    authenticate_oidc_sound office (codes "bob") (codes "https://id") (codes "sub-b")
      (codes "Bob@corp") bob_user bob_bound bob_binds bob_values bob_normal

bob_is_bound : bound bob_bound (codes "https://id") (codes "sub-b") ≡ some 2
unfolding bound find? text_discrete ℕ_discrete
bob_is_bound = refl

-- The next login leaves it.
authenticate_oidc-bound_example : bound bob_bound (codes "https://id") (codes "sub-b") ≡ some 2
authenticate_oidc-bound_example =
    authenticate_oidc-bound bob_bound (codes "bob") (codes "https://id") (codes "sub-b")
      (codes "Bob@corp") bob_user bob_bound bob_returns (codes "https://id") (codes "sub-b") 2
      bob_is_bound
