-- ===== src/Store/Lists.antt =====
-- internal/store/store.go: the queries that list rows, each with its ORDER BY.
pub mod Listings
pub mod Shown
use sshgatew.Prelude.{
  ℕ, Bool, true, false, ◌&&◌, List, [], ◌∷◌, ◌++◌, map, Option, none, some, find?, filter, ◌==◌,
  if◌then◌else◌,
}
use sshgatew.Prelude.Order.{order_by}
use sshgatew.Prelude.Texts.{Text, codes, text_eq}
use sshgatew.Store.Users.{to_user, user_by_name}
use sshgatew.Store.Grants.{authorized_targets}
use sshgatew.Store.{
  User, UserRow, GatewayKey, Group, MemberRow, Target, SshIdentity, GrantRow, ForwardRow, OidcRow,
  Db, Result, ok, err, ◌>>=◌, scan,
}

-- The rows of a JOIN: those for which the other tables have a row.
unfoldable pub joined : {A B : Type 0} → (A → Option B) → List A → List B
joined f [] = []
joined f (x ∷ xs) = let rest = joined f xs in elim (f x) [ none ↦ rest | some y ↦ y ∷ rest ]

abbrev pub user_key : User → List Text
user_key u = u.username ∷ []

unfoldable pub list_users : Db → List User
list_users db = order_by user_key (map (to_user db) db.users)

abbrev pub key_key : GatewayKey → List Text
key_key k = (k.id ∷ []) ∷ []

abbrev pub keys_of : Db → ℕ → List GatewayKey
keys_of db id = filter (λ k. k.user_id == id) db.keys

unfoldable pub list_gateway_keys : Db → Text → Result (List GatewayKey)
list_gateway_keys db username =
    user_by_name db username >>= λ u. ok (order_by key_key (keys_of db u.id))

abbrev pub group_key : Group → List Text
group_key g = g.name ∷ []

unfoldable pub list_groups : Db → List Group
list_groups db = order_by group_key db.groups

pub record GroupMember : Type 0 where
  pub group : Text
  pub username : Text

abbrev pub group_named : Db → ℕ → Option Group
group_named db id = find? (λ g. g.id == id) db.groups

abbrev pub user_of : Db → ℕ → Option UserRow
user_of db id = find? (λ u. u.id == id) db.users

abbrev pub target_of : Db → ℕ → Option Target
target_of db id = find? (λ t. t.id == id) db.targets

abbrev pub member_row : Db → MemberRow → Option GroupMember
member_row db m = elim (group_named db m.group_id) [
  | none ↦ none
  | some g ↦ elim (user_of db m.user_id) [
    | none ↦ none
    | some u ↦ some (record { group = g.name; username = u.username })
  ]
]

abbrev pub member_key : GroupMember → List Text
member_key m = m.group ∷ m.username ∷ []

unfoldable pub list_group_members : Db → List GroupMember
list_group_members db = order_by member_key (joined (member_row db) db.members)

abbrev pub identity_key : SshIdentity → List Text
identity_key i = i.name ∷ []

unfoldable pub list_ssh_identities : Db → List SshIdentity
list_ssh_identities db = order_by identity_key db.identities

abbrev pub target_key : Target → List Text
target_key t = t.name ∷ []

unfoldable pub list_targets : Db → List Target
list_targets db = order_by target_key db.targets

unfoldable pub list_authorized_targets : Db → User → List Target
list_authorized_targets db u = order_by target_key (authorized_targets db u)

pub record Grant : Type 0 where
  pub target : Text
  pub kind : Text
  pub principal : Text
  pub shell : Bool
  pub sftp : Bool
  pub scp : Bool
  pub tcp_forward : Bool

abbrev pub grant_of : Text → Text → Text → GrantRow → Grant
grant_of target kind principal g = record {
  target = target;
  kind = kind;
  principal = principal;
  shell = g.allow_shell;
  sftp = g.allow_sftp;
  scp = g.allow_scp;
  tcp_forward = g.allow_tcp_forward;
}

abbrev pub user_grant_row : Db → GrantRow → Option Grant
user_grant_row db g = elim (user_of db g.principal_id) [
  | none ↦ none
  | some u ↦ elim (target_of db g.target_id) [
    | none ↦ none
    | some t ↦ some (grant_of t.name (codes "user") u.username g)
  ]
]

abbrev pub group_grant_row : Db → GrantRow → Option Grant
group_grant_row db g = elim (group_named db g.principal_id) [
  | none ↦ none
  | some p ↦ elim (target_of db g.target_id) [
    | none ↦ none
    | some t ↦ some (grant_of t.name (codes "group") p.name g)
  ]
]

abbrev pub grant_rows : Db → List Grant
grant_rows db =
    joined (user_grant_row db) db.user_grants ++ joined (group_grant_row db) db.group_grants

abbrev pub grant_key : Grant → List Text
grant_key g = g.target ∷ g.kind ∷ g.principal ∷ []

unfoldable pub list_grants : Db → List Grant
list_grants db = order_by grant_key (grant_rows db)

-- A rule with the name of its target.
abbrev pub rule_row : Db → ForwardRow → Option (Text × ForwardRow)
rule_row db r = elim (target_of db r.target_id) [ none ↦ none | some t ↦ some (t.name, r) ]

abbrev pub rule_key : Text × ForwardRow → List Text
rule_key (name, r) = name ∷ r.host ∷ (r.port ∷ []) ∷ []

unfoldable pub list_forward_rules : Db → List (Text × ForwardRow)
list_forward_rules db = order_by rule_key (joined (rule_row db) db.forward_rules)

-- An identity with the name of its user; the subject of an unbound one is empty.
pub record OidcIdentity : Type 0 where
  pub id : ℕ
  pub user_id : ℕ
  pub username : Text
  pub issuer : Text
  pub subject : Text
  pub provider_username : Text

abbrev pub subject_text : Option Text → Text
subject_text none = []
subject_text (some s) = s

unfoldable pub scan_oidc_identity : Db → OidcRow → Option OidcIdentity
scan_oidc_identity db r = elim (user_of db r.user_id) [
  | none ↦ none
  | some u ↦ some (record {
    id = r.id;
    user_id = r.user_id;
    username = u.username;
    issuer = r.issuer;
    subject = subject_text r.subject;
    provider_username = r.provider_username;
  })
]

abbrev first : {A : Type 0} → List A → Option A
first [] = none
first (x ∷ xs) = some x

unfoldable pub oidc_identity_for_user : Db → ℕ → Text → Result OidcIdentity
oidc_identity_for_user db user_id issuer = scan (
    first (
      joined (scan_oidc_identity db)
        (filter (λ r. r.user_id == user_id && text_eq r.issuer issuer) db.oidc)))

abbrev pub oidc_key : OidcIdentity → List Text
oidc_key o = o.username ∷ []

abbrev pub oidc_rows : Db → Text → List OidcIdentity
oidc_rows db issuer = joined (scan_oidc_identity db) (filter (λ r. text_eq r.issuer issuer) db.oidc)

unfoldable pub list_oidc_identities : Db → Text → List OidcIdentity
list_oidc_identities db issuer = order_by oidc_key (oidc_rows db issuer)
