-- ===== src/Store.antt =====
-- internal/store/models.go and the tables of internal/store/store.go: the records that the store
-- returns, the rows that the SQL statements read and write, and the errors of the whole gateway.
-- A table is the list of its rows, newest first; time stamps are left out. A statement that fails
-- changes nothing, so a fallible operation returns the new database or an error.
pub mod Names
pub mod Users
pub mod Keys
pub mod Totps
pub mod Groups
pub mod Identities
pub mod Targets
pub mod Grants
pub mod Forwards
pub mod Oidc
pub mod Audit
pub mod Lists
pub mod Operations
pub mod Effects
pub mod WellFormed
pub mod Admin
pub mod Run
pub mod Replay
pub mod Columns
pub mod Access
pub mod Bindings
use sshgatew.Prelude.{
  ℕ, ◌≡◌, refl, ◌⊎◌, inl, inr, Bool, true, false, List, Option, any, if◌then◌else◌,
}
use sshgatew.Prelude.Int.{ℤ}
use sshgatew.Prelude.Texts.{Text, codes, text_eq}

abbrev pub role_admin : Text
role_admin = codes "admin"

abbrev pub role_member : Text
role_member = codes "member"

abbrev pub credential_password : Text
credential_password = codes "password"

abbrev pub credential_private_key : Text
credential_private_key = codes "private_key"

abbrev pub credential_agent : Text
credential_agent = codes "forwarded_agent"

abbrev pub credential_stored_key : Text
credential_stored_key = codes "stored_key"

abbrev pub capability_shell : Text
capability_shell = codes "shell"

abbrev pub capability_sftp : Text
capability_sftp = codes "sftp"

abbrev pub capability_scp : Text
capability_scp = codes "scp"

abbrev pub capability_forward : Text
capability_forward = codes "tcp_forward"

-- A row of `users`.
pub record UserRow : Type 0 where
  pub id : ℕ
  pub username : Text
  pub role : Text
  pub enabled : Bool

-- `User`, as the queries return it.
pub record User : Type 0 where
  pub id : ℕ
  pub username : Text
  pub role : Text
  pub enabled : Bool
  pub totp_enabled : Bool

pub record GatewayKey : Type 0 where
  pub id : ℕ
  pub user_id : ℕ
  pub fingerprint : Text
  pub public_key : Text
  pub label : Text

pub record TotpConfig : Type 0 where
  pub user_id : ℕ
  pub nonce : Text
  pub ciphertext : Text
  pub last_counter : ℤ

-- A row of `oidc_identities`; `none` is the SQL NULL of a mapping that no login has bound yet.
pub record OidcRow : Type 0 where
  pub id : ℕ
  pub user_id : ℕ
  pub issuer : Text
  pub subject : Option Text
  pub provider_username : Text

pub record Group : Type 0 where
  pub id : ℕ
  pub name : Text

pub record MemberRow : Type 0 where
  pub group_id : ℕ
  pub user_id : ℕ

pub record Target : Type 0 where
  pub id : ℕ
  pub name : Text
  pub host : Text
  pub port : ℕ
  pub remote_username : Text
  pub credential_kind : Text
  pub enabled : Bool
  pub host_key_algorithm : Text
  pub host_public_key : Text
  pub nonce : Text
  pub ciphertext : Text
  pub identity_id : Option ℕ

pub record SshIdentity : Type 0 where
  pub id : ℕ
  pub name : Text
  pub public_key : Text
  pub fingerprint : Text
  pub nonce : Text
  pub ciphertext : Text

-- A row of `user_target_grants` or of `group_target_grants`.
pub record GrantRow : Type 0 where
  pub principal_id : ℕ
  pub target_id : ℕ
  pub allow_shell : Bool
  pub allow_sftp : Bool
  pub allow_scp : Bool
  pub allow_tcp_forward : Bool

pub record ForwardRow : Type 0 where
  pub id : ℕ
  pub target_id : ℕ
  pub host : Text
  pub port : ℕ

pub record AuditEvent : Type 0 where
  pub id : ℕ
  pub actor_user_id : Option ℕ
  pub claimed_username : Text
  pub source_address : Text
  pub event_type : Text
  pub target_id : Option ℕ
  pub outcome : Text
  pub details : Text

pub record Db : Type 0 where
  pub users : List UserRow
  pub keys : List GatewayKey
  pub totps : List TotpConfig
  pub oidc : List OidcRow
  pub groups : List Group
  pub members : List MemberRow
  pub targets : List Target
  pub identities : List SshIdentity
  pub user_grants : List GrantRow
  pub group_grants : List GrantRow
  pub forward_rules : List ForwardRow
  pub audit_events : List AuditEvent

pub data Error : Type 0 where
  no_rows unique_violation foreign_key_violation check_violation : Error
  bad_name bad_role final_admin key_assigned totp_secret_missing totp_used : Error
  oidc_value_length oidc_value_control oidc_mapped_to_other oidc_not_mapped oidc_wrong_user : Error
  identity_fields_missing identity_in_use : Error
  target_fields_missing bad_port bad_credential_kind host_key_missing identity_missing : Error
  use_set_identity bad_target_fields bad_principal_kind bad_destination bad_details : Error
  encryption_failed authentication_failed corrupt_payload bad_payload_version empty_totp : Error
  bad_routed_username bad_gateway_username permission_denied totp_required totp_invalid : Error
  oidc_unavailable oidc_cancelled oidc_unverified oidc_not_linked : Error
  session_limit target_unavailable protocol_denied pty_required identity_reference_missing : Error
  agent_unavailable dial_failed proxy_failed route_required forwarding_denied : Error
  destination_denied stored_credential_required bad_forward_request channel_failed : Error

pub data Result {ℓ} (A : Type ℓ) : Type ℓ where
  ok : A → Result A
  err : Error → Result A

-- `if !test { return err }`
abbrev pub guard : Bool → Error → Result (Unit {0})
guard false failure = err failure
guard true failure = ok tt

-- The next step of a method, unless `err != nil` returned from it.
infixl 5 ◌>>=◌
abbrev pub ◌>>=◌ {ℓ κ} : {A : Type ℓ} {B : Type κ} → Result A → (A → Result B) → Result B
err failure >>= step = err failure
ok value >>= step = step value

infixl 5 ◌>>◌
abbrev pub ◌>>◌ {κ} : {B : Type κ} → Result (Unit {0}) → Result B → Result B
check >> rest = check >>= λ _. rest

-- `Row.Scan`: no row is `sql.ErrNoRows`.
abbrev pub scan {ℓ} : {A : Type ℓ} → Option A → Result A
scan Option.none = err no_rows
scan (Option.some a) = ok a

-- `changed`: an UPDATE or a DELETE that met no row is `sql.ErrNoRows`.
abbrev pub changed {ℓ} : {A : Type ℓ} → (A → Bool) → List A → Db → Result Db
changed p rows db = if any p rows then ok db else err no_rows

-- The database after an operation: an error leaves it as it was.
abbrev pub after : Db → Result Db → Db
after db (ok db') = db'
after db (err e) = db

pub Result-cases {ℓ} :
    {A : Type ℓ} (r : Result A) → ((a : A) × (r ≡ ok a)) ⊎ ((e : Error) × (r ≡ err e))
Result-cases (ok a) = inl (a, refl)
Result-cases (err e) = inr (e, refl)
