-- ===== src/Store/Targets.antt =====
-- internal/store/store.go: the downstream targets.
use sshgatew.Prelude.{
  ℕ, Bool, true, false, not, ◌&&◌, ◌||◌, [], ◌∷◌, Option, none, some, any, find?, delete, update,
  next_id, leb, ◌==◌, if◌then◌else◌,
}
use sshgatew.Prelude.Texts.{Text, text_eq, trim_space, is_empty}
use sshgatew.Store.{
  Target, AuditEvent, Db, Result, ok, err, ◌>>◌, guard, scan, changed, unique_violation,
  foreign_key_violation, target_fields_missing, bad_port, bad_credential_kind, host_key_missing,
  identity_missing, use_set_identity, bad_target_fields, credential_password,
  credential_private_key, credential_agent, credential_stored_key, no_rows,
}

pub record NewTarget : Type 0 where
  pub name : Text
  pub host : Text
  pub port : ℕ
  pub remote_username : Text
  pub credential_kind : Text
  pub host_key_algorithm : Text
  pub host_public_key : Text
  pub identity_id : Option ℕ

unfoldable pub valid_credential_kind : Text → Bool
valid_credential_kind kind =
    text_eq kind credential_password
    || text_eq kind credential_private_key
    || text_eq kind credential_agent
    || text_eq kind credential_stored_key

abbrev pub is_blank : Text → Bool
is_blank s = is_empty (trim_space s)

abbrev pub is_none {ℓ} : {A : Type ℓ} → Option A → Bool
is_none none = true
is_none (some a) = false

-- `identity_id INTEGER REFERENCES ssh_identities(id)`
abbrev pub identity_exists : Db → Option ℕ → Bool
identity_exists db none = true
identity_exists db (some id) = any (λ i. i.id == id) db.identities

abbrev pub new_target : Db → NewTarget → Target
new_target db n = record {
  id = next_id (λ (t : Target). t.id) db.targets;
  name = n.name;
  host = n.host;
  port = n.port;
  remote_username = n.remote_username;
  credential_kind = n.credential_kind;
  enabled = true;
  host_key_algorithm = n.host_key_algorithm;
  host_public_key = n.host_public_key;
  nonce = [];
  ciphertext = [];
  identity_id = n.identity_id;
}

unfoldable pub add_target : Db → NewTarget → Result Db
add_target db n = do
  guard (not (is_blank n.name || is_blank n.host || is_blank n.remote_username))
      target_fields_missing
  guard (leb 1 n.port && leb n.port 65535) bad_port
  guard (valid_credential_kind n.credential_kind) bad_credential_kind
  guard (not (is_empty n.host_key_algorithm || is_empty n.host_public_key)) host_key_missing
  guard (not (text_eq n.credential_kind credential_stored_key && is_none n.identity_id))
      identity_missing
  guard (not (any (λ t. text_eq t.name n.name) db.targets)) unique_violation
  guard (identity_exists db n.identity_id) foreign_key_violation
  ok (record db { targets = new_target db n ∷ db.targets })

unfoldable pub target_by_id : Db → ℕ → Result Target
target_by_id db id = scan (find? (λ t. t.id == id) db.targets)

unfoldable pub target_by_name : Db → Text → Result Target
target_by_name db name = scan (find? (λ t. text_eq t.name name) db.targets)

-- `UPDATE targets SET … WHERE p`
abbrev pub update_targets : Db → (Target → Bool) → (Target → Target) → Result Db
update_targets db p f = changed p db.targets (record db { targets = update p f db.targets })

unfoldable pub set_target_enabled : Db → Text → Bool → Result Db
set_target_enabled db name enabled =
    update_targets db (λ t. text_eq t.name name) (λ t. record t { enabled = enabled })

-- ON DELETE SET NULL of `audit_events.target_id`.
abbrev forget_target : ℕ → AuditEvent → AuditEvent
forget_target id e = record e {
  target_id = elim e.target_id [ none ↦ none | some a ↦ if a == id then none else some a ];
}

-- The grants and the forwarding rules of the target go with it.
abbrev pub drop_target : Db → Target → Db
drop_target db t = record db {
  targets = delete (λ v. text_eq v.name t.name) db.targets;
  user_grants = delete (λ g. g.target_id == t.id) db.user_grants;
  group_grants = delete (λ g. g.target_id == t.id) db.group_grants;
  forward_rules = delete (λ r. r.target_id == t.id) db.forward_rules;
  audit_events = update (λ e. true) (forget_target t.id) db.audit_events;
}

unfoldable pub delete_target : Db → Text → Result Db
delete_target db name = elim (find? (λ t. text_eq t.name name) db.targets) [
  | none ↦ err no_rows
  | some t ↦ ok (drop_target db t)
]

unfoldable pub set_target_credential : Db → ℕ → Text → Text → Result Db
set_target_credential db id nonce ciphertext =
    update_targets db (λ t. t.id == id)
      (λ t. record t { nonce = nonce; ciphertext = ciphertext; identity_id = none })

unfoldable pub set_target_credential_kind : Db → ℕ → Text → Text → Text → Result Db
set_target_credential_kind db id kind nonce ciphertext = do
  guard (valid_credential_kind kind) bad_credential_kind
  guard (not (text_eq kind credential_stored_key)) use_set_identity
  update_targets db (λ t. t.id == id)
      (λ t. record t {
        credential_kind = kind;
        nonce = nonce;
        ciphertext = ciphertext;
        identity_id = none;
      })

unfoldable pub set_target_identity : Db → ℕ → ℕ → Result Db
set_target_identity db target_id identity_id = do
  guard (not (any (λ t. t.id == target_id) db.targets) || identity_exists db (some identity_id))
      foreign_key_violation
  update_targets db (λ t. t.id == target_id)
      (λ t. record t {
        credential_kind = credential_stored_key;
        nonce = [];
        ciphertext = [];
        identity_id = some identity_id;
      })

unfoldable pub set_target_host_key : Db → Text → Text → Text → Result Db
set_target_host_key db name algorithm public_key =
    update_targets db (λ t. text_eq t.name name)
      (λ t. record t { host_key_algorithm = algorithm; host_public_key = public_key })

unfoldable pub update_target : Db → Text → Text → ℕ → Text → Result Db
update_target db name host port remote_user = do
  guard (not (is_empty host || is_empty remote_user) && leb 1 port && leb port 65535)
      bad_target_fields
  update_targets db (λ t. text_eq t.name name)
      (λ t. record t { host = host; port = port; remote_username = remote_user })
