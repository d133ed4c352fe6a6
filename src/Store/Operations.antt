-- ===== src/Store/Operations.antt =====
-- internal/store/store.go: every operation that writes to the store, as data, and its effect. An
-- operation that fails leaves the database as it was.
use sshgatew.Prelude.{ℕ, Bool, List, [], ◌∷◌}
use sshgatew.Prelude.Int.{ℤ}
use sshgatew.Prelude.Texts.{Text}
use sshgatew.Store.Users
use sshgatew.Store.Keys
use sshgatew.Store.Totps
use sshgatew.Store.Groups
use sshgatew.Store.Identities
use sshgatew.Store.Targets
use sshgatew.Store.Targets.{NewTarget}
use sshgatew.Store.Grants
use sshgatew.Store.Grants.{Capabilities}
use sshgatew.Store.Forwards
use sshgatew.Store.Oidc
use sshgatew.Store.Audit
use sshgatew.Store.{User, Db, AuditEvent, Result, ok, err, after}

pub data Operation : Type 0 where
  add_user : (username role : Text) → Operation
  set_user_enabled : (name : Text) (enabled : Bool) → Operation
  set_user_role : (name role : Text) → Operation
  delete_user : (name : Text) → Operation
  add_gateway_key : (username fingerprint public_key label : Text) → Operation
  remove_gateway_key : (username fingerprint : Text) → Operation
  set_user_totp : (user_id : ℕ) (nonce ciphertext : Text) → Operation
  remove_user_totp : (user_id : ℕ) → Operation
  consume_totp_counter : (user_id : ℕ) (counter : ℤ) → Operation
  add_group : (name : Text) → Operation
  delete_group : (name : Text) → Operation
  set_group_member : (group username : Text) (add : Bool) → Operation
  add_ssh_identity : (name public_key fingerprint : Text) → Operation
  set_ssh_identity_secret : (id : ℕ) (nonce ciphertext : Text) → Operation
  delete_ssh_identity : (name : Text) → Operation
  add_target : NewTarget → Operation
  set_target_enabled : (name : Text) (enabled : Bool) → Operation
  delete_target : (name : Text) → Operation
  set_target_credential : (id : ℕ) (nonce ciphertext : Text) → Operation
  set_target_credential_kind : (id : ℕ) (kind nonce ciphertext : Text) → Operation
  set_target_identity : (target_id identity_id : ℕ) → Operation
  set_target_host_key : (name algorithm public_key : Text) → Operation
  update_target : (name host : Text) (port : ℕ) (remote_user : Text) → Operation
  set_grant_capabilities : (target kind principal : Text) (add : Bool) → Capabilities → Operation
  add_forward_rule : (target host : Text) (port : ℕ) → Operation
  delete_forward_rule : (id : ℕ) → Operation
  set_oidc_username_mapping : (user_id : ℕ) (issuer provider_username : Text) → Operation
  link_oidc_identity : (user_id : ℕ) (issuer subject provider_username : Text) → Operation
  authenticate_oidc : (claimed issuer subject provider_username : Text) → Operation
  remove_oidc_identity : (user_id : ℕ) (issuer : Text) → Operation
  audit : (is_object : Text → Bool) → AuditEvent → Operation

-- The database of a login that may have written its binding.
abbrev pub written : Result (User × Db) → Result Db
written (ok (u, db)) = ok db
written (err e) = err e

abbrev pub apply : Db → Operation → Result Db
apply db (add_user u r) = Users.add_user db u r
apply db (set_user_enabled n e) = Users.set_user_enabled db n e
apply db (set_user_role n r) = Users.set_user_role db n r
apply db (delete_user n) = Users.delete_user db n
apply db (add_gateway_key u f k l) = Keys.add_gateway_key db u f k l
apply db (remove_gateway_key u f) = Keys.remove_gateway_key db u f
apply db (set_user_totp i n c) = Totps.set_user_totp db i n c
apply db (remove_user_totp i) = Totps.remove_user_totp db i
apply db (consume_totp_counter i c) = Totps.consume_totp_counter db i c
apply db (add_group n) = Groups.add_group db n
apply db (delete_group n) = Groups.delete_group db n
apply db (set_group_member g u a) = Groups.set_group_member db g u a
apply db (add_ssh_identity n k f) = Identities.add_ssh_identity db n k f
apply db (set_ssh_identity_secret i n c) = Identities.set_ssh_identity_secret db i n c
apply db (delete_ssh_identity n) = Identities.delete_ssh_identity db n
apply db (add_target n) = Targets.add_target db n
apply db (set_target_enabled n e) = Targets.set_target_enabled db n e
apply db (delete_target n) = Targets.delete_target db n
apply db (set_target_credential i n c) = Targets.set_target_credential db i n c
apply db (set_target_credential_kind i k n c) = Targets.set_target_credential_kind db i k n c
apply db (set_target_identity t i) = Targets.set_target_identity db t i
apply db (set_target_host_key n a k) = Targets.set_target_host_key db n a k
apply db (update_target n h p r) = Targets.update_target db n h p r
apply db (set_grant_capabilities t k p a c) = Grants.set_grant_capabilities db t k p a c
apply db (add_forward_rule t h p) = Forwards.add_forward_rule db t h p
apply db (delete_forward_rule i) = Forwards.delete_forward_rule db i
apply db (set_oidc_username_mapping u i p) = Oidc.set_oidc_username_mapping db u i p
apply db (link_oidc_identity u i s p) = Oidc.link_oidc_identity db u i s p
apply db (authenticate_oidc c i s p) = written (Oidc.authenticate_oidc db c i s p)
apply db (remove_oidc_identity u i) = Oidc.remove_oidc_identity db u i
apply db (audit j e) = Audit.audit j db e

abbrev pub exec : Db → Operation → Db
exec db op = after db (apply db op)

unfoldable pub run : Db → List Operation → Db
run db [] = db
run db (op ∷ ops) = run (exec db op) ops
