-- ===== src/Store/Run/Frame.antt =====
-- internal/store/store.go: the operations that leave users and gateway keys alone.
use sshgatew.Prelude.{◌≡◌, Bool, true, false, arith}
use sshgatew.Store.Totps.{set_user_totp, remove_user_totp, consume_totp_counter}
use sshgatew.Store.Groups.{add_group, delete_group, set_group_member}
use sshgatew.Store.Identities.{add_ssh_identity, set_ssh_identity_secret, delete_ssh_identity}
use sshgatew.Store.Targets.{
  add_target, set_target_enabled, delete_target, set_target_credential, set_target_credential_kind,
  set_target_identity, set_target_host_key, update_target,
}
use sshgatew.Store.Grants.{set_grant_capabilities}
use sshgatew.Store.Forwards.{add_forward_rule, delete_forward_rule}
use sshgatew.Store.Oidc.{
  write_oidc, set_oidc_username_mapping, link_oidc_identity, match_oidc, authenticate_oidc,
  remove_oidc_identity,
}
use sshgatew.Store.Audit.{audit}
use sshgatew.Store.Operations.{Operation, exec}
use sshgatew.Store.{Db}

-- `db'` has the users and the keys of `db`.
abbrev pub Untouched : Db → Db → Type 0
Untouched db db' = (db'.users ≡ db.users) × (db'.keys ≡ db.keys)

abbrev pub writes_users : Operation → Bool
writes_users (Operation.add_user u r) = true
writes_users (Operation.set_user_enabled n e) = true
writes_users (Operation.set_user_role n r) = true
writes_users (Operation.delete_user n) = true
writes_users (Operation.add_gateway_key u f k l) = true
writes_users (Operation.remove_gateway_key u f) = true
writes_users op = false

pub exec-Untouched :
    (db : Db) (op : Operation) → writes_users op ≡ false → Untouched db (exec db op)
unfolding set_user_totp remove_user_totp consume_totp_counter add_group delete_group
    set_group_member add_ssh_identity set_ssh_identity_secret delete_ssh_identity add_target
    set_target_enabled delete_target set_target_credential set_target_credential_kind
    set_target_identity set_target_host_key update_target set_grant_capabilities add_forward_rule
    delete_forward_rule write_oidc set_oidc_username_mapping link_oidc_identity match_oidc
    authenticate_oidc remove_oidc_identity audit
exec-Untouched db (Operation.add_user u r) e = ground arith
exec-Untouched db op e = ground arith
