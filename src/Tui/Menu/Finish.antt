-- ===== src/Tui/Menu/Finish.antt =====
-- internal/tui/menu.go: how a dialog of the menu ends, most often with a command for the store. The
-- command `tea.Quit` has no value here: the loop looks at the result and returns before it runs it.
use sshgatew.Prelude.{ℕ, true, false, [], ◌∷◌, Option, none, some, not, ◌||◌, if◌then◌else◌}
use sshgatew.Prelude.Int.{ℤ}
use sshgatew.Prelude.Texts.{Text, codes, is_empty, trim_space}
use sshgatew.Prelude.Decimal.{decimal}
use sshgatew.Secrets.{Payload, empty_payload}
use sshgatew.Store.{credential_stored_key}
use sshgatew.Store.Operations.{Operation}
use sshgatew.Store.Grants.{Capabilities}
use sshgatew.Totp.{validate}
use sshgatew.Tui.Menu.{Section, Mode, Code, Pending, Result, Model, nothing_pending, close_modal}
use sshgatew.Tui.Menu.Commands.{Cmd, Details, World, AuthorizedKey, target_of_pending}

-- What a handler leaves: the state, and the command that it returns.
abbrev pub Next : Type 0
Next = Model × Option Cmd

abbrev pub stay : Model → Next
stay m = (m, none)

-- `m.result = &r; return tea.Quit`
abbrev pub quit_with : Model → Result → Next
quit_with m r = (record m { result = some r }, none)

abbrev pub quit : Result
quit = record { target_id = 0; quit = true; verified = false }

-- `m.mutate`
abbrev pub ask : Model → Section → Text → Details → Operation → Next
ask m section type details op = (m, some (Cmd.mutate (some section) type details op))

-- A method that reads `m.pending` panics, `none` here, when there is none.
abbrev pub with_pending {ℓ} : {A : Type ℓ} → Option Pending → (Pending → Option A) → Option A
with_pending none f = none
with_pending (some p) f = f p

-- The capabilities that `SetGrant` passes on.
abbrev default_capabilities : Capabilities
default_capabilities = record { shell = true; sftp = true; scp = true; tcp_forward = false }

unfoldable pub start_oidc_link : Model → Next
start_oidc_link m =
    if not m.oidc_configured || is_empty m.oidc_issuer
    then stay m
    else if not m.can_self_link
    then stay m
    else (
      record m {
        mode = Mode.oidc_start;
        pending = some (record nothing_pending { user = m.user; username = m.user.username });
      },
      some Cmd.begin_oidc,
    )

abbrev complete_for : Model → Option Pending → Next
complete_for m none = stay (close_modal m)
complete_for m (some p) =
    if not m.oidc_configured
    then stay (close_modal m)
    else (record m { mode = Mode.oidc_complete }, some (Cmd.finish_oidc p.user))

unfoldable pub complete_oidc_link : Model → Next
complete_oidc_link m = complete_for m m.pending

unfoldable pub scan_host : Model → Text → ℕ → Next
scan_host m host port = (record m { mode = Mode.scanning }, some (Cmd.scan_host host port))

unfoldable pub finish_host_key : Model → Pending → Next
finish_host_key m p = (
  m,
  some (
      Cmd.mutate none (codes "admin.target.host_key.replace")
        ((codes "target", p.target.name) ∷ (codes "fingerprint", p.host_key.fingerprint) ∷ [])
        (Operation.set_target_host_key p.target.name p.host_key.algorithm p.host_key.line)),
)

abbrev save_parsed : Model → Pending → Payload → Option (Text × Text) → Next
save_parsed m p payload none = stay m
save_parsed m p payload (some (line, fingerprint)) = (
  record m { input = []; mode = Mode.saving },
  some (Cmd.save_identity p.name line fingerprint payload),
)

-- `finishIdentityPayload`, with no passphrase for a key that is not encrypted.
unfoldable pub finish_identity : World → Model → Pending → Text → Text → Next
finish_identity w m p key passphrase =
    save_parsed m p (record empty_payload { private_key = key; passphrase = passphrase })
      (w.public_of key passphrase)

unfoldable pub finish_stored_target : Model → Pending → Next
finish_stored_target m p =
    ask m Section.targets (codes "admin.target.add")
      ((codes "target", p.name)
        ∷ (codes "credential_kind", credential_stored_key)
        ∷ (codes "ssh_key", p.identity.name)
        ∷ (codes "fingerprint", p.identity.fingerprint)
        ∷ (codes "host_key", p.host_key.fingerprint)
        ∷ [])
      (Operation.add_target (target_of_pending p credential_stored_key (some p.identity.id)))

unfoldable pub finish_credential : Model → Pending → Payload → Next
finish_credential m p payload = (record m { input = [] }, some (Cmd.save_credential p payload))

abbrev add_key : Model → Pending → Option AuthorizedKey → Next
add_key m p none = stay m
add_key m p (some k) =
    if k.more
    then stay m
    else ask m Section.users (codes "admin.gateway_key.add")
        ((codes "username", p.username) ∷ (codes "fingerprint", k.fingerprint) ∷ [])
        (Operation.add_gateway_key p.username k.fingerprint k.line k.comment)

unfoldable pub finish_public_key : World → Model → Pending → Next
finish_public_key w m p = add_key m p (w.authorized_key (trim_space m.input))

abbrev agent_credential : Model → Pending → Option AuthorizedKey → Next
agent_credential m p none = stay m
agent_credential m p (some k) =
    if k.more then stay m else finish_credential m p (record empty_payload { public_key = k.line })

unfoldable pub finish_agent_key : World → Model → Pending → Next
unfolding finish_credential
finish_agent_key w m p = agent_credential m p (w.authorized_key (trim_space m.input))

abbrev pub delete_pending : Model → Pending → Code → Next
delete_pending m p Code.user_key_remove =
    ask m Section.users (codes "admin.gateway_key.remove")
      ((codes "username", p.username) ∷ (codes "fingerprint", p.key_fingerprint) ∷ [])
      (Operation.remove_gateway_key p.username p.key_fingerprint)
delete_pending m p Code.target_delete =
    ask m Section.targets (codes "admin.target.delete") ((codes "target", p.target.name) ∷ [])
      (Operation.delete_target p.target.name)
delete_pending m p Code.user_delete =
    ask m Section.users (codes "admin.user.delete") ((codes "username", p.username) ∷ [])
      (Operation.delete_user p.username)
delete_pending m p Code.group_delete =
    ask m Section.groups (codes "admin.group.delete") ((codes "group", p.group) ∷ [])
      (Operation.delete_group p.group)
delete_pending m p Code.grant_delete =
    ask m Section.grants (codes "admin.grant.remove")
      ((codes "target", p.grant.target)
        ∷ (codes "kind", p.grant.kind)
        ∷ (codes "principal", p.grant.principal)
        ∷ [])
      (Operation.set_grant_capabilities p.grant.target p.grant.kind p.grant.principal false
        default_capabilities)
delete_pending m p Code.forward_delete =
    ask m Section.forwards (codes "admin.forward.remove")
      ((codes "target", p.forward_rule.0)
        ∷ (codes "host", p.forward_rule.1.host)
        ∷ (codes "port", decimal p.forward_rule.1.port)
        ∷ [])
      (Operation.delete_forward_rule p.forward_rule.1.id)
delete_pending m p Code.user_totp_remove =
    ask m Section.users (codes "admin.user.totp.remove") ((codes "username", p.username) ∷ [])
      (Operation.remove_user_totp p.user.id)
delete_pending m p Code.user_oidc_remove =
    ask m Section.users (codes "admin.user.oidc.remove")
      ((codes "username", p.username) ∷ (codes "issuer", m.oidc_issuer) ∷ [])
      (Operation.remove_oidc_identity p.user.id m.oidc_issuer)
delete_pending m p Code.identity_delete =
    ask m Section.keys (codes "admin.ssh_identity.delete")
      ((codes "ssh_key", p.identity.name) ∷ (codes "fingerprint", p.identity.fingerprint) ∷ [])
      (Operation.delete_ssh_identity p.identity.name)
delete_pending m p code = stay m

unfoldable pub finish_delete : Model → Pending → Next
finish_delete m p = delete_pending m p p.kind

abbrev enroll_valid : Model → Pending → Option ℤ → Next
enroll_valid m p none = stay (record m { input = [] })
enroll_valid m p (some counter) = (m, some (Cmd.enroll_totp p counter))

unfoldable pub finish_totp_enrollment : World → Model → Pending → Next
finish_totp_enrollment w m p = enroll_valid m p (validate w.env.hash p.totp_secret m.input w.now)
