-- ===== src/Tui/Menu/Commands.antt =====
-- internal/tui/menu.go: the commands (`tea.Cmd`) that the menu returns, as data, and their runs. A run
-- gives the store's operations in the order in which it tries them, and the message that it ends with.
use sshgatew.Prelude.{ℕ, Bool, true, false, not, List, [], ◌∷◌, Option, none, some, if◌then◌else◌}
use sshgatew.Prelude.Int.{ℤ}
use sshgatew.Prelude.Texts.{Text, codes, is_empty}
use sshgatew.Secrets.{Payload, encrypt, encrypt_ssh_identity, encrypt_totp}
use sshgatew.Store.Audit.{list_audit}
use sshgatew.Store.Lists.{
  Grant, GroupMember, OidcIdentity, list_users, list_groups, list_group_members,
  list_ssh_identities, list_targets, list_authorized_targets, list_grants, list_forward_rules,
  list_oidc_identities, oidc_identity_for_user,
}
use sshgatew.Store.Effects.{Effect, start, attempt, clean_up, fail, with_secret}
use sshgatew.Store.Operations.{Operation}
use sshgatew.Store.Targets.{NewTarget}
use sshgatew.Store
use sshgatew.Store.{
  User, Group, Target, SshIdentity, ForwardRow, AuditEvent, Db, credential_stored_key,
}
use sshgatew.Gateway.Auth.{Env, event}
use sshgatew.Tui.Menu.{Section, Code, HostKey, Pending, Model, is_admin_model, nothing_pending}

pub data KeyText : Type 0 where
  valid encrypted invalid : KeyText

-- An authorized key: its canonical line, its fingerprint, its comment, and whether text follows it.
pub record AuthorizedKey : Type 0 where
  pub line : Text
  pub fingerprint : Text
  pub comment : Text
  pub more : Bool

-- What the other packages answer while one event is handled: keys, TOTP secrets, the clock, the
-- provider and the scan of a host, and, for the writes that a clean-up follows, whether SQLite refuses
-- them (a context that is cancelled, a full disk). The numbers in the details of an event are shown as decimals.
pub record World : Type 0 where
  pub env : Env
  pub refuses : Operation → Bool
  pub nonce : Text
  pub now : ℕ
  pub has_cipher : Bool
  pub oidc_begins : Bool
  pub oidc_identity : Option (Text × Text)
  pub scanned : Option HostKey
  pub parse_key : Text → KeyText
  pub opens_key : Text → Text → Bool
  pub public_of : Text → Text → Option (Text × Text)
  pub authorized_key : Text → Option AuthorizedKey
  pub generated_key : Option Text
  pub generated_secret : Option Text
  pub draws_qr : Bool
  pub atoi : Text → Option ℤ

abbrev pub Details : Type 0
Details = List (Text × Text)

-- What a run of a command needs of the menu's state is kept in the command, like the variables that
-- its closure holds.
pub data Cmd : Type 0 where
  load : Cmd
  begin_oidc : Cmd
  finish_oidc : (user : User) → Cmd
  scan_host : (host : Text) (port : ℕ) → Cmd
  mutate : Option Section → (type : Text) → Details → Operation → Cmd
  save_identity : (name line fingerprint : Text) → Payload → Cmd
  save_credential : Pending → Payload → Cmd
  enroll_totp : Pending → (counter : ℤ) → Cmd

-- `dataMsg`
pub record Loaded : Type 0 where
  pub targets : List Target
  pub users : List User
  pub groups : List Group
  pub group_members : List GroupMember
  pub identities : List SshIdentity
  pub grants : List Grant
  pub forward_rules : List (Text × ForwardRow)
  pub audit_events : List AuditEvent
  pub oidc_identities : List OidcIdentity

pub data Msg : Type 0 where
  loaded : Loaded → Msg
  oidc_began : (failed : Bool) → Msg
  oidc_linked : (failed : Bool) → Msg
  host_key : Option HostKey → Msg
  mutated : Option Section → (failed : Bool) → Msg

abbrev own_identity : Store.Result OidcIdentity → List OidcIdentity
own_identity (Store.ok i) = i ∷ []
own_identity (Store.err e) = []

abbrev for_admin {ℓ} : {A : Type ℓ} → Model → List A → List A
for_admin m xs = if is_admin_model m then xs else []

unfoldable pub load_lists : Model → Db → Loaded
load_lists m db = record {
  targets = if is_admin_model m then list_targets db else list_authorized_targets db m.user;
  users = for_admin m (list_users db);
  groups = for_admin m (list_groups db);
  group_members = for_admin m (list_group_members db);
  identities = for_admin m (list_ssh_identities db);
  grants = for_admin m (list_grants db);
  forward_rules = for_admin m (list_forward_rules db);
  audit_events = for_admin m (list_audit db 50);
  oidc_identities =
      if is_empty m.oidc_issuer
      then []
      else if is_admin_model m
      then list_oidc_identities db m.oidc_issuer
      else own_identity (oidc_identity_for_user db m.user.id m.oidc_issuer);
}

-- `m.audit`
abbrev pub audit_operation : World → Model → Text → Details → Operation
audit_operation w m type details =
    Operation.audit w.env.is_object
      (event (some m.user.id) m.user.username m.source type (codes "success") (w.env.json details))

abbrev pub audited : World → Model → Text → Details → Effect → Effect
audited w m type details e = attempt e (audit_operation w m type details)

-- An operation that SQLite may refuse.
abbrev pub refusable : World → Effect → Operation → Effect
refusable w e op = if w.refuses op then fail e else attempt e op

abbrev pub refusable_secret :
    World → Effect → Store.Result (Text × Text) → (Text → Text → Operation) → Effect
refusable_secret w e (Store.err f) op = fail e
refusable_secret w e (Store.ok (nonce, ciphertext)) op = refusable w e (op nonce ciphertext)

-- The error of the clean-up is dropped.
abbrev pub refusable_clean_up : World → Effect → Operation → Effect
refusable_clean_up w e op = if w.refuses op then e else clean_up e op

-- The row that the last INSERT wrote.
abbrev pub newest_target : List Target → Target
newest_target [] = nothing_pending.target
newest_target (t ∷ ts) = t

abbrev pub newest_identity : List SshIdentity → SshIdentity
newest_identity [] = nothing_pending.identity
newest_identity (i ∷ is) = i

-- The secret of a new identity; without it the identity goes again.
abbrev pub save_secret : World → Model → Payload → SshIdentity → Effect → Effect
save_secret w m payload i e =
    let stored =
      refusable_secret w e (encrypt_ssh_identity w.env.aead w.nonce i.id payload)
        (Operation.set_ssh_identity_secret i.id) in
    if stored.failed
    then refusable_clean_up w stored (Operation.delete_ssh_identity i.name)
    else audited w m (codes "admin.ssh_identity.add")
        ((codes "ssh_key", i.name) ∷ (codes "fingerprint", i.fingerprint) ∷ []) stored

abbrev pub save_added : World → Model → Payload → Effect → Effect
save_added w m payload e =
    if e.failed then e else save_secret w m payload (newest_identity e.db.identities) e

unfoldable pub run_save_identity : World → Model → Db → Text → Text → Text → Payload → Effect
run_save_identity w m db name line fingerprint payload =
    if not w.has_cipher
    then fail (start db)
    else save_added w m payload
        (refusable w (start db) (Operation.add_ssh_identity name line fingerprint))

abbrev pub target_of_pending : Pending → Text → Option ℕ → NewTarget
target_of_pending p kind identity = record {
  name = p.name;
  host = p.host;
  port = p.port;
  remote_username = p.remote;
  credential_kind = kind;
  host_key_algorithm = p.host_key.algorithm;
  host_public_key = p.host_key.line;
  identity_id = identity;
}

-- The credential of a new target; without it the target goes again.
abbrev pub save_first : World → Model → Pending → Payload → Target → Effect → Effect
save_first w m p payload t e =
    let stored =
      refusable_secret w e (encrypt w.env.aead w.nonce t.id p.credential_kind payload)
        (Operation.set_target_credential t.id) in
    if stored.failed
    then refusable_clean_up w stored (Operation.delete_target t.name)
    else audited w m (codes "admin.target.add")
        ((codes "target", t.name)
          ∷ (codes "credential_kind", p.credential_kind)
          ∷ (codes "host_key", p.host_key.fingerprint)
          ∷ [])
        stored

abbrev pub is_target_add : Code → Bool
is_target_add Code.target_add = true
is_target_add c = false

abbrev pub save_new : World → Model → Pending → Payload → Effect → Effect
save_new w m p payload e =
    if e.failed then e else save_first w m p payload (newest_target e.db.targets) e

abbrev pub replace_with : World → Model → Pending → Payload → Effect → Effect
replace_with w m p payload e =
    audited w m (codes "admin.target.credential.replace")
      ((codes "target", p.target.name) ∷ (codes "credential_kind", p.credential_kind) ∷ [])
      (with_secret e (encrypt w.env.aead w.nonce p.target.id p.credential_kind payload)
        (Operation.set_target_credential_kind p.target.id p.credential_kind))

unfoldable pub run_save_credential : World → Model → Db → Pending → Payload → Effect
run_save_credential w m db p payload =
    let added =
      refusable w (start db) (Operation.add_target (target_of_pending p p.credential_kind none)) in
    if not w.has_cipher
    then fail (start db)
    else if is_target_add p.kind
    then save_new w m p payload added
    else replace_with w m p payload (start db)

unfoldable pub run_enroll_totp : World → Model → Db → Pending → ℤ → Effect
run_enroll_totp w m db p counter =
    let stored =
      with_secret (start db) (encrypt_totp w.env.aead w.nonce p.user.id p.totp_secret)
        (Operation.set_user_totp p.user.id) in
    audited w m (codes "admin.user.totp.enable") ((codes "username", p.username) ∷ [])
      (attempt stored (Operation.consume_totp_counter p.user.id counter))

abbrev pub link_identity : World → Model → Db → User → Option (Text × Text) → Effect
link_identity w m db u none = fail (start db)
link_identity w m db u (some (subject, name)) =
    attempt (attempt (start db) (Operation.link_oidc_identity u.id m.oidc_issuer subject name)) (
      Operation.audit w.env.is_object (
        event (some u.id) u.username m.source (codes "user.oidc.link") (codes "success")
          (w.env.json ((codes "issuer", m.oidc_issuer) ∷ (codes "provider_username", name) ∷ []))))

abbrev with_msg : Effect → (Bool → Msg) → Effect × Msg
with_msg e msg = (e, msg e.failed)

unfoldable pub run_cmd : World → Model → Db → Cmd → Effect × Msg
run_cmd w m db load = (start db, loaded (load_lists m db))
run_cmd w m db begin_oidc = (start db, oidc_began (not w.oidc_begins))
run_cmd w m db (finish_oidc u) = with_msg (link_identity w m db u w.oidc_identity) oidc_linked
run_cmd w m db (scan_host host port) = (start db, host_key w.scanned)
run_cmd w m db (mutate section type details op) =
    with_msg (audited w m type details (attempt (start db) op)) (mutated section)
run_cmd w m db (save_identity name line fingerprint payload) =
    with_msg (run_save_identity w m db name line fingerprint payload) (mutated (some Section.keys))
run_cmd w m db (save_credential p payload) =
    with_msg (run_save_credential w m db p payload) (mutated (some Section.targets))
run_cmd w m db (enroll_totp p counter) =
    with_msg (run_enroll_totp w m db p counter) (mutated (some Section.users))
