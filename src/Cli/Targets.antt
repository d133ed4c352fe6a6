-- ===== src/Cli/Targets.antt =====
-- cmd/sshgatew/main.go: the commands on targets and grants.
use sshgatew.Prelude.{
  ℕ, Bool, true, false, not, ◌||◌, List, [], ◌∷◌, ◌++◌, Option, none, some, if◌then◌else◌,
}
use sshgatew.Prelude.Texts.{Text, codes, text_eq, is_empty}
use sshgatew.Secrets.{Payload, Aead, empty_payload, encrypt}
use sshgatew.Store.Targets.{NewTarget, target_by_name}
use sshgatew.Store.Effects.{Effect, start, attempt, clean_up, with_secret}
use sshgatew.Store.Operations.{Operation}
use sshgatew.Store
use sshgatew.Store.{
  Target, Db, credential_password, credential_private_key, credential_agent, encryption_failed,
}
use sshgatew.Cli.{Machine, Flags, PublicKey, or_default, is_word, audit_local, read_public_key}
use sshgatew.Cli.Users.{refuse}

abbrev pub flag : Flags → Text → Text
flag f name = or_default (f.text name) []

abbrev pub with_passphrase : Machine → Text → Option Text → Option Payload
with_passphrase w key none = none
with_passphrase w key (some pass) =
    if w.opens_key key pass
    then some (record empty_payload { private_key = key; passphrase = pass })
    else none

abbrev pub private_key_in : Machine → Option Text → Option Payload
private_key_in w none = none
private_key_in w (some key) =
    if w.parses_key key
    then some (record empty_payload { private_key = key })
    else with_passphrase w key w.secret

abbrev pub agent_key_in : Option PublicKey → Option Payload
agent_key_in none = none
agent_key_in (some k) = if k.more then none else some (record empty_payload { public_key = k.line })

abbrev pub password_in : Option Text → Option Payload
password_in none = none
password_in (some p) = some (record empty_payload { password = p })

-- The payload, unless it cannot be read.
unfoldable pub read_credential : Machine → Text → Text → Option Payload
read_credential w kind file =
    if text_eq kind credential_password
    then password_in w.secret
    else if text_eq kind credential_private_key
    then (if is_empty file then none else private_key_in w (w.read_file file))
    else if text_eq kind credential_agent
    then (if is_empty file then none else agent_key_in (read_public_key w file))
    else none

abbrev pub seal_with : Machine → Option Aead → ℕ → Text → Payload → Store.Result (Text × Text)
seal_with w none id kind p = Store.err encryption_failed
seal_with w (some c) id kind p = encrypt c w.nonce id kind p

abbrev pub seal_read : Machine → ℕ → Text → Option Payload → Store.Result (Text × Text)
seal_read w id kind none = Store.err encryption_failed
seal_read w id kind (some p) = seal_with w w.cipher id kind p

-- `readCredential`, `secrets.Load` and `cipher.Encrypt`, in turn.
abbrev pub sealed_credential : Machine → ℕ → Text → Text → Store.Result (Text × Text)
sealed_credential w id kind file = seal_read w id kind (read_credential w kind file)

abbrev pub observed : Bool → Option PublicKey → Option PublicKey
observed accept none = none
observed accept (some k) = if accept then some k else none

unfoldable pub obtain_host_key : Machine → Text → ℕ → Text → Bool → Option PublicKey
obtain_host_key w host port file accept =
    if is_empty file then observed accept (w.scan host port) else read_public_key w file

abbrev pub newest : NewTarget → List Target → ℕ × Text
newest n [] = (0, n.name)
newest n (t ∷ ts) = (t.id, t.name)

-- The credential of the target just added; without it the target goes again.
abbrev pub save_added : Machine → Text → Text → Text → ℕ × Text → Effect → Effect
save_added w kind file fingerprint (id, name) e =
    let stored =
      with_secret e (sealed_credential w id kind file) (Operation.set_target_credential id) in
    if stored.failed
    then clean_up stored (Operation.delete_target name)
    else audit_local w (codes "admin.target.add")
        ((codes "target", name)
          ∷ (codes "host_key", fingerprint)
          ∷ (codes "credential_kind", kind)
          ∷ [])
        stored

abbrev pub add_new : Machine → NewTarget → Text → Text → Effect → Effect
add_new w n file fingerprint e =
    if e.failed
    then e
    else save_added w n.credential_kind file fingerprint (newest n e.db.targets) e

abbrev pub flagged_target : Flags → PublicKey → NewTarget
flagged_target f k = record {
  name = flag f (codes "name");
  host = flag f (codes "host");
  port = or_default (f.number (codes "port")) 22;
  remote_username = flag f (codes "remote-user");
  credential_kind = flag f (codes "auth");
  host_key_algorithm = k.algorithm;
  host_public_key = k.line;
  identity_id = none;
}

abbrev pub add_pinned : Machine → Db → Flags → Option PublicKey → Effect
add_pinned w db f none = refuse db
add_pinned w db f (some k) =
    add_new w (flagged_target f k) (flag f (codes "key-file")) k.fingerprint
      (attempt (start db) (Operation.add_target (flagged_target f k)))

abbrev pub add_flagged : Machine → Db → Option Flags → Effect
add_flagged w db none = refuse db
add_flagged w db (some f) =
    if is_empty (flag f (codes "name"))
      || is_empty (flag f (codes "host"))
      || is_empty (flag f (codes "remote-user"))
      || is_empty (flag f (codes "auth"))
    then refuse db
    else add_pinned w db f (
        obtain_host_key w (flag f (codes "host")) (or_default (f.number (codes "port")) 22)
          (flag f (codes "host-key-file")) (f.switch (codes "accept-host-key")))

unfoldable pub target_add : Machine → Db → List Text → Effect
target_add w db args = add_flagged w db (w.parse (codes "targets add") args)

abbrev pub edit_flagged : Machine → Db → Target → Option Flags → Effect
edit_flagged w db t none = refuse db
edit_flagged w db t (some f) =
    audit_local w (codes "admin.target.edit") ((codes "target", t.name) ∷ []) (
      attempt (start db) (
        Operation.update_target t.name (or_default (f.text (codes "host")) t.host)
          (or_default (f.number (codes "port")) t.port)
          (or_default (f.text (codes "remote-user")) t.remote_username)))

-- The steps that need the target of that name.
abbrev pub on_target : Db → Store.Result Target → (Target → Effect) → Effect
on_target db (Store.err e) k = refuse db
on_target db (Store.ok t) k = k t

unfoldable pub target_edit : Machine → Db → List Text → Effect
target_edit w db [] = refuse db
target_edit w db (name ∷ args) =
    on_target db (target_by_name db name)
      (λ t. edit_flagged w db t (w.parse (codes "targets edit") args))

abbrev pub replace_flagged : Machine → Db → Text → Target → Option Flags → Effect
replace_flagged w db name t none = refuse db
replace_flagged w db name t (some f) =
    let kind = or_default (f.text (codes "auth")) t.credential_kind in
    audit_local w (codes "admin.target.credential.replace")
      ((codes "target", name) ∷ (codes "credential_kind", kind) ∷ [])
      (with_secret (start db) (sealed_credential w t.id kind (flag f (codes "key-file")))
        (Operation.set_target_credential_kind t.id kind))

unfoldable pub target_credential : Machine → Db → Text → List Text → Effect
target_credential w db name args =
    on_target db (target_by_name db name)
      (λ t. replace_flagged w db name t (w.parse (codes "credential replace") args))

abbrev pub pin : Machine → Db → Text → Text → Bool → Option PublicKey → Effect
pin w db op name confirmed none = refuse db
pin w db op name confirmed (some k) =
    if is_word op (codes "scan")
    then start db
    else if not confirmed
    then refuse db
    else audit_local w (codes "admin.target.host_key.replace")
        ((codes "target", name) ∷ (codes "fingerprint", k.fingerprint) ∷ [])
        (attempt (start db) (Operation.set_target_host_key name k.algorithm k.line))

abbrev pub host_key_flagged : Machine → Db → Text → Text → Target → Option Flags → Effect
host_key_flagged w db op name t none = refuse db
host_key_flagged w db op name t (some f) =
    let file = flag f (codes "host-key-file") in
    let accept = f.switch (codes "accept-host-key") in
    pin w db op name (accept || not (is_empty file))
      (obtain_host_key w t.host t.port file (is_word op (codes "scan") || accept))

unfoldable pub target_host_key : Machine → Db → List Text → Effect
target_host_key w db (op ∷ name ∷ args) =
    if is_word op (codes "scan") || is_word op (codes "replace")
    then on_target db (target_by_name db name)
        (λ t. host_key_flagged w db op name t (w.parse (codes "target host-key") args))
    else refuse db
target_host_key w db args = refuse db

abbrev pub enable_target : Machine → Db → Text → List Text → Effect
enable_target w db op (name ∷ []) =
    audit_local w (codes "admin.target." ++ op) ((codes "target", name) ∷ [])
      (attempt (start db) (Operation.set_target_enabled name (is_word op (codes "enable"))))
enable_target w db op args = refuse db

abbrev pub remove_target : Machine → Db → List Text → Effect
remove_target w db (name ∷ []) =
    audit_local w (codes "admin.target.delete") ((codes "target", name) ∷ [])
      (attempt (start db) (Operation.delete_target name))
remove_target w db args = refuse db

abbrev pub credential_args : Machine → Db → List Text → Effect
credential_args w db (op ∷ name ∷ args) =
    if is_word op (codes "replace") then target_credential w db name args else refuse db
credential_args w db args = refuse db

unfoldable pub targets_command : Machine → Db → List Text → Effect
targets_command w db [] = refuse db
targets_command w db (op ∷ args) =
    if is_word op (codes "list")
    then start db
    else if is_word op (codes "add")
    then target_add w db args
    else if is_word op (codes "edit")
    then target_edit w db args
    else if is_word op (codes "enable") || is_word op (codes "disable")
    then enable_target w db op args
    else if is_word op (codes "delete")
    then remove_target w db args
    else if is_word op (codes "credential")
    then credential_args w db args
    else if is_word op (codes "host-key")
    then target_host_key w db args
    else refuse db

abbrev pub grant_flagged : Machine → Db → Text → Option Flags → Effect
grant_flagged w db op none = refuse db
grant_flagged w db op (some f) =
    let target = flag f (codes "target") in
    let user = flag f (codes "user") in
    let group = flag f (codes "group") in
    let kind = if is_empty group then codes "user" else codes "group" in
    let principal = if is_empty group then user else group in
    if is_empty target || (if is_empty user then is_empty group else not (is_empty group))
    then refuse db
    else audit_local w (codes "admin.grant." ++ op)
        ((codes "target", target) ∷ (codes "kind", kind) ∷ (codes "principal", principal) ∷ [])
        (attempt (start db) (
          Operation.set_grant_capabilities target kind principal (is_word op (codes "add"))
            (record { shell = true; sftp = true; scp = true; tcp_forward = false })))

unfoldable pub grants_command : Machine → Db → List Text → Effect
grants_command w db [] = refuse db
grants_command w db (op ∷ args) =
    if is_word op (codes "list")
    then start db
    else if is_word op (codes "add") || is_word op (codes "remove")
    then grant_flagged w db op (w.parse (codes "grants") args)
    else refuse db
