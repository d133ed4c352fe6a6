-- ===== src/Tui/Menu/Submit.antt =====
-- internal/tui/menu.go: the keys of a form, and what its last field submits.
use sshgatew.Prelude.{
  ℕ, suc, ◌+◌, ◌-◌, Bool, true, false, not, ◌&&◌, ◌||◌, List, [], ◌∷◌, ◌++◌, Option, none, some,
  map, leb, ltb, ◌==◌, if◌then◌else◌,
}
use sshgatew.Prelude.Int.{ℤ, pos, negsuc}
use sshgatew.Prelude.Decimal.{decimal}
use sshgatew.Prelude.Lists.{length, get_elem?, set}
use sshgatew.Prelude.Texts.{rune_count, Text, codes, text_eq, is_empty, trim_space, to_lower}
use sshgatew.Store.Identities.{ssh_identity_by_name}
use sshgatew.Store.Operations.{Operation}
use sshgatew.Store
use sshgatew.Store.{
  SshIdentity, Db, credential_private_key, credential_password, credential_stored_key,
}
use sshgatew.Tui.Menu.{
  Section, Mode, Code, FormKind, Label, Field, Form, Pending, Model, nothing_pending, close_modal,
  cycle_option, remove_last_rune,
}
use sshgatew.Tui.Menu.Commands.{World}
use sshgatew.Tui.Menu.Finish.{Next, stay, ask, with_pending, scan_host, finish_identity}
use sshgatew.Tui.Menu.Forms.{sync_form_options}

abbrev yes : Text → Bool
yes v = text_eq v (codes "yes")

-- `strconv.Atoi` and the test of the range.
abbrev valid_port : Option ℤ → Option ℕ
valid_port none = none
valid_port (some (pos n)) = if leb 1 n && leb n 65535 then some n else none
valid_port (some (negsuc n)) = none

-- The form stays, at the field that is wrong.
abbrev refuse : Model → Form → ℕ → Option Next
refuse m f i = some (stay (record m { form = some (record f { index = i }) }))

abbrev with_port : Model → Form → ℕ → Option ℕ → (ℕ → Option Next) → Option Next
with_port m f i none k = refuse m f i
with_port m f i (some port) k = k port

abbrev is_authentication : Label → Bool
is_authentication Label.authentication = true
is_authentication l = false

abbrev is_saved_key : Label → Bool
is_saved_key Label.saved_key = true
is_saved_key l = false

-- The value of the first field with that label, or the empty text.
unfoldable pub authentication : List Field → Text
authentication [] = []
authentication (f ∷ fs) =
    let rest = authentication fs in if is_authentication f.label then trim_space f.value else rest

-- The position of the first field that lacks its value.
unfoldable pub first_missing : Text → List Field → Option ℕ
first_missing auth [] = none
first_missing auth (f ∷ fs) =
    let rest = first_missing auth fs in
    if is_saved_key f.label && not (text_eq auth credential_stored_key)
    then elim rest [ none ↦ none | some i ↦ some (suc i) ]
    else if is_empty (trim_space f.value)
    then some 0
    else elim rest [ none ↦ none | some i ↦ some (suc i) ]

abbrev add_identity : World → Model → Pending → Text → Next
add_identity w m p method =
    if text_eq method (codes "generate_ed25519")
    then elim w.generated_key [
      | none ↦ stay (close_modal m)
      | some key ↦ finish_identity w (record m { pending = some p; form = none }) p key []
    ]
    else stay (record m { pending = some p; form = none; mode = Mode.secret_key; input = [] })

-- `target_credential` with a saved key.
abbrev use_saved_key : Model → Pending → Store.Result SshIdentity → Next
use_saved_key m p (Store.err e) = stay (close_modal m)
use_saved_key m p (Store.ok i) =
    ask m Section.targets (codes "admin.target.credential.replace")
      ((codes "target", p.target.name)
        ∷ (codes "credential_kind", credential_stored_key)
        ∷ (codes "ssh_key", i.name)
        ∷ (codes "fingerprint", i.fingerprint)
        ∷ [])
      (Operation.set_target_identity p.target.id i.id)

abbrev replace_credential : Model → Db → Pending → Text → List Text → Option Next
replace_credential m db p kind values =
    let p' = record p { kind = Code.credential; credential_kind = kind } in
    let m' = record m { pending = some p'; form = none } in
    if text_eq kind credential_stored_key
    then elim values [
      | [] ↦ none
      | name ∷ more ↦ some (use_saved_key m' p' (ssh_identity_by_name db name))
    ]
    else if text_eq kind credential_password
    then some (stay (record m' { mode = Mode.secret_password; input = [] }))
    else if text_eq kind credential_private_key
    then some (stay (record m' { mode = Mode.secret_key; input = [] }))
    else some (stay (record m' { mode = Mode.agent_key; input = [] }))

-- `target_add` with a saved key: the identity must be there.
abbrev scan_with_key : Model → Form → Pending → Text → Store.Result SshIdentity → Option Next
scan_with_key m f p port (Store.err e) = refuse (record m { pending = some p }) f 5
scan_with_key m f p port (Store.ok i) =
    some (
      scan_host (record m { pending = some (record p { identity = i }); form = none }) p.host
        p.port)

abbrev scan_new_target : Model → Db → Form → Pending → Text → List Text → Option Next
scan_new_target m db f p port keys =
    if text_eq p.credential_kind credential_stored_key
    then elim keys [
      | [] ↦ none
      | name ∷ more ↦
          if is_empty name
          then refuse (record m { pending = some p }) f 5
          else scan_with_key m f p port (ssh_identity_by_name db name)
    ]
    else some (scan_host (record m { pending = some p; form = none }) p.host p.port)

abbrev pub submit_kind : World → Db → Model → Form → FormKind → List Text → Option Next
submit_kind w db m f FormKind.identity_add (name ∷ method ∷ more) =
    some
      (add_identity w m (record nothing_pending { kind = Code.identity_add; name = name }) method)
submit_kind w db m f FormKind.user_add (name ∷ role ∷ more) = some (
    ask m Section.users (codes "admin.user.add")
      ((codes "username", name) ∷ (codes "role", role) ∷ []) (Operation.add_user name role))
submit_kind w db m f FormKind.user_oidc_map (name ∷ more) = with_pending m.pending (λ p. some (
    ask m Section.users (codes "admin.user.oidc.map")
      ((codes "username", p.username)
        ∷ (codes "provider_username", to_lower name)
        ∷ (codes "issuer", m.oidc_issuer)
        ∷ [])
      (Operation.set_oidc_username_mapping p.user.id m.oidc_issuer name)))
submit_kind w db m f FormKind.group_add (name ∷ more) = some (
    ask m Section.groups (codes "admin.group.add") ((codes "group", name) ∷ [])
      (Operation.add_group name))
submit_kind w db m f FormKind.grant_add (target ∷ kind ∷ principal ∷ v ∷ x ∷ y ∷ z ∷ more) = some (
    ask m Section.grants (codes "admin.grant.add")
      ((codes "target", target) ∷ (codes "kind", kind) ∷ (codes "principal", principal) ∷ [])
      (Operation.set_grant_capabilities target kind principal true
        (record { shell = yes v; sftp = yes x; scp = yes y; tcp_forward = yes z })))
submit_kind w db m f FormKind.grant_edit (v ∷ x ∷ y ∷ z ∷ more) = with_pending m.pending (λ p.
    some (
      ask m Section.grants (codes "admin.grant.edit")
        ((codes "target", p.grant.target)
          ∷ (codes "kind", p.grant.kind)
          ∷ (codes "principal", p.grant.principal)
          ∷ [])
        (Operation.set_grant_capabilities p.grant.target p.grant.kind p.grant.principal true
          (record { shell = yes v; sftp = yes x; scp = yes y; tcp_forward = yes z }))))
submit_kind w db m f FormKind.forward_add (target ∷ host ∷ text ∷ more) =
    with_port m f 2 (valid_port (w.atoi text)) (λ port. some (
      ask m Section.forwards (codes "admin.forward.add")
        ((codes "target", target) ∷ (codes "host", host) ∷ (codes "port", decimal port) ∷ [])
        (Operation.add_forward_rule target host port)))
submit_kind w db m f FormKind.target_edit (host ∷ text ∷ remote ∷ more) =
    with_port m f 1 (valid_port (w.atoi text)) (λ port. with_pending m.pending (λ p. some (
      ask m Section.targets (codes "admin.target.edit") ((codes "target", p.target.name) ∷ [])
        (Operation.update_target p.target.name host port remote))))
submit_kind w db m f FormKind.target_credential (kind ∷ values) =
    with_pending m.pending (λ p. replace_credential m db p kind values)
submit_kind w db m f FormKind.target_add (name ∷ host ∷ text ∷ remote ∷ kind ∷ keys) =
    with_port m f 2 (valid_port (w.atoi text)) (λ port.
      scan_new_target m db f
        (record nothing_pending {
          kind = Code.target_add;
          name = name;
          host = host;
          port = port;
          remote = remote;
          credential_kind = kind;
        })
        text keys)
submit_kind w db m f kind values = none

abbrev pub submit_checked : World → Db → Model → Form → Option ℕ → Option Next
submit_checked w db m f (some i) = refuse m f i
submit_checked w db m f none =
    submit_kind w db m f f.kind (map (λ (v : Field). trim_space v.value) f.fields)

unfoldable pub submit_form : World → Db → Model → Form → Option Next
submit_form w db m f = submit_checked w db m f (first_missing (authentication f.fields) f.fields)

abbrev keep_form : Model → Form → Option Next
keep_form m f = some (stay (record m { form = some f }))

abbrev write_field : Model → Form → Field → Option Next
write_field m f v = keep_form m (record f { fields = set f.fields f.index v })

abbrev cycled : Model → Form → Field → Bool → Option Next
cycled m f field back =
    keep_form m
      (sync_form_options m (record f { fields = set f.fields f.index (cycle_option field back) }))

abbrev is_key : Text → Text → Bool
is_key key name = text_eq key name

abbrev pub form_key_at : World → Db → Model → Form → Text → Field → Option Next
form_key_at w db m f key field =
    let has_options = not (length field.options == 0) in
    let last = not (ltb (f.index + 1) (length f.fields)) in
    let submitted = submit_form w db m f in
    if is_key key (codes "up") || is_key key (codes "shift+tab")
    then keep_form m (record f { index = f.index - 1 })
    else if is_key key (codes "down") || is_key key (codes "tab")
    then keep_form m (if last then f else record f { index = f.index + 1 })
    else if is_key key (codes "left") || is_key key (codes "right") || is_key key (codes "space")
    then (if has_options
        then cycled m f field (is_key key (codes "left"))
        else if is_key key (codes "space")
        then write_field m f (record field { value = field.value ++ b' ' ∷ [] })
        else keep_form m f)
    else if is_key key (codes "backspace")
    then (if has_options
        then keep_form m f
        else write_field m f (record field { value = remove_last_rune field.value }))
    else if is_key key (codes "ctrl+u")
    then (if has_options then keep_form m f else write_field m f (record field { value = [] }))
    else if is_key key (codes "enter")
    then (if last then submitted else keep_form m (record f { index = f.index + 1 }))
    else if not has_options && rune_count key == 1
    then write_field m f (record field { value = field.value ++ key })
    else keep_form m f

abbrev pub form_key_in : World → Db → Model → Text → Option Form → Option Next
form_key_in w db m key none = some (stay m)
form_key_in w db m key (some f) =
    if length f.fields == 0 then some (stay m) else elim (get_elem? f.fields f.index) [
      | none ↦ none
      | some field ↦ form_key_at w db m f key field
    ]

unfoldable pub handle_form_key : World → Db → Model → Text → Option Next
handle_form_key w db m key =
    if is_key key (codes "esc") then some (stay (close_modal m)) else form_key_in w db m key m.form
