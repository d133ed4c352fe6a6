-- ===== src/Tui/Menu/Forms.antt =====
-- internal/tui/menu.go: the forms of the menu. A handler that would panic, on an index out of range
-- or without a pending operation, returns none.
use sshgatew.Prelude.{
  ℕ, ◌+◌, ◌-◌, Bool, false, not, ◌&&◌, ◌||◌, List, [], ◌∷◌, ◌++◌, Option, none, some, map, any, leb,
  ltb, ◌==◌, if◌then◌else◌,
}
use sshgatew.Prelude.Lists.{length, take, get_elem?}
use sshgatew.Prelude.Texts.{Text, codes, text_eq}
use sshgatew.Store.{
  User, Group, Target, SshIdentity, role_admin, role_member, credential_private_key,
  credential_stored_key,
}
use sshgatew.Tui.Menu.{
  Section, Mode, FormKind, Label, Field, Form, Pending, Model, is_admin_model, credential_kinds,
  selected_identity_name, first_or_empty,
}

abbrev pub typed : Text → Field
typed v = record { label = Label.other; value = v; options = [] }

abbrev pub choice : Label → Text → List Text → Field
choice l v options = record { label = l; value = v; options = options }

abbrev yes_no : List Text
yes_no = codes "yes" ∷ codes "no" ∷ []

abbrev target_names : List Target → List Text
target_names = map (λ (t : Target). t.name)

abbrev pub user_names : List User → List Text
user_names = map (λ (u : User). u.username)

abbrev group_names : List Group → List Text
group_names = map (λ (g : Group). g.name)

abbrev identity_names : List SshIdentity → List Text
identity_names = map (λ (i : SshIdentity). i.name)

abbrev pub open_form : Model → FormKind → List Field → Model
open_form m kind fields = record m {
  mode = Mode.form;
  form = some (record { kind = kind; fields = fields; index = 0 });
}

abbrev grant_fields : Model → List Field
grant_fields m =
    choice Label.other (first_or_empty (target_names m.targets)) (target_names m.targets)
    ∷ choice Label.other (codes "user") (codes "user" ∷ codes "group" ∷ [])
    ∷ choice Label.other (first_or_empty (user_names m.users)) (user_names m.users)
    ∷ choice Label.other (codes "yes") yes_no
    ∷ choice Label.other (codes "yes") yes_no
    ∷ choice Label.other (codes "yes") yes_no
    ∷ choice Label.other (codes "no") (codes "no" ∷ codes "yes" ∷ [])
    ∷ []

abbrev pub add_form : Model → Section → Model
add_form m Section.targets = open_form m FormKind.target_add (
    typed []
    ∷ typed []
    ∷ typed (codes "22")
    ∷ typed []
    ∷ choice Label.authentication credential_private_key credential_kinds
    ∷ [])
add_form m Section.keys = open_form m FormKind.identity_add (
    typed []
    ∷ choice Label.other (codes "generate_ed25519")
        (codes "generate_ed25519" ∷ codes "import_private_key" ∷ [])
    ∷ [])
add_form m Section.users =
    open_form m FormKind.user_add
      (typed [] ∷ choice Label.other role_member (role_member ∷ role_admin ∷ []) ∷ [])
add_form m Section.groups = open_form m FormKind.group_add (typed [] ∷ [])
add_form m Section.grants =
    if length m.targets == 0 || length m.users + length m.groups == 0
    then m
    else open_form m FormKind.grant_add (grant_fields m)
add_form m Section.forwards =
    if length m.targets == 0
    then m
    else open_form m FormKind.forward_add (
        choice Label.other (first_or_empty (target_names m.targets)) (target_names m.targets)
        ∷ typed []
        ∷ typed []
        ∷ [])
add_form m Section.audit_log = m

unfoldable pub open_add_form : Model → Model
open_add_form m = if is_admin_model m then add_form m m.section else m

abbrev pending_identity : Option Pending → FormKind → Option ℕ
pending_identity (some p) FormKind.target_credential = p.target.identity_id
pending_identity p kind = none

abbrev is_stored_key : Option Field → Bool
is_stored_key none = false
is_stored_key (some f) = text_eq f.value credential_stored_key

-- The field of the saved key stands after the `base` first ones when the last of them asks for it.
abbrev sync_key_field : Model → Form → ℕ → Form
sync_key_field m f base =
    let n = length f.fields in
    let stored = is_stored_key (get_elem? f.fields (base - 1)) in
    let key_field =
      choice Label.saved_key
        (selected_identity_name m.identities (pending_identity m.pending f.kind))
        (identity_names m.identities) in
    if ltb n base
    then f
    else if stored && n == base
    then record f { fields = f.fields ++ key_field ∷ [] }
    else if not stored && ltb base n
    then record f {
      fields = take base f.fields;
      index = if leb base f.index then base - 1 else f.index;
    }
    else f

abbrev sync_kind : Model → Form → FormKind → Form
sync_kind m f FormKind.target_add = sync_key_field m f 5
sync_kind m f FormKind.target_credential = sync_key_field m f 1
sync_kind m f kind = f

unfoldable pub sync_target_key_field : Model → Form → Form
sync_target_key_field m f = sync_kind m f f.kind

abbrev principal_field : List Text → Field → Field
principal_field options p =
    if not (length options == 0) && not (any (λ o. text_eq o p.value) options)
    then record p { value = first_or_empty options; options = options }
    else record p { options = options }

abbrev sync_principal : Model → List Field → List Field
sync_principal m (t ∷ k ∷ p ∷ fs) =
    t
    ∷ k
    ∷ principal_field
        (if text_eq k.value (codes "group") then group_names m.groups else user_names m.users) p
    ∷ fs
sync_principal m fs = fs

abbrev sync_options : Model → Form → FormKind → Form
sync_options m f FormKind.grant_add = record f { fields = sync_principal m f.fields }
sync_options m f kind = f

unfoldable pub sync_form_options : Model → Form → Form
unfolding sync_target_key_field
sync_form_options m f = sync_options m (sync_target_key_field m f) f.kind
