-- ===== src/Tui/Menu/Actions.antt =====
-- internal/tui/menu.go: the actions on the row under the cursor. An index out of range and a missing
-- pending operation, where the code panics, give none.
use sshgatew.Prelude.{
  ℕ, ◌+◌, ◌-◌, Bool, true, false, not, ◌&&◌, ◌||◌, List, [], ◌∷◌, ◌++◌, Option, none, some, map,
  filter, ltb, ◌==◌, if◌then◌else◌,
}
use sshgatew.Prelude.Decimal.{decimal}
use sshgatew.Prelude.Lists.{length, get_elem?}
use sshgatew.Prelude.Texts.{Text, codes, text_eq, is_empty}
use sshgatew.Store.Lists.{OidcIdentity, list_gateway_keys}
use sshgatew.Store.Operations.{Operation}
use sshgatew.Store
use sshgatew.Store.{User, Group, Target, SshIdentity, GatewayKey, Db, role_admin, role_member}
use sshgatew.Tui.Menu.{
  Section, Mode, Code, FormKind, Label, Field, Form, Pending, Model, nothing_pending, close_modal,
  credential_kinds, filtered, is_group_member,
}
use sshgatew.Tui.Menu.Commands.{World}
use sshgatew.Tui.Menu.Finish.{Next, stay, quit_with, ask, with_pending, scan_host}
use sshgatew.Tui.Menu.Forms.{typed, choice, open_form, sync_target_key_field}

-- The row under the cursor; a list without rows has none selected.
abbrev pub at_cursor : {A : Type 0} → Model → List A → (A → Model) → Option Model
at_cursor m [] k = some m
at_cursor m (x ∷ xs) k = elim (get_elem? (x ∷ xs) m.cursor) [ none ↦ none | some y ↦ some (k y) ]

abbrev open_actions : Model → Pending → List Code → Model
open_actions m p codes = record m { mode = Mode.actions; pending = some p; actions = codes }

abbrev target_actions : Target → List Code
target_actions t =
    let more =
      Code.target_edit ∷ Code.target_credential ∷ Code.target_host_key ∷ Code.target_toggle
      ∷ Code.target_delete ∷ [] in
    if t.enabled then Code.target_connect ∷ more else more

unfoldable pub user_identity : Model → ℕ → Option OidcIdentity
user_identity m id =
    elim (filter (λ (i : OidcIdentity). i.user_id == id && text_eq i.issuer m.oidc_issuer)
      m.oidc_identities) [ [] ↦ none | i ∷ is ↦ some i ]

abbrev user_actions : Model → User → List Code
user_actions m u =
    let base =
      Code.user_keys
      ∷ (if u.totp_enabled then Code.user_totp_remove else Code.user_totp_setup)
      ∷ Code.user_role
      ∷ Code.user_toggle
      ∷ Code.user_delete
      ∷ [] in
    if is_empty m.oidc_issuer then base else elim (user_identity m u.id) [
      | none ↦ Code.user_oidc_map ∷ base
      | some i ↦ Code.user_oidc_map ∷ (base ++ Code.user_oidc_remove ∷ [])
    ]

abbrev pub select_in : Model → Section → Option Model
select_in m Section.targets =
    at_cursor m (filtered m)
      (λ t. open_actions m (record nothing_pending { target = t }) (target_actions t))
select_in m Section.users = at_cursor m m.users (λ u.
    open_actions m (record nothing_pending { user = u; username = u.username }) (user_actions m u))
select_in m Section.keys = at_cursor m m.identities (λ i.
    open_actions m (record nothing_pending { identity = i })
      (Code.identity_view ∷ Code.identity_delete ∷ []))
select_in m Section.groups = at_cursor m m.groups (λ g.
    open_actions m (record nothing_pending { group = g.name })
      (Code.group_member_add ∷ Code.group_member_remove ∷ Code.group_delete ∷ []))
select_in m Section.grants = at_cursor m m.grants (λ g.
    open_actions m (record nothing_pending { grant = g })
      (Code.grant_edit ∷ Code.grant_delete ∷ []))
select_in m Section.forwards =
    at_cursor m m.forward_rules
      (λ r. open_actions m (record nothing_pending { forward_rule = r }) (Code.forward_delete ∷ []))
select_in m Section.audit_log = some m

unfoldable pub open_selected_actions : Model → Option Model
open_selected_actions m = select_in (record m { action_cursor = 0 }) m.section

abbrev yes_no : Bool → Field
yes_no v =
    choice Label.other (if v then codes "yes" else codes "no") (codes "yes" ∷ codes "no" ∷ [])

abbrev pub enabled_word : Bool → Text
enabled_word enabled = if enabled then codes "enable" else codes "disable"

abbrev with_key_field : Model → Option Form → Model
with_key_field m none = m
with_key_field m (some f) = record m { form = some (sync_target_key_field m f) }

abbrev show_keys : Model → Store.Result (List GatewayKey) → Model
show_keys m (Store.err e) = close_modal m
show_keys m (Store.ok keys) = record m {
  actions = Code.user_key_add ∷ map (λ (k : GatewayKey). Code.item k.fingerprint) keys;
  mode = Mode.user_keys;
  action_cursor = 0;
}

abbrev set_up_totp : Model → Pending → Option Text → Bool → Model
set_up_totp m p none draws = close_modal m
set_up_totp m p (some secret) draws =
    if draws
    then record m {
      pending = some (record p { kind = Code.user_totp_setup; totp_secret = secret });
      mode = Mode.totp_enroll;
    }
    else close_modal m

-- The users that the action is for: the members, or those who are not yet.
abbrev choose_member : Model → Pending → Bool → Mode → Model
choose_member m p adding mode =
    let eligible =
      filter
        (λ (u : User).
          if adding
          then not (is_group_member m p.group u.username)
          else is_group_member m p.group u.username)
        m.users in
    if length eligible == 0 then close_modal m else record m {
      actions = map (λ (u : User). Code.item u.username) eligible;
      mode = mode;
      action_cursor = 0;
    }

abbrev ask_delete : Model → Pending → Code → Next
ask_delete m p code =
    stay (record m { pending = some (record p { kind = code }); mode = Mode.confirm_delete })

abbrev pub dispatch_code : World → Db → Model → Pending → Code → Next
dispatch_code w db m p Code.target_connect =
    quit_with m (record { target_id = p.target.id; quit = false; verified = false })
dispatch_code w db m p Code.grant_edit = stay (
    open_form m FormKind.grant_edit (
      yes_no p.grant.shell
      ∷ yes_no p.grant.sftp
      ∷ yes_no p.grant.scp
      ∷ yes_no p.grant.tcp_forward
      ∷ []))
dispatch_code w db m p Code.target_edit = stay (
    open_form m FormKind.target_edit
      (typed p.target.host ∷ typed (decimal p.target.port) ∷ typed p.target.remote_username ∷ []))
dispatch_code w db m p Code.target_credential =
    let m' =
      open_form m FormKind.target_credential
        (choice Label.authentication p.target.credential_kind credential_kinds ∷ []) in
    stay (with_key_field m' m'.form)
dispatch_code w db m p Code.target_host_key =
    scan_host (record m { pending = some (record p { kind = Code.host_key }) }) p.target.host
      p.target.port
dispatch_code w db m p Code.target_toggle =
    ask m Section.targets (codes "admin.target." ++ enabled_word (not p.target.enabled))
      ((codes "target", p.target.name) ∷ [])
      (Operation.set_target_enabled p.target.name (not p.target.enabled))
dispatch_code w db m p Code.target_delete = ask_delete m p Code.target_delete
dispatch_code w db m p Code.user_delete = ask_delete m p Code.user_delete
dispatch_code w db m p Code.group_delete = ask_delete m p Code.group_delete
dispatch_code w db m p Code.grant_delete = ask_delete m p Code.grant_delete
dispatch_code w db m p Code.forward_delete = ask_delete m p Code.forward_delete
dispatch_code w db m p Code.identity_delete = ask_delete m p Code.identity_delete
dispatch_code w db m p Code.user_totp_remove = ask_delete m p Code.user_totp_remove
dispatch_code w db m p Code.user_oidc_remove = ask_delete m p Code.user_oidc_remove
dispatch_code w db m p Code.identity_view = stay (record m { mode = Mode.identity_public })
dispatch_code w db m p Code.user_keys = stay (show_keys m (list_gateway_keys db p.username))
dispatch_code w db m p Code.user_key_add = stay (record m { mode = Mode.public_key; input = [] })
dispatch_code w db m p Code.user_totp_setup = stay (set_up_totp m p w.generated_secret w.draws_qr)
dispatch_code w db m p Code.user_oidc_map = stay (
    open_form m FormKind.user_oidc_map
      (typed (elim (user_identity m p.user.id) [ none ↦ [] | some i ↦ i.provider_username ]) ∷ []))
dispatch_code w db m p Code.user_role =
    let role = if text_eq p.user.role role_admin then role_member else role_admin in
    ask m Section.users (codes "admin.user.role")
      ((codes "username", p.username) ∷ (codes "role", role) ∷ [])
      (Operation.set_user_role p.username role)
dispatch_code w db m p Code.user_toggle =
    ask m Section.users (codes "admin.user." ++ enabled_word (not p.user.enabled))
      ((codes "username", p.username) ∷ [])
      (Operation.set_user_enabled p.username (not p.user.enabled))
dispatch_code w db m p Code.group_member_add = stay (choose_member m p true Mode.member_add)
dispatch_code w db m p Code.group_member_remove = stay (choose_member m p false Mode.member_remove)
dispatch_code w db m p code = stay m

-- `member_add` and `member_remove`: the user is the code of the item.
abbrev pub change_member : Model → Pending → Code → Bool → Option Next
change_member m p (Code.item username) adding = some (
    ask m Section.groups
      (codes "admin.group.member." ++ (if adding then codes "add" else codes "remove"))
      ((codes "group", p.group) ∷ (codes "username", username) ∷ [])
      (Operation.set_group_member p.group username adding))
change_member m p code adding = none

abbrev choose_key : World → Db → Model → Pending → Code → Next
choose_key w db m p (Code.item fingerprint) = stay (record m {
  pending = some (record p { kind = Code.user_key_remove; key_fingerprint = fingerprint });
  mode = Mode.confirm_delete;
})
choose_key w db m p code = dispatch_code w db m p code

-- The item chosen, by the mode. In the lists of members and keys an item is not the code of an action.
abbrev pub choose : World → Db → Model → Pending → Code → Mode → Option Next
choose w db m p code Mode.user_keys = some (choose_key w db m p code)
choose w db m p code Mode.member_add = change_member m p code true
choose w db m p code Mode.member_remove = change_member m p code false
choose w db m p code mode = some (dispatch_code w db m p code)

abbrev pub choose_at : World → Db → Model → Option Code → Option Next
choose_at w db m none = none
choose_at w db m (some code) = with_pending m.pending (λ p. choose w db m p code m.mode)

abbrev move_to : Model → ℕ → Option Next
move_to m n = some (stay (record m { action_cursor = n }))

abbrev is_key : Text → Text → Bool
is_key key name = text_eq key name

unfoldable pub handle_action_key : World → Db → Model → Text → Option Next
handle_action_key w db m key =
    let n = length m.actions in
    let at = m.action_cursor in
    if is_key key (codes "esc")
    then some (stay (close_modal m))
    else if is_key key (codes "up") || is_key key (codes "k")
    then move_to m (at - 1)
    else if is_key key (codes "down") || is_key key (codes "j") || is_key key (codes "tab")
    then move_to m (if ltb (at + 1) n then at + 1 else at)
    else if is_key key (codes "home")
    then move_to m 0
    else if is_key key (codes "end")
    then move_to m (if n == 0 then at else n - 1)
    else if is_key key (codes "enter") || is_key key (codes "space")
    then (if n == 0 then some (stay m) else choose_at w db m (get_elem? m.actions at))
    else some (stay m)
