-- ===== src/Tui/Menu/Keys.antt =====
-- internal/tui/menu.go: what a key does, in the lists and in each mode.
use sshgatew.Prelude.{
  ◌+◌, ◌-◌, Bool, true, false, not, ◌&&◌, ◌||◌, List, [], ◌∷◌, ◌++◌, Option, none, some, ltb, ◌==◌,
  if◌then◌else◌,
}
use sshgatew.Prelude.Lists.{get_elem?}
use sshgatew.Prelude.Texts.{rune_count, Text, codes, text_eq}
use sshgatew.Secrets.{empty_payload}
use sshgatew.Store.{Target, Db, credential_private_key, credential_password, credential_stored_key}
use sshgatew.Tui.Menu.{
  Section, Mode, Code, Pending, Model, filtered, item_count, clamp, page_size, change_section,
  remove_last_rune, close_modal, is_admin_model,
}
use sshgatew.Tui.Menu.Commands.{Cmd, KeyText, World}
use sshgatew.Tui.Menu.Finish.{
  Next, stay, quit_with, quit, with_pending, start_oidc_link, complete_oidc_link, finish_host_key,
  finish_identity, finish_stored_target, finish_credential, finish_public_key, finish_agent_key,
  finish_delete, finish_totp_enrollment,
}
use sshgatew.Tui.Menu.Forms.{open_add_form}
use sshgatew.Tui.Menu.Submit.{handle_form_key}
use sshgatew.Tui.Menu.Actions.{open_selected_actions, handle_action_key}

abbrev pub is_key : Text → Text → Bool
is_key key name = text_eq key name

abbrev pub search_for : Model → Text → Model
search_for m query = record m { query = query; cursor = 0 }

unfoldable pub search_key : Model → Text → Model
search_key m key =
    if is_key key (codes "esc")
    then record (search_for m []) { searching = false }
    else if is_key key (codes "enter")
    then record m { searching = false }
    else if is_key key (codes "backspace")
    then search_for m (remove_last_rune m.query)
    else if is_key key (codes "ctrl+u")
    then search_for m []
    else if is_key key (codes "space")
    then search_for m (m.query ++ b' ' ∷ [])
    else if rune_count key == 1
    then search_for m (m.query ++ key)
    else m

abbrev pub show_section : Model → Section → Model
show_section m s = record m { section = s; cursor = 0 }

-- The section of a digit, for an administrator.
unfoldable pub section_of_key : Text → Option Section
section_of_key key =
    if is_key key (codes "1")
    then some Section.targets
    else if is_key key (codes "2")
    then some Section.keys
    else if is_key key (codes "3")
    then some Section.users
    else if is_key key (codes "4")
    then some Section.groups
    else if is_key key (codes "5")
    then some Section.grants
    else if is_key key (codes "6")
    then some Section.forwards
    else if is_key key (codes "7")
    then some Section.audit_log
    else none

-- The switch for administrators, where it changes the section. None of its keys is one of `move_key`.
unfoldable pub admin_section : Model → Text → Model
admin_section m key = elim (section_of_key key) [
  | some s ↦ show_section m s
  | none ↦
      if is_key key (codes "left") || is_key key (codes "h")
      then change_section m 6
      else if is_key key (codes "right") || is_key key (codes "l") || is_key key (codes "tab")
      then change_section m 8
      else m
]

abbrev pub is_targets : Section → Bool
is_targets Section.targets = true
is_targets s = false

abbrev is_audit : Section → Bool
is_audit Section.audit_log = true
is_audit s = false

unfoldable pub move_key : Model → Text → Model
move_key m key =
    let n = item_count m in
    if is_key key (codes "up") || is_key key (codes "k")
    then record m { cursor = m.cursor - 1 }
    else if is_key key (codes "down") || is_key key (codes "j")
    then (if ltb (m.cursor + 1) n then record m { cursor = m.cursor + 1 } else m)
    else if is_key key (codes "pgup")
    then record m { cursor = m.cursor - page_size m }
    else if is_key key (codes "pgdown")
    then clamp (record m { cursor = m.cursor + page_size m })
    else if is_key key (codes "home") || is_key key (codes "g")
    then record m { cursor = 0 }
    else if is_key key (codes "end") || is_key key (codes "G")
    then (if n == 0 then m else record m { cursor = n - 1 })
    else if is_key key (codes "/")
    then (if is_targets m.section then record m { searching = true } else m)
    else if is_key key (codes "esc")
    then (if is_targets m.section then search_for m [] else m)
    else if is_key key (codes "?")
    then record m { mode = Mode.help }
    else m

abbrev pub connect_to : Model → Option Target → Option Next
connect_to m none = none
connect_to m (some t) =
    some (quit_with m (record { target_id = t.id; quit = false; verified = false }))

abbrev pub select_target : Model → List Target → Option Next
select_target m [] = some (stay m)
select_target m (t ∷ ts) = connect_to m (get_elem? (t ∷ ts) m.cursor)

abbrev pub stay? : Option Model → Option Next
stay? none = none
stay? (some m) = some (stay m)

unfoldable pub enter_key : Model → Option Next
enter_key m =
    let opened = open_selected_actions m in
    if is_targets m.section
    then select_target m (filtered m)
    else if is_admin_model m && not (is_audit m.section)
    then stay? opened
    else some (stay m)

unfoldable pub list_key : Model → Text → Option Next
list_key m key =
    let moved = move_key m key in
    let entered = enter_key m in if is_key key (codes "enter") then entered else some (stay moved)

-- The switch for administrators, and the second one where it does not return.
unfoldable pub admin_key : Model → Text → Option Next
admin_key m key =
    let opened = open_selected_actions m in
    let listed = list_key (admin_section m key) key in
    if is_key key (codes "r")
    then some (m, some Cmd.load)
    else if is_key key (codes "a")
    then some (stay (open_add_form m))
    else if is_key key (codes "m")
    then stay? opened
    else listed

unfoldable pub browse_key : Model → Text → Option Next
browse_key m key =
    let for_admin = admin_key m key in
    let listed = list_key m key in
    if m.searching
    then some (stay (search_key m key))
    else if is_key key (codes "ctrl+c") || is_key key (codes "q")
    then some (quit_with m quit)
    else if is_key key (codes "o")
    then some (start_oidc_link m)
    else if is_admin_model m
    then for_admin
    else listed

-- The text of a dialog.
unfoldable pub type_key : Model → Text → Model
type_key m key =
    if is_key key (codes "backspace")
    then record m { input = remove_last_rune m.input }
    else if is_key key (codes "space")
    then record m { input = m.input ++ b' ' ∷ [] }
    else if rune_count key == 1
    then record m { input = m.input ++ key }
    else m

unfoldable pub cancel_or_type : Model → Text → Next
cancel_or_type m key =
    if is_key key (codes "esc") then stay (close_modal m) else stay (type_key m key)

abbrev is_host_key : Code → Bool
is_host_key Code.host_key = true
is_host_key c = false

abbrev is_identity_add : Code → Bool
is_identity_add Code.identity_add = true
is_identity_add c = false

abbrev pub accept_host : Model → Pending → Next
accept_host m p =
    if is_host_key p.kind
    then finish_host_key m p
    else if text_eq p.credential_kind credential_password
    then stay (record m { mode = Mode.secret_password; input = [] })
    else if text_eq p.credential_kind credential_private_key
    then stay (record m { mode = Mode.secret_key; input = [] })
    else if text_eq p.credential_kind credential_stored_key
    then finish_stored_target m p
    else stay (record m { mode = Mode.agent_key; input = [] })

abbrev pub confirm_host : Model → Text → Option Next
confirm_host m key =
    if is_key key (codes "esc")
    then some (stay (close_modal m))
    else if is_key key (codes "n")
    then some (stay (record m { mode = Mode.browsing; pending = none }))
    else if is_key key (codes "y")
    then with_pending m.pending (λ p. some (accept_host m p))
    else some (stay m)

abbrev pub save_key : World → Model → Pending → Text → Text → Next
save_key w m p key passphrase =
    if is_identity_add p.kind
    then finish_identity w m p key passphrase
    else finish_credential m p (record empty_payload { private_key = key; passphrase = passphrase })

abbrev pub accept_key : World → Model → KeyText → Option Next
accept_key w m KeyText.valid = with_pending m.pending (λ p. some (save_key w m p m.input []))
accept_key w m KeyText.encrypted = with_pending m.pending (λ p. some (
    stay (record m {
      pending = some (record p { private_key = m.input });
      mode = Mode.secret_passphrase;
      input = [];
    })))
accept_key w m KeyText.invalid = some (stay (record m { input = [] }))

abbrev pub accept_passphrase : World → Model → Pending → Next
accept_passphrase w m p =
    if w.opens_key p.private_key m.input
    then save_key w m p p.private_key m.input
    else stay (record m { input = [] })

abbrev pub or_type : Model → Text → Bool → Option Next → Option Next
or_type m key test next = if test then next else some (cancel_or_type m key)

abbrev is_submit : Text → Bool
is_submit key = is_key key (codes "enter") || is_key key (codes "ctrl+d")

-- `handleModeKey`. Enter in `totp_auth`, the one key that writes to the store at once, is in `Loop`.
abbrev pub mode_key : World → Db → Model → Text → Mode → Option Next
mode_key w db m key Mode.browsing = browse_key m key
mode_key w db m key Mode.help = some (stay (record m { mode = Mode.browsing }))
mode_key w db m key Mode.totp_auth =
    or_type m key (is_key key (codes "esc") || is_key key (codes "ctrl+c"))
      (some (quit_with m quit))
mode_key w db m key Mode.totp_enroll =
    or_type m key (is_key key (codes "enter"))
      (some (stay (record m { mode = Mode.totp_confirm; input = [] })))
mode_key w db m key Mode.totp_confirm =
    or_type m key (is_key key (codes "enter"))
      (with_pending m.pending (λ p. some (finish_totp_enrollment w m p)))
mode_key w db m key Mode.oidc_link =
    or_type m key (is_key key (codes "enter")) (some (complete_oidc_link m))
mode_key w db m key Mode.oidc_start = some (stay m)
mode_key w db m key Mode.oidc_complete = some (stay m)
mode_key w db m key Mode.form = handle_form_key w db m key
mode_key w db m key Mode.actions = handle_action_key w db m key
mode_key w db m key Mode.user_keys = handle_action_key w db m key
mode_key w db m key Mode.member_add = handle_action_key w db m key
mode_key w db m key Mode.member_remove = handle_action_key w db m key
mode_key w db m key Mode.identity_public = some (stay (close_modal m))
mode_key w db m key Mode.confirm_delete =
    if is_key key (codes "y")
    then with_pending m.pending (λ p. some (finish_delete m p))
    else some (stay (if is_key key (codes "n") then close_modal m else m))
mode_key w db m key Mode.public_key =
    or_type m key (is_submit key) (with_pending m.pending (λ p. some (finish_public_key w m p)))
mode_key w db m key Mode.agent_key =
    or_type m key (is_submit key) (with_pending m.pending (λ p. some (finish_agent_key w m p)))
mode_key w db m key Mode.confirm_host = confirm_host m key
mode_key w db m key Mode.secret_password = or_type m key (is_key key (codes "enter")) (
    with_pending m.pending
      (λ p. some (finish_credential m p (record empty_payload { password = m.input }))))
mode_key w db m key Mode.secret_key = or_type m key (is_submit key) (
    if is_key key (codes "ctrl+d")
    then accept_key w m (w.parse_key m.input)
    else some (stay (record m { input = m.input ++ 10 ∷ [] })))
mode_key w db m key Mode.secret_passphrase =
    or_type m key (is_key key (codes "enter"))
      (with_pending m.pending (λ p. some (accept_passphrase w m p)))
mode_key w db m key Mode.scanning = some (cancel_or_type m key)
mode_key w db m key Mode.saving = some (cancel_or_type m key)

unfoldable pub handle_key : World → Db → Model → Text → Option Next
handle_key w db m key = mode_key w db m key m.mode
