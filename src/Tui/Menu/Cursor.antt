-- ===== src/Tui/Menu/Cursor.antt =====
-- internal/tui/menu.go: the cursor stays on a row of the list that is shown.
use sshgatew.Prelude.{
  ◌+◌, ◌≡◌, refl, arith, Bool, true, ◌||◌, Option, none, some, inl, inr, Bool-cases, ltb, ◌==◌, leb,
}
use sshgatew.Prelude.Texts.{Text}
use sshgatew.Tui.Menu.{Section, Model, item_count, clamp, page_size, change_section}
use sshgatew.Tui.Menu.Finish.{Next, start_oidc_link}
use sshgatew.Tui.Menu.Forms.{open_add_form, add_form}
use sshgatew.Tui.Menu.Actions.{open_selected_actions, select_in}
use sshgatew.Tui.Menu.Keys.{
  browse_key, admin_key, list_key, enter_key, stay?, search_key, admin_section, move_key,
}

-- The cursor is on a row, or on the place of the first one.
abbrev pub is_in_bounds : Model → Bool
is_in_bounds m = m.cursor == 0 || ltb m.cursor (item_count m)

abbrev pub InBounds : Model → Type 0
InBounds m = is_in_bounds m ≡ true

pub clamp-InBounds : (m : Model) → InBounds (clamp m)
unfolding clamp
clamp-InBounds m = elim (Bool-cases (item_count m == 0)) [
  | inl e ↦ rw e refl
  | inr e ↦ rw e (elim (Bool-cases (leb (item_count m) m.cursor)) [
    | inl l ↦ rw l (ground (arith, e))
    | inr l ↦ rw l (ground (arith, e, l))
  ])
]

pub move_key-InBounds : (m : Model) (key : Text) → InBounds m → InBounds (move_key m key)
unfolding move_key
move_key-InBounds m key h =
    ground (arith, clamp-InBounds (record m { cursor = m.cursor + page_size m }))

pub search_key-InBounds : (m : Model) (key : Text) → InBounds m → InBounds (search_key m key)
unfolding search_key
search_key-InBounds m key h = ground (arith, h)

pub admin_section-InBounds : (m : Model) (key : Text) → InBounds m → InBounds (admin_section m key)
unfolding admin_section change_section
admin_section-InBounds m key h = ground (arith, h)

-- What a handler leaves, unless it panics.
abbrev pub NextInBounds : Option Next → Type 0
NextInBounds none = Unit
NextInBounds (some (m, c)) = InBounds m

select_in-InBounds : (m : Model) (s : Section) → InBounds m → NextInBounds (stay? (select_in m s))
select_in-InBounds m Section.targets h = ground (arith, h)
select_in-InBounds m Section.keys h = ground (arith, h)
select_in-InBounds m Section.users h = ground (arith, h)
select_in-InBounds m Section.groups h = ground (arith, h)
select_in-InBounds m Section.grants h = ground (arith, h)
select_in-InBounds m Section.forwards h = ground (arith, h)
select_in-InBounds m Section.audit_log h = ground (arith, h)

open_selected_actions-InBounds :
    (m : Model) → InBounds m → NextInBounds (stay? (open_selected_actions m))
unfolding open_selected_actions
open_selected_actions-InBounds m h = select_in-InBounds (record m { action_cursor = 0 }) m.section h

enter_key-InBounds : (m : Model) → InBounds m → NextInBounds (enter_key m)
unfolding enter_key
enter_key-InBounds m h = ground (arith, h, open_selected_actions-InBounds m)

list_key-InBounds : (m : Model) (key : Text) → InBounds m → NextInBounds (list_key m key)
unfolding list_key
list_key-InBounds m key h = ground (arith, h, enter_key-InBounds m, move_key-InBounds m key)

add_form-InBounds : (m : Model) (s : Section) → InBounds m → InBounds (add_form m s)
add_form-InBounds m s h = ground (arith, h)

open_add_form-InBounds : (m : Model) → InBounds m → InBounds (open_add_form m)
unfolding open_add_form
open_add_form-InBounds m h = ground (arith, h, add_form-InBounds m m.section)

start_oidc_link-InBounds : (m : Model) → InBounds m → InBounds (start_oidc_link m).0
unfolding start_oidc_link
start_oidc_link-InBounds m h = ground (arith, h)

admin_key-InBounds : (m : Model) (key : Text) → InBounds m → NextInBounds (admin_key m key)
unfolding admin_key
admin_key-InBounds m key h = ground (
  arith,
  list_key-InBounds (admin_section m key) key,
  admin_section-InBounds m key,
  open_selected_actions-InBounds m,
  open_add_form-InBounds m,
)

pub browse_key-InBounds : (m : Model) (key : Text) → InBounds m → NextInBounds (browse_key m key)
unfolding browse_key
browse_key-InBounds m key h = ground (
  arith,
  list_key-InBounds m key,
  admin_key-InBounds m key,
  search_key-InBounds m key,
  start_oidc_link-InBounds m,
)
