-- ===== src/Tui/Menu/Member.antt =====
-- internal/tui/menu.go: the part of the menu that a user without the role of an administrator reaches.
use sshgatew.Prelude.{
  ℕ, zero, suc, ◌≡◌, refl, arith, Bool, true, false, ◌||◌, List, [], ◌∷◌, Option, none, some, ltb,
  ◌==◌,
}
use sshgatew.Prelude.Texts.{Text, text_eq}
use sshgatew.Prelude.Lists.{length, get_elem?}
use sshgatew.Store.{User, Target, Db, role_admin}
use sshgatew.Tui.Menu.{Mode, Pending, Model, clamp, filtered}
use sshgatew.Tui.Menu.Commands.{World, Cmd}
use sshgatew.Tui.Menu.Finish.{Next, start_oidc_link, complete_oidc_link}
use sshgatew.Tui.Menu.Keys.{
  search_key, move_key, connect_to, select_target, enter_key, list_key, browse_key, mode_key,
  cancel_or_type, type_key,
}
use sshgatew.Tui.Menu.Cursor.{InBounds, move_key-InBounds}

-- The modes of the lists, the help and the link of an OIDC account.
abbrev pub is_member_mode : Mode → Bool
is_member_mode Mode.browsing = true
is_member_mode Mode.help = true
is_member_mode Mode.oidc_start = true
is_member_mode Mode.oidc_link = true
is_member_mode Mode.oidc_complete = true
is_member_mode mode = false

abbrev pub OwnPending : User → Option Pending → Type 0
OwnPending u none = Unit
OwnPending u (some p) = p.user ≡ u

-- The state of a member's menu: what is pending is for the member.
abbrev pub IsMember : User → Model → Type 0
IsMember u m = (m.user ≡ u) × (is_member_mode m.mode ≡ true) × OwnPending u m.pending × InBounds m

abbrev pub OwnCmd : User → Option Cmd → Type 0
OwnCmd u none = Unit
OwnCmd u (some Cmd.load) = Unit
OwnCmd u (some Cmd.begin_oidc) = Unit
OwnCmd u (some (Cmd.finish_oidc v)) = v ≡ u
OwnCmd u (some c) = ⊥

-- No panic, and a command for the member alone.
abbrev pub OwnNext : User → Option Next → Type 0
OwnNext u none = ⊥
OwnNext u (some (m, c)) = IsMember u m × OwnCmd u c

get_elem?-some :
    {A : Type 0} (xs : List A) (i : ℕ)
    → ltb i (length xs) ≡ true
    → (x : A) × (get_elem? xs i ≡ some x)
get_elem?-some [] i h = ground (arith, h)
get_elem?-some (x ∷ xs) zero h = (x, refl)
get_elem?-some (x ∷ xs) (suc i) h = get_elem?-some xs i (ground (arith, h))

search_key-IsMember :
    (u : User) (m : Model) (key : Text) → IsMember u m → IsMember u (search_key m key)
unfolding search_key
search_key-IsMember u m key h = ground (arith, h)

move_key-IsMember : (u : User) (m : Model) (key : Text) → IsMember u m → IsMember u (move_key m key)
unfolding move_key clamp
move_key-IsMember u m key h = ground (arith, h, move_key-InBounds m key)

connect_to-OwnNext :
    (u : User) (m : Model) (o : Option Target) (t : Target)
    → o ≡ some t
    → IsMember u m
    → OwnNext u (connect_to m o)
connect_to-OwnNext u m none t e h = ground (arith, e)
connect_to-OwnNext u m (some v) t e h = ground (arith, h)

select_target-OwnNext :
    (u : User) (m : Model) (ts : List Target)
    → IsMember u m
    → (m.cursor == 0 || ltb m.cursor (length ts)) ≡ true
    → OwnNext u (select_target m ts)
select_target-OwnNext u m [] h b = ground (arith, h)
select_target-OwnNext u m (t ∷ ts) h b =
    let found = get_elem?-some (t ∷ ts) m.cursor (ground (arith, b)) in
    connect_to-OwnNext u m (get_elem? (t ∷ ts) m.cursor) found.0 found.1 h

enter_key-OwnNext :
    (u : User) (m : Model)
    → text_eq u.role role_admin ≡ false
    → IsMember u m
    → OwnNext u (enter_key m)
unfolding enter_key
enter_key-OwnNext u m r h = ground (arith, h, select_target-OwnNext u m (filtered m))

list_key-OwnNext :
    (u : User) (m : Model) (key : Text)
    → text_eq u.role role_admin ≡ false
    → IsMember u m
    → OwnNext u (list_key m key)
unfolding list_key
list_key-OwnNext u m key r h = ground (arith, h, enter_key-OwnNext u m r, move_key-IsMember u m key)

start_oidc_link-OwnNext :
    (u : User) (m : Model) → IsMember u m → OwnNext u (some (start_oidc_link m))
unfolding start_oidc_link
start_oidc_link-OwnNext u m h = ground (arith, h)

browse_key-OwnNext :
    (u : User) (m : Model) (key : Text)
    → text_eq u.role role_admin ≡ false
    → IsMember u m
    → OwnNext u (browse_key m key)
unfolding browse_key
browse_key-OwnNext u m key r h = ground (
  arith,
  r,
  h,
  list_key-OwnNext u m key r,
  search_key-IsMember u m key,
  start_oidc_link-OwnNext u m,
)

complete_oidc_link-OwnNext :
    (u : User) (m : Model) → IsMember u m → OwnNext u (some (complete_oidc_link m))
unfolding complete_oidc_link
complete_oidc_link-OwnNext u m h = ground (arith, h)

cancel_or_type-OwnNext :
    (u : User) (m : Model) (key : Text) → IsMember u m → OwnNext u (some (cancel_or_type m key))
unfolding cancel_or_type type_key
cancel_or_type-OwnNext u m key h = ground (arith, h)

-- A key of a member's menu does not panic and asks for no command but the member's own.
pub mode_key-OwnNext :
    (w : World) (db : Db) (u : User) (m : Model) (key : Text) (mode : Mode)
    → m.mode ≡ mode
    → text_eq u.role role_admin ≡ false
    → IsMember u m
    → OwnNext u (mode_key w db m key mode)
mode_key-OwnNext w db u m key Mode.browsing e r h = browse_key-OwnNext u m key r h
mode_key-OwnNext w db u m key Mode.help e r h = ground (arith, h)
mode_key-OwnNext w db u m key Mode.oidc_start e r h = ground (arith, h)
mode_key-OwnNext w db u m key Mode.oidc_complete e r h = ground (arith, h)
mode_key-OwnNext w db u m key Mode.oidc_link e r h =
    ground (arith, h, complete_oidc_link-OwnNext u m, cancel_or_type-OwnNext u m key)
mode_key-OwnNext w db u m key mode e r h = ground (arith, h, e)
