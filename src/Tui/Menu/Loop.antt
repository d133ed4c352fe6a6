-- ===== src/Tui/Menu/Loop.antt =====
-- internal/tui/menu.go `Update` and `verifyTOTPChallenge`, and internal/tui/remote.go `RunRemote`: the
-- events of a session, each with the commands that follow it, one after the other.
use sshgatew.Prelude.{
  ℕ, zero, suc, ◌+◌, Bool, true, false, ◌&&◌, List, [], ◌∷◌, ◌++◌, Option, none, some, leb, ◌==◌,
  if◌then◌else◌,
}
use sshgatew.Prelude.Int.{ℤ}
use sshgatew.Prelude.Lists.{length, get_elem?, set}
use sshgatew.Prelude.Texts.{Text, codes, text_eq, is_empty, trim_space}
use sshgatew.Secrets.{decrypt_totp}
use sshgatew.Store.Operations.{Operation, run}
use sshgatew.Store.Totps.{user_totp}
use sshgatew.Store
use sshgatew.Store.{Db, TotpConfig}
use sshgatew.Totp.{validate}
use sshgatew.Tui.{InputEvent}
use sshgatew.Tui.Menu.{Section, Mode, Field, Form, Result, Model, clamp, close_modal}
use sshgatew.Tui.Menu.Commands.{World, Cmd, Loaded, Msg, run_cmd}
use sshgatew.Store.Effects.{Effect, start, attempt, fail}
use sshgatew.Tui.Menu.Finish.{Next, stay, quit, with_pending}
use sshgatew.Tui.Menu.Keys.{handle_key}

abbrev pub show_data : Model → Loaded → Model
show_data m v = clamp (record m {
  targets = v.targets;
  users = v.users;
  groups = v.groups;
  group_members = v.group_members;
  identities = v.identities;
  grants = v.grants;
  forward_rules = v.forward_rules;
  audit_events = v.audit_events;
  oidc_identities = v.oidc_identities;
})

abbrev pub show_change : Model → Option Section → Bool → Model
show_change m (some s) false = record m { section = s; cursor = 0 }
show_change m section failed = m

unfoldable pub update : Model → Msg → Option Next
update m (Msg.loaded v) = some (stay (show_data m v))
update m (Msg.oidc_began true) = some (stay (close_modal m))
update m (Msg.oidc_began false) = some (stay (record m { mode = Mode.oidc_link }))
update m (Msg.oidc_linked true) = some (stay (close_modal m))
update m (Msg.oidc_linked false) =
    some (record m { mode = Mode.browsing; pending = none }, some Cmd.load)
update m (Msg.host_key none) = some (stay (record m { mode = Mode.browsing; pending = none }))
update m (Msg.host_key (some k)) = with_pending m.pending (λ p.
    some (stay (record m { pending = some (record p { host_key = k }); mode = Mode.confirm_host })))
update m (Msg.mutated section failed) =
    some (show_change (close_modal m) section failed, some Cmd.load)

abbrev pub paste_in_field : Model → Form → Text → Option Field → Option Model
paste_in_field m f v none = none
paste_in_field m f v (some field) =
    if length field.options == 0
    then some (record m {
      form = some (record f {
        fields = set f.fields f.index (record field { value = field.value ++ trim_space v });
      });
    })
    else some m

abbrev pub paste_in_form : Model → Option Form → Text → Option Model
paste_in_form m none v = some m
paste_in_form m (some f) v = paste_in_field m f v (get_elem? f.fields f.index)

abbrev pub paste_in : Model → Mode → Text → Option Model
paste_in m Mode.secret_key v = some (record m { input = m.input ++ v })
paste_in m Mode.public_key v = some (record m { input = m.input ++ trim_space v })
paste_in m Mode.agent_key v = some (record m { input = m.input ++ trim_space v })
paste_in m Mode.form v = paste_in_form m m.form v
paste_in m mode v = some m

-- The PasteMsg.
unfoldable pub paste : Model → Text → Option Model
paste m v = paste_in m m.mode v

-- The store's part of the challenge.
abbrev pub consume_code : World → Db → ℕ → Option ℤ → Effect
consume_code w db user none = fail (start db)
consume_code w db user (some counter) =
    attempt (start db) (Operation.consume_totp_counter user counter)

abbrev pub check_secret : World → Db → Model → Store.Result Text → Effect
check_secret w db m (Store.err e) = fail (start db)
check_secret w db m (Store.ok secret) =
    consume_code w db m.user.id (validate w.env.hash secret m.input w.now)

abbrev pub check_config : World → Db → Model → Store.Result TotpConfig → Effect
check_config w db m (Store.err e) = fail (start db)
check_config w db m (Store.ok config) =
    check_secret w db m (decrypt_totp w.env.aead m.user.id config.nonce config.ciphertext)

unfoldable pub check_code : World → Db → Model → Effect
check_code w db m = check_config w db m (user_totp db m.user.id)

-- What the outcome of the challenge leaves.
unfoldable pub challenged : Model → Bool → Model
challenged m failed =
    let attempts = m.totp_attempts + 1 in
    if failed
    then (if leb 5 attempts
        then record m { input = []; totp_attempts = attempts; result = some quit }
        else record m { input = []; totp_attempts = attempts })
    else record m {
      input = [];
      result = some (record { target_id = 0; quit = false; verified = true });
    }

-- A session of the menu: the store, the operations that the session tried, in order, and the state,
-- none once a handler has panicked.
pub record Session : Type 0 where
  pub db : Db
  pub tried : List Operation
  pub model : Option Model

abbrev pub with_effect : Session → Effect → Session
with_effect s e = record s { db = e.db; tried = s.tried ++ e.tried }

-- `applyCommand`, on fuel.
unfoldable pub apply_command : ℕ → World → Session → Option Next → Session
apply_command fuel w s none = record s { model = none }
apply_command fuel w s (some (m, none)) = record s { model = some m }
apply_command zero w s (some (m, some c)) = record s { model = some m }
apply_command (suc n) w s (some (m, some c)) =
    let r = run_cmd w m s.db c in apply_command n w (with_effect s r.0) (update m r.1)

-- A command of a key leads to one reload at most.
abbrev pub rounds : ℕ
rounds = 2

abbrev pub apply_next : World → Session → Option Next → Session
apply_next w s next = apply_command rounds w s next

abbrev pub is_challenge : Mode → Bool
is_challenge Mode.totp_auth = true
is_challenge mode = false

abbrev pub answer_challenge : World → Session → Model → Session
answer_challenge w s m =
    let e = check_code w s.db m in record (with_effect s e) { model = some (challenged m e.failed) }

unfoldable pub press : World → Session → Model → Text → Session
press w s m key =
    if is_challenge m.mode && text_eq key (codes "enter")
    then answer_challenge w s m
    else apply_next w s (handle_key w s.db m key)

-- An empty paste has no text and is handled as an empty key.
unfoldable pub handle_event : World → Session → Model → InputEvent → Session
handle_event w s m (InputEvent.key k) = press w s m k
handle_event w s m (InputEvent.paste v) =
    if is_empty v then press w s m [] else record s { model = paste m v }

-- What happens next: an input event, a new height of the window, or writes of other sessions.
pub data Event : Type 0 where
  input : World → InputEvent → Event
  resize : (height : ℕ) → Event
  others : List Operation → Event

abbrev pub step_model : Session → Model → Event → Session
step_model s m (input w e) = handle_event w s m e
step_model s m (resize h) = record s { model = some (record m { height = h }) }
step_model s m (others ops) = record s { db = run s.db ops }

abbrev pub step_open : Session → Model → Option Result → Event → Session
step_open s m none e = step_model s m e
step_open s m (some r) e = s

-- A panic or a result ends the session.
abbrev pub step_in : Session → Option Model → Event → Session
step_in s none e = s
step_in s (some m) e = step_open s m m.result e

unfoldable pub step : Session → Event → Session
step s e = step_in s s.model e

unfoldable pub run_remote : Session → List Event → Session
run_remote s [] = s
run_remote s (e ∷ es) = run_remote (step s e) es

-- The start of `RunRemote`: the first load, unless the menu is a challenge.
unfoldable pub open_session : World → Db → Model → Session
open_session w db m =
    let s : Session = record { db = db; tried = []; model = some m } in
    if is_challenge m.mode then s else apply_command rounds w s (some (m, some Cmd.load))
