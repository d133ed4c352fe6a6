-- ===== src/Tui/Menu/Shown.antt =====
-- internal/tui/menu.go, internal/tui/remote.go: through a whole session the cursor stays on a row.
use sshgatew.Prelude.{
  ℕ, zero, suc, ◌≡◌, refl, arith, Bool, true, false, ◌&&◌, List, [], ◌∷◌, Option, none, some, inl,
  inr, Option-cases, if◌then◌else◌,
}
use sshgatew.Prelude.Texts.{Text, codes, text_eq, is_empty}
use sshgatew.Store.{User, Db}
use sshgatew.Tui.{InputEvent}
use sshgatew.Tui.Menu.{Mode, Section, Result, Model, new}
use sshgatew.Tui.Menu.Commands.{World, Cmd, Msg, run_cmd}
use sshgatew.Tui.Menu.Finish.{Next}
use sshgatew.Tui.Menu.Keys.{stay?, mode_key, handle_key}
use sshgatew.Tui.Menu.Cursor.{InBounds, NextInBounds, clamp-InBounds}
use sshgatew.Tui.Menu.Dialogs.{mode_key-InBounds}
use sshgatew.Tui.Menu.Loop.{
  Session, Event, update, show_change, paste, paste_in, check_code, challenged, apply_command,
  rounds, apply_next, answer_challenge, is_challenge, press, handle_event, step_model, step_open,
  step_in, step, run_remote, open_session,
}

show_change-InBounds :
    (m : Model) (s : Option Section) (failed : Bool)
    → InBounds m
    → InBounds (show_change m s failed)
show_change-InBounds m (some s) false h = refl
show_change-InBounds m (some s) true h = h
show_change-InBounds m none failed h = h

update-InBounds : (m : Model) (msg : Msg) → InBounds m → NextInBounds (update m msg)
unfolding update
update-InBounds m (Msg.loaded v) h = clamp-InBounds _
update-InBounds m (Msg.oidc_began true) h = h
update-InBounds m (Msg.oidc_began false) h = h
update-InBounds m (Msg.oidc_linked true) h = h
update-InBounds m (Msg.oidc_linked false) h = h
update-InBounds m (Msg.host_key none) h = h
update-InBounds m (Msg.host_key (some k)) h = elim (Option-cases m.pending) [
  | inl e ↦ rw e tt
  | inr (p, e) ↦ rw e h
]
update-InBounds m (Msg.mutated s failed) h = show_change-InBounds _ s failed h

paste-InBounds :
    (m : Model) (mode : Mode) (v : Text) → InBounds m → NextInBounds (stay? (paste_in m mode v))
paste-InBounds m mode v h = ground (arith, h)

challenged-InBounds : (m : Model) (failed : Bool) → InBounds m → InBounds (challenged m failed)
unfolding challenged
challenged-InBounds m failed h = ground (arith, h)

-- The cursor of a session that has not panicked.
abbrev pub ModelInBounds : Option Model → Type 0
ModelInBounds none = Unit
ModelInBounds (some m) = InBounds m

apply_command-InBounds :
    (fuel : ℕ) (w : World) (s : Session) (next : Option Next)
    → NextInBounds next
    → ModelInBounds (apply_command fuel w s next).model
unfolding apply_command
apply_command-InBounds fuel w s none h = tt
apply_command-InBounds fuel w s (some (m, none)) h = h
apply_command-InBounds zero w s (some (m, some c)) h = h
apply_command-InBounds (suc n) w s (some (m, some c)) h =
    apply_command-InBounds n w _ _ (update-InBounds m (run_cmd w m s.db c).1 h)

press_if-InBounds :
    (b : Bool) (s s' : Session)
    → ModelInBounds s.model
    → ModelInBounds s'.model
    → ModelInBounds (if b then s else s').model
press_if-InBounds true s s' h h' = h
press_if-InBounds false s s' h h' = h'

press-InBounds :
    (w : World) (s : Session) (m : Model) (key : Text)
    → InBounds m
    → ModelInBounds (press w s m key).model
unfolding press handle_key
press-InBounds w s m key h =
    press_if-InBounds (is_challenge m.mode && text_eq key (codes "enter")) (answer_challenge w s m)
      (apply_next w s (mode_key w s.db m key m.mode))
      (challenged-InBounds m (check_code w s.db m).failed h)
      (apply_command-InBounds rounds w s _ (mode_key-InBounds w s.db m key m.mode h))

stay?-ModelInBounds : (o : Option Model) → NextInBounds (stay? o) → ModelInBounds o
stay?-ModelInBounds none h = tt
stay?-ModelInBounds (some m) h = h

step_model-InBounds :
    (s : Session) (m : Model) (e : Event)
    → s.model ≡ some m
    → InBounds m
    → ModelInBounds (step_model s m e).model
unfolding handle_event paste
step_model-InBounds s m (Event.input w (InputEvent.key k)) q h = press-InBounds w s m k h
step_model-InBounds s m (Event.input w (InputEvent.paste v)) q h =
    press_if-InBounds (is_empty v) (press w s m []) (record s { model = paste m v })
      (press-InBounds w s m [] h) (stay?-ModelInBounds (paste m v) (paste-InBounds m m.mode v h))
step_model-InBounds s m (Event.resize n) q h = h
step_model-InBounds s m (Event.others ops) q h = rw q h

step_open-InBounds :
    (s : Session) (m : Model) (r : Option Result) (e : Event)
    → s.model ≡ some m
    → InBounds m
    → ModelInBounds (step_open s m r e).model
step_open-InBounds s m none e q h = step_model-InBounds s m e q h
step_open-InBounds s m (some r) e q h = rw q h

step_in-InBounds :
    (s : Session) (o : Option Model) (e : Event)
    → s.model ≡ o
    → ModelInBounds o
    → ModelInBounds (step_in s o e).model
step_in-InBounds s none e q h = rw q tt
step_in-InBounds s (some m) e q h = step_open-InBounds s m m.result e q h

pub step-InBounds :
    (s : Session) (e : Event) → ModelInBounds s.model → ModelInBounds (step s e).model
unfolding step
step-InBounds s e h = step_in-InBounds s s.model e refl h

run_remote-InBounds :
    (s : Session) (es : List Event) → ModelInBounds s.model → ModelInBounds (run_remote s es).model
unfolding run_remote
run_remote-InBounds s [] h = h
run_remote-InBounds s (e ∷ es) h = run_remote-InBounds (step s e) es (step-InBounds s e h)

open_session-InBounds :
    (w : World) (db : Db) (m : Model) → InBounds m → ModelInBounds (open_session w db m).model
unfolding open_session
open_session-InBounds w db m h =
    press_if-InBounds (is_challenge m.mode) _ _ h
      (apply_command-InBounds rounds w _ (some (m, some Cmd.load)) h)

-- In every session of the menu, whoever runs it and whatever other sessions write in between, the
-- cursor is 0 or below the number of rows of the section shown, after every event, until a result or a
-- panic ends the session.
pub run_remote_opened-InBounds :
    (w : World) (db : Db) (u : User) (source : Text) (oidc : Bool) (issuer : Text) (link : Bool)
    (es : List Event)
    → ModelInBounds (run_remote (open_session w db (new u source oidc issuer link)) es).model
unfolding new
run_remote_opened-InBounds w db u source oidc issuer link es =
    run_remote-InBounds (open_session w db (new u source oidc issuer link)) es
      (open_session-InBounds w db (new u source oidc issuer link) refl)
