-- ===== src/Tui/Menu/Own.antt =====
-- internal/tui/menu.go, internal/tui/remote.go: what a member's session of the menu writes.
use sshgatew.Prelude.{
  ℕ, zero, suc, ◌≡◌, refl, arith, Bool, true, false, List, [], ◌∷◌, Option, none, some, ◌==◌,
}
use sshgatew.Prelude.Texts.{Text, text_eq}
use sshgatew.Prelude.Lists.{all, all-append}
use sshgatew.Store
use sshgatew.Store.{User, Db, role_admin}
use sshgatew.Store.Operations.{Operation, apply}
use sshgatew.Tui.{InputEvent}
use sshgatew.Tui.Menu.{Mode, Result, Model, new, clamp}
use sshgatew.Tui.Menu.Commands.{World, Cmd, Loaded, link_identity, run_cmd}
use sshgatew.Store.Effects.{Effect, start, attempt, after_apply}
use sshgatew.Tui.Menu.Finish.{Next}
use sshgatew.Tui.Menu.Keys.{mode_key, handle_key}
use sshgatew.Tui.Menu.Member.{IsMember, OwnCmd, OwnNext, is_member_mode, mode_key-OwnNext}
use sshgatew.Tui.Menu.Loop.{
  Session, Event, update, show_data, paste, paste_in, apply_command, rounds, press, handle_event,
  step_model, step_open, step_in, step, run_remote, open_session,
}

-- The operations that a member's menu may try: to link an OIDC account to that user, and to record
-- an event of that user.
abbrev pub is_own : User → Operation → Bool
is_own u (Operation.link_oidc_identity id issuer subject name) = id == u.id
is_own u (Operation.audit is_object e) = elim e.actor_user_id [
  | none ↦ false
  | some id ↦ id == u.id
]
is_own u op = false

after_apply-own :
    (u : User) (e : Effect) (op : Operation) (r : Store.Result Db)
    → all (is_own u) e.tried ≡ true
    → is_own u op ≡ true
    → all (is_own u) (after_apply e op r).tried ≡ true
unfolding all
after_apply-own u e op (Store.ok db) h o =
    ground (arith, h, o, all-append (is_own u) e.tried (op ∷ []))
after_apply-own u e op (Store.err f) h o =
    ground (arith, h, o, all-append (is_own u) e.tried (op ∷ []))

attempt-own :
    (u : User) (e : Effect) (op : Operation)
    → all (is_own u) e.tried ≡ true
    → is_own u op ≡ true
    → all (is_own u) (attempt e op).tried ≡ true
unfolding attempt
attempt-own u e op h o = ground (arith, h, after_apply-own u e op (apply e.db op) h o)

link_identity-own :
    (w : World) (m : Model) (db : Db) (u : User) (i : Option (Text × Text))
    → all (is_own u) (link_identity w m db u i).tried ≡ true
unfolding all
link_identity-own w m db u none = refl
link_identity-own w m db u (some (subject, name)) =
    attempt-own u _ _ (attempt-own u (start db) _ refl (ground arith)) (ground arith)

run_cmd-own :
    (w : World) (m : Model) (db : Db) (u : User) (c : Cmd)
    → OwnCmd u (some c)
    → all (is_own u) (run_cmd w m db c).0.tried ≡ true
unfolding run_cmd all
run_cmd-own w m db u Cmd.load o = refl
run_cmd-own w m db u Cmd.begin_oidc o = refl
run_cmd-own w m db u (Cmd.finish_oidc v) o = rw o (link_identity-own w m db u w.oidc_identity)
run_cmd-own w m db u c o = ground (arith, o)

show_data-IsMember : (u : User) (m : Model) (v : Loaded) → IsMember u m → IsMember u (show_data m v)
unfolding clamp
show_data-IsMember u m v h = ground (arith, h)

update-OwnNext :
    (w : World) (m : Model) (db : Db) (u : User) (c : Cmd)
    → IsMember u m
    → OwnCmd u (some c)
    → OwnNext u (update m (run_cmd w m db c).1)
unfolding run_cmd update
update-OwnNext w m db u Cmd.load h o = (show_data-IsMember u m _ h, tt)
update-OwnNext w m db u Cmd.begin_oidc h o = ground (arith, h)
update-OwnNext w m db u (Cmd.finish_oidc v) h o = ground (arith, h)
update-OwnNext w m db u c h o = ground (arith, o)

abbrev pub OwnModel : User → Option Model → Type 0
OwnModel u none = ⊥
OwnModel u (some m) = IsMember u m

-- A session of the member that has not panicked and has tried the member's own operations alone.
abbrev pub IsOwn : User → Session → Type 0
IsOwn u s = OwnModel u s.model × (all (is_own u) s.tried ≡ true)

apply_command-IsOwn :
    (fuel : ℕ) (w : World) (u : User) (s : Session) (next : Option Next)
    → OwnNext u next
    → all (is_own u) s.tried ≡ true
    → IsOwn u (apply_command fuel w s next)
unfolding apply_command
apply_command-IsOwn fuel w u s none o h = absurd o
apply_command-IsOwn fuel w u s (some (m, none)) o h = (o.0, h)
apply_command-IsOwn zero w u s (some (m, some c)) o h = (o.0, h)
apply_command-IsOwn (suc n) w u s (some (m, some c)) (k, o) h =
    let e = (run_cmd w m s.db c).0 in
    apply_command-IsOwn n w u _ _ (update-OwnNext w m s.db u c k o)
      (rw (all-append (is_own u) s.tried e.tried, h) (run_cmd-own w m s.db u c o))

module _ (u : User) (role : text_eq u.role role_admin ≡ false) where
  press-IsOwn :
      (w : World) (s : Session) (m : Model) (key : Text)
      → IsMember u m
      → all (is_own u) s.tried ≡ true
      → IsOwn u (press w s m key)
  unfolding press handle_key
  press-IsOwn w s m key k h = ground (
    arith,
    k,
    apply_command-IsOwn rounds w u s (mode_key w s.db m key m.mode)
        (mode_key-OwnNext w s.db u m key m.mode refl role k) h,
  )

  paste-OwnModel :
      (m : Model) (mode : Mode) (v : Text)
      → is_member_mode mode ≡ true
      → IsMember u m
      → OwnModel u (paste_in m mode v)
  paste-OwnModel m mode v e k = ground (arith, e, k)

  step_model-IsOwn :
      (s : Session) (m : Model) (e : Event)
      → s.model ≡ some m
      → IsMember u m
      → all (is_own u) s.tried ≡ true
      → IsOwn u (step_model s m e)
  unfolding handle_event paste
  step_model-IsOwn s m (Event.input w (InputEvent.key v)) q k h = press-IsOwn w s m v k h
  step_model-IsOwn s m (Event.input w (InputEvent.paste v)) q k h =
      ground (arith, k, h, press-IsOwn w s m [] k h, paste-OwnModel m m.mode v)
  step_model-IsOwn s m (Event.resize n) q k h = (k, h)
  step_model-IsOwn s m (Event.others ops) q k h = rw q (k, h)

  step_open-IsOwn :
      (s : Session) (m : Model) (r : Option Result) (e : Event)
      → s.model ≡ some m
      → IsMember u m
      → all (is_own u) s.tried ≡ true
      → IsOwn u (step_open s m r e)
  step_open-IsOwn s m none e q k h = step_model-IsOwn s m e q k h
  step_open-IsOwn s m (some r) e q k h = rw q (k, h)

  step_in-IsOwn :
      (s : Session) (o : Option Model) (e : Event)
      → s.model ≡ o
      → OwnModel u o
      → all (is_own u) s.tried ≡ true
      → IsOwn u (step_in s o e)
  step_in-IsOwn s none e q k h = absurd k
  step_in-IsOwn s (some m) e q k h = step_open-IsOwn s m m.result e q k h

  step-IsOwn : (s : Session) (e : Event) → IsOwn u s → IsOwn u (step s e)
  unfolding step
  step-IsOwn s e (k, h) = step_in-IsOwn s s.model e refl k h

  run_remote-IsOwn : (s : Session) (es : List Event) → IsOwn u s → IsOwn u (run_remote s es)
  unfolding run_remote
  run_remote-IsOwn s [] h = h
  run_remote-IsOwn s (e ∷ es) h = run_remote-IsOwn (step s e) es (step-IsOwn s e h)

  -- A session of the menu of a user without the role of an administrator does not panic and tries no
  -- operation on the store but to link an OIDC account to that user and to record an event of that
  -- user, whatever is typed or pasted and whatever other sessions write in between.
  pub run_remote_opened-IsOwn :
      (w : World) (db : Db) (source : Text) (oidc : Bool) (issuer : Text) (link : Bool)
      (es : List Event)
      → IsOwn u (run_remote (open_session w db (new u source oidc issuer link)) es)
  unfolding new open_session all
  run_remote_opened-IsOwn w db source oidc issuer link es =
      run_remote-IsOwn (open_session w db (new u source oidc issuer link)) es (
        apply_command-IsOwn rounds w u _ (some (new u source oidc issuer link, some Cmd.load))
          ((refl, refl, tt, refl), tt) refl)
