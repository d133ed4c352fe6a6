-- ===== src/Gateway/Interactive.antt =====
-- internal/gateway/server.go: `handle`, which sends a session to its target or runs the menu. What the
-- menu answers, and what it and other sessions write meanwhile, are arguments.
pub mod Access
use sshgatew.Prelude.{
  ℕ, Bool, true, false, not, ◌&&◌, ◌||◌, List, [], ◌∷◌, ◌++◌, Option, none, some, ◌==◌,
  if◌then◌else◌,
}
use sshgatew.Prelude.Texts.{Text, codes, text_eq, is_empty}
use sshgatew.Secrets.{Payload}
use sshgatew.Store.Grants.{can_access}
use sshgatew.Store.Targets.{target_by_id}
use sshgatew.Store.{
  User, Target, Db, Result, ok, err, ◌>>=◌, ◌>>◌, guard, session_limit, pty_required,
  route_required, agent_unavailable, dial_failed, proxy_failed,
}
use sshgatew.Gateway.Auth.{Env, event, log}
use sshgatew.Gateway.Routing.{
  Request, Remote, Course, shell, state_from_context, handle_routed, load_credential, stopped,
  uses_agent, outcome_of,
}
use sshgatew.Gateway.Sessions.{Limits, Sessions, acquire, release}

-- How one run of the menu ends: an error, the user quits, or a target is selected.
pub data Answer : Type 0 where
  failed quit : Answer
  select : (target_id : ℕ) → Answer

-- A run of the menu: it starts from the database and returns with the one that is there then.
abbrev pub Menu : Type 0
Menu = Db → Db × Answer

-- A connection asked of the connector, and the database at its access check.
pub record Dial : Type 0 where
  pub db : Db
  pub target : Target
  pub credential : Payload

abbrev run_connection : Remote → Target → Result Payload → Result (Unit {0})
run_connection remote t credential = do
  p ← credential
  guard (not (uses_agent t) || remote.opens_agent) agent_unavailable
  guard (remote.dials t p) dial_failed
  guard (remote.proxies t shell) proxy_failed

-- The connector is asked once the credential is there and the agent, if one is used, is open.
abbrev pub asked : Remote → Db → Target → Result Payload → List Dial
asked remote db t (err e) = []
asked remote db t (ok p) =
    if uses_agent t && not remote.opens_agent
    then []
    else record { db = db; target = t; credential = p } ∷ []

-- One connection: the database with both events, and the connection asked for.
unfoldable pub connect : Env → Remote → User → Text → Db → Target → Db × List Dial
connect env remote u source db t =
    let started =
      log env db
        (record (event (some u.id) u.username source (codes "target.connect.start")
          (codes "success") []) { target_id = some t.id }) in
    let credential = load_credential env started t in
    let result = run_connection remote t credential in
    (
      log env started
          (record (event (some u.id) u.username source (codes "target.connect.end")
            (outcome_of result) (remote.end_details result)) { target_id = some t.id }),
      asked remote db t credential,
    )

abbrev pub before : List Dial → Db × List Dial → Db × List Dial
before dials (db, more) = (db, dials ++ more)

-- The target selected, if the access check passes and the target is there: otherwise the menu runs
-- again, with the one status or the other.
abbrev pub chosen : Db → User → ℕ → Option Target
chosen db u id =
    if not (can_access db u id)
    then none
    else elim (target_by_id db id) [ err e ↦ none | ok t ↦ some t ]

-- The loop, over the runs of the menu; without a further one the session waits.
unfoldable pub menu_loop : Env → Remote → User → Text → Db → List Menu → Db × List Dial
menu_loop env remote u source db [] = (db, [])
menu_loop env remote u source db (menu ∷ menus) = elim (menu db).1 [
  | failed ↦ ((menu db).0, [])
  | quit ↦ ((menu db).0, [])
  | select id ↦ elim (chosen (menu db).0 u id) [
    | none ↦ menu_loop env remote u source (menu db).0 menus
    | some t ↦
        let c = connect env remote u source (menu db).0 t in
        before c.1 (menu_loop env remote u source c.0 menus)
  ]
]

pub data Handled : Type 0 where
  refused : Db → Handled
  routed : Course → Handled
  interactive : Db → List Dial → Handled

abbrev limit_reason : Text
limit_reason =
    b'{'
    ∷ b'"'
    ∷ (codes "reason" ++ b'"' ∷ b':' ∷ b'"' ∷ (codes "session_limit" ++ b'"' ∷ b'}' ∷ []))

abbrev pub session_event : Env → User → Text → Text → Text → Text → Db → Db
session_event env u source type outcome details db =
    log env db (event (some u.id) u.username source type outcome details)

unfoldable pub handle :
    Limits → Env → Remote → Sessions → Db → Text → Text → Request → List Menu → Sessions × Handled
handle limits env remote s db claimed source req menus = elim (state_from_context db claimed) [
  | none ↦ (s, refused db)
  | some (u, name) ↦
      if not (is_empty name)
      then (let r = handle_routed limits env remote s db u source name req in (r.0, routed r.1))
      else if not req.has_pty
      then (s, refused db)
      else if not (acquire limits s u.id).0
      then (
        (acquire limits s u.id).1,
        refused
            (session_event env u source (codes "gateway.session") (codes "denied") limit_reason db),
      )
      else (let started =
            session_event env u source (codes "gateway.session.start") (codes "success") [] db in
          let r = menu_loop env remote u source started menus in
          (
            release (acquire limits s u.id).1 u.id,
            interactive
                (session_event env u source (codes "gateway.session.end") (codes "success") [] r.0)
                r.1,
          ))
]
