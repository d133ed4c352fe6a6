-- ===== src/Gateway/Routing.antt =====
-- internal/gateway/routing.go and `stateFromContext` of auth.go: the sessions and the forwardings
-- that go on to a target. What the client, the target and the clock answer are arguments.
pub mod Permitted
use sshgatew.Prelude.{
  ℕ, Bool, true, false, not, ◌&&◌, ◌||◌, List, [], ◌∷◌, ◌++◌, Option, none, some, ◌==◌,
  if◌then◌else◌,
}
use sshgatew.Prelude.Texts.{Text, codes, text_eq, is_empty}
use sshgatew.Downstream.Scp
use sshgatew.Downstream.Scp.{ScpResult, safe_scp_command}
use sshgatew.Secrets.{Payload, decrypt, decrypt_ssh_identity}
use sshgatew.Store.Forwards.{forward_allowed}
use sshgatew.Store.Grants.{can_access_capability}
use sshgatew.Store.Identities.{ssh_identity_by_id}
use sshgatew.Store.Targets.{target_by_name}
use sshgatew.Store.Users.{user_by_name}
use sshgatew.Store.{
  User, Target, Db, AuditEvent, Error, Result, ok, err, ◌>>=◌, ◌>>◌, guard, no_rows,
  credential_agent, credential_stored_key, capability_shell, capability_sftp, capability_scp,
  capability_forward, session_limit, target_unavailable, protocol_denied, pty_required,
  identity_reference_missing, agent_unavailable, dial_failed, proxy_failed, route_required,
  forwarding_denied, destination_denied, stored_credential_required, bad_forward_request,
  channel_failed,
}
use sshgatew.Gateway.Auth.{Env, event, log}
use sshgatew.Gateway.Sessions.{Limits, Sessions, acquire, release}
use sshgatew.Gateway.Username.{split_routed_username}

-- The user and the target name of a connection, if the user is there and enabled.
unfoldable pub state_from_context : Db → Text → Option (User × Text)
state_from_context db claimed = elim (split_routed_username claimed) [
  | err e ↦ none
  | ok (username, target) ↦ elim (user_by_name db username) [
    | err e ↦ none
    | ok u ↦ if not u.enabled then none else some (u, target)
  ]
]

-- What a session asks for: `Subsystem`, `RawCommand`, and whether it has a PTY.
pub record Request : Type 0 where
  pub subsystem : Text
  pub raw_command : Text
  pub has_pty : Bool

abbrev passes : {A : Type 0} → ScpResult A → Bool
passes (Scp.ok a) = true
passes (Scp.err e) = false

unfoldable pub allow_session_request : (Text → Option (List Text)) → Request → Text → Bool
allow_session_request shlex_split req typ =
    if text_eq typ (codes "shell")
    then true
    else if text_eq typ (codes "subsystem")
    then text_eq req.subsystem (codes "sftp")
    else if text_eq typ (codes "exec")
    then passes (safe_scp_command shlex_split req.raw_command)
    else false

pub data Protocol : Type 0 where
  shell sftp scp : Protocol

abbrev pub protocol_of : Request → Protocol
protocol_of req =
    if text_eq req.subsystem (codes "sftp")
    then sftp
    else if not (is_empty req.raw_command)
    then scp
    else shell

abbrev pub capability_of : Protocol → Text
capability_of shell = capability_shell
capability_of sftp = capability_sftp
capability_of scp = capability_scp

abbrev pub protocol_name : Protocol → Text
protocol_name shell = codes "shell"
protocol_name sftp = codes "sftp"
protocol_name scp = codes "scp"

abbrev needs_pty : Protocol → Bool
needs_pty shell = true
needs_pty p = false

unfoldable pub load_credential : Env → Db → Target → Result Payload
load_credential env db t =
    if text_eq t.credential_kind credential_stored_key
    then elim t.identity_id [
      | none ↦ err identity_reference_missing
      | some id ↦
          ssh_identity_by_id db id >>= λ i. decrypt_ssh_identity env.aead i.id i.nonce i.ciphertext
    ]
    else decrypt env.aead t.id t.credential_kind t.nonce t.ciphertext

-- The lookup of a target, with the message for a missing one.
abbrev pub available : Result Target → Result Target
available (ok t) = ok t
available (err no_rows) = err target_unavailable
available (err e) = err e

abbrev pub uses_agent : Target → Bool
uses_agent t = text_eq t.credential_kind credential_agent

-- What the client's agent, the target and the encoder of the details answer.
pub record Remote : Type 0 where
  pub opens_agent : Bool
  pub dials : Target → Payload → Bool
  pub proxies : Target → Protocol → Bool
  pub connects : Target → Text → ℕ → Bool
  pub accepts : Bool
  pub end_details : Result (Unit {0}) → Text
  pub forward_details : Text → ℕ → Result (Unit {0}) → Text

-- How far a request went: the target dialled and the credential given to it, and the result.
pub record Course : Type 0 where
  pub db : Db
  pub dialled : Option (Target × Payload)
  pub result : Result (Unit {0})

abbrev pub stopped : Db → Error → Course
stopped db e = record { db = db; dialled = none; result = err e }

abbrev pub permitted : Db → User → Request → Target → Result (Unit {0})
permitted db u req t = do
  guard (can_access_capability db u t.id (capability_of (protocol_of req))) protocol_denied
  guard (not (needs_pty (protocol_of req)) || req.has_pty) pty_required

abbrev connected : Remote → Db → Target → Payload → Protocol → Course
connected remote db t p protocol = record {
  db = db;
  dialled = some (t, p);
  result = do
    guard (remote.dials t p) dial_failed
    guard (remote.proxies t protocol) proxy_failed;
}

-- `handleRouted`, from the lookup of the target to the end of the proxying.
unfoldable pub route : Env → Remote → Db → User → Text → Text → Request → Course
route env remote db u source name req = elim (available (target_by_name db name)) [
  | err e ↦ stopped db e
  | ok t ↦ elim (permitted db u req t) [
    | err e ↦ stopped db e
    | ok _ ↦
        let started =
          log env db
            (record (event (some u.id) u.username source
              (codes "target." ++ protocol_name (protocol_of req) ++ codes ".start")
              (codes "success") []) { target_id = some t.id }) in
        elim (load_credential env started t) [
          | err e ↦ stopped started e
          | ok p ↦
              if uses_agent t && not remote.opens_agent
              then stopped started agent_unavailable
              else connected remote started t p (protocol_of req)
        ]
  ]
]

-- `if target.ID != 0`, of a target that is zero where the lookup failed.
abbrev target_id_of : Result Target → Option ℕ
target_id_of (ok t) = if t.id == 0 then none else some t.id
target_id_of (err e) = none

abbrev pub outcome_of : Result (Unit {0}) → Text
outcome_of (ok _) = codes "success"
outcome_of (err e) = codes "failure"

-- `handleRouted`: the counters before the session and after it, and the course of the session; it
-- exits with status 1 where the result is an error.
unfoldable pub handle_routed :
    Limits → Env → Remote → Sessions → Db → User → Text → Text → Request → Sessions × Course
handle_routed limits env remote s db u source name req =
    let (granted, s') = acquire limits s u.id in
    let c = route env remote db u source name req in
    if not granted then (s', stopped db session_limit) else (
      release s' u.id,
      record c {
        db =
            log env c.db
              (record (event (some u.id) u.username source
                (codes "target." ++ protocol_name (protocol_of req) ++ codes ".end")
                (outcome_of c.result) (remote.end_details c.result)) {
                  target_id = target_id_of (target_by_name db name);
                });
      },
    )

-- `directTCPIPData`, without the origin, which nothing reads.
pub record DirectTcpIpData : Type 0 where
  pub dest_addr : Text
  pub dest_port : ℕ

unfoldable pub audit_forward :
    Env
    → Remote
    → Db
    → User
    → Result Target
    → Text
    → DirectTcpIpData
    → Text
    → Result (Unit {0})
    → Db
audit_forward env remote db u target source r outcome result =
    log env db
      (record (event (some u.id) u.username source (codes "target.tcp_forward") outcome
        (remote.forward_details r.dest_addr r.dest_port result)) {
          target_id = target_id_of target;
        })

-- The checks of `handleDirectTCPIP`.
unfoldable pub forward_target : Db → User → Text → DirectTcpIpData → Result Target
forward_target db u name r = do
  t ← available (target_by_name db name)
  guard (can_access_capability db u t.id capability_forward) forwarding_denied
  guard (forward_allowed db t.id r.dest_addr r.dest_port) destination_denied
  guard (not (uses_agent t)) stored_credential_required
  ok t

-- From the credential to the end of the copying; a channel that the client does not accept is
-- dropped without an event.
abbrev forwarded : Env → Remote → Db → User → Text → DirectTcpIpData → Target → Payload → Course
forwarded env remote db u source r t p =
    let result =
      guard (remote.dials t p) dial_failed
      >> guard (remote.connects t r.dest_addr r.dest_port) dial_failed in
    record {
      db = elim result [
        | err e ↦ audit_forward env remote db u (ok t) source r (codes "failure") (err e)
        | ok _ ↦
            if not remote.accepts
            then db
            else audit_forward env remote db u (ok t) source r (codes "success") (ok tt)
      ];
      dialled = some (t, p);
      result = result >> guard remote.accepts channel_failed;
    }

unfoldable pub forward : Env → Remote → Db → User → Text → DirectTcpIpData → Target → Course
forward env remote db u source r t = elim (load_credential env db t) [
  | err e ↦ stopped (audit_forward env remote db u (ok t) source r (codes "failure") (err e)) e
  | ok p ↦ forwarded env remote db u source r t p
]

-- `handleDirectTCPIP`; the request is `none` where it does not decode.
unfoldable pub handle_direct_tcpip :
    Limits → Env → Remote → Sessions → Db → Text → Text → Option DirectTcpIpData → Sessions × Course
handle_direct_tcpip limits env remote s db claimed source none = (s, stopped db bad_forward_request)
handle_direct_tcpip limits env remote s db claimed source (some r) =
    elim (state_from_context db claimed) [
      | none ↦ (s, stopped db route_required)
      | some (u, name) ↦
          if is_empty name
          then (s, stopped db route_required)
          else elim (forward_target db u name r) [
            | err e ↦ (
              s,
              stopped
                  (audit_forward env remote db u (target_by_name db name) source r (codes "denied")
                    (err e))
                  e,
            )
            | ok t ↦
                let (granted, s') = acquire limits s u.id in
                if not granted
                then (s', stopped db session_limit)
                else (release s' u.id, forward env remote db u source r t)
          ]
    ]
