-- ===== src/Gateway/Routing/Permitted.antt =====
-- internal/gateway/routing.go: a target is dialled only for a request that passed every check.
use sshgatew.Prelude.{
  ℕ, ◌+◌, ◌-◌, ◌∙◌, ◌++◌, ◌≡◌, inl, inr, true, false, [], some, arith, Bool-cases, Option-cases,
}
use sshgatew.Prelude.Texts.{Text, codes, text_eq, is_empty}
use sshgatew.Secrets.{Payload}
use sshgatew.Store.Audit.{audit}
use sshgatew.Store.Forwards.{forward_allowed}
use sshgatew.Store.Grants.{can_access_capability}
use sshgatew.Store.Identities.{ssh_identity_by_id}
use sshgatew.Store.Targets.{target_by_name}
use sshgatew.Store.{
  User, Target, Db, AuditEvent, Result, ok, err, Result-cases, no_rows, credential_agent,
  capability_forward,
}
use sshgatew.Gateway.Auth.{Env, event, log}
use sshgatew.Gateway.Sessions.{Limits, Sessions, sessions_of, set_sessions, acquire, release}
use sshgatew.Gateway.Sessions.Counts.{sessions_of-set, sessions_of-remove}
use sshgatew.Gateway.Routing.{
  Request, protocol_name, shell, Remote, DirectTcpIpData, protocol_of, capability_of, permitted,
  available, load_credential, route, handle_routed, state_from_context, forward_target, forward,
  handle_direct_tcpip,
}

-- What a request for a session at a target has passed when the target is dialled with a credential.
pub record RoutedDial (limits : Limits) (env : Env) (remote : Remote) (s : Sessions) (db : Db)
    (u : User) (name : Text) (req : Request) (t : Target) (p : Payload) : Type 0 where
  pub within : (acquire limits s u.id).0 ≡ true
  pub found : target_by_name db name ≡ ok t
  pub allowed : can_access_capability db u t.id (capability_of (protocol_of req)) ≡ true
  pub pty : protocol_of req ≡ shell → req.has_pty ≡ true
  pub credential : load_credential env db t ≡ ok p
  pub agent : t.credential_kind ≡ credential_agent → remote.opens_agent ≡ true

log-identities : (env : Env) (db : Db) (e : AuditEvent) → (log env db e).identities ≡ db.identities
unfolding audit
log-identities env db e = ground arith

same_identities :
    (db db' : Db) (id : ℕ)
    → db'.identities ≡ db.identities
    → ssh_identity_by_id db' id ≡ ssh_identity_by_id db id
unfolding ssh_identity_by_id
same_identities db db' id e = rw e

-- A credential is read from the target and the shared keys alone.
same_identities-credential :
    (env : Env) (db db' : Db) (t : Target)
    → db'.identities ≡ db.identities
    → load_credential env db' t ≡ load_credential env db t
unfolding load_credential
same_identities-credential env db db' t e = elim (Option-cases t.identity_id) [
  | inl k ↦ ground (arith, k)
  | inr (id, k) ↦ ground (arith, k, same_identities db db' id e)
]

pub log-credential :
    (env : Env) (db : Db) (e : AuditEvent) (t : Target)
    → load_credential env (log env db e) t ≡ load_credential env db t
log-credential env db e t =
    same_identities-credential env db (log env db e) t (log-identities env db e)

available-ok : (r : Result Target) (t : Target) → available r ≡ ok t → r ≡ ok t
available-ok (ok x) t e = e
available-ok (err no_rows) t e = cc
available-ok (err f) t e = e

permitted_sound :
    (db : Db) (u : User) (req : Request) (t : Target)
    → permitted db u req t ≡ ok tt
    → (can_access_capability db u t.id (capability_of (protocol_of req)) ≡ true)
      × (protocol_of req ≡ shell → req.has_pty ≡ true)
permitted_sound db u req t e = (ground arith, λ k. ground (arith, k))

abbrev start_event : User → Text → Request → Target → AuditEvent
start_event u source req t =
    record (event (some u.id) u.username source
      (codes "target." ++ protocol_name (protocol_of req) ++ codes ".start") (codes "success") []) {
        target_id = some t.id;
      }

route_sound :
    (limits : Limits) (env : Env) (remote : Remote) (s : Sessions) (db : Db) (u : User)
    (source name : Text) (req : Request) (t : Target) (p : Payload)
    → (acquire limits s u.id).0 ≡ true
    → (route env remote db u source name req).dialled ≡ some (t, p)
    → RoutedDial limits env remote s db u name req t p
unfolding route
route_sound limits env remote s db u source name req t p granted e =
    elim (Result-cases (available (target_by_name db name))) [
      | inr (f, k) ↦ absurd (ground (arith, k))
      | inl (t', k) ↦ elim (Result-cases (permitted db u req t')) [
        | inr (f, m) ↦ absurd (ground (arith, k, m))
        | inl (_, m) ↦
            let credential = log-credential env db (start_event u source req t') t' in
            elim (Result-cases (load_credential env db t')) [
              | inr (f, n) ↦ absurd (ground (arith, k, m, credential ∙ n))
              | inl (p', n) ↦
                  let same : t' ≡ t = ground (arith, k, m, credential ∙ n) in
                  let given : p' ≡ p = ground (arith, k, m, credential ∙ n) in
                  let (allowed, pty) = permitted_sound db u req t' m in
                  record {
                    within = granted;
                    found = rw (← same) (available-ok (target_by_name db name) t' k);
                    allowed = rw (← same) allowed;
                    pty = pty;
                    credential = rw (← same, ← given) n;
                    agent = λ a. ground (arith, k, m, credential ∙ n, a, same);
                  }
            ]
      ]
    ]

-- A target is dialled for a session only if the session limits admitted it, the target is there, the
-- user has the capability of the protocol asked for at that target, a shell has a PTY, the
-- credential given is the one stored for that target, and a forwarded agent was opened if the target
-- uses one.
pub handle_routed_sound :
    (limits : Limits) (env : Env) (remote : Remote) (s : Sessions) (db : Db) (u : User)
    (source name : Text) (req : Request) (t : Target) (p : Payload)
    → (handle_routed limits env remote s db u source name req).1.dialled ≡ some (t, p)
    → RoutedDial limits env remote s db u name req t p
unfolding handle_routed
handle_routed_sound limits env remote s db u source name req t p e =
    elim (Bool-cases (acquire limits s u.id).0) [
      | inl k ↦ route_sound limits env remote s db u source name req t p k (ground (arith, k))
      | inr k ↦ absurd (ground (arith, k))
    ]

-- What a request for a forwarding has passed when a target is dialled with a credential.
pub record ForwardDial (limits : Limits) (env : Env) (s : Sessions) (db : Db) (claimed : Text)
    (r : DirectTcpIpData) (t : Target) (p : Payload) : Type 0 where
  pub user : User
  pub name : Text
  pub state : state_from_context db claimed ≡ some (user, name)
  pub routed : is_empty name ≡ false
  pub found : target_by_name db name ≡ ok t
  pub granted : can_access_capability db user t.id capability_forward ≡ true
  pub destination : forward_allowed db t.id r.dest_addr r.dest_port ≡ true
  pub no_agent : text_eq t.credential_kind credential_agent ≡ false
  pub within : (acquire limits s user.id).0 ≡ true
  pub credential : load_credential env db t ≡ ok p

forward_target_sound :
    (db : Db) (u : User) (name : Text) (r : DirectTcpIpData) (t : Target)
    → forward_target db u name r ≡ ok t
    → (target_by_name db name ≡ ok t)
      × (can_access_capability db u t.id capability_forward ≡ true)
      × (forward_allowed db t.id r.dest_addr r.dest_port ≡ true)
      × (text_eq t.credential_kind credential_agent ≡ false)
unfolding forward_target
forward_target_sound db u name r t e = elim (Result-cases (available (target_by_name db name))) [
  | inr (f, k) ↦ absurd (ground (arith, k))
  | inl (t', k) ↦
      let same : t' ≡ t = ground (arith, k) in
      (
        rw (← same) (available-ok (target_by_name db name) t' k),
        ground (arith, k, same),
        ground (arith, k, same),
        ground (arith, k, same),
      )
]

forward_sound :
    (env : Env) (remote : Remote) (db : Db) (u : User) (source : Text) (r : DirectTcpIpData)
    (t t' : Target) (p : Payload)
    → (forward env remote db u source r t').dialled ≡ some (t, p)
    → (t' ≡ t) × (load_credential env db t ≡ ok p)
unfolding forward
forward_sound env remote db u source r t t' p e = elim (Result-cases (load_credential env db t')) [
  | inr (f, k) ↦ absurd (ground (arith, k))
  | inl (p', k) ↦
      let same : t' ≡ t = ground (arith, k) in
      let given : p' ≡ p = ground (arith, k) in (same, rw (← same, ← given) k)
]

-- A target is dialled for a TCP forwarding only if the connection is one of an enabled user to a
-- named target, the target is there, the user has the forwarding capability at it, the destination
-- is allowed for it, it uses no forwarded agent, the session limits admitted the forwarding, and the
-- credential given is the one stored for that target.
pub handle_direct_tcpip_sound :
    (limits : Limits) (env : Env) (remote : Remote) (s : Sessions) (db : Db) (claimed source : Text)
    (r : DirectTcpIpData) (t : Target) (p : Payload)
    → (handle_direct_tcpip limits env remote s db claimed source (some r)).1.dialled ≡ some (t, p)
    → ForwardDial limits env s db claimed r t p
unfolding handle_direct_tcpip
handle_direct_tcpip_sound limits env remote s db claimed source r t p e =
    elim (Option-cases (state_from_context db claimed)) [
      | inl k ↦ absurd (ground (arith, k))
      | inr ((u, name), k) ↦ elim (Result-cases (forward_target db u name r)) [
        | inr (f, m) ↦ absurd (ground (arith, k, m))
        | inl (t', m) ↦
            let (same, credential) =
              forward_sound env remote db u source r t t' p (ground (arith, k, m)) in
            let (found, granted, destination, no_agent) =
              forward_target_sound db u name r t (rw same at m) in
            record {
              user = u;
              name = name;
              state = k;
              routed = ground (arith, k, m);
              found = found;
              granted = granted;
              destination = destination;
              no_agent = no_agent;
              within = ground (arith, k, m);
              credential = credential;
            }
      ]
    ]

acquire-release :
    (l : Limits) (s : Sessions) (id j : ℕ)
    → (acquire l s id).0 ≡ true
    → ((release (acquire l s id).1 id).total ≡ s.total)
      × (sessions_of j (release (acquire l s id).1 id).per_user ≡ sessions_of j s.per_user)
unfolding acquire release
acquire-release l s id j e =
    let more = set_sessions id (sessions_of id s.per_user + 1) s.per_user in
    let less = set_sessions id (sessions_of id more - 1) more in
    (
      ground arith,
      ground (
        arith,
        sessions_of-set id id (sessions_of id s.per_user + 1) s.per_user,
        sessions_of-set id j (sessions_of id s.per_user + 1) s.per_user,
        sessions_of-set id id (sessions_of id more - 1) more,
        sessions_of-set id j (sessions_of id more - 1) more,
        sessions_of-remove id j less,
      ),
    )

refused :
    (l : Limits) (s : Sessions) (id j : ℕ)
    → (acquire l s id).0 ≡ false
    → ((acquire l s id).1.total ≡ s.total)
      × (sessions_of j (acquire l s id).1.per_user ≡ sessions_of j s.per_user)
unfolding acquire
refused l s id j k = (ground arith, ground arith)

-- However a routed session ends, refused or run, with or without an error, the total and each user's
-- count of sessions are afterwards what they were before.
pub handle_routed-sessions :
    (limits : Limits) (env : Env) (remote : Remote) (s : Sessions) (db : Db) (u : User)
    (source name : Text) (req : Request) (j : ℕ)
    → ((handle_routed limits env remote s db u source name req).0.total ≡ s.total)
      × (sessions_of j (handle_routed limits env remote s db u source name req).0.per_user
          ≡ sessions_of j s.per_user)
unfolding handle_routed
handle_routed-sessions limits env remote s db u source name req j =
    elim (Bool-cases (acquire limits s u.id).0) [
      | inl k ↦ rw k (acquire-release limits s u.id j k)
      | inr k ↦ rw k (refused limits s u.id j k)
    ]
