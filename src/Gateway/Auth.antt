-- ===== src/Gateway/Auth.antt =====
-- internal/gateway/auth.go: logins by key, by OIDC and by the TOTP code after either. The client's
-- answers, the clock and the OIDC provider are arguments; `Env` holds what comes from other packages.
pub mod Granted
pub mod Linked
use sshgatew.Prelude.{
  ℕ, Bool, true, false, not, ◌&&◌, ◌||◌, List, [], ◌∷◌, Option, none, some, leb, if◌then◌else◌,
}
use sshgatew.Prelude.Lists.{length}
use sshgatew.Prelude.Int.{ℤ}
use sshgatew.Prelude.Texts.{Text, codes, is_empty}
use sshgatew.Secrets.{Aead, decrypt_totp}
use sshgatew.Store.Audit.{audit}
use sshgatew.Store.Keys.{authenticate_key}
use sshgatew.Store.Oidc.{authenticate_oidc}
use sshgatew.Store.Totps.{user_totp, consume_totp_counter}
use sshgatew.Store.Users.{user_by_name}
use sshgatew.Store.{
  User, Db, AuditEvent, TotpConfig, Error, Result, ok, err, ◌>>=◌, ◌>>◌, after, permission_denied,
  totp_required, totp_invalid, oidc_unavailable, oidc_cancelled, oidc_unverified, oidc_not_linked,
}
use sshgatew.Totp.{Hash, validate}
use sshgatew.Gateway.Username.{split_routed_username}

-- `json` encodes the details of an audit event, `is_object` and `is_utf8` are `encoding/json` and
-- `unicode/utf8`.
pub record Env : Type 0 where
  pub aead : Aead
  pub hash : Hash
  pub json : List (Text × Text) → Text
  pub is_object : Text → Bool
  pub is_utf8 : Text → Bool
  pub issuer : Text

-- `authPermissions`, the extensions that the session reads.
pub record Permissions : Type 0 where
  pub username : Text
  pub target : Text
  pub method : Text

abbrev pub event : Option ℕ → Text → Text → Text → Text → Text → AuditEvent
event actor username source type outcome details = record {
  id = 0;
  actor_user_id = actor;
  claimed_username = username;
  source_address = source;
  event_type = type;
  target_id = none;
  outcome = outcome;
  details = details;
}

-- `_ = s.store.Audit(…)`: an event that the store refuses is dropped.
abbrev pub log : Env → Db → AuditEvent → Db
log env db e = after db (audit env.is_object db e)

abbrev pub audit_totp : Env → Db → User → Text → Text → Text → Db
audit_totp env db u username source outcome =
    log env db (event (some u.id) username source (codes "gateway.auth.totp") outcome [])

unfoldable pub valid_oidc_subject : Env → Text → Bool
valid_oidc_subject env subject =
    not (is_empty subject) && leb (length subject) 512 && env.is_utf8 subject

abbrev pub audit_oidc : Env → Db → Option ℕ → Text → Text → Text → Text → Text → Db
audit_oidc env db actor username source target subject outcome =
    let details = (codes "issuer", env.issuer) ∷ (codes "target", target) ∷ [] in
    log env db (
      event actor username source (codes "gateway.auth.oidc") outcome (
        env.json (
          if valid_oidc_subject env subject
          then (codes "subject", subject) ∷ details
          else details)))

-- `totp.Validate` and what follows it.
abbrev pub consume_valid : Db → ℕ → Option ℤ → Result Db
consume_valid db user none = err totp_invalid
consume_valid db user (some counter) = consume_totp_counter db user counter

-- The steps from the stored secret to the consumed counter.
unfoldable pub verify_totp : Env → Db → ℕ → ℕ → Text → Result Db
verify_totp env db user_id now answer = do
  config ← user_totp db user_id
  secret ← decrypt_totp env.aead user_id config.nonce config.ciphertext
  consume_valid db user_id (validate env.hash secret answer now)

-- The database with the outcome written, and whether the code was accepted. `answers` is what the
-- client sent to the prompt, `none` if the prompt failed.
unfoldable pub authenticate_totp :
    Env → Db → User → Text → Text → ℕ → Option (List Text) → Db × Result (Unit {0})
authenticate_totp env db u username source now none =
    (audit_totp env db u username source (codes "denied"), err totp_required)
authenticate_totp env db u username source now (some []) =
    (audit_totp env db u username source (codes "denied"), err totp_required)
authenticate_totp env db u username source now (some (a ∷ b ∷ more)) =
    (audit_totp env db u username source (codes "denied"), err totp_required)
authenticate_totp env db u username source now (some (answer ∷ [])) =
    elim (verify_totp env db u.id now answer) [
      | err e ↦ (audit_totp env db u username source (codes "denied"), err totp_invalid)
      | ok db' ↦ (audit_totp env db' u username source (codes "success"), ok tt)
    ]

abbrev granting : Permissions → Db × Result (Unit {0}) → Db × Result Permissions
granting p (db, ok _) = (db, ok p)
granting p (db, err e) = (db, err e)

-- The TOTP step, where the user has a secret.
unfoldable pub second_factor :
    Env → Db → User → Permissions → Text → ℕ → Option (List Text) → Db × Result Permissions
second_factor env db u p source now answers =
    if not u.totp_enabled
    then (db, ok p)
    else granting p (authenticate_totp env db u p.username source now answers)

abbrev pub permissions : Text → Text → Text → Permissions
permissions username target method = record {
  username = username;
  target = target;
  method = method;
}

-- The callbacks of `serverConfig`: the key, then the TOTP code if the user has a secret.
unfoldable pub key_login :
    Env → Db → Text → Text → Text → ℕ → Option (List Text) → Db × Result Permissions
key_login env db claimed fingerprint source now answers = elim (split_routed_username claimed) [
  | err e ↦ (db, err e)
  | ok (username, target) ↦
      let details =
        env.json ((codes "key_fingerprint", fingerprint) ∷ (codes "target", target) ∷ []) in
      elim (authenticate_key db username fingerprint) [
        | err e ↦ (
          log env db
              (event none username source (codes "gateway.auth.key") (codes "denied") details),
          err permission_denied,
        )
        | ok u ↦
            second_factor env
              (log env db (
                event (some u.id) username source (codes "gateway.auth.key") (codes "success")
                  details))
              u (permissions username target (codes "publickey")) source now answers
      ]
]

-- What the provider and the client do in one OIDC login: the device authorisation begins or not,
-- the client confirms with one answer or not, and the provider returns an identity or not.
pub record Provider : Type 0 where
  pub begins : Bool
  pub confirmation : Option (List Text)
  pub identity : Option (Text × Text)

abbrev pub is_confirmed : Option (List Text) → Bool
is_confirmed (some (a ∷ [])) = true
is_confirmed a = false

-- `authenticateOIDC`; `answers` is what the client sends to the TOTP prompt.
unfoldable pub oidc_login :
    Env → Db → Text → Text → Provider → ℕ → Option (List Text) → Db × Result Permissions
oidc_login env db claimed source provider now answers = elim (split_routed_username claimed) [
  | err e ↦ (db, err permission_denied)
  | ok (username, target) ↦ elim (user_by_name db username) [
    | err e ↦
        (audit_oidc env db none username source target [] (codes "denied"), err permission_denied)
    | ok u ↦
        if not u.enabled
        then (
          audit_oidc env db none username source target [] (codes "denied"),
          err permission_denied,
        )
        else if not provider.begins
        then (
          audit_oidc env db (some u.id) username source target [] (codes "failure"),
          err oidc_unavailable,
        )
        else if not (is_confirmed provider.confirmation)
        then (
          audit_oidc env db (some u.id) username source target [] (codes "denied"),
          err oidc_cancelled,
        )
        else elim provider.identity [
          | none ↦ (
            audit_oidc env db (some u.id) username source target [] (codes "denied"),
            err oidc_unverified,
          )
          | some (subject, name) ↦
              if not (valid_oidc_subject env subject)
              then (
                audit_oidc env db (some u.id) username source target subject (codes "denied"),
                err oidc_unverified,
              )
              else elim (authenticate_oidc db username env.issuer subject name) [
                | err e ↦ (
                  audit_oidc env db (some u.id) username source target subject (codes "denied"),
                  err oidc_not_linked,
                )
                | ok (mapped, db') ↦
                    second_factor env
                      (audit_oidc env db' (some u.id) username source target subject
                        (codes "success"))
                      mapped (permissions username target (codes "oidc")) source now answers
              ]
        ]
  ]
]

abbrev attempt_done : Db × Result Permissions → Bool × Db × Option Permissions
attempt_done (db, ok p) = (true, db, some p)
attempt_done (db, err e) = (true, db, none)

-- `keyboardInteractive`: OIDC must be configured, and one connection has one attempt. The Boolean
-- state is the context's mark that an attempt was made.
unfoldable pub keyboard_interactive :
    Bool
    → Env
    → Db
    → Bool
    → Text
    → Text
    → Provider
    → ℕ
    → Option (List Text)
    → Bool × Db × Option Permissions
keyboard_interactive configured env db attempted claimed source provider now answers =
    if not configured || attempted
    then (attempted, db, none)
    else attempt_done (oidc_login env db claimed source provider now answers)
