-- ===== src/Gateway/Auth/Linked.antt =====
-- internal/gateway/auth.go: what an OIDC login that is granted has passed.
use sshgatew.Prelude.{
  ℕ, ◌≡◌, inl, inr, true, List, [], ◌∷◌, Option, some, arith, Option-cases, if◌then◌else◌,
}
use sshgatew.Prelude.Texts.{Text, to_lower, trim_space, codes}
use sshgatew.Store.Users.{user_by_name}
use sshgatew.Store.Oidc.{OidcValues, normalize_oidc_values, authenticate_oidc}
use sshgatew.Store.Bindings.{bound, steps, authenticate_oidc_sound}
use sshgatew.Store.{User, AuditEvent, Db, ok, Result-cases}
use sshgatew.Gateway.Username.{split_routed_username}
use sshgatew.Gateway.Auth.Granted.{SecondFactor, second_factor-ok, factor-after, log-totps}
use sshgatew.Gateway.Auth.{
  Env, Permissions, Provider, log, event, permissions, second_factor, oidc_login,
  valid_oidc_subject, is_confirmed,
}

pub record OidcGranted (env : Env) (db : Db) (claimed : Text) (provider : Provider) (now : ℕ)
    (answers : Option (List Text)) (p : Permissions) : Type 0 where
  pub user : User
  pub subject : Text
  pub name : Text
  pub values : OidcValues
  pub db' : Db
  pub named : split_routed_username claimed ≡ ok (p.username, p.target)
  pub begins : provider.begins ≡ true
  pub confirmed : is_confirmed provider.confirmation ≡ true
  pub identity : provider.identity ≡ some (subject, name)
  pub normalised : normalize_oidc_values env.issuer subject name ≡ ok values
  pub enabled : user.enabled ≡ true
  pub username : user.username ≡ to_lower (trim_space p.username)
  pub linked : authenticate_oidc db p.username env.issuer subject name ≡ ok (user, db')
  pub bound_to : bound db' values.issuer values.subject ≡ some user.id
  pub method : p.method ≡ codes "oidc"
  pub factor : SecondFactor env db' user now answers

-- An accepted identity, up to the second factor.
linked_login :
    (env : Env) (db : Db) (claimed source : Text) (provider : Provider) (now : ℕ)
    (answers : Option (List Text)) (p : Permissions) (username target subject name : Text)
    (u : User) (db' : Db) (entry : AuditEvent)
    → split_routed_username claimed ≡ ok (username, target)
    → provider.begins ≡ true
    → is_confirmed provider.confirmation ≡ true
    → provider.identity ≡ some (subject, name)
    → authenticate_oidc db username env.issuer subject name ≡ ok (u, db')
    → (second_factor env
        (log env db' entry)
        u
        (permissions username target (codes "oidc"))
        source
        now
        answers).1
      ≡ ok p
    → OidcGranted env db claimed provider now answers p
linked_login env db claimed source provider now answers p username target subject name u db' entry
      named begins confirmed identity linked granted =
    let (same, factor) =
      second_factor-ok env (log env db' entry) u (permissions username target (codes "oidc")) p
        source now answers granted in
    let (v, _, n, _, _, _, _, _) = steps db username env.issuer subject name u db' linked in
    let (on, who, bind) =
      authenticate_oidc_sound db username env.issuer subject name u db' linked v n in
    record {
      user = u;
      subject = subject;
      name = name;
      values = v;
      db' = db';
      named = rw same named;
      begins = begins;
      confirmed = confirmed;
      identity = identity;
      normalised = n;
      enabled = on;
      username = rw same who;
      linked = rw same linked;
      bound_to = bind;
      method = rw same;
      factor =
          factor-after env db' (log env db' entry) u now answers (log-totps env db' entry) factor;
    }

-- A login by OIDC is granted only if the provider began the device authorisation, the client
-- confirmed with one answer, and the provider returned an identity which the store links to an
-- enabled user of the claimed name; the identity is bound to that user afterwards, and a user with a
-- TOTP secret has passed the second factor.
pub oidc_login_sound :
    (env : Env) (db : Db) (claimed source : Text) (provider : Provider) (now : ℕ)
    (answers : Option (List Text)) (p : Permissions)
    → (oidc_login env db claimed source provider now answers).1 ≡ ok p
    → OidcGranted env db claimed provider now answers p
unfolding oidc_login
oidc_login_sound env db claimed source provider now answers p e =
    elim (Result-cases (split_routed_username claimed)) [
      | inr (f, k) ↦ absurd (ground (arith, k))
      | inl ((username, target), k) ↦ elim (Result-cases (user_by_name db username)) [
        | inr (f, m) ↦ absurd (ground (arith, k, m))
        | inl (u, m) ↦ elim (Option-cases provider.identity) [
          | inl n ↦ absurd (ground (arith, k, m, n))
          | inr ((subject, name), n) ↦
              elim (Result-cases (authenticate_oidc db username env.issuer subject name)) [
                | inr (f, a) ↦ absurd (ground (arith, k, m, n, a))
                | inl ((mapped, db'), a) ↦
                    let details = (codes "issuer", env.issuer) ∷ (codes "target", target) ∷ [] in
                    let entry =
                      event (some u.id) username source (codes "gateway.auth.oidc")
                        (codes "success")
                        (env.json (
                          if valid_oidc_subject env subject
                          then (codes "subject", subject) ∷ details
                          else details)) in
                    linked_login env db claimed source provider now answers p username target
                      subject name mapped db' entry k (ground (arith, k, m, n, a))
                      (ground (arith, k, m, n, a)) n a (ground (arith, k, m, n, a))
              ]
        ]
      ]
    ]
