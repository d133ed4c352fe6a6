-- ===== src/Gateway/Auth/Granted.antt =====
-- internal/gateway/auth.go: what a login that is granted has passed.
use sshgatew.Prelude.{
  ℕ, ◌≡◌, refl, ◌⊎◌, inl, inr, Bool, true, false, List, [], ◌∷◌, Option, none, some, arith,
  Bool-cases, Option-cases, any, find?, find?_sound, ◌&&◌, ◌==◌,
}
use sshgatew.Prelude.Int.{ℤ}
use sshgatew.Prelude.Texts.{text_eq, Text, to_lower, codes}
use sshgatew.Secrets.{decrypt_totp}
use sshgatew.Store.Keys.{authenticate_key}
use sshgatew.Store.Totps.{user_totp, consume_totp_counter}
use sshgatew.Store.Audit.{audit}
use sshgatew.Store.{UserRow, AuditEvent, User, Db, TotpConfig, ok, Result-cases}
use sshgatew.Totp.{validate}
use sshgatew.Gateway.Username.{split_routed_username}
use sshgatew.Gateway.Auth.{
  Env, Permissions, log, verify_totp, authenticate_totp, second_factor, key_login, permissions,
  event,
}

-- One answer came, and it is a code of the user's secret at a counter that the store consumed.
pub record PassedTotp (env : Env) (db : Db) (user now : ℕ) (answers : Option (List Text))
    : Type 0 where
  pub answer : Text
  pub config : TotpConfig
  pub secret : Text
  pub counter : ℤ
  pub db' : Db
  pub answered : answers ≡ some (answer ∷ [])
  pub stored : user_totp db user ≡ ok config
  pub decrypted : decrypt_totp env.aead user config.nonce config.ciphertext ≡ ok secret
  pub valid : validate env.hash secret answer now ≡ some counter
  pub consumed : consume_totp_counter db user counter ≡ ok db'

module _ (env : Env) (db : Db) where
  verify_totp-ok :
      (user now : ℕ) (answer : Text) (db' : Db)
      → verify_totp env db user now answer ≡ ok db'
      → PassedTotp env db user now (some (answer ∷ []))
  unfolding verify_totp
  verify_totp-ok user now answer db' e = elim (Result-cases (user_totp db user)) [
    | inr (f, k) ↦ absurd (ground (arith, k))
    | inl (config, k) ↦
        elim (Result-cases (decrypt_totp env.aead user config.nonce config.ciphertext)) [
          | inr (f, m) ↦ absurd (ground (arith, k, m))
          | inl (secret, m) ↦ elim (Option-cases (validate env.hash secret answer now)) [
            | inl n ↦ absurd (ground (arith, k, m, n))
            | inr (counter, n) ↦ record {
              answer = answer;
              config = config;
              secret = secret;
              counter = counter;
              db' = db';
              answered = refl;
              stored = k;
              decrypted = m;
              valid = n;
              consumed = ground (arith, k, m, n);
            }
          ]
        ]
  ]

  authenticate_totp-ok :
      (u : User) (username source : Text) (now : ℕ) (answers : Option (List Text))
      → (authenticate_totp env db u username source now answers).1 ≡ ok tt
      → PassedTotp env db u.id now answers
  unfolding authenticate_totp
  authenticate_totp-ok u username source now none e = cc
  authenticate_totp-ok u username source now (some []) e = cc
  authenticate_totp-ok u username source now (some (a ∷ b ∷ more)) e = cc
  authenticate_totp-ok u username source now (some (a ∷ [])) e =
      elim (Result-cases (verify_totp env db u.id now a)) [
        | inl (db', k) ↦ verify_totp-ok u.id now a db' k
        | inr (f, k) ↦ absurd (ground (arith, k))
      ]

  pub second_factor-ok :
      (u : User) (p q : Permissions) (source : Text) (now : ℕ) (answers : Option (List Text))
      → (second_factor env db u p source now answers).1 ≡ ok q
      → (q ≡ p) × ((u.totp_enabled ≡ false) ⊎ PassedTotp env db u.id now answers)
  unfolding second_factor
  second_factor-ok u p q source now answers e = elim (Bool-cases u.totp_enabled) [
    | inr off ↦ (ground (arith, off), inl off)
    | inl on ↦ elim (Result-cases (authenticate_totp env db u p.username source now answers).1) [
      | inl (_, k) ↦ (
        ground (arith, on, k),
        inr (authenticate_totp-ok u p.username source now answers (ground (arith, k))),
      )
      | inr (f, k) ↦ absurd (ground (arith, on, k))
    ]
  ]

pub log-totps : (env : Env) (db : Db) (e : AuditEvent) → (log env db e).totps ≡ db.totps
unfolding audit
log-totps env db e = ground arith

-- What the query of `AuthenticateKey` says of the user that it returns.
pub authenticate_key_sound :
    (db : Db) (username fingerprint : Text) (u : User)
    → authenticate_key db username fingerprint ≡ ok u
    → (u.enabled ≡ true)
      × (u.username ≡ to_lower username)
      × (any (λ k. k.user_id == u.id && text_eq k.fingerprint fingerprint) db.keys ≡ true)
      × (u.totp_enabled ≡ any (λ t. t.user_id == u.id) db.totps)
unfolding authenticate_key
authenticate_key_sound db username fingerprint u e =
    let p : UserRow → Bool = λ r.
      text_eq r.username (to_lower username)
      && r.enabled
      && any (λ k. k.user_id == r.id && text_eq k.fingerprint fingerprint) db.keys in
    elim (Option-cases (find? p db.users)) [
      | inl k ↦ absurd (ground (arith, k))
      | inr (r, k) ↦
          let h = find?_sound p db.users r k in
          (ground (arith, k, h), ground (arith, k, h), ground (arith, k, h), ground (arith, k))
    ]

-- A second factor that was asked for only if the user has a secret. The events logged meanwhile do
-- not touch the stored secrets.
abbrev pub SecondFactor : Env → Db → User → ℕ → Option (List Text) → Type 0
SecondFactor env db u now answers =
    (u.totp_enabled ≡ false)
    ⊎ ((db' : Db) × (db'.totps ≡ db.totps) × PassedTotp env db' u.id now answers)

pub record KeyGranted (env : Env) (db : Db) (claimed fingerprint : Text) (now : ℕ)
    (answers : Option (List Text)) (p : Permissions) : Type 0 where
  pub user : User
  pub named : split_routed_username claimed ≡ ok (p.username, p.target)
  pub stored : authenticate_key db p.username fingerprint ≡ ok user
  pub enabled : user.enabled ≡ true
  pub username : user.username ≡ to_lower p.username
  pub has_key : any (λ k. k.user_id == user.id && text_eq k.fingerprint fingerprint) db.keys ≡ true
  pub has_secret : user.totp_enabled ≡ any (λ t. t.user_id == user.id) db.totps
  pub method : p.method ≡ codes "publickey"
  pub factor : SecondFactor env db user now answers

pub factor-after :
    (env : Env) (db db' : Db) (u : User) (now : ℕ) (answers : Option (List Text))
    → db'.totps ≡ db.totps
    → (u.totp_enabled ≡ false) ⊎ PassedTotp env db' u.id now answers
    → SecondFactor env db u now answers
factor-after env db db' u now answers e (inl off) = inl off
factor-after env db db' u now answers e (inr passed) = inr (db', e, passed)

-- A login by key is granted only to the user whom the store finds for the claimed name and the key
-- offered, who is enabled, has that name and owns the key, and, if the store has a TOTP secret of
-- that user, only with one answer that is a valid code of the secret at
-- a counter which the store then consumes.
pub key_login_sound :
    (env : Env) (db : Db) (claimed fingerprint source : Text) (now : ℕ)
    (answers : Option (List Text)) (p : Permissions)
    → (key_login env db claimed fingerprint source now answers).1 ≡ ok p
    → KeyGranted env db claimed fingerprint now answers p
unfolding key_login
key_login_sound env db claimed fingerprint source now answers p e =
    elim (Result-cases (split_routed_username claimed)) [
      | inr (f, k) ↦ absurd (ground (arith, k))
      | inl ((username, target), k) ↦
          elim (Result-cases (authenticate_key db username fingerprint)) [
            | inr (f, m) ↦ absurd (ground (arith, k, m))
            | inl (u, m) ↦
                let details =
                  env.json
                    ((codes "key_fingerprint", fingerprint) ∷ (codes "target", target) ∷ []) in
                let entry =
                  event (some u.id) username source (codes "gateway.auth.key") (codes "success")
                    details in
                let (same, factor) =
                  second_factor-ok env (log env db entry) u
                    (permissions username target (codes "publickey")) p source now answers
                    (ground (arith, k, m)) in
                let (on, name, key, secret) = authenticate_key_sound db username fingerprint u m in
                record {
                  user = u;
                  named = rw same k;
                  stored = rw same m;
                  enabled = on;
                  username = rw same name;
                  has_key = key;
                  has_secret = secret;
                  method = rw same;
                  factor =
                      factor-after env db (log env db entry) u now answers (log-totps env db entry)
                        factor;
                }
          ]
    ]
