-- ===== src/Secrets.antt =====
-- internal/secrets/secrets.go: the encryption of credentials. Parameters: XChaCha20-Poly1305 under
-- the master key (`seal`, `open_sealed`), the nonces that `crypto/rand` gives, and the JSON codec.
pub mod Binding
use sshgatew.Prelude.{
  ℕ, ◌≡◌, ◌≢◌, Bool, List, [], ◌∷◌, ◌++◌, Option, none, some, not, ◌==◌, if◌then◌else◌,
}
use sshgatew.Prelude.Decimal.{decimal}
use sshgatew.Prelude.Texts.{Text, codes, is_empty}
use sshgatew.Store.{
  Result, ok, err, ◌>>=◌, ◌>>◌, guard, encryption_failed, authentication_failed, corrupt_payload,
  bad_payload_version, empty_totp,
}

pub record Payload : Type 0 where
  pub version : ℕ
  pub password : Text
  pub private_key : Text
  pub public_key : Text
  pub passphrase : Text
  pub totp_secret : Text

-- What the cipher uses of other packages, under one master key. `open_sealed` is `none` where the text
-- fails to authenticate, and where Go's function panics, at a nonce of the wrong length.
pub record Aead : Type 0 where
  pub seal : Text → Text → Text → Text
  pub open_sealed : Text → Text → Text → Option Text
  pub marshal : Payload → Option Text
  pub unmarshal : Text → Option Payload

-- The documented behaviour: what was sealed fails to authenticate under other associated data.
pub record IsAuthentic (c : Aead) : Type 0 where
  pub rejects :
      (nonce plain ad ad' : Text)
      → ad ≢ ad'
      → c.open_sealed nonce (c.seal nonce plain ad) ad' ≡ none

unfoldable pub aad : ℕ → Text → Text
aad target_id kind = codes "sshgatew:credential:v1:" ++ (decimal target_id ++ b':' ∷ kind)

unfoldable pub identity_aad : ℕ → Text
identity_aad identity_id = codes "sshgatew:ssh-identity:v1:" ++ decimal identity_id

unfoldable pub totp_aad : ℕ → Text
totp_aad user_id = codes "sshgatew:user-totp:v1:" ++ decimal user_id

abbrev pub empty_payload : Payload
empty_payload = record {
  version = 0;
  password = [];
  private_key = [];
  public_key = [];
  passphrase = [];
  totp_secret = [];
}

module _ (c : Aead) where
  -- The nonce is an argument; the result is the nonce and the ciphertext.
  unfoldable pub encrypt_with : Text → Payload → Text → Result (Text × Text)
  encrypt_with nonce p ad = elim (c.marshal (record p { version = 1 })) [
    | none ↦ err encryption_failed
    | some plain ↦ ok (nonce, c.seal nonce plain ad)
  ]

  unfoldable pub decrypt_with : Text → Text → Text → Result Payload
  decrypt_with nonce ciphertext ad = elim (c.open_sealed nonce ciphertext ad) [
    | none ↦ err authentication_failed
    | some plain ↦ elim (c.unmarshal plain) [
      | none ↦ err corrupt_payload
      | some p ↦ if p.version == 1 then ok p else err bad_payload_version
    ]
  ]

  unfoldable pub encrypt : Text → ℕ → Text → Payload → Result (Text × Text)
  encrypt nonce target_id kind p = encrypt_with nonce p (aad target_id kind)

  unfoldable pub decrypt : ℕ → Text → Text → Text → Result Payload
  decrypt target_id kind nonce ciphertext = decrypt_with nonce ciphertext (aad target_id kind)

  unfoldable pub encrypt_ssh_identity : Text → ℕ → Payload → Result (Text × Text)
  encrypt_ssh_identity nonce id p = encrypt_with nonce p (identity_aad id)

  unfoldable pub decrypt_ssh_identity : ℕ → Text → Text → Result Payload
  decrypt_ssh_identity id nonce ciphertext = decrypt_with nonce ciphertext (identity_aad id)

  unfoldable pub encrypt_totp : Text → ℕ → Text → Result (Text × Text)
  encrypt_totp nonce user_id secret =
      encrypt_with nonce (record empty_payload { totp_secret = secret }) (totp_aad user_id)

  unfoldable pub decrypt_totp : ℕ → Text → Text → Result Text
  decrypt_totp user_id nonce ciphertext = do
    p ← decrypt_with nonce ciphertext (totp_aad user_id)
    guard (not (is_empty p.totp_secret)) empty_totp
    ok p.totp_secret
