-- ===== src/Secrets/Binding.antt =====
-- internal/secrets/secrets.go: a ciphertext opens for the use that it was made for, and no other.
use sshgatew.Prelude.{
  ℕ, ◌≡◌, ◌≢◌, refl, sym, ap, ◌∙◌, inl, inr, true, [], ◌∷◌, ◌++◌, some, arith, Option-cases,
}
use sshgatew.Prelude.Decimal.{decimal, is_digit, value_from, decimal-value, decimal-digits}
use sshgatew.Prelude.Lists.{all}
use sshgatew.Prelude.Texts.{Text, codes}
use sshgatew.Store.{Result, ok, err, authentication_failed}
use sshgatew.Secrets.{
  Aead, IsAuthentic, Payload, aad, identity_aad, totp_aad, empty_payload, encrypt_with,
  decrypt_with, encrypt, decrypt, encrypt_ssh_identity, decrypt_ssh_identity, encrypt_totp,
}

-- The three uses of the cipher.
pub data Use : Type 0 where
  credential : (target_id : ℕ) (kind : Text) → Use
  ssh_identity : (identity_id : ℕ) → Use
  user_totp : (user_id : ℕ) → Use

abbrev pub use_aad : Use → Text
use_aad (credential i k) = aad i k
use_aad (ssh_identity i) = identity_aad i
use_aad (user_totp i) = totp_aad i

colon_split :
    (a b k l : Text)
    → all is_digit a ≡ true
    → all is_digit b ≡ true
    → a ++ b':' ∷ k ≡ b ++ b':' ∷ l
    → (a ≡ b) × (k ≡ l)
unfolding all is_digit
colon_split [] [] k l ha hb e = ground arith
colon_split [] (d ∷ b) k l ha hb e = ground arith
colon_split (c ∷ a) [] k l ha hb e = ground arith
colon_split (c ∷ a) (d ∷ b) k l ha hb e = ground (arith, colon_split a b k l)

decimal-injective : (m n : ℕ) → decimal m ≡ decimal n → m ≡ n
decimal-injective m n e = sym (decimal-value m) ∙ ap (value_from 0) e ∙ decimal-value n

append-injective : (p a b : Text) → p ++ a ≡ p ++ b → a ≡ b
append-injective [] a b e = e
append-injective (c ∷ p) a b e = append-injective p a b (cc)

use_aad-injective : (u v : Use) → use_aad u ≡ use_aad v → u ≡ v
unfolding aad identity_aad totp_aad
use_aad-injective (credential i k) (credential j l) e =
    let (ids, kinds) =
      colon_split (decimal i) (decimal j) k l (decimal-digits i) (decimal-digits j)
        (append-injective (codes "sshgatew:credential:v1:") _ _ e) in
    rw (decimal-injective i j ids, kinds)
use_aad-injective (ssh_identity i) (ssh_identity j) e =
    rw (decimal-injective i j (append-injective (codes "sshgatew:ssh-identity:v1:") _ _ e))
use_aad-injective (user_totp i) (user_totp j) e =
    rw (decimal-injective i j (append-injective (codes "sshgatew:user-totp:v1:") _ _ e))
use_aad-injective (credential i k) (ssh_identity j) e = ground arith
use_aad-injective (credential i k) (user_totp j) e = ground arith
use_aad-injective (ssh_identity i) (credential j l) e = ground arith
use_aad-injective (ssh_identity i) (user_totp j) e = ground arith
use_aad-injective (user_totp i) (credential j l) e = ground arith
use_aad-injective (user_totp i) (ssh_identity j) e = ground arith

module _ (c : Aead) where
  -- `Encrypt` and its two kin, and `Decrypt` and its two kin up to the payload, by their use.
  abbrev pub encrypt_for : Use → Text → Payload → Result (Text × Text)
  encrypt_for (credential i k) nonce p = encrypt c nonce i k p
  encrypt_for (ssh_identity i) nonce p = encrypt_ssh_identity c nonce i p
  encrypt_for (user_totp i) nonce p = encrypt_totp c nonce i p.totp_secret

  abbrev pub decrypt_for : Use → Text → Text → Result Payload
  decrypt_for (credential i k) nonce ct = decrypt c i k nonce ct
  decrypt_for (ssh_identity i) nonce ct = decrypt_ssh_identity c i nonce ct
  decrypt_for (user_totp i) nonce ct = decrypt_with c nonce ct (totp_aad i)

  -- The payload that is encrypted: the version is 1, and a TOTP payload holds its secret alone.
  abbrev pub sealed_payload : Use → Payload → Payload
  sealed_payload (user_totp i) p = record empty_payload { version = 1; totp_secret = p.totp_secret }
  sealed_payload u p = record p { version = 1 }

module _ (c : Aead) (auth : IsAuthentic c) where
  encrypted_with :
      (nonce n ct ad : Text) (p : Payload)
      → encrypt_with c nonce p ad ≡ ok (n, ct)
      → (plain : Text) × (c.marshal (record p { version = 1 }) ≡ some plain)
        × (n ≡ nonce)
        × (ct ≡ c.seal nonce plain ad)
  unfolding encrypt_with
  encrypted_with nonce n ct ad p e = elim (Option-cases (c.marshal (record p { version = 1 }))) [
    | inl k ↦ absurd (ground (arith, k))
    | inr (plain, k) ↦ (plain, k, ground (arith, k), ground (arith, k))
  ]

  encrypted :
      (u : Use) (nonce n ct : Text) (p : Payload)
      → encrypt_for c u nonce p ≡ ok (n, ct)
      → (plain : Text) × (c.marshal (sealed_payload c u p) ≡ some plain)
        × (n ≡ nonce)
        × (ct ≡ c.seal nonce plain (use_aad u))
  unfolding encrypt encrypt_ssh_identity encrypt_totp
  encrypted (credential i k) nonce n ct p e = encrypted_with nonce n ct (aad i k) p e
  encrypted (ssh_identity i) nonce n ct p e = encrypted_with nonce n ct (identity_aad i) p e
  encrypted (user_totp i) nonce n ct p e =
      encrypted_with nonce n ct (totp_aad i) (record empty_payload { totp_secret = p.totp_secret })
        e

  decrypt_for-eq : (u : Use) (n ct : Text) → decrypt_for c u n ct ≡ decrypt_with c n ct (use_aad u)
  unfolding decrypt decrypt_ssh_identity
  decrypt_for-eq (credential i k) n ct = refl
  decrypt_for-eq (ssh_identity i) n ct = refl
  decrypt_for-eq (user_totp i) n ct = refl

  -- With an authentic cipher, what was encrypted for one use fails to authenticate when it is
  -- decrypted for another: for another target, for another credential kind
  -- of the same target, for another shared key or another user, and across the three purposes.
  pub decrypt-other :
      (u v : Use) (nonce n ct : Text) (p : Payload)
      → encrypt_for c u nonce p ≡ ok (n, ct)
      → u ≢ v
      → decrypt_for c v n ct ≡ err authentication_failed
  unfolding decrypt_with
  decrypt-other u v nonce n ct p e ne =
      let (plain, m, same, seal) = encrypted u nonce n ct p e in
      decrypt_for-eq v n ct
      ∙ rw (same, seal)
          (ground (
            arith,
            auth.rejects nonce plain (use_aad u) (use_aad v) (λ q. ne (use_aad-injective u v q)),
          ))
