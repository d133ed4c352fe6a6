-- ===== src/Tests/Ciphers.antt =====
-- A cipher that hides nothing but checks its associated data, a codec for payloads with a password or
-- a TOTP secret alone, and a hash that shows the counter.
use sshgatew.Prelude.{
  zero, suc, ◌≡◌, ◌≢◌, refl, ◌&&◌, [], ◌∷◌, ◌++◌, Option, none, some, ◌==◌, if◌then◌else◌, arith,
}
use sshgatew.Prelude.Texts.{Text, is_empty}
use sshgatew.Secrets.{Aead, IsAuthentic, Payload, empty_payload}
use sshgatew.Totp.{Hash}

abbrev seal : Text → Text → Text → Text
seal nonce plain [] = 0 ∷ plain
seal nonce plain (a ∷ ad) = suc a ∷ seal nonce plain ad

abbrev open_sealed : Text → Text → Text → Option Text
open_sealed nonce [] ad = none
open_sealed nonce (zero ∷ plain) [] = some plain
open_sealed nonce (zero ∷ plain) (a ∷ ad) = none
open_sealed nonce (suc c ∷ s) [] = none
open_sealed nonce (suc c ∷ s) (a ∷ ad) =
    let rest = open_sealed nonce s ad in if c == a then rest else none

abbrev marshal : Payload → Option Text
marshal p =
    if is_empty p.private_key && is_empty p.public_key && is_empty p.passphrase
    then (if is_empty p.totp_secret
        then some (2 ∷ p.version ∷ p.password)
        else if is_empty p.password
        then some (1 ∷ p.version ∷ p.totp_secret)
        else none)
    else none

abbrev unmarshal : Text → Option Payload
unmarshal [] = none
unmarshal (tag ∷ []) = none
unmarshal (tag ∷ v ∷ s) =
    if tag == 1
    then some (record empty_payload { version = v; totp_secret = s })
    else if tag == 2
    then some (record empty_payload { version = v; password = s })
    else none

abbrev pub open_book : Aead
open_book = record {
  seal = seal;
  open_sealed = open_sealed;
  marshal = marshal;
  unmarshal = unmarshal;
}

open_other :
    (nonce plain ad ad' : Text) → ad ≢ ad' → open_sealed nonce (seal nonce plain ad) ad' ≡ none
open_other nonce plain [] [] ne = absurd (ne refl)
open_other nonce plain [] (b ∷ ad') ne = refl
open_other nonce plain (a ∷ ad) [] ne = refl
open_other nonce plain (a ∷ ad) (b ∷ ad') ne = ground (arith, open_other nonce plain ad ad')

pub open_book-IsAuthentic : IsAuthentic open_book
open_book-IsAuthentic = record { rejects = open_other }

-- Twenty bytes: the counter, and zeros up to the offset 4.
abbrev pub counting : Hash
counting = record {
  decode_secret = λ s. some s;
  hmac_sha1 = λ k m. m ++ 0 ∷ 0 ∷ 0 ∷ 0 ∷ 0 ∷ 0 ∷ 0 ∷ 0 ∷ 0 ∷ 0 ∷ 0 ∷ 4 ∷ [];
}
