-- ===== src/Cli.antt =====
-- cmd/sshgatew/main.go: the commands that administer the gateway on its host. What they print is left
-- out. Parameters: the package `flag`, files, the terminal, SSH keys and the scan of a host.
pub mod Users
pub mod Targets
pub mod Admin
pub mod Sound
pub mod Changes
use sshgatew.Prelude.{ℕ, Bool, true, false, List, [], ◌∷◌, Option, none, some, if◌then◌else◌}
use sshgatew.Prelude.Texts.{Text, codes, text_eq, is_empty}
use sshgatew.Secrets.{Aead}
use sshgatew.Store.Effects.{Effect, attempt}
use sshgatew.Store.Operations
use sshgatew.Store.Operations.{Operation}
use sshgatew.Gateway.Auth.{event}

-- What a parsed set of flags holds, by the name of the flag; `none` for a flag that is not given. A
-- negative number is 0, which is out of range where a number is used.
pub record Flags : Type 0 where
  pub text : Text → Option Text
  pub number : Text → Option ℕ
  pub switch : Text → Bool
  pub rest : List Text

-- A public key, and whether text follows it.
pub record PublicKey : Type 0 where
  pub algorithm : Text
  pub line : Text
  pub fingerprint : Text
  pub more : Bool

-- What other packages answer: flags by the name of their set, files, the secret that is typed, private
-- keys without and with a passphrase, public keys, the scan of a host, and the cipher of the master key.
pub record Machine : Type 0 where
  pub parse : Text → List Text → Option Flags
  pub read_file : Text → Option Text
  pub secret : Option Text
  pub parses_key : Text → Bool
  pub opens_key : Text → Text → Bool
  pub public_key : Text → Option PublicKey
  pub scan : Text → ℕ → Option PublicKey
  pub cipher : Option Aead
  pub nonce : Text
  pub json : List (Text × Text) → Text
  pub is_object : Text → Bool

abbrev pub or_default {ℓ} : {A : Type ℓ} → Option A → A → A
or_default none v = v
or_default (some v) w = v

abbrev pub is_word : Text → Text → Bool
is_word arg word = text_eq arg word

-- `auditLocal`, unless an error came before.
abbrev pub local_event : Machine → Text → List (Text × Text) → Operation
local_event w type details =
    Operation.audit w.is_object
      (event none (codes "local-admin") (codes "local") type (codes "success") (w.json details))

abbrev pub audit_local : Machine → Text → List (Text × Text) → Effect → Effect
audit_local w type details e = attempt e (local_event w type details)

abbrev parsed : Machine → Option Text → Option PublicKey
parsed w none = none
parsed w (some contents) = w.public_key contents

unfoldable pub read_public_key : Machine → Text → Option PublicKey
read_public_key w path = parsed w (w.read_file path)
