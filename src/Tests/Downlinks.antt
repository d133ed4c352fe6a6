-- ===== src/Tests/Downlinks.antt =====
-- internal/downstream: a connection to the target of the small gateway.
use sshgatew.Prelude.{ℕ, ◌≡◌, refl, true, false, Option, none, some}
use sshgatew.Prelude.Texts.{Text, codes, text_discrete, is_empty}
use sshgatew.Downstream.Dial.{Key, AuthMethod, Keys, Server, Client, auth_method, dial}
use sshgatew.Downstream.Dial.Pinned.{IsPinned, dial_sound}
use sshgatew.Tests.Data.{web, web_payload}

abbrev host_key : Key
host_key = record { type = codes "ssh-ed25519"; blob = codes "H" }

abbrev keys : Keys
keys = record { private = λ k p. none; authorized = λ line. some (host_key, false) }

abbrev network : Text → ℕ → Option Server
network host port = some (record { host_key = host_key; accepts = λ u m. true })

abbrev client : Client
client = record {
  user = codes "root";
  host = codes "10.0.0.1";
  port = 22;
  host_key = host_key;
  auth = AuthMethod.password (codes "pw");
}

web_dialled : dial keys network web web_payload none ≡ some client
unfolding dial auth_method text_discrete is_empty
web_dialled = refl

dial_sound_example : IsPinned keys web web_payload none client
dial_sound_example = dial_sound keys network web web_payload none client web_dialled
