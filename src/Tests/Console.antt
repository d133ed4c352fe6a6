-- ===== src/Tests/Console.antt =====
-- cmd/sshgatew/main.go: commands of the command line at the small gateway.
use sshgatew.Prelude.{true, false, [], ◌∷◌, Option, none, some, if◌then◌else◌}
use sshgatew.Prelude.Texts.{Text, codes, text_eq}
use sshgatew.Cli.{Machine, PublicKey}
use sshgatew.Cli.Admin.{Part, admin_command}
use sshgatew.Cli.Sound.{IsSound}
use sshgatew.Cli.Changes.{admin_command-IsSound}
use sshgatew.Tests.Ciphers.{open_book}
use sshgatew.Tests.Data.{office}

abbrev host_key : PublicKey
host_key = record {
  algorithm = codes "ssh-ed25519";
  line = codes "ssh-ed25519 H";
  fingerprint = codes "SHA256:h";
  more = false;
}

-- The flags of a new target `db`.
abbrev given : Text → Option Text
given name =
    if text_eq name (codes "name")
    then some (codes "db")
    else if text_eq name (codes "host")
    then some (codes "10.0.0.2")
    else if text_eq name (codes "remote-user")
    then some (codes "root")
    else if text_eq name (codes "auth")
    then some (codes "password")
    else none

abbrev machine : Machine
machine = record {
  parse =
      λ set args. some (record { text = given; number = λ n. none; switch = λ n. true; rest = [] });
  read_file = λ f. none;
  secret = some (codes "pw");
  parses_key = λ k. true;
  opens_key = λ k p. true;
  public_key = λ s. none;
  scan = λ h p. some host_key;
  cipher = some open_book;
  nonce = [];
  json = λ fields. [];
  is_object = λ s. true;
}

admin_command-IsSound_example :
    IsSound machine office (admin_command machine office Part.targets (codes "add" ∷ []))
admin_command-IsSound_example = admin_command-IsSound machine office Part.targets (codes "add" ∷ [])
