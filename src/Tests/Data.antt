-- ===== src/Tests/Data.antt =====
-- A small gateway: an administrator, a member with a TOTP secret, and one target.
use sshgatew.Prelude.{[], ◌∷◌, true, false, none}
use sshgatew.Prelude.Int.{negsuc}
use sshgatew.Prelude.Texts.{codes}
use sshgatew.Store.{UserRow, User, GatewayKey, Target, GrantRow, Db}
use sshgatew.Store.Grants.{Capabilities}
use sshgatew.Secrets.{Payload, empty_payload}
use sshgatew.Tests.Ciphers.{open_book}
use sshgatew.Secrets.{totp_aad, aad}

abbrev pub alice : UserRow
alice = record { id = 1; username = codes "alice"; role = codes "admin"; enabled = true }

abbrev pub bob : UserRow
bob = record { id = 2; username = codes "bob"; role = codes "member"; enabled = true }

abbrev pub bob_user : User
bob_user = record {
  id = 2;
  username = codes "bob";
  role = codes "member";
  enabled = true;
  totp_enabled = true;
}

abbrev pub key : GatewayKey
key = record {
  id = 1;
  user_id = 1;
  fingerprint = codes "SHA256:a";
  public_key = codes "ssh-ed25519 A";
  label = [];
}

abbrev pub bob_key : GatewayKey
bob_key = record {
  id = 2;
  user_id = 2;
  fingerprint = codes "SHA256:b";
  public_key = codes "ssh-ed25519 B";
  label = [];
}

abbrev pub web_payload : Payload
web_payload = record empty_payload { version = 1; password = codes "pw" }

abbrev pub web : Target
web = record {
  id = 1;
  name = codes "web";
  host = codes "10.0.0.1";
  port = 22;
  remote_username = codes "root";
  credential_kind = codes "password";
  enabled = true;
  host_key_algorithm = codes "ssh-ed25519";
  host_public_key = codes "ssh-ed25519 H";
  nonce = [];
  ciphertext = open_book.seal [] (2 ∷ 1 ∷ codes "pw") (aad 1 (codes "password"));
  identity_id = none;
}

abbrev pub bob_grant : GrantRow
bob_grant = record {
  principal_id = 2;
  target_id = 1;
  allow_shell = true;
  allow_sftp = false;
  allow_scp = false;
  allow_tcp_forward = true;
}

abbrev pub all_capabilities : Capabilities
all_capabilities = record { shell = true; sftp = true; scp = true; tcp_forward = true }

abbrev pub office : Db
office = record {
  users = alice ∷ bob ∷ [];
  keys = key ∷ bob_key ∷ [];
  totps =
      record {
        user_id = 2;
        nonce = [];
        ciphertext = open_book.seal [] (1 ∷ 1 ∷ codes "S") (totp_aad 2);
        last_counter = negsuc 0;
      }
      ∷ [];
  oidc =
      record {
        id = 1;
        user_id = 2;
        issuer = codes "https://id";
        subject = none;
        provider_username = codes "bob@corp";
      }
      ∷ [];
  groups = [];
  members = [];
  targets = web ∷ [];
  identities = [];
  user_grants = bob_grant ∷ [];
  group_grants = [];
  forward_rules = record { id = 1; target_id = 1; host = codes "db.local"; port = 5432 } ∷ [];
  audit_events = [];
}
