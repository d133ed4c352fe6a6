-- ===== src/Tests/Menus.antt =====
-- internal/tui/menu.go: sessions of the menu at the small gateway.
use sshgatew.Prelude.{
  ◌≡◌, refl, arith, Bool, true, false, List, [], ◌∷◌, ◌++◌, none, some, map, any,
}
use sshgatew.Prelude.Texts.{Text, codes, text_discrete, is_empty}
use sshgatew.Store.Groups.{add_group}
use sshgatew.Store.Names.{validate_name, matches_name}
use sshgatew.Store.Audit.{audit}
use sshgatew.Store.{User, Target}
use sshgatew.Store.Operations.{Operation}
use sshgatew.Store.Targets.{new_target}
use sshgatew.Tui.{InputEvent}
use sshgatew.Tui.Menu.{Section, Code, Pending, Model, nothing_pending, new}
use sshgatew.Tui.Menu.Commands.{World, Cmd, KeyText, run_cmd, target_of_pending}
use sshgatew.Store.Effects.{attempt}
use sshgatew.Tui.Menu.Loop.{Session, Event, run_remote, open_session, apply_command, rounds}
use sshgatew.Tui.Menu.Own.{IsOwn, run_remote_opened-IsOwn}
use sshgatew.Tui.Menu.Shown.{ModelInBounds, run_remote_opened-InBounds}
use sshgatew.Tui.Menu.Rounds.{apply_command_enough}
use sshgatew.Tui.Menu.Audited.{EndsAudited, run_cmd-EndsAudited}
use sshgatew.Tui.Menu.Visible.{Shows, visible_range, visible_range-Shows}
use sshgatew.Tests.Data.{office, bob_user}
use sshgatew.Tests.Logins.{env}

abbrev world : World
world = record {
  env = env;
  refuses = λ op. false;
  nonce = codes "n";
  now = 60;
  has_cipher = true;
  oidc_begins = true;
  oidc_identity = some (codes "sub", codes "bob@corp");
  scanned = some (record {
    algorithm = codes "ssh-ed25519";
    line = codes "ssh-ed25519 H";
    fingerprint = codes "SHA256:h";
  });
  parse_key = λ s. KeyText.valid;
  opens_key = λ k p. true;
  public_of = λ k p. some (codes "ssh-ed25519 K", codes "SHA256:k");
  authorized_key = λ s. none;
  generated_key = none;
  generated_secret = none;
  draws_qr = true;
  atoi = λ s. none;
}

abbrev alice_user : User
alice_user = record {
  id = 1;
  username = codes "alice";
  role = codes "admin";
  enabled = true;
  totp_enabled = false;
}

abbrev press_all : List Text → List Event
press_all = map (λ k. Event.input world (InputEvent.key k))

-- An administrator adds a group, and then tries to delete the user `alice`.
abbrev add_and_delete : List Event
add_and_delete = press_all (
    codes "4"
    ∷ codes "a"
    ∷ codes "o"
    ∷ codes "p"
    ∷ codes "s"
    ∷ codes "enter"
    ∷ codes "3"
    ∷ codes "enter"
    ∷ codes "end"
    ∷ codes "enter"
    ∷ codes "y"
    ∷ [])

-- A member moves through the list and links an OIDC account, while another session writes.
abbrev link_account : List Event
link_account =
    press_all (codes "down" ∷ codes "a" ∷ codes "3" ∷ codes "o" ∷ [])
    ++ Event.others (Operation.add_group (codes "ops") ∷ [])
      ∷ press_all (codes "enter" ∷ codes "pgdown" ∷ codes "enter" ∷ [])

abbrev alice_menu : Model
alice_menu = new alice_user (codes "192.0.2.1") true (codes "https://id") true

abbrev alice_session : Session
alice_session = run_remote (open_session world office alice_menu) add_and_delete

abbrev bob_session : Session
bob_session =
    run_remote
      (open_session world office (new bob_user (codes "192.0.2.2") true (codes "https://id") true))
      link_account

run_remote_opened-IsOwn_example : IsOwn bob_user bob_session
unfolding text_discrete
run_remote_opened-IsOwn_example =
    run_remote_opened-IsOwn bob_user refl world office (codes "192.0.2.2") true (codes "https://id")
      true link_account

run_remote_opened-InBounds_example : ModelInBounds alice_session.model
run_remote_opened-InBounds_example =
    run_remote_opened-InBounds world office alice_user (codes "192.0.2.1") true (codes "https://id")
      true add_and_delete

abbrev fresh_session : Session
fresh_session = record { db = office; tried = []; model = some alice_menu }

abbrev add_ops : Cmd
add_ops =
    Cmd.mutate (some Section.groups) (codes "admin.group.add") []
      (Operation.add_group (codes "ops"))

apply_command_enough_example :
    apply_command 7 world fresh_session (some (alice_menu, some add_ops))
    ≡ apply_command rounds world fresh_session (some (alice_menu, some add_ops))
apply_command_enough_example =
    apply_command_enough 5 world fresh_session (some (alice_menu, some add_ops))

add_ops-failed : (run_cmd world alice_menu office add_ops).0.failed ≡ false
unfolding run_cmd attempt add_group validate_name matches_name any audit text_discrete is_empty new
add_ops-failed = refl

run_cmd-EndsAudited_example :
    EndsAudited world alice_menu (run_cmd world alice_menu office add_ops).0
run_cmd-EndsAudited_example =
    run_cmd-EndsAudited world alice_menu office add_ops refl add_ops-failed

-- A target with a password.
abbrev pending_db : Pending
pending_db = record nothing_pending {
  kind = Code.target_add;
  name = codes "db";
  host = codes "10.0.0.2";
  remote = codes "root";
  credential_kind = codes "password";
  port = 22;
  host_key = record {
    algorithm = codes "ssh-ed25519";
    line = codes "ssh-ed25519 H";
    fingerprint = codes "SHA256:h";
  };
}

abbrev new_db : Target
new_db = new_target office (target_of_pending pending_db (codes "password") none)

abbrev is_credential : Operation → Bool
is_credential (Operation.set_target_credential id nonce ciphertext) = true
is_credential op = false

-- The credential is refused, the clean-up is not.
abbrev full_disk : World
full_disk = record world { refuses = is_credential }

visible_range-Shows_example : Shows 7 9 4 (visible_range 7 9 4)
visible_range-Shows_example = visible_range-Shows 7 9 4 (omega arith)

last_page : visible_range 8 9 4 ≡ (5, 9)
unfolding visible_range
last_page = refl
