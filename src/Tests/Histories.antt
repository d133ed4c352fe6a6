-- ===== src/Tests/Histories.antt =====
-- internal/store/store.go: the theorems on the store, at the small gateway.
use sshgatew.Prelude.{ℕ, count, ◌≡◌, refl, List, [], ◌∷◌, false, any, ℕ_discrete}
use sshgatew.Prelude.Int.{ℤ, pos}
use sshgatew.Prelude.Texts.{codes, text_discrete}
use sshgatew.Prelude.Lists.{all}
use sshgatew.Store.Names.{matches_name, is_name_byte, is_lower, valid_role}
use sshgatew.Store.Totps.{consume_totp_counter}
use sshgatew.Store.Operations.{Operation, run}
use sshgatew.Store.WellFormed.{IsWellFormed}
use sshgatew.Store.Admin.{HasUsableAdmin}
use sshgatew.Store.Run.{run-IsWellFormed, run-HasUsableAdmin}
use sshgatew.Store.Replay.{last_counter, accepted, IsAscending, accepted-IsAscending}
use sshgatew.Tests.Data.{office}

pub office-IsWellFormed : IsWellFormed office
unfolding any text_discrete ℕ_discrete all matches_name is_name_byte is_lower valid_role
office-IsWellFormed = record {
  user_ids = (refl, (refl, tt));
  usernames = (refl, (refl, tt));
  names_valid = refl;
  roles_valid = refl;
  key_pairs = (refl, (refl, tt));
  keys_owned = refl;
}

pub office-HasUsableAdmin : HasUsableAdmin office
unfolding any text_discrete ℕ_discrete
office-HasUsableAdmin = refl

abbrev history : List Operation
history =
    Operation.add_gateway_key (codes "bob") (codes "SHA256:c") (codes "k") []
    ∷ Operation.set_user_enabled (codes "alice") false
    ∷ Operation.set_user_role (codes "bob") (codes "admin")
    ∷ Operation.delete_user (codes "alice")
    ∷ Operation.remove_gateway_key (codes "bob") (codes "SHA256:b")
    ∷ []

run-IsWellFormed_example : IsWellFormed (run office history)
run-IsWellFormed_example = run-IsWellFormed history office office-IsWellFormed

run-HasUsableAdmin_example : HasUsableAdmin (run office history)
run-HasUsableAdmin_example =
    run-HasUsableAdmin history office office-IsWellFormed office-HasUsableAdmin

abbrev attempts : List (ℕ × ℤ)
attempts = (2, pos 5) ∷ (1, pos 9) ∷ (2, pos 5) ∷ (2, pos 4) ∷ (2, pos 7) ∷ []

accepted-IsAscending_example : IsAscending (last_counter office 2) (accepted 2 office attempts)
accepted-IsAscending_example = accepted-IsAscending 2 attempts office (unfold any in (refl, tt))

-- The attempts run: the fifth and the seventh counter pass, once each.
accepted_test : accepted 2 office attempts ≡ pos 5 ∷ pos 7 ∷ []
unfolding accepted consume_totp_counter count ℕ_discrete
accepted_test = refl
