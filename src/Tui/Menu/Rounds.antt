-- ===== src/Tui/Menu/Rounds.antt =====
-- internal/tui/remote.go: `applyCommand` ends after two commands.
use sshgatew.Prelude.{ℕ, suc, ◌≡◌, refl, true, false, Option, none, some, inl, inr, Option-cases}
use sshgatew.Tui.Menu.{Model}
use sshgatew.Tui.Menu.Commands.{World, Msg, run_cmd}
use sshgatew.Tui.Menu.Finish.{Next}
use sshgatew.Tui.Menu.Loop.{Session, apply_command, with_effect, update, rounds}

-- What follows a message is at most a load, and nothing follows a load.
update-apply_command :
    (n : ℕ) (w : World) (s : Session) (m : Model) (msg : Msg)
    → apply_command (suc n) w s (update m msg) ≡ apply_command 1 w s (update m msg)
unfolding apply_command update run_cmd
update-apply_command n w s m (Msg.loaded v) = refl
update-apply_command n w s m (Msg.oidc_began true) = refl
update-apply_command n w s m (Msg.oidc_began false) = refl
update-apply_command n w s m (Msg.oidc_linked true) = refl
update-apply_command n w s m (Msg.oidc_linked false) = refl
update-apply_command n w s m (Msg.host_key none) = refl
update-apply_command n w s m (Msg.host_key (some k)) = elim (Option-cases m.pending) [
  | inl e ↦ rw e refl
  | inr (p, e) ↦ rw e refl
]
update-apply_command n w s m (Msg.mutated section failed) = refl

-- The loop over the commands that follow a key ends after two of them: more fuel changes nothing.
pub apply_command_enough :
    (n : ℕ) (w : World) (s : Session) (next : Option Next)
    → apply_command (suc (suc n)) w s next ≡ apply_command rounds w s next
unfolding apply_command
apply_command_enough n w s none = refl
apply_command_enough n w s (some (m, none)) = refl
apply_command_enough n w s (some (m, some c)) =
    let r = run_cmd w m s.db c in update-apply_command n w (with_effect s r.0) m r.1
