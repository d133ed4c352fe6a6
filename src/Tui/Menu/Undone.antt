-- ===== src/Tui/Menu/Undone.antt =====
-- internal/tui/menu.go: what `finishCredential` leaves of a new target where a write fails.
use sshgatew.Prelude.{◌≡◌, ◌⊎◌, true, List, ◌∷◌, none}
use sshgatew.Prelude.Texts.{Text}
use sshgatew.Secrets.{Payload, encrypt}
use sshgatew.Store
use sshgatew.Store.{Target, Result-cases}
use sshgatew.Store.Operations.{Operation}
use sshgatew.Store.Targets.{delete_target}
use sshgatew.Tui.Menu.{Pending}
use sshgatew.Tui.Menu.Commands.{World}
use sshgatew.Store.Effects.{Effect}

abbrev sealed : Target → Text → Text → Target
sealed t nonce ciphertext = record t { nonce = nonce; ciphertext = ciphertext; identity_id = none }

-- A failure that leaves the targets of before; or those and a new one with the sealed credential; or,
-- where SQLite refused the clean-up, a failure that leaves the new one as it was inserted.
abbrev pub HasNoGap : World → Pending → Payload → List Target → Target → Effect → Type 0
HasNoGap w p payload before t e =
    ((e.failed ≡ true) × (e.db.targets ≡ before))
    ⊎ ((nonce : Text) × (ciphertext : Text) × (encrypt w.env.aead w.nonce t.id p.credential_kind
            payload
          ≡ Store.ok (nonce, ciphertext))
        × (e.db.targets ≡ sealed t nonce ciphertext ∷ before))
    ⊎ ((w.refuses (Operation.delete_target t.name) ≡ true)
        × (e.failed ≡ true)
        × (e.db.targets ≡ t ∷ before))
