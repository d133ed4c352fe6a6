-- ===== src/Store/Effects.antt =====
-- How the menu and the command line use the store: the operations that a command tries, in their order,
-- until one fails.
pub mod Runs
use sshgatew.Prelude.{List, [], ◌∷◌, ◌++◌, Bool, true, false, if◌then◌else◌}
use sshgatew.Prelude.Texts.{Text}
use sshgatew.Store
use sshgatew.Store.{Db}
use sshgatew.Store.Operations.{Operation, apply}

-- The store so far, the operations tried, and whether one failed.
pub record Effect : Type 0 where
  pub db : Db
  pub tried : List Operation
  pub failed : Bool

abbrev pub start : Db → Effect
start db = record { db = db; tried = []; failed = false }

abbrev pub after_apply : Effect → Operation → Store.Result Db → Effect
after_apply e op (Store.ok db) = record e { db = db; tried = e.tried ++ op ∷ [] }
after_apply e op (Store.err f) = record e { tried = e.tried ++ op ∷ []; failed = true }

-- `if err == nil { err = … }`
unfoldable pub attempt : Effect → Operation → Effect
attempt e op = if e.failed then e else after_apply e op (apply e.db op)

-- `_ = …`, after a failure.
unfoldable pub clean_up : Effect → Operation → Effect
clean_up e op = record (after_apply e op (apply e.db op)) { failed = e.failed }

abbrev pub fail : Effect → Effect
fail e = record e { failed = true }

-- What the cipher returned, written by the operation.
abbrev pub with_secret : Effect → Store.Result (Text × Text) → (Text → Text → Operation) → Effect
with_secret e (Store.err f) op = fail e
with_secret e (Store.ok (nonce, ciphertext)) op = attempt e (op nonce ciphertext)
