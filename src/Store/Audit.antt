-- ===== src/Store/Audit.antt =====
-- internal/store/store.go: the audit log. `encoding/json` is the argument `is_object`, which says
-- whether a text decodes into a JSON object.
use sshgatew.Prelude.{
  ℕ, Bool, true, ◌&&◌, ◌||◌, List, ◌∷◌, Option, none, some, any, next_id, ltb, ◌==◌, if◌then◌else◌,
}
use sshgatew.Prelude.Lists.{take}
use sshgatew.Prelude.Texts.{Text, text_eq, is_empty, codes}
use sshgatew.Store.{
  AuditEvent, Db, Result, ok, ◌>>◌, guard, bad_details, check_violation, foreign_key_violation,
}

abbrev pub or_default : Text → Text → Text
or_default s d = if is_empty s then d else s

-- CHECK(outcome IN ('success','failure','denied'))
abbrev pub valid_outcome : Text → Bool
valid_outcome o =
    text_eq o (codes "success") || text_eq o (codes "failure") || text_eq o (codes "denied")

abbrev pub user_exists : Db → Option ℕ → Bool
user_exists db none = true
user_exists db (some id) = any (λ u. u.id == id) db.users

abbrev pub target_exists : Db → Option ℕ → Bool
target_exists db none = true
target_exists db (some id) = any (λ t. t.id == id) db.targets

-- The row that the INSERT writes.
abbrev pub new_event : Db → AuditEvent → AuditEvent
new_event db e = record e {
  id = next_id (λ (a : AuditEvent). a.id) db.audit_events;
  outcome = or_default e.outcome (codes "success");
  details = or_default e.details (codes "{}");
}

unfoldable pub audit : (Text → Bool) → Db → AuditEvent → Result Db
audit is_object db e = do
  guard (is_object (or_default e.details (codes "{}"))) bad_details
  guard (valid_outcome (or_default e.outcome (codes "success"))) check_violation
  guard (user_exists db e.actor_user_id && target_exists db e.target_id) foreign_key_violation
  ok (record db { audit_events = new_event db e ∷ db.audit_events })

-- The rows stand newest first. A limit that is not positive is 0 here.
unfoldable pub list_audit : Db → ℕ → List AuditEvent
list_audit db limit = take (if limit == 0 || ltb 1000 limit then 100 else limit) db.audit_events
