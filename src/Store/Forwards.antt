-- ===== src/Store/Forwards.antt =====
-- internal/store/store.go: the TCP destinations that may be reached through a target.
use sshgatew.Prelude.{
  ℕ, Bool, not, ◌&&◌, List, ◌∷◌, any, count, delete, next_id, leb, ltb, ◌==◌, if◌then◌else◌,
}
use sshgatew.Prelude.Texts.{Text, text_eq, to_lower, trim_space}
use sshgatew.Store.Targets.{target_by_name, is_blank}
use sshgatew.Store.{ForwardRow, Db, Result, ok, ◌>>=◌, ◌>>◌, guard, changed, bad_destination}

-- INSERT OR IGNORE, under UNIQUE(target_id,host,port).
unfoldable pub insert_rule : List ForwardRow → ℕ → Text → ℕ → List ForwardRow
insert_rule rows target_id host port =
    if any (λ r. r.target_id == target_id && text_eq r.host host && r.port == port) rows
    then rows
    else record {
      id = next_id (λ (r : ForwardRow). r.id) rows;
      target_id = target_id;
      host = host;
      port = port;
    }
      ∷ rows

unfoldable pub add_forward_rule : Db → Text → Text → ℕ → Result Db
add_forward_rule db target host port = do
  guard (not (is_blank host) && leb 1 port && leb port 65535) bad_destination
  t ← target_by_name db target
  ok (record db {
    forward_rules = insert_rule db.forward_rules t.id (to_lower (trim_space host)) port;
  })

unfoldable pub delete_forward_rule : Db → ℕ → Result Db
delete_forward_rule db id =
    changed (λ r. r.id == id) db.forward_rules
      (record db { forward_rules = delete (λ r. r.id == id) db.forward_rules })

-- COLLATE NOCASE compares the ASCII letters without their case.
unfoldable pub forward_allowed : Db → ℕ → Text → ℕ → Bool
forward_allowed db target_id host port = ltb 0 (
    count
      (λ r.
        r.target_id == target_id
        && text_eq (to_lower r.host) (to_lower (trim_space host))
        && r.port == port)
      db.forward_rules)
