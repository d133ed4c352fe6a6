-- ===== src/Store/Groups.antt =====
-- internal/store/store.go: groups and their members.
use sshgatew.Prelude.{
  Bool, not, ◌&&◌, ◌∷◌, none, some, any, find?, delete, next_id, ◌==◌, if◌then◌else◌,
}
use sshgatew.Prelude.Texts.{Text, text_eq, to_lower}
use sshgatew.Store.Names.{validate_name}
use sshgatew.Store.Users.{user_by_name}
use sshgatew.Store.{
  Group, MemberRow, Db, Result, ok, err, ◌>>=◌, ◌>>◌, guard, scan, unique_violation, no_rows,
}

unfoldable pub add_group : Db → Text → Result Db
add_group db name = do
  name' ← validate_name name
  guard (not (any (λ g. text_eq g.name name') db.groups)) unique_violation
  ok (record db {
    groups = record { id = next_id (λ (g : Group). g.id) db.groups; name = name' } ∷ db.groups;
  })

-- `SELECT id FROM groups_table WHERE name=?`
abbrev pub group_by_name : Db → Text → Result Group
group_by_name db name = scan (find? (λ g. text_eq g.name (to_lower name)) db.groups)

-- The members and the grants of the group go with it.
unfoldable pub delete_group : Db → Text → Result Db
delete_group db name = elim (find? (λ g. text_eq g.name (to_lower name)) db.groups) [
  | none ↦ err no_rows
  | some g ↦ ok (record db {
    groups = delete (λ h. text_eq h.name (to_lower name)) db.groups;
    members = delete (λ m. m.group_id == g.id) db.members;
    group_grants = delete (λ r. r.principal_id == g.id) db.group_grants;
  })
]

unfoldable pub set_group_member : Db → Text → Text → Bool → Result Db
set_group_member db group username add = do
  u ← user_by_name db username
  g ← group_by_name db group
  let is_row : MemberRow → Bool = λ m. m.group_id == g.id && m.user_id == u.id
  ok (
      if add
      then if any is_row db.members
        then db
        else record db { members = record { group_id = g.id; user_id = u.id } ∷ db.members }
      else record db { members = delete is_row db.members })
