-- ===== src/Store/Users.antt =====
-- internal/store/store.go: the operations on users, and the guard of the last administrator.
use sshgatew.Prelude.{
  ℕ, Bool, true, not, ◌&&◌, ◌∷◌, Option, none, some, any, find?, count, delete, update, next_id,
  ◌==◌, if◌then◌else◌,
}
use sshgatew.Prelude.Texts.{Text, text_eq, to_lower}
use sshgatew.Store.Names.{validate_name, valid_role}
use sshgatew.Store.{
  UserRow, User, AuditEvent, Db, Result, ok, ◌>>=◌, ◌>>◌, guard, scan, changed, bad_role,
  unique_violation, final_admin, role_admin,
}

-- The columns that every query of a user selects.
abbrev pub to_user : Db → UserRow → User
to_user db u = record {
  id = u.id;
  username = u.username;
  role = u.role;
  enabled = u.enabled;
  totp_enabled = any (λ t. t.user_id == u.id) db.totps;
}

abbrev pub user_row_by_name : Db → Text → Option UserRow
user_row_by_name db name = find? (λ u. text_eq u.username (to_lower name)) db.users

unfoldable pub user_by_id : Db → ℕ → Result User
user_by_id db id = do u ← scan (find? (λ u. u.id == id) db.users); ok (to_user db u)

unfoldable pub user_by_name : Db → Text → Result User
user_by_name db name = do u ← scan (user_row_by_name db name); ok (to_user db u)

-- The row that the INSERT writes.
abbrev pub new_user : Db → Text → Text → UserRow
new_user db name role = record {
  id = next_id (λ (u : UserRow). u.id) db.users;
  username = name;
  role = role;
  enabled = true;
}

unfoldable pub add_user : Db → Text → Text → Result Db
add_user db username role = do
  name ← validate_name username
  guard (valid_role role) bad_role
  guard (not (any (λ u. text_eq u.username name) db.users)) unique_violation
  ok (record db { users = new_user db name role ∷ db.users })

abbrev pub is_admin : Text → Bool
is_admin role = text_eq role role_admin

-- A user that the query of `ensureOtherUsableAdmin` counts, were no id excluded.
abbrev pub usable : Db → UserRow → Bool
usable db u = is_admin u.role && u.enabled && any (λ k. k.user_id == u.id) db.keys

unfoldable pub ensure_other_usable_admin : Db → ℕ → Result (Unit {0})
ensure_other_usable_admin db exclude =
    guard (not (count (λ u. usable db u && not (u.id == exclude)) db.users == 0)) final_admin

unfoldable pub set_user_enabled : Db → Text → Bool → Result Db
set_user_enabled db name enabled = do
  u ← user_by_name db name
  if not enabled && is_admin u.role then ensure_other_usable_admin db u.id else ok tt
  changed (λ v. v.id == u.id) db.users
      (record db {
        users = update (λ v. v.id == u.id) (λ v. record v { enabled = enabled }) db.users;
      })

unfoldable pub set_user_role : Db → Text → Text → Result Db
set_user_role db name role = do
  guard (valid_role role) bad_role
  u ← user_by_name db name
  if is_admin u.role && not (is_admin role) then ensure_other_usable_admin db u.id else ok tt
  changed (λ v. v.id == u.id) db.users
      (record db { users = update (λ v. v.id == u.id) (λ v. record v { role = role }) db.users })

-- ON DELETE SET NULL of `audit_events.actor_user_id`.
abbrev forget_actor : ℕ → AuditEvent → AuditEvent
forget_actor id e = record e {
  actor_user_id = elim e.actor_user_id [ none ↦ none | some a ↦ if a == id then none else some a ];
}

-- The row goes, and with it all rows that refer to it with ON DELETE CASCADE.
abbrev pub drop_user : Db → ℕ → Db
drop_user db id = record db {
  users = delete (λ u. u.id == id) db.users;
  keys = delete (λ k. k.user_id == id) db.keys;
  totps = delete (λ t. t.user_id == id) db.totps;
  oidc = delete (λ o. o.user_id == id) db.oidc;
  members = delete (λ m. m.user_id == id) db.members;
  user_grants = delete (λ g. g.principal_id == id) db.user_grants;
  audit_events = update (λ e. true) (forget_actor id) db.audit_events;
}

unfoldable pub delete_user : Db → Text → Result Db
delete_user db name = do
  u ← user_by_name db name
  if is_admin u.role then ensure_other_usable_admin db u.id else ok tt
  changed (λ v. v.id == u.id) db.users (drop_user db u.id)
