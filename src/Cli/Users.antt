-- ===== src/Cli/Users.antt =====
-- cmd/sshgatew/main.go: the commands on users, their keys and groups. A wrong number of arguments fails
-- before the store is used.
use sshgatew.Prelude.{false, ◌||◌, List, [], ◌∷◌, ◌++◌, Option, none, some, if◌then◌else◌}
use sshgatew.Prelude.Texts.{Text, codes, is_empty}
use sshgatew.Store.Users.{user_by_name}
use sshgatew.Store.Lists.{list_gateway_keys}
use sshgatew.Store.Effects.{Effect, start, attempt, fail}
use sshgatew.Store.Operations.{Operation}
use sshgatew.Store
use sshgatew.Store.{User, UserRow, GatewayKey, Db, role_member}
use sshgatew.Cli.{Machine, Flags, PublicKey, or_default, is_word, audit_local, read_public_key}

-- `return errors.New("usage: …")`, and any other return before the store is written.
abbrev pub refuse : Db → Effect
refuse db = fail (start db)

-- The user that `AddUser` returns.
abbrev pub newest_user : Db → List UserRow → UserRow
newest_user db [] = record { id = 0; username = []; role = []; enabled = false }
newest_user db (u ∷ us) = u

abbrev pub added_user : Machine → Effect → UserRow → Effect
added_user w e u =
    audit_local w (codes "admin.user.add")
      ((codes "username", u.username) ∷ (codes "role", u.role) ∷ []) e

abbrev pub add_with_role : Machine → Db → Text → Option Flags → Effect
add_with_role w db user none = refuse db
add_with_role w db user (some f) =
    let e =
      attempt (start db)
        (Operation.add_user user (or_default (f.text (codes "role")) role_member)) in
    elim f.rest [ [] ↦ added_user w e (newest_user db e.db.users) | a ∷ more ↦ refuse db ]

unfoldable pub users_add : Machine → Db → List Text → Effect
users_add w db [] = refuse db
users_add w db (user ∷ flags) = add_with_role w db user (w.parse (codes "users add") flags)

unfoldable pub users_enable : Machine → Db → Text → List Text → Effect
users_enable w db op (user ∷ []) =
    audit_local w (codes "admin.user." ++ op) ((codes "username", user) ∷ [])
      (attempt (start db) (Operation.set_user_enabled user (is_word op (codes "enable"))))
users_enable w db op args = refuse db

unfoldable pub users_delete : Machine → Db → List Text → Effect
users_delete w db (user ∷ []) =
    audit_local w (codes "admin.user.delete") ((codes "username", user) ∷ [])
      (attempt (start db) (Operation.delete_user user))
users_delete w db args = refuse db

unfoldable pub users_set_role : Machine → Db → List Text → Effect
users_set_role w db (user ∷ role ∷ []) =
    audit_local w (codes "admin.user.set_role")
      ((codes "username", user) ∷ (codes "role", role) ∷ [])
      (attempt (start db) (Operation.set_user_role user role))
users_set_role w db args = refuse db

abbrev pub remove_totp : Machine → Db → Store.Result User → Effect
remove_totp w db (Store.err e) = refuse db
remove_totp w db (Store.ok u) =
    audit_local w (codes "admin.user.totp.remove") ((codes "username", u.username) ∷ [])
      (attempt (start db) (Operation.remove_user_totp u.id))

unfoldable pub users_totp : Machine → Db → List Text → Effect
users_totp w db (op ∷ user ∷ []) =
    if is_word op (codes "remove") then remove_totp w db (user_by_name db user) else refuse db
users_totp w db args = refuse db

abbrev pub listed {ℓ} : {A : Type ℓ} → Db → Store.Result A → Effect
listed db (Store.ok rows) = start db
listed db (Store.err e) = refuse db

abbrev pub add_read_key : Machine → Db → Text → Text → Option PublicKey → Effect
add_read_key w db user label none = refuse db
add_read_key w db user label (some k) =
    audit_local w (codes "admin.gateway_key.add")
      ((codes "username", user) ∷ (codes "fingerprint", k.fingerprint) ∷ [])
      (attempt (start db) (Operation.add_gateway_key user k.fingerprint k.line label))

abbrev pub add_key_file : Machine → Db → Text → Option Flags → Effect
add_key_file w db user none = refuse db
add_key_file w db user (some f) =
    let file = or_default (f.text (codes "file")) [] in
    if is_empty file
    then refuse db
    else add_read_key w db user (or_default (f.text (codes "label")) []) (read_public_key w file)

abbrev pub remove_key : Machine → Db → Text → List Text → Effect
remove_key w db user (fingerprint ∷ []) =
    audit_local w (codes "admin.gateway_key.remove")
      ((codes "username", user) ∷ (codes "fingerprint", fingerprint) ∷ [])
      (attempt (start db) (Operation.remove_gateway_key user fingerprint))
remove_key w db user args = refuse db

unfoldable pub user_keys_command : Machine → Db → List Text → Effect
user_keys_command w db (op ∷ user ∷ args) =
    if is_word op (codes "list")
    then listed db (list_gateway_keys db user)
    else if is_word op (codes "add")
    then add_key_file w db user (w.parse (codes "users keys add") args)
    else if is_word op (codes "remove")
    then remove_key w db user args
    else refuse db
user_keys_command w db args = refuse db

unfoldable pub users_command : Machine → Db → List Text → Effect
users_command w db [] = refuse db
users_command w db (op ∷ args) =
    if is_word op (codes "list")
    then start db
    else if is_word op (codes "add")
    then users_add w db args
    else if is_word op (codes "enable") || is_word op (codes "disable")
    then users_enable w db op args
    else if is_word op (codes "delete")
    then users_delete w db args
    else if is_word op (codes "set-role")
    then users_set_role w db args
    else if is_word op (codes "keys")
    then user_keys_command w db args
    else if is_word op (codes "totp")
    then users_totp w db args
    else refuse db

abbrev pub change_group : Machine → Db → Text → List Text → Effect
change_group w db op (name ∷ []) =
    audit_local w (codes "admin.group." ++ op) ((codes "group", name) ∷ []) (
      attempt (start db) (
        if is_word op (codes "add") then Operation.add_group name else Operation.delete_group name))
change_group w db op args = refuse db

abbrev pub change_member : Machine → Db → List Text → Effect
change_member w db (op ∷ group ∷ user ∷ []) =
    if is_word op (codes "add") || is_word op (codes "remove")
    then audit_local w (codes "admin.group.member." ++ op)
        ((codes "group", group) ∷ (codes "username", user) ∷ [])
        (attempt (start db) (Operation.set_group_member group user (is_word op (codes "add"))))
    else refuse db
change_member w db args = refuse db

unfoldable pub groups_command : Machine → Db → List Text → Effect
groups_command w db [] = refuse db
groups_command w db (op ∷ args) =
    if is_word op (codes "list")
    then start db
    else if is_word op (codes "add") || is_word op (codes "delete")
    then change_group w db op args
    else if is_word op (codes "members")
    then change_member w db args
    else refuse db
