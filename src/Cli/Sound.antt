-- ===== src/Cli/Sound.antt =====
-- cmd/sshgatew/main.go: what a command does to the store, and that it is recorded.
use sshgatew.Prelude.{
  ◌≡◌, refl, arith, ◌⊎◌, inl, inr, Bool, true, false, List, [], ◌∷◌, Option, none, some,
  if◌then◌else◌,
}
use sshgatew.Prelude.Lists.{List-cases}
use sshgatew.Prelude.Texts.{Text, codes}
use sshgatew.Store
use sshgatew.Store.{Db, User}
use sshgatew.Store.Users.{user_by_name}
use sshgatew.Store.Lists.{list_gateway_keys}
use sshgatew.Store.Operations.{Operation, apply}
use sshgatew.Store.Effects.{Effect, start, after_apply, attempt}
use sshgatew.Store.Effects.Runs.{IsRun, start-IsRun, attempt-IsRun}
use sshgatew.Cli.{Machine, Flags, PublicKey, local_event, audit_local}
use sshgatew.Cli.Users.{
  refuse, added_user, add_with_role, newest_user, users_add, users_enable, users_delete,
  users_set_role, remove_totp, users_totp, listed, add_read_key, add_key_file, remove_key,
  user_keys_command, users_command, change_group, change_member, groups_command,
}

-- The last write was an audit event of the local administrator, and the store took it.
abbrev pub EndsLocal : Machine → Effect → Type 0
EndsLocal w e =
    (type : Text) × (details : List (Text × Text)) × (db : Db) × (apply db
        (local_event w type details)
      ≡ Store.ok e.db)

-- The store is that of a run of what was tried, and a success that wrote something is recorded.
pub record IsSound (w : Machine) (db : Db) (e : Effect) : Type 0 where
  pub is_run : IsRun db e
  pub recorded : e.failed ≡ false → (e.tried ≡ []) ⊎ EndsLocal w e

pub start-IsSound : (w : Machine) (db : Db) → IsSound w db (start db)
start-IsSound w db = record { is_run = start-IsRun db; recorded = λ f. inl refl }

pub refuse-IsSound : (w : Machine) (db : Db) → IsSound w db (refuse db)
refuse-IsSound w db = record { is_run = start-IsRun db; recorded = λ f. inl refl }

after_apply-EndsLocal :
    (w : Machine) (type : Text) (details : List (Text × Text)) (e : Effect) (r : Store.Result Db)
    → apply e.db (local_event w type details) ≡ r
    → (after_apply e (local_event w type details) r).failed ≡ false
    → EndsLocal w (after_apply e (local_event w type details) r)
after_apply-EndsLocal w type details e (Store.ok db) q f = (type, details, e.db, q)
after_apply-EndsLocal w type details e (Store.err v) q f = ground (arith, f)

if_failed-EndsLocal :
    (w : Machine) (b : Bool) (e e' : Effect)
    → e.failed ≡ b
    → (e'.failed ≡ false → EndsLocal w e')
    → (if b then e else e').failed ≡ false
    → EndsLocal w (if b then e else e')
if_failed-EndsLocal w true e e' q h f = ground (arith, f, q)
if_failed-EndsLocal w false e e' q h f = h f

pub audit_local-IsSound :
    (w : Machine) (type : Text) (details : List (Text × Text)) (db : Db) (e : Effect)
    → IsRun db e
    → IsSound w db (audit_local w type details e)
unfolding attempt
audit_local-IsSound w type details db e h =
    let op = local_event w type details in
    record {
      is_run = attempt-IsRun db e op h;
      recorded = λ f. inr (
          if_failed-EndsLocal w e.failed e (after_apply e op (apply e.db op)) refl
            (after_apply-EndsLocal w type details e (apply e.db op) refl) f);
    }

-- One operation, and its audit event.
pub change-IsSound :
    (w : Machine) (type : Text) (details : List (Text × Text)) (db : Db) (op : Operation)
    → IsSound w db (audit_local w type details (attempt (start db) op))
change-IsSound w type details db op =
    audit_local-IsSound w type details db (attempt (start db) op)
      (attempt-IsRun db (start db) op (start-IsRun db))

users_enable-IsSound :
    (w : Machine) (db : Db) (op : Text) (args : List Text)
    → IsSound w db (users_enable w db op args)
unfolding users_enable
users_enable-IsSound w db op [] = refuse-IsSound w db
users_enable-IsSound w db op (u ∷ []) = change-IsSound w _ _ db _
users_enable-IsSound w db op (u ∷ v ∷ args) = refuse-IsSound w db

users_delete-IsSound :
    (w : Machine) (db : Db) (args : List Text) → IsSound w db (users_delete w db args)
unfolding users_delete
users_delete-IsSound w db [] = refuse-IsSound w db
users_delete-IsSound w db (u ∷ []) = change-IsSound w _ _ db _
users_delete-IsSound w db (u ∷ v ∷ args) = refuse-IsSound w db

change_group-IsSound :
    (w : Machine) (db : Db) (op : Text) (args : List Text)
    → IsSound w db (change_group w db op args)
change_group-IsSound w db op [] = refuse-IsSound w db
change_group-IsSound w db op (g ∷ []) = change-IsSound w _ _ db _
change_group-IsSound w db op (g ∷ v ∷ args) = refuse-IsSound w db

pub if-IsSound :
    (w : Machine) (db : Db) (b : Bool) (e e' : Effect)
    → IsSound w db e
    → IsSound w db e'
    → IsSound w db (if b then e else e')
if-IsSound w db true e e' h h' = h
if-IsSound w db false e e' h h' = h'

change_member-IsSound :
    (w : Machine) (db : Db) (args : List Text) → IsSound w db (change_member w db args)
change_member-IsSound w db [] = refuse-IsSound w db
change_member-IsSound w db (op ∷ []) = refuse-IsSound w db
change_member-IsSound w db (op ∷ g ∷ []) = refuse-IsSound w db
change_member-IsSound w db (op ∷ g ∷ u ∷ []) =
    if-IsSound w db _ _ _ (change-IsSound w _ _ db _) (refuse-IsSound w db)
change_member-IsSound w db (op ∷ g ∷ u ∷ v ∷ args) = refuse-IsSound w db

pub groups_command-IsSound :
    (w : Machine) (db : Db) (args : List Text) → IsSound w db (groups_command w db args)
unfolding groups_command
groups_command-IsSound w db [] = refuse-IsSound w db
groups_command-IsSound w db (op ∷ args) = ground (
  arith,
  refuse-IsSound w db,
  start-IsSound w db,
  change_group-IsSound w db op args,
  change_member-IsSound w db args,
)

added_user-IsSound :
    (w : Machine) (db : Db) (op : Operation)
    → IsSound w db (let e = attempt (start db) op in added_user w e (newest_user db e.db.users))
added_user-IsSound w db op = change-IsSound w _ _ db op

add_with_role-IsSound :
    (w : Machine) (db : Db) (user : Text) (f : Option Flags)
    → IsSound w db (add_with_role w db user f)
add_with_role-IsSound w db user none = refuse-IsSound w db
add_with_role-IsSound w db user (some f) = elim (List-cases f.rest) [
  | inl e ↦ rw e (added_user-IsSound w db _)
  | inr (a, more, e) ↦ rw e (refuse-IsSound w db)
]

users_add-IsSound : (w : Machine) (db : Db) (args : List Text) → IsSound w db (users_add w db args)
unfolding users_add
users_add-IsSound w db [] = refuse-IsSound w db
users_add-IsSound w db (u ∷ args) = add_with_role-IsSound w db u (w.parse (codes "users add") args)

users_set_role-IsSound :
    (w : Machine) (db : Db) (args : List Text) → IsSound w db (users_set_role w db args)
unfolding users_set_role
users_set_role-IsSound w db [] = refuse-IsSound w db
users_set_role-IsSound w db (u ∷ []) = refuse-IsSound w db
users_set_role-IsSound w db (u ∷ r ∷ []) = change-IsSound w _ _ db _
users_set_role-IsSound w db (u ∷ r ∷ v ∷ args) = refuse-IsSound w db

remove_totp-IsSound :
    (w : Machine) (db : Db) (r : Store.Result User) → IsSound w db (remove_totp w db r)
remove_totp-IsSound w db (Store.err e) = refuse-IsSound w db
remove_totp-IsSound w db (Store.ok u) = change-IsSound w _ _ db _

users_totp-IsSound :
    (w : Machine) (db : Db) (args : List Text) → IsSound w db (users_totp w db args)
unfolding users_totp
users_totp-IsSound w db [] = refuse-IsSound w db
users_totp-IsSound w db (op ∷ []) = refuse-IsSound w db
users_totp-IsSound w db (op ∷ u ∷ []) =
    if-IsSound w db _ _ _ (remove_totp-IsSound w db (user_by_name db u)) (refuse-IsSound w db)
users_totp-IsSound w db (op ∷ u ∷ v ∷ args) = refuse-IsSound w db

listed-IsSound :
    {A : Type 0} (w : Machine) (db : Db) (r : Store.Result A) → IsSound w db (listed db r)
listed-IsSound w db (Store.ok rows) = start-IsSound w db
listed-IsSound w db (Store.err e) = refuse-IsSound w db

add_read_key-IsSound :
    (w : Machine) (db : Db) (user label : Text) (k : Option PublicKey)
    → IsSound w db (add_read_key w db user label k)
add_read_key-IsSound w db user label none = refuse-IsSound w db
add_read_key-IsSound w db user label (some k) = change-IsSound w _ _ db _

add_key_file-IsSound :
    (w : Machine) (db : Db) (user : Text) (f : Option Flags)
    → IsSound w db (add_key_file w db user f)
add_key_file-IsSound w db user none = refuse-IsSound w db
add_key_file-IsSound w db user (some f) =
    if-IsSound w db _ _ _ (refuse-IsSound w db) (add_read_key-IsSound w db user _ _)

remove_key-IsSound :
    (w : Machine) (db : Db) (user : Text) (args : List Text)
    → IsSound w db (remove_key w db user args)
remove_key-IsSound w db user [] = refuse-IsSound w db
remove_key-IsSound w db user (f ∷ []) = change-IsSound w _ _ db _
remove_key-IsSound w db user (f ∷ v ∷ args) = refuse-IsSound w db

user_keys_command-IsSound :
    (w : Machine) (db : Db) (args : List Text) → IsSound w db (user_keys_command w db args)
unfolding user_keys_command
user_keys_command-IsSound w db [] = refuse-IsSound w db
user_keys_command-IsSound w db (op ∷ []) = refuse-IsSound w db
user_keys_command-IsSound w db (op ∷ user ∷ args) = ground (
  arith,
  refuse-IsSound w db,
  listed-IsSound w db (list_gateway_keys db user),
  add_key_file-IsSound w db user (w.parse (codes "users keys add") args),
  remove_key-IsSound w db user args,
)

pub users_command-IsSound :
    (w : Machine) (db : Db) (args : List Text) → IsSound w db (users_command w db args)
unfolding users_command
users_command-IsSound w db [] = refuse-IsSound w db
users_command-IsSound w db (op ∷ args) = ground (
  arith,
  refuse-IsSound w db,
  start-IsSound w db,
  users_add-IsSound w db args,
  users_enable-IsSound w db op args,
  users_delete-IsSound w db args,
  users_set_role-IsSound w db args,
  user_keys_command-IsSound w db args,
  users_totp-IsSound w db args,
)
