-- ===== src/Store/Run.antt =====
-- internal/store/store.go: the invariants hold after every history of the store.
pub mod Frame
use sshgatew.Prelude.{◌≡◌, refl, sym, true, false, List, [], ◌∷◌, arith, any}
use sshgatew.Store.Operations.{Operation, exec, run}
use sshgatew.Store.WellFormed
use sshgatew.Store.WellFormed.{IsWellFormed}
use sshgatew.Store.Admin
use sshgatew.Store.Admin.{HasUsableAdmin}
use sshgatew.Store.{Db}
use Frame.{Untouched, writes_users, exec-Untouched}

Untouched-IsWellFormed : (db db' : Db) → Untouched db db' → IsWellFormed db → IsWellFormed db'
Untouched-IsWellFormed db db' (u, k) w = record {
  user_ids = rw u w.user_ids;
  usernames = rw u w.usernames;
  names_valid = rw u w.names_valid;
  roles_valid = rw u w.roles_valid;
  key_pairs = rw k w.key_pairs;
  keys_owned = rw (u, k) w.keys_owned;
}

Untouched-HasUsableAdmin : (db db' : Db) → Untouched db db' → HasUsableAdmin db → HasUsableAdmin db'
Untouched-HasUsableAdmin db db' (u, k) h = rw (u, k) h

exec-IsWellFormed : (db : Db) (op : Operation) → IsWellFormed db → IsWellFormed (exec db op)
exec-IsWellFormed db (Operation.add_user u r) w = WellFormed.add_user-IsWellFormed db u r w
exec-IsWellFormed db (Operation.set_user_enabled n e) w =
    WellFormed.set_user_enabled-IsWellFormed db n e w
exec-IsWellFormed db (Operation.set_user_role n r) w =
    WellFormed.set_user_role-IsWellFormed db n r w
exec-IsWellFormed db (Operation.delete_user n) w = WellFormed.delete_user-IsWellFormed db n w
exec-IsWellFormed db (Operation.add_gateway_key u f k l) w =
    WellFormed.add_gateway_key-IsWellFormed db u f k l w
exec-IsWellFormed db (Operation.remove_gateway_key u f) w =
    WellFormed.remove_gateway_key-IsWellFormed db u f w
exec-IsWellFormed db op w = Untouched-IsWellFormed db (exec db op) (exec-Untouched db op refl) w

exec-HasUsableAdmin :
    (db : Db) (op : Operation) → IsWellFormed db → HasUsableAdmin db → HasUsableAdmin (exec db op)
exec-HasUsableAdmin db (Operation.add_user u r) w h = Admin.add_user-HasUsableAdmin db u r h
exec-HasUsableAdmin db (Operation.set_user_enabled n e) w h =
    Admin.set_user_enabled-HasUsableAdmin db n e w h
exec-HasUsableAdmin db (Operation.set_user_role n r) w h =
    Admin.set_user_role-HasUsableAdmin db n r w h
exec-HasUsableAdmin db (Operation.delete_user n) w h = Admin.delete_user-HasUsableAdmin db n w h
exec-HasUsableAdmin db (Operation.add_gateway_key u f k l) w h =
    Admin.add_gateway_key-HasUsableAdmin db u f k l h
exec-HasUsableAdmin db (Operation.remove_gateway_key u f) w h =
    Admin.remove_gateway_key-HasUsableAdmin db u f w h
exec-HasUsableAdmin db op w h =
    Untouched-HasUsableAdmin db (exec db op) (exec-Untouched db op refl) h

-- From a database that meets the constraints of `users` and `gateway_keys` (unique ids, unique user
-- names that match the name pattern, valid roles, one row for each user and fingerprint, each key
-- owned by a user), every sequence of the store's writing operations leads to one that meets them.
pub run-IsWellFormed :
    (ops : List Operation) (db : Db) → IsWellFormed db → IsWellFormed (run db ops)
unfolding run
run-IsWellFormed [] db w = w
run-IsWellFormed (op ∷ ops) db w = run-IsWellFormed ops (exec db op) (exec-IsWellFormed db op w)

-- From a database that meets those constraints and has a usable administrator (enabled, with a
-- gateway key), every sequence of the store's writing operations leads to one that has one.
pub run-HasUsableAdmin :
    (ops : List Operation) (db : Db)
    → IsWellFormed db
    → HasUsableAdmin db
    → HasUsableAdmin (run db ops)
unfolding run
run-HasUsableAdmin [] db w h = h
run-HasUsableAdmin (op ∷ ops) db w h =
    run-HasUsableAdmin ops (exec db op) (exec-IsWellFormed db op w) (exec-HasUsableAdmin db op w h)
