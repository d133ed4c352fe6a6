-- ===== src/Cli/Changes.antt =====
-- cmd/sshgatew/main.go: what the commands on targets and grants, and all of them, do to the store.
use sshgatew.Prelude.{
  ℕ, ◌≡◌, refl, arith, Bool, true, false, List, [], ◌∷◌, Option, none, some, if◌then◌else◌,
}
use sshgatew.Prelude.Texts.{Text, codes}
use sshgatew.Store
use sshgatew.Store.{Db, Target}
use sshgatew.Store.Targets.{NewTarget, target_by_name}
use sshgatew.Store.Operations.{Operation}
use sshgatew.Store.Effects.{Effect, start, clean_up, with_secret}
use sshgatew.Store.Effects.Runs.{
  IsRun, start-IsRun, attempt-IsRun, clean_up-IsRun, with_secret-IsRun,
}
use sshgatew.Cli.{Machine, Flags, PublicKey}
use sshgatew.Cli.Admin.{Part, admin_command}
use sshgatew.Cli.Targets.{
  sealed_credential, save_added, add_new, flagged_target, add_pinned, add_flagged, target_add,
  edit_flagged, on_target, target_edit, replace_flagged, target_credential, pin, host_key_flagged,
  target_host_key, enable_target, remove_target, credential_args, targets_command, grant_flagged,
  grants_command,
}
use sshgatew.Cli.Sound.{
  IsSound, start-IsSound, refuse-IsSound, audit_local-IsSound, change-IsSound, if-IsSound,
  users_command-IsSound, groups_command-IsSound,
}

-- An undone insert is a failure.
clean_up-IsSound :
    (w : Machine) (db : Db) (e : Effect) (op : Operation) (b : Bool)
    → e.failed ≡ b
    → b ≡ true
    → IsRun db e
    → IsSound w db (clean_up e op)
unfolding clean_up
clean_up-IsSound w db e op b q t h = record {
  is_run = clean_up-IsRun db e op h;
  recorded = λ f. ground (arith, q, t, f);
}

if_stored-IsSound :
    (w : Machine) (db : Db) (b : Bool) (e e' : Effect) (op : Operation)
    → e.failed ≡ b
    → IsRun db e
    → IsSound w db e'
    → IsSound w db (if b then clean_up e op else e')
if_stored-IsSound w db true e e' op q h i = clean_up-IsSound w db e op true q refl h
if_stored-IsSound w db false e e' op q h i = i

save_added-IsSound :
    (w : Machine) (db : Db) (kind file fingerprint : Text) (t : ℕ × Text) (e : Effect)
    → IsRun db e
    → IsSound w db (save_added w kind file fingerprint t e)
save_added-IsSound w db kind file fingerprint (id, name) e h =
    let stored =
      with_secret e (sealed_credential w id kind file) (Operation.set_target_credential id) in
    let r =
      with_secret-IsRun db e (sealed_credential w id kind file) (Operation.set_target_credential id)
        h in
    if_stored-IsSound w db stored.failed stored _ _ refl r (audit_local-IsSound w _ _ db stored r)

if_failed-IsSound :
    (w : Machine) (db : Db) (b : Bool) (e e' : Effect)
    → e.failed ≡ b
    → IsRun db e
    → IsSound w db e'
    → IsSound w db (if b then e else e')
if_failed-IsSound w db true e e' q h i = record { is_run = h; recorded = λ f. ground (arith, q, f) }
if_failed-IsSound w db false e e' q h i = i

add_new-IsSound :
    (w : Machine) (db : Db) (n : NewTarget) (file fingerprint : Text) (e : Effect)
    → IsRun db e
    → IsSound w db (add_new w n file fingerprint e)
add_new-IsSound w db n file fingerprint e h =
    if_failed-IsSound w db e.failed e _ refl h (save_added-IsSound w db _ _ _ _ e h)

add_pinned-IsSound :
    (w : Machine) (db : Db) (f : Flags) (k : Option PublicKey) → IsSound w db (add_pinned w db f k)
add_pinned-IsSound w db f none = refuse-IsSound w db
add_pinned-IsSound w db f (some k) =
    add_new-IsSound w db (flagged_target f k) _ _ _ (attempt-IsRun db (start db) _ (start-IsRun db))

add_flagged-IsSound : (w : Machine) (db : Db) (f : Option Flags) → IsSound w db (add_flagged w db f)
add_flagged-IsSound w db none = refuse-IsSound w db
add_flagged-IsSound w db (some f) =
    if-IsSound w db _ _ _ (refuse-IsSound w db) (add_pinned-IsSound w db f _)

target_add-IsSound :
    (w : Machine) (db : Db) (args : List Text) → IsSound w db (target_add w db args)
unfolding target_add
target_add-IsSound w db args = add_flagged-IsSound w db (w.parse (codes "targets add") args)

edit_flagged-IsSound :
    (w : Machine) (db : Db) (t : Target) (f : Option Flags) → IsSound w db (edit_flagged w db t f)
edit_flagged-IsSound w db t none = refuse-IsSound w db
edit_flagged-IsSound w db t (some f) = change-IsSound w _ _ db _

on_target-IsSound :
    (w : Machine) (db : Db) (r : Store.Result Target) (k : Target → Effect)
    → ((t : Target) → IsSound w db (k t))
    → IsSound w db (on_target db r k)
on_target-IsSound w db (Store.err e) k h = refuse-IsSound w db
on_target-IsSound w db (Store.ok t) k h = h t

target_edit-IsSound :
    (w : Machine) (db : Db) (args : List Text) → IsSound w db (target_edit w db args)
unfolding target_edit
target_edit-IsSound w db [] = refuse-IsSound w db
target_edit-IsSound w db (name ∷ args) =
    on_target-IsSound w db (target_by_name db name) _ (λ t. edit_flagged-IsSound w db t _)

replace_flagged-IsSound :
    (w : Machine) (db : Db) (name : Text) (t : Target) (f : Option Flags)
    → IsSound w db (replace_flagged w db name t f)
replace_flagged-IsSound w db name t none = refuse-IsSound w db
replace_flagged-IsSound w db name t (some f) =
    audit_local-IsSound w _ _ db _ (with_secret-IsRun db (start db) _ _ (start-IsRun db))

target_credential-IsSound :
    (w : Machine) (db : Db) (name : Text) (args : List Text)
    → IsSound w db (target_credential w db name args)
unfolding target_credential
target_credential-IsSound w db name args =
    on_target-IsSound w db (target_by_name db name) _ (λ t. replace_flagged-IsSound w db name t _)

pin-IsSound :
    (w : Machine) (db : Db) (op name : Text) (confirmed : Bool) (k : Option PublicKey)
    → IsSound w db (pin w db op name confirmed k)
pin-IsSound w db op name confirmed none = refuse-IsSound w db
pin-IsSound w db op name confirmed (some k) =
    if-IsSound w db _ _ _ (start-IsSound w db)
      (if-IsSound w db _ _ _ (refuse-IsSound w db) (change-IsSound w _ _ db _))

host_key_flagged-IsSound :
    (w : Machine) (db : Db) (op name : Text) (t : Target) (f : Option Flags)
    → IsSound w db (host_key_flagged w db op name t f)
host_key_flagged-IsSound w db op name t none = refuse-IsSound w db
host_key_flagged-IsSound w db op name t (some f) = pin-IsSound w db op name _ _

target_host_key-IsSound :
    (w : Machine) (db : Db) (args : List Text) → IsSound w db (target_host_key w db args)
unfolding target_host_key
target_host_key-IsSound w db [] = refuse-IsSound w db
target_host_key-IsSound w db (op ∷ []) = refuse-IsSound w db
target_host_key-IsSound w db (op ∷ name ∷ args) =
    if-IsSound w db _ _ _
      (on_target-IsSound w db (target_by_name db name) _
        (λ t. host_key_flagged-IsSound w db op name t _))
      (refuse-IsSound w db)

enable_target-IsSound :
    (w : Machine) (db : Db) (op : Text) (args : List Text)
    → IsSound w db (enable_target w db op args)
enable_target-IsSound w db op [] = refuse-IsSound w db
enable_target-IsSound w db op (n ∷ []) = change-IsSound w _ _ db _
enable_target-IsSound w db op (n ∷ v ∷ args) = refuse-IsSound w db

remove_target-IsSound :
    (w : Machine) (db : Db) (args : List Text) → IsSound w db (remove_target w db args)
remove_target-IsSound w db [] = refuse-IsSound w db
remove_target-IsSound w db (n ∷ []) = change-IsSound w _ _ db _
remove_target-IsSound w db (n ∷ v ∷ args) = refuse-IsSound w db

credential_args-IsSound :
    (w : Machine) (db : Db) (args : List Text) → IsSound w db (credential_args w db args)
credential_args-IsSound w db [] = refuse-IsSound w db
credential_args-IsSound w db (op ∷ []) = refuse-IsSound w db
credential_args-IsSound w db (op ∷ name ∷ args) =
    if-IsSound w db _ _ _ (target_credential-IsSound w db name args) (refuse-IsSound w db)

targets_command-IsSound :
    (w : Machine) (db : Db) (args : List Text) → IsSound w db (targets_command w db args)
unfolding targets_command
targets_command-IsSound w db [] = refuse-IsSound w db
targets_command-IsSound w db (op ∷ args) = ground (
  arith,
  refuse-IsSound w db,
  start-IsSound w db,
  target_add-IsSound w db args,
  target_edit-IsSound w db args,
  enable_target-IsSound w db op args,
  remove_target-IsSound w db args,
  credential_args-IsSound w db args,
  target_host_key-IsSound w db args,
)

grant_flagged-IsSound :
    (w : Machine) (db : Db) (op : Text) (f : Option Flags) → IsSound w db (grant_flagged w db op f)
grant_flagged-IsSound w db op none = refuse-IsSound w db
grant_flagged-IsSound w db op (some f) =
    if-IsSound w db _ _ _ (refuse-IsSound w db) (change-IsSound w _ _ db _)

grants_command-IsSound :
    (w : Machine) (db : Db) (args : List Text) → IsSound w db (grants_command w db args)
unfolding grants_command
grants_command-IsSound w db [] = refuse-IsSound w db
grants_command-IsSound w db (op ∷ args) = ground (
  arith,
  refuse-IsSound w db,
  start-IsSound w db,
  grant_flagged-IsSound w db op (w.parse (codes "grants") args),
)

-- Every command of the command line on users, groups, targets and grants, with whatever arguments,
-- does to the store what a run of the operations it tried does; and one that succeeds and tried any
-- has recorded an audit event of the local administrator with the last of them.
pub admin_command-IsSound :
    (w : Machine) (db : Db) (part : Part) (args : List Text)
    → IsSound w db (admin_command w db part args)
admin_command-IsSound w db Part.users args = users_command-IsSound w db args
admin_command-IsSound w db Part.groups args = groups_command-IsSound w db args
admin_command-IsSound w db Part.targets args = targets_command-IsSound w db args
admin_command-IsSound w db Part.grants args = grants_command-IsSound w db args
