-- ===== src/Store/Grants.antt =====
-- internal/store/store.go: who may reach which target, by which protocol.
use sshgatew.Prelude.{
  ℕ, Bool, true, false, not, ◌&&◌, ◌||◌, List, ◌∷◌, Option, none, some, any, filter, count, delete,
  update, ltb, ◌==◌, if◌then◌else◌,
}
use sshgatew.Prelude.Texts.{Text, text_eq, codes}
use sshgatew.Store.Users.{user_by_name, is_admin}
use sshgatew.Store.Groups.{group_by_name}
use sshgatew.Store.Targets.{target_by_name}
use sshgatew.Store.{
  User, Target, GrantRow, Db, Result, ok, err, ◌>>=◌, bad_principal_kind, capability_shell,
  capability_sftp, capability_scp, capability_forward,
}

-- The four `allow_…` columns.
pub record Capabilities : Type 0 where
  pub shell : Bool
  pub sftp : Bool
  pub scp : Bool
  pub tcp_forward : Bool

abbrev pub is_grant : ℕ → ℕ → GrantRow → Bool
is_grant principal target g = g.principal_id == principal && g.target_id == target

abbrev pub grant_row : ℕ → ℕ → Capabilities → GrantRow
grant_row principal target c = record {
  principal_id = principal;
  target_id = target;
  allow_shell = c.shell;
  allow_sftp = c.sftp;
  allow_scp = c.scp;
  allow_tcp_forward = c.tcp_forward;
}

-- The statement on one of the two tables: INSERT … ON CONFLICT DO UPDATE, or DELETE.
unfoldable pub write_grant : List GrantRow → ℕ → ℕ → Bool → Capabilities → List GrantRow
write_grant rows principal target add c =
    let row = grant_row principal target c in
    if add
    then if any (is_grant principal target) rows
      then update (is_grant principal target) (λ g. row) rows
      else row ∷ rows
    else delete (is_grant principal target) rows

abbrev pub grant_user : Db → ℕ → Text → Bool → Capabilities → Result Db
grant_user db target principal add c = do
  u ← user_by_name db principal
  ok (record db { user_grants = write_grant db.user_grants u.id target add c })

abbrev pub grant_group : Db → ℕ → Text → Bool → Capabilities → Result Db
grant_group db target principal add c = do
  g ← group_by_name db principal
  ok (record db { group_grants = write_grant db.group_grants g.id target add c })

unfoldable pub set_grant_capabilities : Db → Text → Text → Text → Bool → Capabilities → Result Db
set_grant_capabilities db target kind principal add c = do
  t ← target_by_name db target
  if text_eq kind (codes "user")
      then grant_user db t.id principal add c
      else if text_eq kind (codes "group")
      then grant_group db t.id principal add c
      else err bad_principal_kind

unfoldable pub set_grant : Db → Text → Text → Text → Bool → Result Db
unfolding set_grant_capabilities
set_grant db target kind principal add =
    set_grant_capabilities db target kind principal add
      (record { shell = true; sftp = true; scp = true; tcp_forward = false })

-- The map from capabilities to columns; another text has no column.
unfoldable pub column : Text → Option (GrantRow → Bool)
column capability =
    if text_eq capability capability_shell
    then some (λ g. g.allow_shell)
    else if text_eq capability capability_sftp
    then some (λ g. g.allow_sftp)
    else if text_eq capability capability_scp
    then some (λ g. g.allow_scp)
    else if text_eq capability capability_forward
    then some (λ g. g.allow_tcp_forward)
    else none

-- EXISTS(… user_target_grants …)
abbrev pub user_granted : Db → (GrantRow → Bool) → ℕ → ℕ → Bool
user_granted db allows user target = any (λ g. is_grant user target g && allows g) db.user_grants

-- EXISTS(… group_members gm JOIN group_target_grants gg …)
abbrev pub group_granted : Db → (GrantRow → Bool) → ℕ → ℕ → Bool
group_granted db allows user target =
    any
      (λ m.
        m.user_id == user && any (λ g. is_grant m.group_id target g && allows g) db.group_grants)
      db.members

unfoldable pub can_access_capability : Db → User → ℕ → Text → Bool
can_access_capability db u target_id capability =
    if not u.enabled then false else elim (column capability) [
      | none ↦ false
      | some allows ↦ ltb 0 (
          count
            (λ (t : Target).
              t.id == target_id
              && t.enabled
              && (is_admin u.role
                  || user_granted db allows u.id t.id
                  || group_granted db allows u.id t.id))
            db.targets)
    ]

unfoldable pub can_access : Db → User → ℕ → Bool
unfolding can_access_capability
can_access db u target_id = can_access_capability db u target_id capability_shell

-- The rows of the query of `ListAuthorizedTargets`, which orders them by name.
unfoldable pub authorized_targets : Db → User → List Target
authorized_targets db u =
    if is_admin u.role
    then filter (λ t. t.enabled) db.targets
    else filter
        (λ t.
          t.enabled
          && (user_granted db (λ g. true) u.id t.id || group_granted db (λ g. true) u.id t.id))
        db.targets
