-- ===== src/Store/Access/GroupGrants.antt =====
-- internal/store/store.go: what a grant to a group, and its removal, do to the access checks.
use sshgatew.Prelude.{
  ℕ, ◌≡◌, refl, ◌∙◌, Bool, true, ◌&&◌, ◌||◌, List, [], ◌∷◌, any, ◌==◌, if◌then◌else◌, arith,
}
use sshgatew.Prelude.Texts.{Text, codes, text_discrete}
use sshgatew.Store.Users.{is_admin}
use sshgatew.Store.Groups.{group_by_name}
use sshgatew.Store.Targets.{target_by_name}
use sshgatew.Store.Grants.{
  Capabilities, is_grant, grant_row, write_grant, set_grant_capabilities, user_granted,
  can_access_capability,
}
use sshgatew.Store.Columns.{
  Capability, capability_name, is_stored, is_given, column-capability_name, stored-grant_row,
}
use sshgatew.Store.{User, Target, Group, GrantRow, MemberRow, Db, ok}
use sshgatew.Store.Access.{any-write_grant, can_access_lem}

-- Whether a group has a capability at a target by its grants.
abbrev pub has_from : List GrantRow → (GrantRow → Bool) → ℕ → ℕ → Bool
has_from rows allows group target = any (λ g. is_grant group target g && allows g) rows

any-members :
    (u : ℕ) (q r : ℕ → Bool) (ms : List MemberRow)
    → ((n : ℕ) → q n ≡ r n)
    → any (λ m. m.user_id == u && q m.group_id) ms ≡ any (λ m. m.user_id == u && r m.group_id) ms
unfolding any
any-members u q r [] e = refl
any-members u q r (m ∷ ms) e = rw (e m.group_id, any-members u q r ms e) refl

module _ (db : Db) (target principal : Text) (add : Bool) (c : Capabilities) (db' : Db) (t : Target)
    (p : Group) (found_target : target_by_name db target ≡ ok t)
    (found_group : group_by_name db principal ≡ ok p)
    (done : set_grant_capabilities db target (codes "group") principal add c ≡ ok db') where
  granted : db' ≡ record db { group_grants = write_grant db.group_grants p.id t.id add c }
  unfolding set_grant_capabilities text_discrete
  granted = ground arith

  -- After `SetGrantCapabilities` for a group and a target, an enabled user passes the check of one of
  -- the four capabilities at a target exactly if a row of that target is enabled and the user is an
  -- administrator, has the capability from a direct grant as before, or is a member of a group that
  -- has it: by the flag of that capability in the request just made for this group and target (by none
  -- if the grant was removed), and by the grants as they were for all other groups and targets.
  pub can_access-set_group_grant :
      (v : User) (tid : ℕ) (k : Capability)
      → v.enabled ≡ true
      → can_access_capability db' v tid (capability_name k) ≡ (
          any (λ x. x.id == tid && x.enabled) db.targets
          && (is_admin v.role
              || user_granted db (is_stored k) v.id tid
              || any
                  (λ m.
                    m.user_id == v.id
                    && (if m.group_id == p.id && tid == t.id
                        then add && is_given k c
                        else has_from db.group_grants (is_stored k) m.group_id tid))
                  db.members))
  can_access-set_group_grant v tid k on =
      let same =
        any-members v.id
          (λ n. has_from (write_grant db.group_grants p.id t.id add c) (is_stored k) n tid)
          (λ n.
            if n == p.id && tid == t.id
            then add && is_stored k (grant_row p.id t.id c)
            else has_from db.group_grants (is_stored k) n tid)
          db.members (λ n. any-write_grant (is_stored k) p.id t.id c n tid add db.group_grants) in
      can_access_lem db' v tid (capability_name k) (is_stored k) (column-capability_name k) on
      ∙ rw granted (rw (same, stored-grant_row k p.id t.id c) refl)
