-- ===== src/Store/Access.antt =====
-- internal/store/store.go: what a grant, its removal and a forwarding rule do to the access checks.
pub mod GroupGrants
use sshgatew.Prelude.{
  ℕ, ◌≡◌, refl, ◌∙◌, inl, inr, Bool, true, false, ◌&&◌, ◌||◌, List, [], ◌∷◌, some, any, filter,
  count, delete, ltb, ◌==◌, if◌then◌else◌, arith, any_mono, any-false_mono, any-map, any-filter,
  count-zero_iff_any, Bool-cases, Option-cases,
}
use sshgatew.Prelude.Lists.{all}
use sshgatew.Prelude.Texts.{
  is_ascii, Text, text_eq, to_lower, trim_space, codes, to_lower_idem, text_discrete,
}
use sshgatew.Store.Users.{user_by_name, is_admin}
use sshgatew.Store.Targets.{target_by_name}
use sshgatew.Store.Grants.{
  Capabilities, is_grant, grant_row, write_grant, set_grant_capabilities, column, user_granted,
  group_granted, can_access_capability, authorized_targets,
}
use sshgatew.Store.Forwards.{insert_rule, add_forward_rule, forward_allowed}
use sshgatew.Store.Columns.{
  Capability, capability_name, is_stored, is_given, column-capability_name, stored-grant_row,
}
use sshgatew.Store.{User, Target, GrantRow, ForwardRow, Db, ok}

pub ltb-count {ℓ} : {A : Type ℓ} (p : A → Bool) (xs : List A) → ltb 0 (count p xs) ≡ any p xs
ltb-count p xs = ground (arith, count-zero_iff_any p xs)

any-at :
    (q : ℕ → Bool) (n : ℕ) (xs : List Target)
    → any (λ x. x.id == n && x.enabled && q x.id) xs ≡ (any (λ x. x.id == n && x.enabled) xs && q n)
unfolding any
any-at q n [] = refl
any-at q n (x ∷ xs) = elim (Bool-cases (x.id == n)) [
  | inl e ↦ let same : x.id ≡ n = ground arith in rw same (ground (arith, any-at q n xs))
  | inr e ↦ rw e (any-at q n xs)
]

-- The check of a known capability, for an enabled user.
pub can_access_lem :
    (db : Db) (v : User) (tid : ℕ) (capability : Text) (allows : GrantRow → Bool)
    → column capability ≡ some allows
    → v.enabled ≡ true
    → can_access_capability db v tid capability ≡ (
        any (λ x. x.id == tid && x.enabled) db.targets
        && (is_admin v.role || user_granted db allows v.id tid || group_granted db allows v.id tid))
unfolding can_access_capability
can_access_lem db v tid capability allows col on =
    let q : ℕ → Bool =
      λ n. is_admin v.role || user_granted db allows v.id n || group_granted db allows v.id n in
    rw (on, col)
      (ltb-count (λ (x : Target). x.id == tid && x.enabled && q x.id) db.targets
        ∙ any-at q tid db.targets)

module _ (allows : GrantRow → Bool) (p t : ℕ) (c : Capabilities) where
  upd : GrantRow → GrantRow
  upd g = if is_grant p t g then grant_row p t c else g

  any-update_same :
      (rows : List GrantRow)
      → any (λ g. is_grant p t (upd g) && allows (upd g)) rows
        ≡ (any (is_grant p t) rows && allows (grant_row p t c))
  unfolding any upd
  any-update_same [] = refl
  any-update_same (g ∷ rows) = ground (arith, any-update_same rows)

  any-update_other :
      (u tid : ℕ) (rows : List GrantRow)
      → (u == p && tid == t) ≡ false
      → any (λ g. is_grant u tid (upd g) && allows (upd g)) rows
        ≡ any (λ g. is_grant u tid g && allows g) rows
  unfolding any upd
  any-update_other u tid [] e = refl
  any-update_other u tid (g ∷ rows) e = ground (arith, any-update_other u tid rows e)

  any-delete_grant :
      (u tid : ℕ) (rows : List GrantRow)
      → any (λ g. is_grant u tid g && allows g) (delete (is_grant p t) rows)
        ≡ (if u == p && tid == t then false else any (λ g. is_grant u tid g && allows g) rows)
  unfolding any filter
  any-delete_grant u tid [] = ground arith
  any-delete_grant u tid (g ∷ rows) = ground (arith, any-delete_grant u tid rows)

  any-write_grant_self :
      (rows : List GrantRow)
      → any (λ g. is_grant p t g && allows g) (write_grant rows p t true c)
        ≡ allows (grant_row p t c)
  unfolding write_grant any upd
  any-write_grant_self rows = elim (Bool-cases (any (is_grant p t) rows)) [
    | inl e ↦
        rw e (any-map (λ g. is_grant p t g && allows g) upd rows ∙ any-update_same rows ∙ rw e)
    | inr e ↦ rw e (
        ground (
          arith,
          any-false_mono (λ g. is_grant p t g && allows g) (is_grant p t) rows (λ g h. ground arith)
              e,
        ))
  ]

  any-write_grant_other :
      (u tid : ℕ) (rows : List GrantRow)
      → (u == p && tid == t) ≡ false
      → any (λ g. is_grant u tid g && allows g) (write_grant rows p t true c)
        ≡ any (λ g. is_grant u tid g && allows g) rows
  unfolding write_grant any upd
  any-write_grant_other u tid rows ne = elim (Bool-cases (any (is_grant p t) rows)) [
    | inl e ↦
        rw e (any-map (λ g. is_grant u tid g && allows g) upd rows ∙ any-update_other u tid rows ne)
    | inr e ↦ rw e (ground arith)
  ]

  pub any-write_grant :
      (u tid : ℕ) (add : Bool) (rows : List GrantRow)
      → any (λ g. is_grant u tid g && allows g) (write_grant rows p t add c) ≡ (
          if u == p && tid == t
          then add && allows (grant_row p t c)
          else any (λ g. is_grant u tid g && allows g) rows)
  unfolding write_grant
  any-write_grant u tid false rows = any-delete_grant u tid rows
  any-write_grant u tid true rows = elim (Bool-cases (u == p && tid == t)) [
    | inl e ↦
        let user : u ≡ p = ground arith in
        let target : tid ≡ t = ground arith in rw e (rw (user, target) (any-write_grant_self rows))
    | inr e ↦ rw e (any-write_grant_other u tid rows e)
  ]

module _ (db : Db) (target principal : Text) (add : Bool) (c : Capabilities) (db' : Db) (t : Target)
    (p : User) (found_target : target_by_name db target ≡ ok t)
    (found_user : user_by_name db principal ≡ ok p)
    (done : set_grant_capabilities db target (codes "user") principal add c ≡ ok db') where
  granted : db' ≡ record db { user_grants = write_grant db.user_grants p.id t.id add c }
  unfolding set_grant_capabilities text_discrete
  granted = ground arith

  -- After `SetGrantCapabilities` for a user and a target, an enabled member passes the check of one of
  -- the four capabilities at a target exactly if a row of that target is enabled and the member has the
  -- capability from a group, or from a direct grant: the flag of that capability in the request just
  -- made for this user and target (none if the grant was removed), and the direct grants as they were
  -- for all other users and targets.
  pub can_access-set_grant :
      (v : User) (tid : ℕ) (k : Capability)
      → v.enabled ≡ true
      → is_admin v.role ≡ false
      → can_access_capability db' v tid (capability_name k) ≡ (
          any (λ x. x.id == tid && x.enabled) db.targets
          && ((if v.id == p.id && tid == t.id
                then add && is_given k c
                else user_granted db (is_stored k) v.id tid)
              || group_granted db (is_stored k) v.id tid))
  can_access-set_grant v tid k on member =
      can_access_lem db' v tid (capability_name k) (is_stored k) (column-capability_name k) on
      ∙ rw (granted, member)
          (rw
            (
              any-write_grant (is_stored k) p.id t.id c v.id tid add db.user_grants,
              stored-grant_row k p.id t.id c,
            )
            refl)

any_user_grant :
    (db : Db) (allows : GrantRow → Bool) (u t : ℕ)
    → user_granted db allows u t ≡ true
    → user_granted db (λ g. true) u t ≡ true
any_user_grant db allows u t =
    any_mono (λ g. is_grant u t g && allows g) (λ g. is_grant u t g && true) db.user_grants
      (λ g h. ground arith)

any_group_grant :
    (db : Db) (allows : GrantRow → Bool) (u t : ℕ)
    → group_granted db allows u t ≡ true
    → group_granted db (λ g. true) u t ≡ true
any_group_grant db allows u t =
    any_mono (λ m. m.user_id == u && any (λ g. is_grant m.group_id t g && allows g) db.group_grants)
      (λ m. m.user_id == u && any (λ g. is_grant m.group_id t g && true) db.group_grants) db.members
      (λ m h. ground (
        arith,
        any_mono (λ g. is_grant m.group_id t g && allows g) (λ g. is_grant m.group_id t g && true)
            db.group_grants (λ g k. ground arith),
      ))

abbrev has_grant : Db → ℕ → Target → Bool
has_grant db u t =
    t.enabled && (user_granted db (λ g. true) u t.id || group_granted db (λ g. true) u t.id)

-- Whoever passes the check of some capability at a target, finds an enabled target of that id in
-- the list that `ListAuthorizedTargets` shows.
pub authorized_targets-can_access :
    (db : Db) (v : User) (tid : ℕ) (capability : Text)
    → can_access_capability db v tid capability ≡ true
    → any (λ x. x.id == tid && x.enabled) (authorized_targets db v) ≡ true
unfolding can_access_capability authorized_targets
authorized_targets-can_access db v tid capability e = elim (Option-cases (column capability)) [
  | inl missing ↦ absurd (ground (arith, missing))
  | inr (allows, col) ↦
      let p : Target → Bool = λ x.
        x.id == tid
        && x.enabled
        && (is_admin v.role
            || user_granted db allows v.id x.id
            || group_granted db allows v.id x.id) in
      let h : any p db.targets ≡ true = ground (arith, col, ltb-count p db.targets) in
      elim (Bool-cases (is_admin v.role)) [
        | inl admin ↦ rw admin (
            any-filter (λ x. x.id == tid && x.enabled) (λ x. x.enabled) db.targets
            ∙ any_mono p (λ x. x.enabled && (x.id == tid && x.enabled)) db.targets
                (λ x k. ground arith) h)
        | inr member ↦ rw member (
            any-filter (λ x. x.id == tid && x.enabled) (has_grant db v.id) db.targets
            ∙ any_mono p (λ x. has_grant db v.id x && (x.id == tid && x.enabled)) db.targets
                (λ x k.
                  ground (
                    arith,
                    any_user_grant db allows v.id x.id,
                    any_group_grant db allows v.id x.id,
                  ))
                h)
      ]
]

-- `COLLATE NOCASE` rows at a target and port.
abbrev at_destination : ℕ → Text → ℕ → ForwardRow → Bool
at_destination tid h p r = r.target_id == tid && text_eq (to_lower r.host) h && r.port == p

any-insert_rule :
    (rows : List ForwardRow) (t : ℕ) (host : Text) (port tid : ℕ) (h : Text) (p : ℕ)
    → to_lower host ≡ host
    → any (at_destination tid h p) (insert_rule rows t host port)
      ≡ (any (at_destination tid h p) rows || (tid == t && text_eq h host && p == port))
unfolding insert_rule any
any-insert_rule rows t host port tid h p low =
    let old : ForwardRow → Bool = λ r. r.target_id == t && text_eq r.host host && r.port == port in
    elim (Bool-cases (any old rows)) [
      | inr e ↦ rw e (ground (arith, low))
      | inl e ↦ elim (Bool-cases (tid == t && text_eq h host && p == port)) [
        | inr ne ↦ rw (e, ne) (ground arith)
        | inl same ↦
            let hit = any_mono old (at_destination tid h p) rows (λ r k. ground (arith, low)) e in
            rw (e, same) (ground (arith, hit))
      ]
    ]

module _ (db : Db) (target host : Text) (port : ℕ) (db' : Db) (t : Target)
    (found : target_by_name db target ≡ ok t) (done : add_forward_rule db target host port ≡ ok db')
    (ascii : all is_ascii host ≡ true) where
  rules : db'.forward_rules ≡ insert_rule db.forward_rules t.id (to_lower (trim_space host)) port
  unfolding add_forward_rule
  rules = ground arith

  -- After `AddForwardRule` of a host in ASCII, the destinations in ASCII allowed are those allowed
  -- before and the new one, at its target and port and under every spelling of its host that differs
  -- in the case of letters or in surrounding white space.
  pub forward_allowed-add_forward_rule :
      (tid : ℕ) (h : Text) (p : ℕ)
      → all is_ascii h ≡ true
      → forward_allowed db' tid h p ≡ (
          forward_allowed db tid h p
          || (tid == t.id
              && text_eq (to_lower (trim_space h)) (to_lower (trim_space host))
              && p == port))
  unfolding forward_allowed
  forward_allowed-add_forward_rule tid h p plain =
      let q = at_destination tid (to_lower (trim_space h)) p in
      ltb-count q db'.forward_rules
      ∙ rw (rules, ltb-count q db.forward_rules)
          (any-insert_rule db.forward_rules t.id (to_lower (trim_space host)) port tid
            (to_lower (trim_space h)) p (to_lower_idem (trim_space host)))
