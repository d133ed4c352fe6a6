-- ===== src/Store/Lists/Shown.antt =====
-- internal/store/store.go: `ListGrants` shows exactly the grants that are stored.
use sshgatew.Prelude.{
  ◌+◌, ◌≡◌, refl, ◌∙◌, arith, Bool, false, List, [], ◌∷◌, ◌++◌, Option, none, some, find?, count,
  ◌==◌, inl, inr, Option-cases,
}
use sshgatew.Prelude.Order.{IsOrdered, order_by-IsOrdered, count-order_by}
use sshgatew.Prelude.Texts.{Text, codes}
use sshgatew.Store.Lists.{
  Grant, grant_key, grant_rows, joined, list_grants, user_grant_row, group_grant_row,
}
use sshgatew.Store.{GrantRow, UserRow, Group, Target, Db}

-- A line of the listing.
abbrev pub line : (kind principal target : Text) → GrantRow → Grant
line kind principal target r = record {
  target = target;
  kind = kind;
  principal = principal;
  shell = r.allow_shell;
  sftp = r.allow_sftp;
  scp = r.allow_scp;
  tcp_forward = r.allow_tcp_forward;
}

abbrev pub holds_at : (Grant → Bool) → Option (GrantRow → Grant) → GrantRow → Bool
holds_at p none r = false
holds_at p (some f) r = p (f r)

abbrev pub line_of : Text → Option Text → Option Text → Option (GrantRow → Grant)
line_of kind none target = none
line_of kind (some principal) none = none
line_of kind (some principal) (some target) = some (line kind principal target)

abbrev pub username_of : Option UserRow → Option Text
username_of none = none
username_of (some u) = some u.username

abbrev pub group_name : Option Group → Option Text
group_name none = none
group_name (some g) = some g.name

abbrev pub target_name : Option Target → Option Text
target_name none = none
target_name (some t) = some t.name

-- Whether the line of a stored grant to a user, or to a group, has a property.
abbrev pub user_line : Db → (Grant → Bool) → GrantRow → Bool
user_line db p r =
    holds_at p
      (line_of (codes "user") (username_of (find? (λ u. u.id == r.principal_id) db.users))
        (target_name (find? (λ t. t.id == r.target_id) db.targets)))
      r

abbrev pub group_line : Db → (Grant → Bool) → GrantRow → Bool
group_line db p r =
    holds_at p
      (line_of (codes "group") (group_name (find? (λ g. g.id == r.principal_id) db.groups))
        (target_name (find? (λ t. t.id == r.target_id) db.targets)))
      r

count-append :
    (p : Grant → Bool) (xs ys : List Grant) → count p (xs ++ ys) ≡ count p xs + count p ys
unfolding count
count-append p [] ys = ground arith
count-append p (x ∷ xs) ys = ground (arith, count-append p xs ys)

-- How often a row is listed with a property: once or never.
abbrev holds : (Grant → Bool) → Option Grant → Bool
holds p none = false
holds p (some g) = p g

count-joined :
    (p : Grant → Bool) (f : GrantRow → Option Grant) (q : GrantRow → Bool) (rows : List GrantRow)
    → ((r : GrantRow) → q r ≡ holds p (f r))
    → count p (joined f rows) ≡ count q rows
unfolding count joined
count-joined p f q [] e = refl
count-joined p f q (r ∷ rows) e =
    let rest = count-joined p f q rows e in
    elim (Option-cases (f r)) [
      | inl n ↦ rw (e r, n) (ground (arith, rest))
      | inr (g, n) ↦ rw (e r, n) (ground (arith, rest))
    ]

user_line-row :
    (db : Db) (p : Grant → Bool) (r : GrantRow) → user_line db p r ≡ holds p (user_grant_row db r)
user_line-row db p r = elim (Option-cases (find? (λ u. u.id == r.principal_id) db.users)) [
  | inl n ↦ ground (arith, n)
  | inr (x, n) ↦ elim (Option-cases (find? (λ t. t.id == r.target_id) db.targets)) [
    | inl m ↦ ground (arith, n, m)
    | inr (t, m) ↦ ground (arith, n, m)
  ]
]

group_line-row :
    (db : Db) (p : Grant → Bool) (r : GrantRow) → group_line db p r ≡ holds p (group_grant_row db r)
group_line-row db p r = elim (Option-cases (find? (λ g. g.id == r.principal_id) db.groups)) [
  | inl n ↦ ground (arith, n)
  | inr (x, n) ↦ elim (Option-cases (find? (λ t. t.id == r.target_id) db.targets)) [
    | inl m ↦ ground (arith, n, m)
    | inr (t, m) ↦ ground (arith, n, m)
  ]
]

-- `ListGrants` is in the order of the target, the kind and the principal, and has a line, with the names
-- of the principal and the target and the four flags, exactly as often as the two tables store it for
-- users, groups and targets that exist.
pub list_grants_lem :
    (db : Db)
    → IsOrdered grant_key (list_grants db)
      × ((p : Grant → Bool)
          → count p (list_grants db)
            ≡ count (user_line db p) db.user_grants + count (group_line db p) db.group_grants)
unfolding list_grants
list_grants_lem db = (
  order_by-IsOrdered grant_key (grant_rows db),
  λ p.
      count-order_by grant_key p (grant_rows db)
      ∙ count-append p (joined (user_grant_row db) db.user_grants)
          (joined (group_grant_row db) db.group_grants)
      ∙ rw
          (
            count-joined p (user_grant_row db) (user_line db p) db.user_grants (user_line-row db p),
            count-joined p (group_grant_row db) (group_line db p) db.group_grants
                (group_line-row db p),
          )
          refl,
)
