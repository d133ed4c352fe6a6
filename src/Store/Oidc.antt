-- ===== src/Store/Oidc.antt =====
-- internal/store/store.go: the links between users and OIDC identities.
use sshgatew.Prelude.{
  ℕ, Bool, true, false, not, ◌&&◌, ◌||◌, ◌∷◌, Option, none, some, any, find?, delete, update,
  next_id, ltb, ◌==◌, if◌then◌else◌,
}
use sshgatew.Prelude.Lists.{length, all}
use sshgatew.Prelude.Texts.{Text, text_eq, to_lower, trim_space, is_empty}
use sshgatew.Store.Users.{user_by_id, to_user}
use sshgatew.Store.{
  User, OidcRow, Db, Result, ok, err, ◌>>=◌, ◌>>◌, guard, changed, unique_violation,
  oidc_value_length, oidc_value_control, oidc_mapped_to_other, oidc_not_mapped, oidc_wrong_user,
}

unfoldable pub validate_oidc_value : Text → ℕ → Result Text
unfolding all
validate_oidc_value value limit = do
  let value' = trim_space value
  guard (not (is_empty value' || ltb limit (length value'))) oidc_value_length
  guard (all (λ r. not (ltb r 0x20 || r == 0x7f)) value') oidc_value_control
  ok value'

pub record OidcValues : Type 0 where
  pub issuer : Text
  pub subject : Text
  pub provider_username : Text

unfoldable pub normalize_oidc_values : Text → Text → Text → Result OidcValues
normalize_oidc_values issuer subject provider_username = do
  issuer' ← validate_oidc_value issuer 2048
  subject' ← validate_oidc_value subject 512
  provider' ← validate_oidc_value (to_lower provider_username) 255
  ok (record { issuer = issuer'; subject = subject'; provider_username = provider' })

-- `subject=?`: NULL equals nothing.
abbrev pub has_subject : Text → Option Text → Bool
has_subject subject none = false
has_subject subject (some s) = text_eq s subject

abbrev pub is_unbound : Option Text → Bool
is_unbound none = true
is_unbound (some s) = false

-- `user_id=? AND issuer=?`, which UNIQUE makes one row.
abbrev pub of_user : ℕ → Text → OidcRow → Bool
of_user user_id issuer r = r.user_id == user_id && text_eq r.issuer issuer

abbrev pub same_subject : Option Text → Option Text → Bool
same_subject none s = false
same_subject (some t) s = has_subject t s

-- UNIQUE(issuer,subject) or UNIQUE(issuer,provider_username), against another row.
abbrev pub clashes : OidcRow → OidcRow → Bool
clashes r o =
    text_eq o.issuer r.issuer
    && (same_subject r.subject o.subject || text_eq o.provider_username r.provider_username)

-- A row is written in the place of the row of its user and issuer, or as a new one.
unfoldable pub write_oidc : Db → OidcRow → Result Db
write_oidc db r = do
  let own : OidcRow → Bool = of_user r.user_id r.issuer
  guard (not (any (λ o. not (own o) && clashes r o) db.oidc)) unique_violation
  ok (record db {
    oidc =
        if any own db.oidc
        then update own
            (λ o. record o { subject = r.subject; provider_username = r.provider_username }) db.oidc
        else r ∷ db.oidc;
  })

abbrev pub oidc_row : Db → ℕ → Text → Option Text → Text → OidcRow
oidc_row db user_id issuer subject provider_username = record {
  id = next_id (λ (o : OidcRow). o.id) db.oidc;
  user_id = user_id;
  issuer = issuer;
  subject = subject;
  provider_username = provider_username;
}

unfoldable pub set_oidc_username_mapping : Db → ℕ → Text → Text → Result Db
set_oidc_username_mapping db user_id issuer provider_username = do
  issuer' ← validate_oidc_value issuer 2048
  provider' ← validate_oidc_value (to_lower provider_username) 255
  u ← user_by_id db user_id
  write_oidc db (oidc_row db user_id issuer' none provider')

unfoldable pub link_oidc_identity : Db → ℕ → Text → Text → Text → Result Db
link_oidc_identity db user_id issuer subject provider_username = do
  v ← normalize_oidc_values issuer subject provider_username
  u ← user_by_id db user_id
  guard
      (not (
        any
          (λ r.
            text_eq r.issuer v.issuer
            && (has_subject v.subject r.subject || text_eq r.provider_username v.provider_username)
            && not (r.user_id == user_id))
          db.oidc))
      oidc_mapped_to_other
  write_oidc db (oidc_row db user_id v.issuer (some v.subject) v.provider_username)

-- The mapping that a login meets: a bound one by its subject, else an unbound one by user name.
abbrev pub find_bound : Db → OidcValues → Option OidcRow
find_bound db v = find? (λ r. text_eq r.issuer v.issuer && has_subject v.subject r.subject) db.oidc

abbrev pub find_unbound : Db → OidcValues → Option OidcRow
find_unbound db v =
    find?
      (λ r.
        text_eq r.issuer v.issuer
        && text_eq r.provider_username v.provider_username
        && is_unbound r.subject)
      db.oidc

-- The transaction's first part: the user id, and the database with the mapping written.
unfoldable pub match_oidc : Db → OidcValues → Result (ℕ × Db)
match_oidc db v = elim (find_bound db v) [
  | some r ↦
      if any
        (λ o.
          not (of_user r.user_id v.issuer o)
          && text_eq o.issuer v.issuer
          && text_eq o.provider_username v.provider_username)
        db.oidc
      then err oidc_not_mapped
      else ok (
        r.user_id,
        record db {
          oidc =
              update (of_user r.user_id v.issuer)
                (λ o. record o { provider_username = v.provider_username }) db.oidc;
        },
      )
  | none ↦ elim (find_unbound db v) [
    | none ↦ err oidc_not_mapped
    | some r ↦ ok (
      r.user_id,
      record db {
        oidc =
            update (λ o. of_user r.user_id v.issuer o && is_unbound o.subject)
              (λ o. record o { subject = some v.subject }) db.oidc;
      },
    )
  ]
]

-- The login is accepted for an enabled user under the claimed name only; otherwise the transaction
-- is rolled back.
unfoldable pub authenticate_oidc : Db → Text → Text → Text → Text → Result (User × Db)
authenticate_oidc db claimed issuer subject provider_username = do
  v ← normalize_oidc_values issuer subject provider_username
  m ← match_oidc db v
  elim (find? (λ u. u.id == m.0) db.users) [
    | none ↦ err oidc_wrong_user
    | some u ↦
        if not u.enabled || not (text_eq u.username (to_lower (trim_space claimed)))
        then err oidc_wrong_user
        else ok (to_user db u, m.1)
  ]

unfoldable pub remove_oidc_identity : Db → ℕ → Text → Result Db
remove_oidc_identity db user_id issuer =
    changed (of_user user_id issuer) db.oidc
      (record db { oidc = delete (of_user user_id issuer) db.oidc })
