-- ===== src/Store/WellFormed.antt =====
-- internal/store/store.go: the constraints of the tables `users` and `gateway_keys`, and what every
-- operation on users and keys does to them.
use sshgatew.Prelude.{
  ℕ, Bool, true, not, ◌&&◌, ◌≡◌, refl, ◌∙◌, inl, inr, List, ◌∷◌, some, any, delete, update, map,
  next_id, ◌==◌, if◌then◌else◌, arith, any_mono, any-map, any-filter, IsUnique, Bool-cases,
  Option-cases, any-find?, next_id_fresh, filter-IsUnique, map-IsUnique,
}
use sshgatew.Prelude.Lists.{all, all_mono, all-filter, all-filter_imp, all-map}
use sshgatew.Prelude.Texts.{Text, text_eq, to_lower}
use sshgatew.Store.Names.{validate_name, valid_role, matches_name}
use sshgatew.Store.Users.{
  new_user, user_by_name, user_row_by_name, add_user, set_user_enabled, set_user_role, delete_user,
  drop_user,
}
use sshgatew.Store.Keys.{add_gateway_key, remove_gateway_key}
use sshgatew.Store.{Result-cases, UserRow, User, GatewayKey, Db, ok, after}

abbrev pub same_user_id : UserRow → UserRow → Bool
same_user_id u v = u.id == v.id

abbrev pub same_username : UserRow → UserRow → Bool
same_username u v = text_eq v.username u.username

abbrev pub same_key : GatewayKey → GatewayKey → Bool
same_key k l = l.user_id == k.user_id && text_eq l.fingerprint k.fingerprint

-- REFERENCES users(id)
abbrev pub has_user : List UserRow → ℕ → Bool
has_user users id = any (λ u. u.id == id) users

pub record IsWellFormed (db : Db) : Type 0 where
  pub user_ids : IsUnique same_user_id db.users
  pub usernames : IsUnique same_username db.users
  pub names_valid : all (λ u. matches_name u.username) db.users ≡ true
  pub roles_valid : all (λ u. valid_role u.role) db.users ≡ true
  pub key_pairs : IsUnique same_key db.keys
  pub keys_owned : all (λ k. has_user db.users k.user_id) db.keys ≡ true

validate_name-matches :
    (v : Text) (name : Text) → validate_name v ≡ ok name → matches_name name ≡ true
unfolding validate_name
validate_name-matches v name e = ground arith

-- A new row at the head: every key still has its user.
keys_owned-cons :
    (u : UserRow) (db : Db)
    → IsWellFormed db
    → all (λ k. has_user (u ∷ db.users) k.user_id) db.keys ≡ true
unfolding any
keys_owned-cons u db w =
    all_mono (λ k. has_user db.users k.user_id) (λ k. has_user (u ∷ db.users) k.user_id) db.keys
      (λ k h. ground arith) w.keys_owned

pub add_user-IsWellFormed :
    (db : Db) (username role : Text)
    → IsWellFormed db
    → IsWellFormed (after db (add_user db username role))
unfolding add_user all
add_user-IsWellFormed db username role w = elim (Result-cases (validate_name username)) [
  | inl (name, e) ↦ rw e (
      ground (
        arith,
        validate_name-matches username name e,
        next_id_fresh (λ (u : UserRow). u.id) db.users (next_id (λ (u : UserRow). u.id) db.users),
        keys_owned-cons (new_user db name role) db w,
      ))
  | inr (f, e) ↦ rw e w
]

update-IsWellFormed :
    (db : Db) (x : ℕ) (f : UserRow → UserRow)
    → ((u : UserRow) → (f u).id ≡ u.id)
    → ((u : UserRow) → (f u).username ≡ u.username)
    → ((u : UserRow) → valid_role u.role ≡ true → valid_role (f u).role ≡ true)
    → IsWellFormed db
    → IsWellFormed (record db { users = update (λ v. v.id == x) f db.users })
update-IsWellFormed db x f id_kept name_kept role_kept w =
    let g : UserRow → UserRow = λ v. if v.id == x then f v else v in
    let ids : (u : UserRow) → (g u).id ≡ u.id = λ u. ground (arith, id_kept u) in
    let names : (u : UserRow) → (g u).username ≡ u.username = λ u. ground (arith, name_kept u) in
    record {
      user_ids = map-IsUnique same_user_id g db.users (λ u v. rw (ids u, ids v)) w.user_ids;
      usernames = map-IsUnique same_username g db.users (λ u v. rw (names u, names v)) w.usernames;
      names_valid =
          all-map (λ u. matches_name u.username) g db.users
          ∙ all_mono (λ u. matches_name u.username) (λ u. matches_name (g u).username) db.users
              (λ u h. rw (names u) h) w.names_valid;
      roles_valid =
          all-map (λ u. valid_role u.role) g db.users
          ∙ all_mono (λ u. valid_role u.role) (λ u. valid_role (g u).role) db.users
              (λ u h. ground (arith, role_kept u)) w.roles_valid;
      key_pairs = w.key_pairs;
      keys_owned =
          all_mono (λ k. has_user db.users k.user_id) (λ k. has_user (map g db.users) k.user_id)
            db.keys
            (λ k h.
              any-map (λ u. u.id == k.user_id) g db.users
              ∙ any_mono (λ u. u.id == k.user_id) (λ u. (g u).id == k.user_id) db.users
                  (λ u e. rw (ids u) e) h)
            w.keys_owned;
    }

pub set_user_enabled-IsWellFormed :
    (db : Db) (name : Text) (on : Bool)
    → IsWellFormed db
    → IsWellFormed (after db (set_user_enabled db name on))
unfolding set_user_enabled
set_user_enabled-IsWellFormed db name on w = elim (Result-cases (user_by_name db name)) [
  | inl (u, e) ↦ rw e (
      ground (
        arith,
        update-IsWellFormed db u.id (λ v. record v { enabled = on }) (λ v. refl) (λ v. refl)
            (λ v h. h) w,
      ))
  | inr (f, e) ↦ rw e w
]

pub set_user_role-IsWellFormed :
    (db : Db) (name role : Text)
    → IsWellFormed db
    → IsWellFormed (after db (set_user_role db name role))
unfolding set_user_role
set_user_role-IsWellFormed db name role w = elim (Bool-cases (valid_role role)) [
  | inl valid ↦ elim (Result-cases (user_by_name db name)) [
    | inl (u, e) ↦
        rw (valid, e)
          (ground (
            arith,
            update-IsWellFormed db u.id (λ v. record v { role = role }) (λ v. refl) (λ v. refl)
                (λ v h. valid) w,
          ))
    | inr (f, e) ↦ rw (valid, e) w
  ]
  | inr bad ↦ rw bad w
]

drop_user-IsWellFormed : (db : Db) (x : ℕ) → IsWellFormed db → IsWellFormed (drop_user db x)
drop_user-IsWellFormed db x w = record {
  user_ids = filter-IsUnique same_user_id (λ u. not (u.id == x)) db.users w.user_ids;
  usernames = filter-IsUnique same_username (λ u. not (u.id == x)) db.users w.usernames;
  names_valid =
      all-filter (λ u. matches_name u.username) (λ u. not (u.id == x)) db.users w.names_valid;
  roles_valid = all-filter (λ u. valid_role u.role) (λ u. not (u.id == x)) db.users w.roles_valid;
  key_pairs = filter-IsUnique same_key (λ k. not (k.user_id == x)) db.keys w.key_pairs;
  keys_owned =
      all-filter_imp (λ k. has_user db.users k.user_id) (λ k. not (k.user_id == x))
        (λ k. has_user (delete (λ u. u.id == x) db.users) k.user_id) db.keys
        (λ k h g.
          any-filter (λ u. u.id == k.user_id) (λ u. not (u.id == x)) db.users
          ∙ any_mono (λ u. u.id == k.user_id) (λ u. not (u.id == x) && u.id == k.user_id) db.users
              (λ u e. ground arith) h)
        w.keys_owned;
}

pub delete_user-IsWellFormed :
    (db : Db) (name : Text) → IsWellFormed db → IsWellFormed (after db (delete_user db name))
unfolding delete_user
delete_user-IsWellFormed db name w = elim (Result-cases (user_by_name db name)) [
  | inl (u, e) ↦ rw e (ground (arith, drop_user-IsWellFormed db u.id w))
  | inr (f, e) ↦ rw e w
]

-- What a query by name returns stands in the table.
pub user_by_name-row :
    (db : Db) (name : Text) (u : User)
    → user_by_name db name ≡ ok u
    → (r : UserRow) × (user_row_by_name db name ≡ some r)
      × (r.id ≡ u.id)
      × (r.role ≡ u.role)
      × (r.enabled ≡ u.enabled)
unfolding user_by_name
user_by_name-row db name u e = elim (Option-cases (user_row_by_name db name)) [
  | inl none_found ↦ absurd (ground arith)
  | inr (r, found) ↦ (r, found, ground arith, ground arith, ground arith)
]

user_by_name-has_user :
    (db : Db) (name : Text) (u : User) → user_by_name db name ≡ ok u → has_user db.users u.id ≡ true
user_by_name-has_user db name u e =
    let (r, found, id, _, _) = user_by_name-row db name u e in
    any-find? (λ v. text_eq v.username (to_lower name)) (λ v. v.id == u.id) db.users r found
      (ground arith)

pub add_gateway_key-IsWellFormed :
    (db : Db) (username fingerprint public_key label : Text)
    → IsWellFormed db
    → IsWellFormed (after db (add_gateway_key db username fingerprint public_key label))
unfolding add_gateway_key all
add_gateway_key-IsWellFormed db username fingerprint public_key label w =
    elim (Result-cases (user_by_name db username)) [
      | inl (u, e) ↦ rw e (ground (arith, user_by_name-has_user db username u e))
      | inr (f, e) ↦ rw e w
    ]

delete_keys-IsWellFormed :
    (db : Db) (p : GatewayKey → Bool)
    → IsWellFormed db
    → IsWellFormed (record db { keys = delete p db.keys })
delete_keys-IsWellFormed db p w =
    let key_pairs = filter-IsUnique same_key (λ k. not (p k)) db.keys w.key_pairs in
    let keys_owned =
      all-filter (λ k. has_user db.users k.user_id) (λ k. not (p k)) db.keys w.keys_owned in
    record {
      user_ids = w.user_ids;
      usernames = w.usernames;
      names_valid = w.names_valid;
      roles_valid = w.roles_valid;
      key_pairs = key_pairs;
      keys_owned = keys_owned;
    }

pub remove_gateway_key-IsWellFormed :
    (db : Db) (username fingerprint : Text)
    → IsWellFormed db
    → IsWellFormed (after db (remove_gateway_key db username fingerprint))
unfolding remove_gateway_key
remove_gateway_key-IsWellFormed db username fingerprint w =
    elim (Result-cases (user_by_name db username)) [
      | inl (u, e) ↦ rw e (
          ground (
            arith,
            delete_keys-IsWellFormed db
                (λ k. k.user_id == u.id && text_eq k.fingerprint fingerprint) w,
          ))
      | inr (f, e) ↦ rw e w
    ]
