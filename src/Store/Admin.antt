-- ===== src/Store/Admin.antt =====
-- internal/store/store.go: the guard `ensureOtherUsableAdmin` keeps the gateway administrable.
use sshgatew.Prelude.{
  ℕ, Bool, true, false, not, ◌&&◌, ◌≡◌, refl, ◌∙◌, ◌⊎◌, inl, inr, ◌∷◌, some, any, find?, count,
  delete, update, ◌==◌, if◌then◌else◌, arith, any_mono, any-map, any-filter, count-zero_iff_any,
  count-delete, any-count, ◌<◌, any-find?, count-le-one, any-found, any-split, Option-cases,
  ==-refl,
}
use sshgatew.Prelude.Texts.{Text, text_eq, to_lower}
use sshgatew.Store.Users.{
  user_row_by_name, user_by_name, usable, ensure_other_usable_admin, add_user, set_user_enabled,
  set_user_role, delete_user, drop_user,
}
use sshgatew.Store.Keys.{new_key, add_gateway_key, remove_gateway_key}
use sshgatew.Store.WellFormed.{IsWellFormed, same_key}
use sshgatew.Store.{Result-cases, UserRow, GatewayKey, Db, ok, after}

abbrev pub HasUsableAdmin : Db → Type 0
HasUsableAdmin db = any (usable db) db.users ≡ true

abbrev others : Db → ℕ → UserRow → Bool
others db x u = usable db u && not (u.id == x)

ensure-others :
    (db : Db) (x : ℕ) → ensure_other_usable_admin db x ≡ ok tt → any (others db x) db.users ≡ true
unfolding ensure_other_usable_admin
ensure-others db x e = ground (arith, count-zero_iff_any (others db x) db.users)

-- A change of the rows of one user keeps every other usable administrator.
update-HasUsableAdmin :
    (db : Db) (x : ℕ) (f : UserRow → UserRow)
    → any (others db x) db.users ≡ true
    → any (usable db) (update (λ v. v.id == x) f db.users) ≡ true
update-HasUsableAdmin db x f h =
    any-map (usable db) (λ v. if v.id == x then f v else v) db.users
    ∙ any_mono (others db x) (λ v. usable db (if v.id == x then f v else v)) db.users
        (λ v p. ground arith) h

-- The rows of user `u` are written, and either another administrator is usable, or `u` is as usable
-- as before.
update_one-HasUsableAdmin :
    (db : Db) (p : UserRow → Bool) (u : UserRow) (f : UserRow → UserRow)
    → IsWellFormed db
    → find? p db.users ≡ some u
    → (f u).id ≡ u.id
    → (any (others db u.id) db.users ≡ true) ⊎ (usable db u ≡ true → usable db (f u) ≡ true)
    → HasUsableAdmin db
    → HasUsableAdmin (record db { users = update (λ v. v.id == u.id) f db.users })
update_one-HasUsableAdmin db p u f w found kept (inl other) h =
    update-HasUsableAdmin db u.id f other
update_one-HasUsableAdmin db p u f w found kept (inr same) h =
    elim (any-split (usable db) (λ v. v.id == u.id) db.users h) [
      | inl other ↦ update-HasUsableAdmin db u.id f other
      | inr self ↦
          let now =
            same
              (any-found (λ (v : UserRow). v.id) p (usable db) db.users u w.user_ids found self) in
          any-map (usable db) (λ v. if v.id == u.id then f v else v) db.users
          ∙ any-find? p (λ v. usable db (if v.id == u.id then f v else v)) db.users u found
              (rw (==-refl u.id) now)
    ]

pub set_user_enabled-HasUsableAdmin :
    (db : Db) (name : Text) (on : Bool)
    → IsWellFormed db
    → HasUsableAdmin db
    → HasUsableAdmin (after db (set_user_enabled db name on))
unfolding set_user_enabled user_by_name
set_user_enabled-HasUsableAdmin db name on w h = elim (Option-cases (user_row_by_name db name)) [
  | inl e ↦ rw e h
  | inr (u, e) ↦ rw e (
      ground (
        arith,
        ensure-others db u.id,
        update_one-HasUsableAdmin db (λ v. text_eq v.username (to_lower name)) u
            (λ v. record v { enabled = on }) w e refl,
      ))
]

pub set_user_role-HasUsableAdmin :
    (db : Db) (name role : Text)
    → IsWellFormed db
    → HasUsableAdmin db
    → HasUsableAdmin (after db (set_user_role db name role))
unfolding set_user_role user_by_name
set_user_role-HasUsableAdmin db name role w h = elim (Option-cases (user_row_by_name db name)) [
  | inl e ↦ rw e (ground arith)
  | inr (u, e) ↦ rw e (
      ground (
        arith,
        ensure-others db u.id,
        update_one-HasUsableAdmin db (λ v. text_eq v.username (to_lower name)) u
            (λ v. record v { role = role }) w e refl,
      ))
]

-- Rows and keys of other users do not make a usable administrator unusable by their going.
drop_user-HasUsableAdmin :
    (db : Db) (x : ℕ) → any (others db x) db.users ≡ true → HasUsableAdmin (drop_user db x)
drop_user-HasUsableAdmin db x h =
    any-filter (usable (drop_user db x)) (λ u. not (u.id == x)) db.users
    ∙ any_mono (others db x) (λ u. not (u.id == x) && usable (drop_user db x) u) db.users
        (λ u o.
          let kept =
            any-filter (λ k. k.user_id == u.id) (λ k. not (k.user_id == x)) db.keys
            ∙ any_mono (λ k. k.user_id == u.id) (λ k. not (k.user_id == x) && k.user_id == u.id)
                db.keys (λ k e. ground arith) (ground arith) in
          ground (arith, kept))
        h

-- A user who is no administrator can go.
not_usable-others :
    (db : Db) (p : UserRow → Bool) (u : UserRow)
    → IsWellFormed db
    → find? p db.users ≡ some u
    → usable db u ≡ false
    → HasUsableAdmin db
    → any (others db u.id) db.users ≡ true
not_usable-others db p u w found e h = elim (any-split (usable db) (λ v. v.id == u.id) db.users h) [
  | inl other ↦ other
  | inr self ↦ absurd (
      ground
        (arith, any-found (λ (v : UserRow). v.id) p (usable db) db.users u w.user_ids found self))
]

pub delete_user-HasUsableAdmin :
    (db : Db) (name : Text)
    → IsWellFormed db
    → HasUsableAdmin db
    → HasUsableAdmin (after db (delete_user db name))
unfolding delete_user user_by_name
delete_user-HasUsableAdmin db name w h = elim (Option-cases (user_row_by_name db name)) [
  | inl e ↦ rw e h
  | inr (u, e) ↦ rw e (
      ground (
        arith,
        ensure-others db u.id,
        drop_user-HasUsableAdmin db u.id,
        not_usable-others db (λ v. text_eq v.username (to_lower name)) u w e,
      ))
]

pub add_user-HasUsableAdmin :
    (db : Db) (username role : Text)
    → HasUsableAdmin db
    → HasUsableAdmin (after db (add_user db username role))
unfolding add_user any
add_user-HasUsableAdmin db username role h = ground arith

-- A new key makes nobody unusable.
more_keys-HasUsableAdmin :
    (db : Db) (k : GatewayKey)
    → HasUsableAdmin db
    → HasUsableAdmin (record db { keys = k ∷ db.keys })
unfolding any
more_keys-HasUsableAdmin db k h =
    any_mono (usable db) (usable (record db { keys = k ∷ db.keys })) db.users (λ u e. ground arith)
      h

pub add_gateway_key-HasUsableAdmin :
    (db : Db) (username fingerprint public_key label : Text)
    → HasUsableAdmin db
    → HasUsableAdmin (after db (add_gateway_key db username fingerprint public_key label))
unfolding add_gateway_key
add_gateway_key-HasUsableAdmin db username fingerprint public_key label h =
    elim (Result-cases (user_by_name db username)) [
      | inl (u, e) ↦ rw e (
          ground
            (arith, more_keys-HasUsableAdmin db (new_key db u.id fingerprint public_key label) h))
      | inr (f, e) ↦ rw e h
    ]

abbrev is_key : ℕ → Text → GatewayKey → Bool
is_key x fingerprint k = k.user_id == x && text_eq k.fingerprint fingerprint

-- One of two keys or more may go, since a fingerprint stands once for each user.
remains :
    (db : Db) (x : ℕ) (fingerprint : Text)
    → IsWellFormed db
    → 1 < count (λ k. k.user_id == x) db.keys
    → any (λ k. k.user_id == x) (delete (is_key x fingerprint) db.keys) ≡ true
remains db x fingerprint w h =
    let p : GatewayKey → Bool = λ k. k.user_id == x in
    let d = is_key x fingerprint in
    let gone =
      count-le-one same_key (λ k. p k && d k) db.keys (λ k l a b. ground arith) w.key_pairs in
    any-count p (delete d db.keys) (omega (arith, count-delete p d db.keys))

-- The keys of the other users stay.
remove_key-others :
    (db : Db) (x : ℕ) (fingerprint : Text)
    → any (others db x) db.users ≡ true
    → HasUsableAdmin (record db { keys = delete (is_key x fingerprint) db.keys })
remove_key-others db x fingerprint h =
    any_mono (others db x) (usable (record db { keys = delete (is_key x fingerprint) db.keys }))
      db.users
      (λ u o.
        let kept =
          any-filter (λ k. k.user_id == u.id) (λ k. not (is_key x fingerprint k)) db.keys
          ∙ any_mono (λ k. k.user_id == u.id)
              (λ k. not (is_key x fingerprint k) && k.user_id == u.id) db.keys (λ k e. ground arith)
              (ground arith) in
        ground (arith, kept))
      h

remove_key_self :
    (db : Db) (p : UserRow → Bool) (u : UserRow) (fingerprint : Text)
    → IsWellFormed db
    → find? p db.users ≡ some u
    → usable db u ≡ true
    → 1 < count (λ k. k.user_id == u.id) db.keys
    → HasUsableAdmin (record db { keys = delete (is_key u.id fingerprint) db.keys })
remove_key_self db p u fingerprint w found h more =
    any-find? p (usable (record db { keys = delete (is_key u.id fingerprint) db.keys })) db.users u
      found (ground (arith, remains db u.id fingerprint w more))

pub remove_gateway_key-HasUsableAdmin :
    (db : Db) (username fingerprint : Text)
    → IsWellFormed db
    → HasUsableAdmin db
    → HasUsableAdmin (after db (remove_gateway_key db username fingerprint))
unfolding remove_gateway_key user_by_name
remove_gateway_key-HasUsableAdmin db username fingerprint w h =
    elim (Option-cases (user_row_by_name db username)) [
      | inl e ↦ rw e h
      | inr (u, e) ↦
          let p : UserRow → Bool = λ v. text_eq v.username (to_lower username) in
          rw e (
            ground (
              arith,
              ensure-others db u.id,
              remove_key-others db u.id fingerprint,
              remove_key_self db p u fingerprint w e,
              not_usable-others db p u w e,
            ))
    ]
