-- ===== src/Store/Keys.antt =====
-- internal/store/store.go: the SSH keys by which users log in to the gateway.
use sshgatew.Prelude.{
  ℕ, not, ◌&&◌, ◌∷◌, any, find?, count, delete, next_id, leb, ◌==◌, if◌then◌else◌,
}
use sshgatew.Prelude.Texts.{Text, text_eq, to_lower}
use sshgatew.Store.Users.{to_user, user_by_name, is_admin, ensure_other_usable_admin}
use sshgatew.Store.{
  UserRow, User, GatewayKey, Db, Result, ok, ◌>>=◌, ◌>>◌, guard, scan, changed, key_assigned,
}

-- The row that the INSERT writes.
abbrev pub new_key : Db → ℕ → Text → Text → Text → GatewayKey
new_key db user_id fingerprint public_key label = record {
  id = next_id (λ (k : GatewayKey). k.id) db.keys;
  user_id = user_id;
  fingerprint = fingerprint;
  public_key = public_key;
  label = label;
}

unfoldable pub add_gateway_key : Db → Text → Text → Text → Text → Result Db
add_gateway_key db username fingerprint public_key label = do
  u ← user_by_name db username
  guard (not (any (λ k. k.user_id == u.id && text_eq k.fingerprint fingerprint) db.keys))
      key_assigned
  ok (record db { keys = new_key db u.id fingerprint public_key label ∷ db.keys })

unfoldable pub remove_gateway_key : Db → Text → Text → Result Db
remove_gateway_key db username fingerprint = do
  u ← user_by_name db username
  if is_admin u.role && u.enabled && leb (count (λ k. k.user_id == u.id) db.keys) 1
      then ensure_other_usable_admin db u.id
      else ok tt
  changed (λ k. k.user_id == u.id && text_eq k.fingerprint fingerprint) db.keys
      (record db {
        keys = delete (λ k. k.user_id == u.id && text_eq k.fingerprint fingerprint) db.keys;
      })

-- The joined query: the first enabled user of that name who has the key.
unfoldable pub authenticate_key : Db → Text → Text → Result User
authenticate_key db username fingerprint = do
  u ← scan (
      find?
        (λ (u : UserRow).
          text_eq u.username (to_lower username)
          && u.enabled
          && any (λ k. k.user_id == u.id && text_eq k.fingerprint fingerprint) db.keys)
        db.users)
  ok (to_user db u)
