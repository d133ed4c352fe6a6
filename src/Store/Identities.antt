-- ===== src/Store/Identities.antt =====
-- internal/store/store.go: the SSH keys that targets can share.
use sshgatew.Prelude.{
  ℕ, Bool, false, not, ◌&&◌, ◌||◌, [], ◌∷◌, Option, none, some, any, find?, count, delete, update,
  next_id, ◌==◌,
}
use sshgatew.Prelude.Texts.{Text, text_eq, to_lower, trim_space, is_empty}
use sshgatew.Store.Names.{validate_name}
use sshgatew.Store.{
  SshIdentity, Target, Db, Result, ok, ◌>>=◌, ◌>>◌, guard, scan, changed, unique_violation,
  identity_fields_missing, identity_in_use,
}

-- The row that the INSERT writes; the credential columns are NULL.
abbrev pub new_identity : Db → Text → Text → Text → SshIdentity
new_identity db name public_key fingerprint = record {
  id = next_id (λ (i : SshIdentity). i.id) db.identities;
  name = name;
  public_key = public_key;
  fingerprint = fingerprint;
  nonce = [];
  ciphertext = [];
}

unfoldable pub add_ssh_identity : Db → Text → Text → Text → Result Db
add_ssh_identity db name public_key fingerprint = do
  name' ← validate_name name
  guard (not (is_empty (trim_space public_key)) && not (is_empty (trim_space fingerprint)))
      identity_fields_missing
  guard (not (any (λ i. text_eq i.name name' || text_eq i.fingerprint fingerprint) db.identities))
      unique_violation
  ok (record db { identities = new_identity db name' public_key fingerprint ∷ db.identities })

unfoldable pub set_ssh_identity_secret : Db → ℕ → Text → Text → Result Db
set_ssh_identity_secret db id nonce ciphertext =
    changed (λ i. i.id == id) db.identities
      (record db {
        identities =
            update (λ i. i.id == id) (λ i. record i { nonce = nonce; ciphertext = ciphertext })
              db.identities;
      })

unfoldable pub ssh_identity_by_id : Db → ℕ → Result SshIdentity
ssh_identity_by_id db id = scan (find? (λ i. i.id == id) db.identities)

unfoldable pub ssh_identity_by_name : Db → Text → Result SshIdentity
ssh_identity_by_name db name = scan (find? (λ i. text_eq i.name (to_lower name)) db.identities)

-- `identity_id=(SELECT id …)`: NULL equals nothing.
abbrev pub uses_identity : Option SshIdentity → Target → Bool
uses_identity none t = false
uses_identity (some i) t = elim t.identity_id [ none ↦ false | some id ↦ id == i.id ]

unfoldable pub delete_ssh_identity : Db → Text → Result Db
delete_ssh_identity db name = do
  let found : Option SshIdentity = find? (λ i. text_eq i.name (to_lower name)) db.identities
  guard (count (uses_identity found) db.targets == 0) identity_in_use
  changed (λ i. text_eq i.name (to_lower name)) db.identities
      (record db { identities = delete (λ i. text_eq i.name (to_lower name)) db.identities })
