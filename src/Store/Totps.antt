-- ===== src/Store/Totps.antt =====
-- internal/store/store.go: the TOTP secrets of the users and the counter of the last code accepted.
use sshgatew.Prelude.{
  ℕ, Bool, not, ◌&&◌, ◌∷◌, any, find?, count, delete, update, ◌==◌, if◌then◌else◌,
}
use sshgatew.Prelude.Int.{ℤ, negsuc, ltb_ℤ}
use sshgatew.Prelude.Texts.{Text, is_empty}
use sshgatew.Store.{
  TotpConfig, Db, Result, ok, ◌>>◌, guard, scan, changed, totp_secret_missing, totp_used,
  foreign_key_violation,
}

-- The INSERT, or on a conflict on `user_id` the UPDATE: either way the counter starts again.
unfoldable pub set_user_totp : Db → ℕ → Text → Text → Result Db
set_user_totp db user_id nonce ciphertext = do
  guard (not (is_empty nonce) && not (is_empty ciphertext)) totp_secret_missing
  guard (any (λ u. u.id == user_id) db.users) foreign_key_violation
  let fresh : TotpConfig = record {
    user_id = user_id;
    nonce = nonce;
    ciphertext = ciphertext;
    last_counter = negsuc 0;
  }
  ok (record db {
    totps =
        if any (λ t. t.user_id == user_id) db.totps
        then update (λ t. t.user_id == user_id) (λ t. fresh) db.totps
        else fresh ∷ db.totps;
  })

unfoldable pub user_totp : Db → ℕ → Result TotpConfig
user_totp db user_id = scan (find? (λ t. t.user_id == user_id) db.totps)

unfoldable pub remove_user_totp : Db → ℕ → Result Db
remove_user_totp db user_id =
    changed (λ t. t.user_id == user_id) db.totps
      (record db { totps = delete (λ t. t.user_id == user_id) db.totps })

-- The WHERE clause of the UPDATE.
abbrev pub is_new : ℕ → ℤ → TotpConfig → Bool
is_new user_id counter t = t.user_id == user_id && ltb_ℤ t.last_counter counter

unfoldable pub consume_totp_counter : Db → ℕ → ℤ → Result Db
consume_totp_counter db user_id counter = do
  guard (count (is_new user_id counter) db.totps == 1) totp_used
  ok (record db {
    totps = update (is_new user_id counter) (λ t. record t { last_counter = counter }) db.totps;
  })
