-- ===== src/Tui/Menu/Audited.antt =====
-- internal/tui/menu.go: `mutate` and the savings of credentials record what they did.
use sshgatew.Prelude.{◌≡◌, refl, arith, Bool, true, false, not, none, if◌then◌else◌}
use sshgatew.Prelude.Texts.{Text}
use sshgatew.Secrets.{Payload}
use sshgatew.Store
use sshgatew.Store.{Db, Target, SshIdentity}
use sshgatew.Store.Operations.{Operation, apply}
use sshgatew.Tui.Menu.{Pending, Model}
use sshgatew.Tui.Menu.Commands.{
  refusable, refusable_clean_up, World, Details, Cmd, is_target_add, audit_operation, audited,
  save_added, save_new, replace_with, target_of_pending, run_save_identity, run_save_credential,
  run_enroll_totp, run_cmd,
}
use sshgatew.Store.Effects.{Effect, fail, start, attempt, after_apply, clean_up}

-- The commands of an administrator that write to the store.
abbrev pub is_change : Cmd → Bool
is_change (Cmd.mutate section type details op) = true
is_change (Cmd.save_identity name line fingerprint payload) = true
is_change (Cmd.save_credential p payload) = true
is_change (Cmd.enroll_totp p counter) = true
is_change c = false

-- The last write was an audit event of the session's user, and the store took it.
abbrev pub EndsAudited : World → Model → Effect → Type 0
EndsAudited w m e =
    (type : Text) × (details : Details) × (db : Db) × (apply db (audit_operation w m type details)
      ≡ Store.ok e.db)

-- An effect that reports no failure ends so.
abbrev pub ReportsAudited : World → Model → Effect → Type 0
ReportsAudited w m e = e.failed ≡ false → EndsAudited w m e

after_apply-ReportsAudited :
    (w : World) (m : Model) (type : Text) (details : Details) (e : Effect) (r : Store.Result Db)
    → apply e.db (audit_operation w m type details) ≡ r
    → ReportsAudited w m (after_apply e (audit_operation w m type details) r)
after_apply-ReportsAudited w m type details e (Store.ok db) q f = (type, details, e.db, q)
after_apply-ReportsAudited w m type details e (Store.err v) q f = ground (arith, f)

if-ReportsAudited :
    (w : World) (m : Model) (b : Bool) (e e' : Effect)
    → ReportsAudited w m e
    → ReportsAudited w m e'
    → ReportsAudited w m (if b then e else e')
if-ReportsAudited w m true e e' h h' = h
if-ReportsAudited w m false e e' h h' = h'

if_failed-ReportsAudited :
    (w : World) (m : Model) (b : Bool) (e e' : Effect)
    → e.failed ≡ b
    → ReportsAudited w m e'
    → ReportsAudited w m (if b then e else e')
if_failed-ReportsAudited w m true e e' q h f = ground (arith, f, q)
if_failed-ReportsAudited w m false e e' q h f = h f

audited-ReportsAudited :
    (w : World) (m : Model) (type : Text) (details : Details) (e : Effect)
    → ReportsAudited w m (audited w m type details e)
unfolding attempt
audited-ReportsAudited w m type details e =
    if_failed-ReportsAudited w m e.failed e
      (after_apply e (audit_operation w m type details)
        (apply e.db (audit_operation w m type details)))
      refl
      (after_apply-ReportsAudited w m type details e (apply e.db (audit_operation w m type details))
        refl)

clean_up-failed :
    (w : World) (e : Effect) (op : Operation) → (refusable_clean_up w e op).failed ≡ e.failed
unfolding clean_up
clean_up-failed w e op = ground arith

if_stored-ReportsAudited :
    (w : World) (m : Model) (e e' : Effect) (op : Operation)
    → ReportsAudited w m e'
    → ReportsAudited w m (if e.failed then refusable_clean_up w e op else e')
if_stored-ReportsAudited w m e e' op =
    if_failed-ReportsAudited w m e.failed (refusable_clean_up w e op) e' (clean_up-failed w e op)

save_added-ReportsAudited :
    (w : World) (m : Model) (payload : Payload) (e : Effect)
    → ReportsAudited w m (save_added w m payload e)
save_added-ReportsAudited w m payload e =
    if_failed-ReportsAudited w m e.failed e _ refl
      (if_stored-ReportsAudited w m _ _ _ (audited-ReportsAudited w m _ _ _))

save_new-ReportsAudited :
    (w : World) (m : Model) (p : Pending) (payload : Payload) (e : Effect)
    → ReportsAudited w m (save_new w m p payload e)
save_new-ReportsAudited w m p payload e =
    if_failed-ReportsAudited w m e.failed e _ refl
      (if_stored-ReportsAudited w m _ _ _ (audited-ReportsAudited w m _ _ _))

fail-ReportsAudited : (w : World) (m : Model) (e : Effect) → ReportsAudited w m (fail e)
fail-ReportsAudited w m e f = ground (arith, f)

run_save_identity-ReportsAudited :
    (w : World) (m : Model) (db : Db) (name line fingerprint : Text) (payload : Payload)
    → ReportsAudited w m (run_save_identity w m db name line fingerprint payload)
unfolding run_save_identity
run_save_identity-ReportsAudited w m db name line fingerprint payload =
    let added = refusable w (start db) (Operation.add_ssh_identity name line fingerprint) in
    if-ReportsAudited w m (not w.has_cipher) (fail (start db)) (save_added w m payload added)
      (fail-ReportsAudited w m (start db)) (save_added-ReportsAudited w m payload added)

run_save_credential-ReportsAudited :
    (w : World) (m : Model) (db : Db) (p : Pending) (payload : Payload)
    → ReportsAudited w m (run_save_credential w m db p payload)
unfolding run_save_credential
run_save_credential-ReportsAudited w m db p payload =
    let added =
      refusable w (start db) (Operation.add_target (target_of_pending p p.credential_kind none)) in
    let new = save_new w m p payload added in
    let replaced = replace_with w m p payload (start db) in
    if-ReportsAudited w m (not w.has_cipher) (fail (start db))
      (if is_target_add p.kind then new else replaced) (fail-ReportsAudited w m (start db))
      (if-ReportsAudited w m (is_target_add p.kind) new replaced
        (save_new-ReportsAudited w m p payload added) (audited-ReportsAudited w m _ _ _))

-- A command of an administrator that reports success, whether it changes, creates or deletes, has
-- written an audit event that names the session's user, and that was its last write.
pub run_cmd-EndsAudited :
    (w : World) (m : Model) (db : Db) (c : Cmd)
    → is_change c ≡ true
    → (run_cmd w m db c).0.failed ≡ false
    → EndsAudited w m (run_cmd w m db c).0
unfolding run_cmd run_enroll_totp
run_cmd-EndsAudited w m db (Cmd.mutate section type details op) i f =
    audited-ReportsAudited w m type details _ f
run_cmd-EndsAudited w m db (Cmd.save_identity name line fingerprint payload) i f =
    run_save_identity-ReportsAudited w m db name line fingerprint payload f
run_cmd-EndsAudited w m db (Cmd.save_credential p payload) i f =
    run_save_credential-ReportsAudited w m db p payload f
run_cmd-EndsAudited w m db (Cmd.enroll_totp p counter) i f = audited-ReportsAudited w m _ _ _ f
run_cmd-EndsAudited w m db c i f = ground (arith, i)
