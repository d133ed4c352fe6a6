-- ===== src/Tui/Menu/Dialogs.antt =====
-- internal/tui/menu.go: the dialogs leave the lists and the cursor alone.
use sshgatew.Prelude.{
  ℕ, arith, Bool, true, false, List, [], ◌∷◌, Option, none, some, inl, inr, Option-cases,
  if◌then◌else◌, ◌++◌,
}
use sshgatew.Prelude.Texts.{Text, codes}
use sshgatew.Prelude.Lists.{get_elem?}
use sshgatew.Store.{Db}
use sshgatew.Tui.Menu.{Mode, Code, FormKind, Field, Form, Pending, Model}
use sshgatew.Tui.Menu.Commands.{World, KeyText}
use sshgatew.Tui.Menu.Finish.{
  Next, stay, with_pending, complete_oidc_link, scan_host, finish_host_key, finish_identity,
  finish_stored_target, finish_credential, finish_public_key, finish_agent_key, finish_delete,
  finish_totp_enrollment, delete_pending,
}
use sshgatew.Tui.Menu.Submit.{
  submit_form, submit_checked, first_missing, authentication, submit_kind, form_key_at, form_key_in,
  handle_form_key,
}
use sshgatew.Tui.Menu.Actions.{dispatch_code, choose, choose_at, handle_action_key}
use sshgatew.Tui.Menu.Keys.{
  cancel_or_type, type_key, or_type, is_key, accept_host, confirm_host, save_key, accept_key,
  accept_passphrase, mode_key,
}
use sshgatew.Tui.Menu.Cursor.{InBounds, NextInBounds, browse_key-InBounds}

with_pending-InBounds :
    (o : Option Pending) (f : Pending → Option Next)
    → ((p : Pending) → NextInBounds (f p))
    → NextInBounds (with_pending o f)
with_pending-InBounds none f h = tt
with_pending-InBounds (some p) f h = h p

complete_oidc_link-InBounds : (m : Model) → InBounds m → InBounds (complete_oidc_link m).0
unfolding complete_oidc_link
complete_oidc_link-InBounds m h = ground (arith, h)

finish_identity-InBounds :
    (w : World) (m : Model) (p : Pending) (key pass : Text)
    → InBounds m
    → InBounds (finish_identity w m p key pass).0
unfolding finish_identity
finish_identity-InBounds w m p key pass h = ground (arith, h)

finish_public_key-InBounds :
    (w : World) (m : Model) (p : Pending) → InBounds m → InBounds (finish_public_key w m p).0
unfolding finish_public_key
finish_public_key-InBounds w m p h = ground (arith, h)

finish_agent_key-InBounds :
    (w : World) (m : Model) (p : Pending) → InBounds m → InBounds (finish_agent_key w m p).0
unfolding finish_agent_key finish_credential
finish_agent_key-InBounds w m p h = ground (arith, h)

delete_pending-InBounds :
    (m : Model) (p : Pending) (c : Code) → InBounds m → InBounds (delete_pending m p c).0
delete_pending-InBounds m p c h = ground (arith, h)

finish_delete-InBounds : (m : Model) (p : Pending) → InBounds m → InBounds (finish_delete m p).0
unfolding finish_delete
finish_delete-InBounds m p h = delete_pending-InBounds m p p.kind h

finish_totp_enrollment-InBounds :
    (w : World) (m : Model) (p : Pending) → InBounds m → InBounds (finish_totp_enrollment w m p).0
unfolding finish_totp_enrollment
finish_totp_enrollment-InBounds w m p h = ground (arith, h)

submit_kind-InBounds :
    (w : World) (db : Db) (m : Model) (f : Form) (k : FormKind) (values : List Text)
    → InBounds m
    → NextInBounds (submit_kind w db m f k values)
unfolding finish_identity scan_host
submit_kind-InBounds w db m f k values h = ground (arith, h)

submit_checked-InBounds :
    (w : World) (db : Db) (m : Model) (f : Form) (i : Option ℕ)
    → InBounds m
    → NextInBounds (submit_checked w db m f i)
submit_checked-InBounds w db m f none h = submit_kind-InBounds w db m f f.kind _ h
submit_checked-InBounds w db m f (some i) h = h

submit_form-InBounds :
    (w : World) (db : Db) (m : Model) (f : Form) → InBounds m → NextInBounds (submit_form w db m f)
unfolding submit_form
submit_form-InBounds w db m f h =
    submit_checked-InBounds w db m f (first_missing (authentication f.fields) f.fields) h

form_key_at-InBounds :
    (w : World) (db : Db) (m : Model) (f : Form) (key : Text) (field : Field)
    → InBounds m
    → NextInBounds (form_key_at w db m f key field)
form_key_at-InBounds w db m f key field h = ground (arith, h, submit_form-InBounds w db m f)

form_key_in-InBounds :
    (w : World) (db : Db) (m : Model) (key : Text) (f : Option Form)
    → InBounds m
    → NextInBounds (form_key_in w db m key f)
form_key_in-InBounds w db m key none h = h
form_key_in-InBounds w db m key (some f) h = elim (Option-cases (get_elem? f.fields f.index)) [
  | inl e ↦ rw e (ground (arith, h))
  | inr (field, e) ↦ rw e (ground (arith, h, form_key_at-InBounds w db m f key field))
]

handle_form_key-InBounds :
    (w : World) (db : Db) (m : Model) (key : Text)
    → InBounds m
    → NextInBounds (handle_form_key w db m key)
unfolding handle_form_key
handle_form_key-InBounds w db m key h = ground (arith, h, form_key_in-InBounds w db m key m.form)

dispatch_code-InBounds :
    (w : World) (db : Db) (m : Model) (p : Pending) (c : Code)
    → InBounds m
    → InBounds (dispatch_code w db m p c).0
unfolding scan_host
dispatch_code-InBounds w db m p c h = ground (arith, h)

choose-InBounds :
    (w : World) (db : Db) (m : Model) (p : Pending) (c : Code) (mode : Mode)
    → InBounds m
    → NextInBounds (choose w db m p c mode)
choose-InBounds w db m p c mode h = ground (arith, h, dispatch_code-InBounds w db m p c)

choose_at-InBounds :
    (w : World) (db : Db) (m : Model) (c : Option Code)
    → InBounds m
    → NextInBounds (choose_at w db m c)
choose_at-InBounds w db m none h = tt
choose_at-InBounds w db m (some c) h =
    with_pending-InBounds m.pending _ (λ p. choose-InBounds w db m p c m.mode h)

handle_action_key-InBounds :
    (w : World) (db : Db) (m : Model) (key : Text)
    → InBounds m
    → NextInBounds (handle_action_key w db m key)
unfolding handle_action_key
handle_action_key-InBounds w db m key h =
    ground (arith, h, choose_at-InBounds w db m (get_elem? m.actions m.action_cursor))

save_key-InBounds :
    (w : World) (m : Model) (p : Pending) (key pass : Text)
    → InBounds m
    → InBounds (save_key w m p key pass).0
unfolding finish_credential
save_key-InBounds w m p key pass h = ground (arith, h, finish_identity-InBounds w m p key pass)

accept_host-InBounds : (m : Model) (p : Pending) → InBounds m → InBounds (accept_host m p).0
unfolding finish_host_key finish_stored_target
accept_host-InBounds m p h = ground (arith, h)

confirm_host-InBounds : (m : Model) (key : Text) → InBounds m → NextInBounds (confirm_host m key)
confirm_host-InBounds m key h = ground (
  arith,
  h,
  with_pending-InBounds m.pending (λ p. some (accept_host m p)) (λ p. accept_host-InBounds m p h),
)

accept_key-InBounds :
    (w : World) (m : Model) (k : KeyText) → InBounds m → NextInBounds (accept_key w m k)
accept_key-InBounds w m KeyText.valid h =
    with_pending-InBounds m.pending _ (λ p. save_key-InBounds w m p m.input [] h)
accept_key-InBounds w m KeyText.encrypted h = with_pending-InBounds m.pending _ (λ p. h)
accept_key-InBounds w m KeyText.invalid h = h

accept_passphrase-InBounds :
    (w : World) (m : Model) (p : Pending) → InBounds m → InBounds (accept_passphrase w m p).0
accept_passphrase-InBounds w m p h =
    ground (arith, h, save_key-InBounds w m p p.private_key m.input)

cancel_or_type-InBounds : (m : Model) (key : Text) → InBounds m → InBounds (cancel_or_type m key).0
unfolding cancel_or_type type_key
cancel_or_type-InBounds m key h = ground (arith, h)

or_type-InBounds :
    (m : Model) (key : Text) (b : Bool) (next : Option Next)
    → InBounds m
    → NextInBounds next
    → NextInBounds (or_type m key b next)
or_type-InBounds m key true next h n = n
or_type-InBounds m key false next h n = cancel_or_type-InBounds m key h

confirm_delete-InBounds :
    (w : World) (db : Db) (m : Model) (key : Text)
    → InBounds m
    → NextInBounds (mode_key w db m key Mode.confirm_delete)
confirm_delete-InBounds w db m key h = ground (
  arith,
  h,
  with_pending-InBounds m.pending (λ p. some (finish_delete m p))
      (λ p. finish_delete-InBounds m p h),
)

secret_key-InBounds :
    (w : World) (m : Model) (key : Text)
    → InBounds m
    → NextInBounds (
        if is_key key (codes "ctrl+d")
        then accept_key w m (w.parse_key m.input)
        else some (stay (record m { input = m.input ++ 10 ∷ [] })))
secret_key-InBounds w m key h = ground (arith, h, accept_key-InBounds w m (w.parse_key m.input))

pub mode_key-InBounds :
    (w : World) (db : Db) (m : Model) (key : Text) (mode : Mode)
    → InBounds m
    → NextInBounds (mode_key w db m key mode)
unfolding finish_credential
mode_key-InBounds w db m key Mode.browsing h = browse_key-InBounds m key h
mode_key-InBounds w db m key Mode.help h = h
mode_key-InBounds w db m key Mode.totp_auth h = ground (arith, h, cancel_or_type-InBounds m key)
mode_key-InBounds w db m key Mode.totp_enroll h = ground (arith, h, cancel_or_type-InBounds m key)
mode_key-InBounds w db m key Mode.totp_confirm h =
    or_type-InBounds m key _ _ h
      (with_pending-InBounds m.pending _ (λ p. finish_totp_enrollment-InBounds w m p h))
mode_key-InBounds w db m key Mode.oidc_link h =
    ground (arith, h, cancel_or_type-InBounds m key, complete_oidc_link-InBounds m)
mode_key-InBounds w db m key Mode.oidc_start h = h
mode_key-InBounds w db m key Mode.oidc_complete h = h
mode_key-InBounds w db m key Mode.form h = handle_form_key-InBounds w db m key h
mode_key-InBounds w db m key Mode.actions h = handle_action_key-InBounds w db m key h
mode_key-InBounds w db m key Mode.user_keys h = handle_action_key-InBounds w db m key h
mode_key-InBounds w db m key Mode.member_add h = handle_action_key-InBounds w db m key h
mode_key-InBounds w db m key Mode.member_remove h = handle_action_key-InBounds w db m key h
mode_key-InBounds w db m key Mode.identity_public h = h
mode_key-InBounds w db m key Mode.confirm_delete h = confirm_delete-InBounds w db m key h
mode_key-InBounds w db m key Mode.public_key h =
    or_type-InBounds m key _ _ h
      (with_pending-InBounds m.pending _ (λ p. finish_public_key-InBounds w m p h))
mode_key-InBounds w db m key Mode.agent_key h =
    or_type-InBounds m key _ _ h
      (with_pending-InBounds m.pending _ (λ p. finish_agent_key-InBounds w m p h))
mode_key-InBounds w db m key Mode.confirm_host h = confirm_host-InBounds m key h
mode_key-InBounds w db m key Mode.secret_password h =
    or_type-InBounds m key _ _ h (with_pending-InBounds m.pending _ (λ p. h))
mode_key-InBounds w db m key Mode.secret_key h =
    or_type-InBounds m key _ _ h (secret_key-InBounds w m key h)
mode_key-InBounds w db m key Mode.secret_passphrase h =
    or_type-InBounds m key _ _ h
      (with_pending-InBounds m.pending _ (λ p. accept_passphrase-InBounds w m p h))
mode_key-InBounds w db m key Mode.scanning h = cancel_or_type-InBounds m key h
mode_key-InBounds w db m key Mode.saving h = cancel_or_type-InBounds m key h
