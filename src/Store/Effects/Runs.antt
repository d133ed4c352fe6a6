-- ===== src/Store/Effects/Runs.antt =====
-- The effect of a command is a run of the operations that it tried.
use sshgatew.Prelude.{
  ◌≡◌, refl, sym, inl, inr, List, [], ◌∷◌, ◌++◌, Bool, true, false, if◌then◌else◌,
}
use sshgatew.Prelude.Texts.{Text}
use sshgatew.Store
use sshgatew.Store.{Db, Result-cases}
use sshgatew.Store.Operations.{Operation, apply, exec, run}
use sshgatew.Store.Effects.{Effect, start, after_apply, attempt, clean_up, with_secret}

pub run-append :
    (ops more : List Operation) (db : Db) → run db (ops ++ more) ≡ run (run db ops) more
unfolding run
run-append [] more db = refl
run-append (op ∷ ops) more db = run-append ops more (exec db op)

-- The store that a command leaves is that of a run of the operations it tried.
abbrev pub IsRun : Db → Effect → Type 0
IsRun db e = e.db ≡ run db e.tried

pub start-IsRun : (db : Db) → IsRun db (start db)
unfolding run
start-IsRun db = refl

pub after_apply-IsRun :
    (db : Db) (e : Effect) (op : Operation)
    → IsRun db e
    → IsRun db (after_apply e op (apply e.db op))
unfolding run
after_apply-IsRun db e op h = elim (Result-cases (apply e.db op)) [
  | inl (v, r) ↦ rw (r, run-append e.tried (op ∷ []) db, sym h, r) refl
  | inr (f, r) ↦ rw (r, run-append e.tried (op ∷ []) db, sym h, r) refl
]

pub if-IsRun :
    (db : Db) (b : Bool) (e e' : Effect) → IsRun db e → IsRun db e' → IsRun db (if b then e else e')
if-IsRun db true e e' h h' = h
if-IsRun db false e e' h h' = h'

pub attempt-IsRun : (db : Db) (e : Effect) (op : Operation) → IsRun db e → IsRun db (attempt e op)
unfolding attempt
attempt-IsRun db e op h =
    if-IsRun db e.failed e (after_apply e op (apply e.db op)) h (after_apply-IsRun db e op h)

pub clean_up-IsRun : (db : Db) (e : Effect) (op : Operation) → IsRun db e → IsRun db (clean_up e op)
unfolding clean_up
clean_up-IsRun db e op h = after_apply-IsRun db e op h

pub with_secret-IsRun :
    (db : Db) (e : Effect) (r : Store.Result (Text × Text)) (op : Text → Text → Operation)
    → IsRun db e
    → IsRun db (with_secret e r op)
with_secret-IsRun db e (Store.err f) op h = h
with_secret-IsRun db e (Store.ok (nonce, ciphertext)) op h =
    attempt-IsRun db e (op nonce ciphertext) h
