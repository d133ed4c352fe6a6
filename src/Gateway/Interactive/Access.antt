-- ===== src/Gateway/Interactive/Access.antt =====
-- internal/gateway/server.go: every connection of an interactive session passed the access check.
use sshgatew.Prelude.{
  ℕ, ◌≡◌, refl, sym, ◌⊎◌, inl, inr, true, not, ◌&&◌, List, [], ◌∷◌, ◌++◌, none, some, arith,
  Bool-cases, Option-cases,
}
use mathlib.Core.Path.{subst}
use sshgatew.Prelude.Texts.{Text, codes, is_empty}
use sshgatew.Secrets.{Payload}
use sshgatew.Store.Grants.{can_access}
use sshgatew.Store.Targets.{target_by_id}
use sshgatew.Store.{User, Target, Db, Result, ok, err, Result-cases}
use sshgatew.Gateway.Auth.{Env}
use sshgatew.Gateway.Routing.{Request, Remote, load_credential, state_from_context, uses_agent}
use sshgatew.Gateway.Routing.Permitted.{log-credential}
use sshgatew.Gateway.Sessions.{Limits, Sessions}
use sshgatew.Gateway.Interactive.{
  Answer, failed, quit, select, Menu, chosen, before, session_event, Dial, asked, connect,
  menu_loop, interactive, handle,
}

-- The user could use a shell at the target that the database has under this id, which was enabled,
-- and the credential is the one stored for it.
pub record IsAllowed (env : Env) (u : User) (d : Dial) : Type 0 where
  pub selected : ℕ
  pub access : can_access d.db u selected ≡ true
  pub found : target_by_id d.db selected ≡ ok d.target
  pub credential : load_credential env d.db d.target ≡ ok d.credential

abbrev pub AllAllowed : Env → User → List Dial → Type 0
AllAllowed env u [] = Unit
AllAllowed env u (d ∷ ds) = IsAllowed env u d × AllAllowed env u ds

AllAllowed-append :
    (env : Env) (u : User) (ds es : List Dial)
    → AllAllowed env u ds
    → AllAllowed env u es
    → AllAllowed env u (ds ++ es)
AllAllowed-append env u [] es a b = b
AllAllowed-append env u (d ∷ ds) es (h, a) b = (h, AllAllowed-append env u ds es a b)

Answer-cases : (a : Answer) → (a ≡ failed) ⊎ (a ≡ quit) ⊎ ((id : ℕ) × (a ≡ select id))
Answer-cases failed = inl refl
Answer-cases quit = inr (inl refl)
Answer-cases (select id) = inr (inr (id, refl))

asked-AllAllowed :
    (env : Env) (remote : Remote) (u : User) (db : Db) (t : Target) (id : ℕ) (r : Result Payload)
    → can_access db u id ≡ true
    → target_by_id db id ≡ ok t
    → load_credential env db t ≡ r
    → AllAllowed env u (asked remote db t r)
asked-AllAllowed env remote u db t id (err e) access found l = tt
asked-AllAllowed env remote u db t id (ok p) access found l =
    elim (Bool-cases (uses_agent t && not remote.opens_agent)) [
      | inl k ↦ rw k tt
      | inr k ↦ rw k (record { selected = id; access = access; found = found; credential = l }, tt)
    ]

connect-AllAllowed :
    (env : Env) (remote : Remote) (u : User) (source : Text) (db : Db) (t : Target) (id : ℕ)
    → can_access db u id ≡ true
    → target_by_id db id ≡ ok t
    → AllAllowed env u (connect env remote u source db t).1
unfolding connect
connect-AllAllowed env remote u source db t id access found =
    asked-AllAllowed env remote u db t id _ access found (sym (log-credential env db _ t))

chosen_sound :
    (db : Db) (u : User) (id : ℕ) (t : Target)
    → chosen db u id ≡ some t
    → (can_access db u id ≡ true) × (target_by_id db id ≡ ok t)
chosen_sound db u id t e = elim (Result-cases (target_by_id db id)) [
  | inl (x, k) ↦ (ground (arith, k), ground (arith, k))
  | inr (f, k) ↦ absurd (ground (arith, k))
]

before-AllAllowed :
    (env : Env) (u : User) (ds : List Dial) (r : Db × List Dial)
    → AllAllowed env u ds
    → AllAllowed env u r.1
    → AllAllowed env u (before ds r).1
before-AllAllowed env u ds (db, es) a b = AllAllowed-append env u ds es a b

module _ (env : Env) (remote : Remote) (u : User) (source : Text) (menu : Menu) (menus : List Menu)
    (db : Db) where
  loop : Db × List Dial
  loop = menu_loop env remote u source db (menu ∷ menus)

  loop-end : ((menu db).1 ≡ failed) ⊎ ((menu db).1 ≡ quit) → loop ≡ ((menu db).0, [])
  unfolding loop menu_loop
  loop-end (inl e) = rw e
  loop-end (inr e) = rw e

  loop-again :
      (id : ℕ)
      → (menu db).1 ≡ select id
      → chosen (menu db).0 u id ≡ none
      → loop ≡ menu_loop env remote u source (menu db).0 menus
  unfolding loop menu_loop
  loop-again id e k = rw (e, k)

  loop-connect :
      (id : ℕ) (t : Target)
      → (menu db).1 ≡ select id
      → chosen (menu db).0 u id ≡ some t
      → loop
        ≡ before
            (connect env remote u source (menu db).0 t).1
            (menu_loop env remote u source (connect env remote u source (menu db).0 t).0 menus)
  unfolding loop menu_loop
  loop-connect id t e k = rw (e, k)

menu_loop-AllAllowed :
    (env : Env) (remote : Remote) (u : User) (source : Text) (menus : List Menu) (db : Db)
    → AllAllowed env u (menu_loop env remote u source db menus).1
unfolding menu_loop loop
menu_loop-AllAllowed env remote u source [] db = tt
menu_loop-AllAllowed env remote u source (menu ∷ menus) db = elim (Answer-cases (menu db).1) [
  | inl e ↦ by_eq (loop-end env remote u source menu menus db (inl e)) tt
  | inr (inl e) ↦ by_eq (loop-end env remote u source menu menus db (inr e)) tt
  | inr (inr (id, e)) ↦ elim (Option-cases (chosen (menu db).0 u id)) [
    | inl k ↦
        by_eq (loop-again env remote u source menu menus db id e k)
          (menu_loop-AllAllowed env remote u source menus (menu db).0)
    | inr (t, k) ↦
        let c = connect env remote u source (menu db).0 t in
        let (access, found) = chosen_sound (menu db).0 u id t k in
        by_eq (loop-connect env remote u source menu menus db id t e k) (
          before-AllAllowed env u c.1 (menu_loop env remote u source c.0 menus)
            (connect-AllAllowed env remote u source (menu db).0 t id access found)
            (menu_loop-AllAllowed env remote u source menus c.0))
  ]
]
  where
    by_eq : {r r' : Db × List Dial} → r ≡ r' → AllAllowed env u r'.1 → AllAllowed env u r.1
    by_eq e a = subst (λ r. AllAllowed env u r.1) (sym e) a

-- Every connection that an interactive session asks for, over all runs of its menu and whatever is
-- written to the store meanwhile, is one to a target that the store had at that time under an id
-- for which the check of the shell capability passed at that time, for the user of the session as
-- it was when the session began, and its credential is the one stored for that target.
pub handle-AllAllowed :
    (limits : Limits) (env : Env) (remote : Remote) (s : Sessions) (db : Db) (claimed source : Text)
    (req : Request) (menus : List Menu) (db' : Db) (dials : List Dial)
    → (handle limits env remote s db claimed source req menus).1 ≡ interactive db' dials
    → (u : User) × (state_from_context db claimed ≡ some (u, [])) × AllAllowed env u dials
unfolding handle is_empty
handle-AllAllowed limits env remote s db claimed source req menus db' dials e =
    elim (Option-cases (state_from_context db claimed)) [
      | inl k ↦ absurd (ground (arith, k))
      | inr ((u, c ∷ name), k) ↦ absurd (ground (arith, k))
      | inr ((u, []), k) ↦
          let started =
            session_event env u source (codes "gateway.session.start") (codes "success") [] db in
          let same : (menu_loop env remote u source started menus).1 ≡ dials = ground (arith, k) in
          (u, k, rw (← same) (menu_loop-AllAllowed env remote u source menus started))
    ]
