-- ===== src/Store/Bindings.antt =====
-- internal/store/store.go: an OIDC identity, once bound to a user, stays with that user.
use sshgatew.Prelude.{
  ℕ, ◌≡◌, refl, ap, ◌∙◌, ◌⊎◌, inl, inr, Bool, true, false, ◌&&◌, List, [], ◌∷◌, Option, none, some,
  any, find?, map, map_option, ◌==◌, if◌then◌else◌, arith, any-map, find?-map, find?_sound,
  find?-any, any-find?, Bool-cases, Option-cases,
}
use sshgatew.Prelude.Texts.{Text, text_eq, to_lower, trim_space}
use sshgatew.Store.Oidc.{
  OidcValues, normalize_oidc_values, has_subject, is_unbound, of_user, find_bound, find_unbound,
  match_oidc, authenticate_oidc,
}
use sshgatew.Store.{User, UserRow, OidcRow, Db, ok, Result-cases}

abbrev is_identity : Text → Text → OidcRow → Bool
is_identity issuer subject r = text_eq r.issuer issuer && has_subject subject r.subject

-- The user to whom an identity of a provider is bound.
unfoldable pub bound : Db → Text → Text → Option ℕ
bound db issuer subject =
    map_option (λ (r : OidcRow). r.user_id) (find? (is_identity issuer subject) db.oidc)

abbrev rename : ℕ → OidcValues → OidcRow → OidcRow
rename x v o =
    if of_user x v.issuer o then record o { provider_username = v.provider_username } else o

abbrev bind : ℕ → OidcValues → OidcRow → OidcRow
bind x v o =
    if of_user x v.issuer o && is_unbound o.subject
    then record o { subject = some v.subject }
    else o

-- What a login writes: the provider's user name of a bound mapping, or the subject of an unbound one.
match_cases :
    (db : Db) (v : OidcValues) (m : ℕ × Db)
    → match_oidc db v ≡ ok m
    → ((r : OidcRow) × (find_bound db v ≡ some r)
        × (m.0 ≡ r.user_id)
        × (m.1.oidc ≡ map (rename r.user_id v) db.oidc)
        × (m.1.users ≡ db.users))
      ⊎ ((r : OidcRow) × (find_bound db v ≡ none)
          × (find_unbound db v ≡ some r)
          × (m.0 ≡ r.user_id)
          × (m.1.oidc ≡ map (bind r.user_id v) db.oidc)
          × (m.1.users ≡ db.users))
unfolding match_oidc
match_cases db v m e = elim (Option-cases (find_bound db v)) [
  | inl none_bound ↦ elim (Option-cases (find_unbound db v)) [
    | inl missing ↦ absurd (ground (arith, none_bound, missing))
    | inr (r, found) ↦ inr (r, none_bound, found, ground arith, ground arith, ground arith)
  ]
  | inr (r, found) ↦ inl (r, found, ground arith, ground arith, ground arith)
]

user_kept :
    (f : OidcRow → OidcRow)
    → ((o : OidcRow) → (f o).user_id ≡ o.user_id)
    → (o : Option OidcRow)
    → map_option (λ (r : OidcRow). r.user_id) (map_option f o)
      ≡ map_option (λ (r : OidcRow). r.user_id) o
user_kept f h none = refl
user_kept f h (some o) = ap some (h o)

module _ (v : OidcValues) (x : ℕ) where
  -- Rows that held no such identity hold it after `bind` for the user bound only.
  bind-user :
      (rows : List OidcRow) (o : OidcRow)
      → any (is_identity v.issuer v.subject) rows ≡ false
      → find? (is_identity v.issuer v.subject) (map (bind x v) rows) ≡ some o
      → o.user_id ≡ x
  unfolding any find?
  bind-user [] o none_yet e = ground arith
  bind-user (r ∷ rows) o none_yet e = ground (arith, bind-user rows o)

  bind-other :
      (issuer subject : Text)
      → (text_eq issuer v.issuer && text_eq subject v.subject) ≡ false
      → (o : OidcRow) → is_identity issuer subject (bind x v o) ≡ is_identity issuer subject o
  bind-other issuer subject ne o =
      elim (Bool-cases (of_user x v.issuer o && is_unbound o.subject)) [
        | inr e ↦ rw e
        | inl e ↦ rw e (ground arith)
      ]

bind-found :
    (db : Db) (v : OidcValues) (r : OidcRow)
    → find_bound db v ≡ none
    → find_unbound db v ≡ some r
    → map_option
        (λ (o : OidcRow). o.user_id)
        (find? (is_identity v.issuer v.subject) (map (bind r.user_id v) db.oidc))
      ≡ some r.user_id
bind-found db v r none_bound found =
    let p = is_identity v.issuer v.subject in
    let rows = map (bind r.user_id v) db.oidc in
    let q : OidcRow → Bool = λ o.
      text_eq o.issuer v.issuer
      && text_eq o.provider_username v.provider_username
      && is_unbound o.subject in
    let hit : any p rows ≡ true =
      any-map p (bind r.user_id v) db.oidc
      ∙ any-find? q (λ o. p (bind r.user_id v o)) db.oidc r found
          (ground (arith, find?_sound q db.oidc r found)) in
    elim (Option-cases (find? p rows)) [
      | inl e ↦ absurd (ground (arith, hit, find?-any p rows e))
      | inr (o, e) ↦
          rw e (ap some (bind-user v r.user_id db.oidc o (find?-any p db.oidc none_bound) e))
    ]

-- A login leaves its identity bound to the user of the mapping that it met.
match_oidc-bound :
    (db : Db) (v : OidcValues) (m : ℕ × Db)
    → match_oidc db v ≡ ok m
    → bound m.1 v.issuer v.subject ≡ some m.0
unfolding bound
match_oidc-bound db v m e = elim (match_cases db v m e) [
  | inl (r, found, id, rows, _) ↦
      rw (rows, id)
        (rw
          (find?-map (is_identity v.issuer v.subject) (rename r.user_id v) db.oidc
            (λ o. ground arith))
          (rw found (ground arith)))
  | inr (r, none_bound, found, id, rows, _) ↦ rw (rows, id) (bind-found db v r none_bound found)
]

-- A login does not move an identity that is bound.
match_oidc-keeps :
    (db : Db) (v : OidcValues) (m : ℕ × Db) (issuer subject : Text) (x : ℕ)
    → match_oidc db v ≡ ok m
    → bound db issuer subject ≡ some x
    → bound m.1 issuer subject ≡ some x
unfolding bound
match_oidc-keeps db v m issuer subject x e b = elim (match_cases db v m e) [
  | inl (r, found, id, rows, _) ↦ rw rows (
      rw (find?-map (is_identity issuer subject) (rename r.user_id v) db.oidc (λ o. ground arith)) (
        user_kept (rename r.user_id v) (λ o. ground arith)
          (find? (is_identity issuer subject) db.oidc)
        ∙ b))
  | inr (r, none_bound, found, id, rows, _) ↦
      elim (Bool-cases (text_eq issuer v.issuer && text_eq subject v.subject)) [
        | inl same ↦
            let i : issuer ≡ v.issuer = ground arith in
            let s : subject ≡ v.subject = ground arith in
            let b' = rw (i, s) at b in absurd (ground (arith, b', none_bound))
        | inr ne ↦ rw rows (
            rw
              (find?-map (is_identity issuer subject) (bind r.user_id v) db.oidc
                (bind-other v r.user_id issuer subject ne))
              (user_kept (bind r.user_id v) (λ o. ground arith)
                  (find? (is_identity issuer subject) db.oidc)
                ∙ b))
      ]
]

module _ (db : Db) (claimed issuer subject provider : Text) (u : User) (db' : Db)
    (done : authenticate_oidc db claimed issuer subject provider ≡ ok (u, db')) where
  -- What an accepted login went through.
  pub steps :
      (v : OidcValues) × (m : ℕ × Db) × (normalize_oidc_values issuer subject provider ≡ ok v)
      × (match_oidc db v ≡ ok m)
      × (db' ≡ m.1)
      × (u.id ≡ m.0)
      × (u.enabled ≡ true)
      × (u.username ≡ to_lower (trim_space claimed))
  unfolding authenticate_oidc
  steps = elim (Result-cases (normalize_oidc_values issuer subject provider)) [
    | inr (f, e) ↦ absurd (ground (arith, e))
    | inl (v, e) ↦ elim (Result-cases (match_oidc db v)) [
      | inr (f, g) ↦ absurd (ground (arith, e, g))
      | inl (m, g) ↦ elim (Option-cases (find? (λ w. w.id == m.0) db.users)) [
        | inl k ↦ absurd (ground (arith, e, g, k))
        | inr (w, k) ↦ (
          v,
          m,
          e,
          g,
          ground (arith, e, g, k),
          ground (arith, e, g, k, find?_sound (λ (w : UserRow). w.id == m.0) db.users w k),
          ground (arith, e, g, k),
          ground (arith, e, g, k),
        )
      ]
    ]
  ]

  -- A login by OIDC is accepted only for an enabled user whose name is the claimed one, and the
  -- identity (the normalised issuer and subject) is bound to that user afterwards.
  pub authenticate_oidc_sound :
      (v : OidcValues)
      → normalize_oidc_values issuer subject provider ≡ ok v
      → (u.enabled ≡ true)
        × (u.username ≡ to_lower (trim_space claimed))
        × (bound db' v.issuer v.subject ≡ some u.id)
  authenticate_oidc_sound v n =
      let (v', m, e, g, same, id, on, name) = steps in
      let eq : v' ≡ v = cc in (on, name, rw (same, id, ← eq) (match_oidc-bound db v' m g))

  -- No login moves an identity that is bound: whatever identity logs in, an identity bound to a
  -- user before is bound to the same user afterwards.
  pub authenticate_oidc-bound :
      (i s : Text) (x : ℕ) → bound db i s ≡ some x → bound db' i s ≡ some x
  authenticate_oidc-bound i s x b =
      let (v, m, e, g, same, _, _, _) = steps in rw same (match_oidc-keeps db v m i s x g b)
