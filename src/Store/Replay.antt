-- ===== src/Store/Replay.antt =====
-- internal/store/store.go: `ConsumeTOTPCounter` accepts each counter of a user at most once.
use sshgatew.Prelude.{
  ℕ, ◌≡◌, ◌≢◌, inl, inr, Bool, ◌&&◌, List, [], ◌∷◌, Option, none, some, find?, count, map,
  map_option, ◌==◌, if◌then◌else◌, arith, IsUnique, map-IsUnique, find?-map, find?_sound, any-found,
  any-of-count, any-find?_weaker, any_mono, Option-cases, Bool-cases,
}
use sshgatew.Prelude.Int.{ℤ, ◌<ℤ◌}
use sshgatew.Store.Totps.{consume_totp_counter, is_new}
use sshgatew.Store.{TotpConfig, Error, Db, ok, err, Result-cases}

-- `user_id INTEGER PRIMARY KEY`
abbrev pub same_totp : TotpConfig → TotpConfig → Bool
same_totp t s = t.user_id == s.user_id

abbrev pub is_of : ℕ → TotpConfig → Bool
is_of x t = t.user_id == x

-- The counter of the last code that the store accepted from a user who has a secret.
unfoldable pub last_counter : Db → ℕ → Option ℤ
last_counter db x = map_option (λ (t : TotpConfig). t.last_counter) (find? (is_of x) db.totps)

-- The counters of user `x` that the store accepts in a sequence of attempts of any users.
unfoldable pub accepted : ℕ → Db → List (ℕ × ℤ) → List ℤ
accepted x db [] = []
accepted x db ((y, c) ∷ rest) = elim (consume_totp_counter db y c) [
  | err e ↦ accepted x db rest
  | ok db' ↦ let more = accepted x db' rest in if y == x then c ∷ more else more
]

abbrev pub IsAbove : Option ℤ → ℤ → Type 0
IsAbove none c = Unit
IsAbove (some b) c = b <ℤ c

-- Each counter exceeds the one before it, the first one the bound.
abbrev pub IsAscending : Option ℤ → List ℤ → Type 0
IsAscending b [] = Unit
IsAscending b (c ∷ cs) = IsAbove b c × IsAscending (some c) cs

abbrev bump : ℕ → ℤ → TotpConfig → TotpConfig
bump y c t = if is_new y c t then record t { last_counter = c } else t

module _ (db : Db) (y : ℕ) (c : ℤ) (db' : Db) (done : consume_totp_counter db y c ≡ ok db') where
  consumed : (count (is_new y c) db.totps ≡ 1) × (db'.totps ≡ map (bump y c) db.totps)
  unfolding consume_totp_counter
  consumed = ground arith

  consumed-IsUnique : IsUnique same_totp db.totps → IsUnique same_totp db'.totps
  consumed-IsUnique u =
      rw consumed.1 (map-IsUnique same_totp (bump y c) db.totps (λ t s. ground arith) u)

  found-after :
      (x : ℕ) → find? (is_of x) db'.totps ≡ map_option (bump y c) (find? (is_of x) db.totps)
  found-after x = rw consumed.1 (find?-map (is_of x) (bump y c) db.totps (λ t. ground arith))

  -- The other users keep their counters.
  last_counter_other : (x : ℕ) → x ≢ y → last_counter db' x ≡ last_counter db x
  unfolding last_counter
  last_counter_other x ne = elim (Option-cases (find? (is_of x) db.totps)) [
    | inl e ↦ rw (found-after x, e)
    | inr (t, e) ↦ rw (found-after x, e) (ground (arith, find?_sound (is_of x) db.totps t e))
  ]

  -- The user's own counter rises to the one consumed.
  last_counter_self :
      IsUnique same_totp db.totps → (last_counter db' y ≡ some c) × IsAbove (last_counter db y) c
  unfolding last_counter
  last_counter_self u = elim (Option-cases (find? (is_of y) db.totps)) [
    | inl e ↦ absurd (
        ground (
          arith,
          any-of-count (is_new y c) db.totps consumed.0,
          any-find?_weaker (is_of y) (is_new y c) db.totps (λ t h. ground arith) e,
        ))
    | inr (t, e) ↦
        let owner = find?_sound (is_of y) db.totps t e in
        let newer =
          any-found (λ (s : TotpConfig). s.user_id) (is_of y) (is_new y c) db.totps t u e
            (any_mono (is_new y c) (λ s. s.user_id == t.user_id && is_new y c s) db.totps
              (λ s h. ground arith) (any-of-count (is_new y c) db.totps consumed.0)) in
        rw (found-after y, e) (ground arith)
  ]

module _ (x : ℕ) (db : Db) (y : ℕ) (c : ℤ) (rest : List (ℕ × ℤ)) where
  accepted-ok :
      (db' : Db)
      → consume_totp_counter db y c ≡ ok db'
      → accepted x db ((y, c) ∷ rest)
        ≡ (if y == x then c ∷ accepted x db' rest else accepted x db' rest)
  unfolding accepted
  accepted-ok db' e = rw (e, accepted)

  accepted-err :
      (f : Error)
      → consume_totp_counter db y c ≡ err f
      → accepted x db ((y, c) ∷ rest) ≡ accepted x db rest
  unfolding accepted
  accepted-err f e = rw (e, accepted)

-- Where a user has at most one secret, the counters that the store accepts from a user, over any
-- sequence of attempts of all users, rise strictly from the last counter stored: no code is
-- accepted twice, nor one older than another that was accepted.
pub accepted-IsAscending :
    (x : ℕ) (attempts : List (ℕ × ℤ)) (db : Db)
    → IsUnique same_totp db.totps
    → IsAscending (last_counter db x) (accepted x db attempts)
unfolding accepted
accepted-IsAscending x [] db u = tt
accepted-IsAscending x ((y, c) ∷ rest) db u = elim (Result-cases (consume_totp_counter db y c)) [
  | inr (f, e) ↦ rw (accepted-err x db y c rest f e) (accepted-IsAscending x rest db u)
  | inl (db', e) ↦
      let later = accepted-IsAscending x rest db' (consumed-IsUnique db y c db' e u) in
      elim (Bool-cases (y == x)) [
        | inl same ↦
            let eq : y ≡ x = ground arith in
            rw (accepted-ok x db y c rest db' e, same)
              (let (now, above) = last_counter_self db y c db' e u in
                let now' : last_counter db' x ≡ some c = rw eq at now in
                (rw eq at above, rw now' at later))
        | inr other ↦
            rw (accepted-ok x db y c rest db' e, other)
              (rw (last_counter_other db y c db' e x (λ q. ground arith)) at later)
      ]
]
