-- ===== src/Gateway/Sessions.antt =====
-- internal/gateway/server.go: `acquire` and `release`, the session limits. The mutex makes each call
-- one step. The counts are natural numbers: a release follows an acquire.
pub mod Counts
use sshgatew.Prelude.{
  ℕ, zero, suc, ◌+◌, ◌-◌, Bool, true, false, not, ◌||◌, List, [], ◌∷◌, leb, ◌==◌, if◌then◌else◌,
  filter,
}

pub record Limits : Type 0 where
  pub max_sessions : ℕ
  pub max_sessions_per_user : ℕ

-- The fields `total` and `perUser` of `Server`; the map is a list of entries.
pub record Sessions : Type 0 where
  pub total : ℕ
  pub per_user : List (ℕ × ℕ)

-- `perUser[id]`: a missing key reads 0.
unfoldable pub sessions_of : ℕ → List (ℕ × ℕ) → ℕ
sessions_of id [] = 0
sessions_of id ((k, n) ∷ m) = if k == id then n else sessions_of id m

-- `perUser[id] = n`
unfoldable pub set_sessions : ℕ → ℕ → List (ℕ × ℕ) → List (ℕ × ℕ)
set_sessions id n [] = (id, n) ∷ []
set_sessions id n ((k, v) ∷ m) = if k == id then (k, n) ∷ m else (k, v) ∷ set_sessions id n m

-- `delete(perUser, id)`
unfoldable pub remove_sessions : ℕ → List (ℕ × ℕ) → List (ℕ × ℕ)
remove_sessions id [] = []
remove_sessions id ((k, v) ∷ m) =
    let rest = remove_sessions id m in if k == id then rest else (k, v) ∷ rest

unfoldable pub acquire : Limits → Sessions → ℕ → Bool × Sessions
acquire l s id =
    if leb l.max_sessions s.total || leb l.max_sessions_per_user (sessions_of id s.per_user)
    then (false, s)
    else (
      true,
      record {
        total = s.total + 1;
        per_user = set_sessions id (sessions_of id s.per_user + 1) s.per_user;
      },
    )

unfoldable pub release : Sessions → ℕ → Sessions
release s id =
    let less = set_sessions id (sessions_of id s.per_user - 1) s.per_user in
    record {
      total = s.total - 1;
      per_user = if leb (sessions_of id less) 0 then remove_sessions id less else less;
    }
