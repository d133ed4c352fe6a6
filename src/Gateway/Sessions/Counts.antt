-- ===== src/Gateway/Sessions/Counts.antt =====
-- internal/gateway/server.go: the counters are those of the sessions that are open, and stay within
-- the limits, whatever the order in which sessions begin and end.
use sshgatew.Prelude.{
  ℕ, ◌+◌, ◌-◌, ◌≤◌, ◌≡◌, refl, true, false, List, [], ◌∷◌, ◌++◌, ◌==◌, if◌then◌else◌, arith, count,
}
use sshgatew.Prelude.Lists.{length, length-append}
use sshgatew.Gateway.Sessions.{
  Limits, Sessions, sessions_of, set_sessions, remove_sessions, acquire, release,
}

pub sessions_of-set :
    (id j n : ℕ) (m : List (ℕ × ℕ))
    → sessions_of j (set_sessions id n m) ≡ (if id == j then n else sessions_of j m)
unfolding sessions_of set_sessions
sessions_of-set id j n [] = refl
sessions_of-set id j n ((k, v) ∷ m) = ground (arith, sessions_of-set id j n m)

pub sessions_of-remove :
    (id j : ℕ) (m : List (ℕ × ℕ))
    → sessions_of j (remove_sessions id m) ≡ (if id == j then 0 else sessions_of j m)
unfolding sessions_of remove_sessions
sessions_of-remove id j [] = ground arith
sessions_of-remove id j ((k, v) ∷ m) = ground (arith, sessions_of-remove id j m)

-- How many of the open sessions are those of a user; an open session is its user's id.
abbrev pub open_of : ℕ → List ℕ → ℕ
open_of id sessions = count (λ k. k == id) sessions

-- The counters and the open sessions: a session begins by `acquire`, which may refuse it, and any
-- open session may end, by `release`.
pub data Step (l : Limits) : Sessions → List ℕ → Sessions → List ℕ → Type 0 where
  begin :
      (s : Sessions) (live : List ℕ) (id : ℕ) (s' : Sessions)
      → acquire l s id ≡ (true, s')
      → Step l s live s' (id ∷ live)
  refuse :
      (s : Sessions) (live : List ℕ) (id : ℕ) (s' : Sessions)
      → acquire l s id ≡ (false, s')
      → Step l s live s' live
  finish :
      (s : Sessions) (before after : List ℕ) (id : ℕ) (live : List ℕ)
      → live ≡ before ++ id ∷ after
      → Step l s live (release s id) (before ++ after)

abbrev pub idle : Sessions
idle = record { total = 0; per_user = [] }

pub data Reach (l : Limits) : Sessions → List ℕ → Type 0 where
  start : (s : Sessions) (live : List ℕ) → s ≡ idle → live ≡ [] → Reach l s live
  next :
      {s s' : Sessions} {live live' : List ℕ}
      → Reach l s live
      → Step l s live s' live'
      → Reach l s' live'

-- The counters show the open sessions, and those are within the limits.
pub record IsAccounted (l : Limits) (s : Sessions) (live : List ℕ) : Type 0 where
  pub total : s.total ≡ length live
  pub per_user : (id : ℕ) → sessions_of id s.per_user ≡ open_of id live
  pub within : length live ≤ l.max_sessions
  pub within_user : (id : ℕ) → open_of id live ≤ l.max_sessions_per_user

count-middle :
    (j id : ℕ) (before after : List ℕ)
    → open_of j (before ++ id ∷ after) ≡ open_of j (before ++ after) + (if id == j then 1 else 0)
unfolding count
count-middle j id [] after = ground arith
count-middle j id (k ∷ before) after = ground (arith, count-middle j id before after)

Step-IsAccounted :
    (l : Limits) {s s' : Sessions} {live live' : List ℕ}
    → Step l s live s' live'
    → IsAccounted l s live
    → IsAccounted l s' live'
unfolding acquire release count
Step-IsAccounted l (begin s live id s' e) a = record {
  total = ground (arith, a.total);
  per_user = λ j. ground (
    arith,
    a.per_user id,
    a.per_user j,
    sessions_of-set id j (sessions_of id s.per_user + 1) s.per_user,
  );
  within = ground (arith, a.total);
  within_user = λ j. ground (arith, a.per_user id, a.per_user j, a.within_user j);
}
Step-IsAccounted l (refuse s live id s' e) a = record {
  total = ground (arith, a.total);
  per_user = λ j. ground (arith, a.per_user j);
  within = a.within;
  within_user = a.within_user;
}
Step-IsAccounted l (finish s before after id live e) a =
    let less = set_sessions id (sessions_of id s.per_user - 1) s.per_user in
    record {
      total =
          ground (arith, a.total, length-append before (id ∷ after), length-append before after);
      per_user = λ j. ground (
        arith,
        a.per_user id,
        a.per_user j,
        count-middle j id before after,
        count-middle id id before after,
        sessions_of-set id j (sessions_of id s.per_user - 1) s.per_user,
        sessions_of-set id id (sessions_of id s.per_user - 1) s.per_user,
        sessions_of-remove id j less,
      );
      within =
          ground (arith, a.within, length-append before (id ∷ after), length-append before after);
      within_user = λ j. ground (arith, a.within_user j, count-middle j id before after);
    }

-- After every sequence of sessions that begin, are refused or end, in any order: the total is the
-- number of open sessions, each user's count is the number of that user's open sessions, the open
-- sessions are at most `max_sessions`, and those of each user at most `max_sessions_per_user`.
pub Reach-IsAccounted :
    (l : Limits) {s : Sessions} {live : List ℕ} → Reach l s live → IsAccounted l s live
unfolding sessions_of count
Reach-IsAccounted l (start s live e f) = record {
  total = ground arith;
  per_user = λ j. ground arith;
  within = ground arith;
  within_user = λ j. ground arith;
}
Reach-IsAccounted l (next r st) = Step-IsAccounted l st (Reach-IsAccounted l r)
