-- ===== src/Gateway/Username/Names.antt =====
-- internal/gateway/auth.go: which names `splitRoutedUsername` reads.
use sshgatew.Prelude.{ℕ, ◌≡◌, ◌≢◌, refl, true, false, not, List, [], ◌∷◌, ◌++◌, arith}
use sshgatew.Prelude.Lists.{all, all_mono, all-reverse}
use mathlib.Core.List.{reverse, reverse-reverse}
use sshgatew.Prelude.Texts.{
  Text, split, to_lower, is_empty, contains, split-append, split-no_sep, to_lower_idem, trim_space,
  trim_left, is_space,
}
use sshgatew.Store.Names.{validate_name, matches_name, is_name_byte}
use sshgatew.Store.{ok}
use sshgatew.Gateway.Username.{split_routed_username, split_parts}

-- The user name and the target name that `splitRoutedUsername` reads are in lower case.
pub split_routed_username-to_lower :
    (value user target : Text)
    → split_routed_username value ≡ ok (user, target)
    → (to_lower user ≡ user) × (to_lower target ≡ target)
unfolding split_routed_username to_lower
split_routed_username-to_lower value user target e = parts (split b'+' value) e
  where
    parts :
        (ps : List Text)
        → split_parts ps ≡ ok (user, target)
        → (to_lower user ≡ user) × (to_lower target ≡ target)
    parts [] q = cc
    parts (u ∷ []) q = ground (arith, to_lower_idem u, to_lower_idem [])
    parts (u ∷ t ∷ []) q = ground (arith, to_lower_idem u, to_lower_idem t)
    parts (u ∷ t ∷ o ∷ more) q = cc

trim_left_lem : (s : Text) → all (λ c. not (is_space c)) s ≡ true → trim_left s ≡ s
unfolding trim_left all
trim_left_lem [] h = refl
trim_left_lem (c ∷ s) h = ground arith

trim_space_lem : (s : Text) → all (λ c. not (is_space c)) s ≡ true → trim_space s ≡ s
unfolding trim_space
trim_space_lem s h =
    rw (trim_left_lem s h, trim_left_lem (reverse s) (all-reverse (λ c. not (is_space c)) s h))
      (reverse-reverse s)

name_bytes : (s : Text) → matches_name s ≡ true → all is_name_byte s ≡ true
unfolding matches_name all is_name_byte
name_bytes [] h = cc
name_bytes (c ∷ s) h = ground arith

to_lower_lem : (s : Text) → all is_name_byte s ≡ true → to_lower s ≡ s
unfolding to_lower all is_name_byte
to_lower_lem [] h = refl
to_lower_lem (c ∷ s) h = ground (arith, to_lower_lem s)

no_plus : (s : Text) → all is_name_byte s ≡ true → contains b'+' s ≡ false
unfolding contains all is_name_byte
no_plus [] h = refl
no_plus (c ∷ s) h = ground (arith, no_plus s)

no_space : (c : ℕ) → is_name_byte c ≡ true → not (is_space c) ≡ true
unfolding is_name_byte is_space
no_space c h = ground arith

-- A valid name is validated as it stands.
pub validate_name_lem : (s : Text) → matches_name s ≡ true → validate_name s ≡ ok s
unfolding validate_name
validate_name_lem s h =
    let bytes = name_bytes s h in
    let trimmed =
      trim_space_lem s (all_mono is_name_byte (λ c. not (is_space c)) s no_space bytes) in
    rw (trimmed, to_lower_lem s bytes, h)

name_not_empty : (s : Text) → matches_name s ≡ true → is_empty s ≡ false
unfolding matches_name is_empty
name_not_empty [] h = cc
name_not_empty (c ∷ s) h = refl

not_empty : (s : Text) → s ≢ [] → is_empty s ≡ false
unfolding is_empty
not_empty [] h = absurd (h refl)
not_empty (c ∷ s) h = refl

-- USER+TARGET, for a valid user name and a target name that is not empty and has no `+`, is read as
-- this user and the target name in lower case.
pub split_routed_username_lem :
    (user target : Text)
    → matches_name user ≡ true
    → target ≢ []
    → contains b'+' target ≡ false
    → split_routed_username (user ++ b'+' ∷ target) ≡ ok (user, to_lower target)
unfolding split_routed_username
split_routed_username_lem user target valid some_target one_plus =
    let bytes = name_bytes user valid in
    rw (split-append b'+' user target (no_plus user bytes), split-no_sep b'+' target one_plus)
      (rw (name_not_empty user valid, not_empty target some_target, validate_name_lem user valid)
        (rw (to_lower_lem user bytes)))
