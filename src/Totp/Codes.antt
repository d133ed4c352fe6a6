-- ===== src/Totp/Codes.antt =====
-- internal/totp/totp.go: which codes `Validate` accepts.
use sshgatew.Prelude.{
  ℕ, ◌+◌, ◌/◌, ◌≡◌, refl, ◌⊎◌, inl, inr, false, none, some, ◌≢◌, arith, Option-cases,
}
use sshgatew.Prelude.Lists.{length}
use sshgatew.Prelude.Int.{ℤ, pos, negsuc, ◌+ℤ◌, ◌≤ℤ◌}
use sshgatew.Prelude.Texts.{Text, trim_space, to_upper, is_space}
use sshgatew.Totp.{Hash, period, digits, code_at, code_value, matches, validate, six_digits, digit}

digit-is_space : (n : ℕ) → is_space (digit n) ≡ false
unfolding is_space
digit-is_space n = ground arith

-- A code has six digits, and trimming leaves it alone.
trim-six_digits : (n : ℕ) → trim_space (six_digits n) ≡ six_digits n
unfolding trim_space six_digits
trim-six_digits n = ground (
  arith,
  digit-is_space (n / 100000),
  digit-is_space (n / 10000),
  digit-is_space (n / 1000),
  digit-is_space (n / 100),
  digit-is_space (n / 10),
  digit-is_space n,
)

length-six_digits : (n : ℕ) → length (six_digits n) ≡ digits
unfolding six_digits
length-six_digits n = refl

module _ (hash : Hash) where
  -- A counter that `validate` returns is at most one step from the current one, and the trimmed
  -- candidate is the code of that counter.
  pub validate_sound :
      (secret candidate : Text) (unix : ℕ) (c : ℤ)
      → validate hash secret candidate unix ≡ some c
      → (pos (unix / period) ≤ℤ c +ℤ pos 1)
        × (c ≤ℤ pos (unix / period + 1))
        × (code_at hash secret c ≡ some (trim_space candidate))
  unfolding validate matches ◌+ℤ◌
  validate_sound secret candidate unix c e = let candidate' = trim_space candidate in ground arith

  code_at-six_digits :
      (secret : Text) (c : ℤ) (text : Text)
      → code_at hash secret c ≡ some text
      → (trim_space text ≡ text) × (length text ≡ digits)
  unfolding code_at
  code_at-six_digits secret c text e =
      elim (Option-cases (hash.decode_secret (to_upper (trim_space secret)))) [
        | inl missing ↦ absurd (ground (arith, missing))
        | inr (key, found) ↦
            let n = code_value hash key c in
            let eq : text ≡ six_digits n = ground (arith, found) in
            rw eq (trim-six_digits n, length-six_digits n)
      ]

  -- The code of the current counter or of one step before or after it is accepted.
  pub validate_complete :
      (secret text : Text) (unix : ℕ) (c : ℤ)
      → (c ≡ pos (unix / period) +ℤ negsuc 0)
        ⊎ (c ≡ pos (unix / period))
        ⊎ (c ≡ pos (unix / period + 1))
      → code_at hash secret c ≡ some text
      → validate hash secret text unix ≢ none
  unfolding validate matches ◌+ℤ◌
  validate_complete secret text unix c near e = ground (arith, code_at-six_digits secret c text e)
