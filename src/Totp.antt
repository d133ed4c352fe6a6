-- ===== src/Totp.antt =====
-- internal/totp/totp.go: TOTP codes and their validation. Parameters: `encoding/base32` as
-- `decode_secret` and the SHA-1 HMAC as `hmac_sha1`, which returns 20 bytes. Times before 1970 are not modelled; counters are Go's int64.
pub mod Codes
use sshgatew.Prelude.{
  ℕ, zero, suc, ◌+◌, ◌-◌, ◌*◌, ◌/◌, ◌%◌, ◌^◌, Bool, false, not, List, [], ◌∷◌, Option, none, some,
  ◌==◌, if◌then◌else◌,
}
use sshgatew.Prelude.Lists.{length}
use sshgatew.Prelude.Int.{ℤ, pos, negsuc, ◌+ℤ◌}
use sshgatew.Prelude.Texts.{Text, text_eq, trim_space, to_upper}

abbrev pub period : ℕ
period = 30

abbrev pub digits : ℕ
digits = 6

-- What the code uses of other packages.
pub record Hash : Type 0 where
  pub decode_secret : Text → Option Text
  pub hmac_sha1 : Text → Text → Text

-- `uint64(counter)`
unfoldable pub to_uint64 : ℤ → ℕ
to_uint64 (pos n) = n % 2 ^ 64
to_uint64 (negsuc n) = (2 ^ 64 * suc n - suc n) % 2 ^ 64

-- binary.BigEndian.PutUint64
unfoldable pub put_uint64 : ℕ → Text
put_uint64 n =
    n / 2 ^ 56 % 256
    ∷ n / 2 ^ 48 % 256
    ∷ n / 2 ^ 40 % 256
    ∷ n / 2 ^ 32 % 256
    ∷ n / 2 ^ 24 % 256
    ∷ n / 2 ^ 16 % 256
    ∷ n / 2 ^ 8 % 256
    ∷ n % 256
    ∷ []

-- An index past the end, which is a panic in Go, reads 0 here; it does not occur on 20 bytes.
unfoldable pub byte_at : Text → ℕ → ℕ
byte_at [] i = 0
byte_at (b ∷ s) zero = b
byte_at (b ∷ s) (suc i) = byte_at s i

-- binary.BigEndian.Uint32(sum[offset:offset+4]) & 0x7fffffff
unfoldable pub truncated : Text → ℕ → ℕ
unfolding byte_at
truncated sum offset =
    (byte_at sum offset * 2 ^ 24
      + byte_at sum (offset + 1) * 2 ^ 16
      + byte_at sum (offset + 2) * 2 ^ 8
      + byte_at sum (offset + 3))
    % 2 ^ 31

abbrev pub digit : ℕ → ℕ
digit n = b'0' + n % 10

-- fmt.Sprintf("%06d", n), for n below a million.
unfoldable pub six_digits : ℕ → Text
six_digits n =
    digit (n / 100000)
    ∷ digit (n / 10000)
    ∷ digit (n / 1000)
    ∷ digit (n / 100)
    ∷ digit (n / 10)
    ∷ digit n
    ∷ []

module _ (hash : Hash) where
  open hash use {decode_secret, hmac_sha1}

  -- The number that a code shows.
  unfoldable pub code_value : Text → ℤ → ℕ
  unfolding truncated to_uint64 put_uint64
  code_value key counter =
      let sum = hmac_sha1 key (put_uint64 (to_uint64 counter)) in
      let offset = byte_at sum (length sum - 1) % 16 in truncated sum offset % 1000000

  unfoldable pub code_at : Text → ℤ → Option Text
  code_at secret counter = elim (decode_secret (to_upper (trim_space secret))) [
    | none ↦ none
    | some key ↦ some (six_digits (code_value key counter))
  ]

  -- `Code`: the code and the counter of a moment.
  unfoldable pub code : Text → ℕ → Option (Text × ℤ)
  code secret unix = elim (code_at secret (pos (unix / period))) [
    | none ↦ none
    | some c ↦ some (c, pos (unix / period))
  ]

  unfoldable pub matches : Text → Text → ℤ → Bool
  matches secret candidate counter = elim (code_at secret counter) [
    | none ↦ false
    | some expected ↦ text_eq expected candidate
  ]

  -- The loop over the offsets -1, 0, 1.
  unfoldable pub validate : Text → Text → ℕ → Option ℤ
  validate secret candidate unix =
      let candidate' = trim_space candidate in
      let counter = pos (unix / period) in
      if not (length candidate' == digits)
      then none
      else if matches secret candidate' (counter +ℤ negsuc 0)
      then some (counter +ℤ negsuc 0)
      else if matches secret candidate' (counter +ℤ pos 0)
      then some (counter +ℤ pos 0)
      else if matches secret candidate' (counter +ℤ pos 1)
      then some (counter +ℤ pos 1)
      else none
