-- ===== src/Prelude/Decimal.antt =====
-- Decimal numerals, as `%d` of Go's package `fmt` prints a number that is not negative.
use Prim.Native.Nat.{ℕ, zero, suc, ◌+◌, ◌-◌, ◌*◌, ◌/◌, ◌%◌, ◌<◌}
use mathlib.Core.Path.{◌≡◌, refl, ◌∙◌}
use mathlib.Core.Bool.{Bool, true, ◌&&◌}
use mathlib.Core.Logic.{inl, inr}
use mathlib.Core.List.{[], ◌∷◌, ◌++◌}
use native.Mathlib.Omega.{arith}
use sshgatew.Prelude.Tests.{ltb, leb, if◌then◌else◌, Bool-cases}
use sshgatew.Prelude.Lists.{all, all-append}
use sshgatew.Prelude.Texts.{Text}

digits_fuel : ℕ → ℕ → Text
digits_fuel zero n = []
digits_fuel (suc f) n =
    let more = digits_fuel f (n / 10) in
    if ltb n 10 then (b'0' + n) ∷ [] else more ++ (b'0' + n % 10) ∷ []

-- `n + 1` rounds are enough: each divides by ten.
unfoldable pub decimal : ℕ → Text
unfolding digits_fuel
decimal n = digits_fuel (suc n) n

unfoldable pub is_digit : ℕ → Bool
is_digit c = leb b'0' c && leb c b'9'

-- The value of a text of digits.
unfoldable pub value_from : ℕ → Text → ℕ
value_from acc [] = acc
value_from acc (c ∷ s) = value_from (acc * 10 + (c - b'0')) s

value_from-snoc :
    (acc : ℕ) (s : Text) (c : ℕ) → value_from acc (s ++ c ∷ []) ≡ value_from acc s * 10 + (c - b'0')
unfolding value_from
value_from-snoc acc [] c = refl
value_from-snoc acc (d ∷ s) c = value_from-snoc (acc * 10 + (d - b'0')) s c

digits_fuel-value : (f n : ℕ) → n < f → value_from 0 (digits_fuel f n) ≡ n
unfolding digits_fuel
digits_fuel-value zero n h = elim h [ ]
digits_fuel-value (suc f) n h = elim (Bool-cases (ltb n 10)) [
  | inl e ↦ rw e (unfold value_from in omega arith)
  | inr e ↦ rw e (
      value_from-snoc 0 (digits_fuel f (n / 10)) (b'0' + n % 10)
      ∙ ground (arith, digits_fuel-value f (n / 10)))
]

-- Printing loses nothing.
pub decimal-value : (n : ℕ) → value_from 0 (decimal n) ≡ n
unfolding decimal
decimal-value n = digits_fuel-value (suc n) n (omega arith)

digits_fuel-digits : (f n : ℕ) → all is_digit (digits_fuel f n) ≡ true
unfolding digits_fuel all is_digit
digits_fuel-digits zero n = refl
digits_fuel-digits (suc f) n = elim (Bool-cases (ltb n 10)) [
  | inl e ↦ rw e (ground arith)
  | inr e ↦ rw e (
      all-append is_digit (digits_fuel f (n / 10)) ((b'0' + n % 10) ∷ [])
      ∙ rw (digits_fuel-digits f (n / 10)) (ground arith))
]

pub decimal-digits : (n : ℕ) → all is_digit (decimal n) ≡ true
unfolding decimal
decimal-digits n = digits_fuel-digits (suc n) n
