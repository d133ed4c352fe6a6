-- ===== src/Prelude/Order.antt =====
-- ORDER BY on columns of texts and numbers, as an insertion sort by a list of keys. Texts compare by
-- their bytes, as with COLLATE BINARY; a number is a text of one.
use sshgatew.Prelude.Tests.{if◌then◌else◌, ltb, ◌==◌}
use mathlib.Core.Path.{◌≡◌, refl}
use mathlib.Core.Bool.{Bool, true, false}
use mathlib.Core.List.{List, [], ◌∷◌}
use native.Mathlib.Omega.{arith}
use sshgatew.Prelude.Texts.{Text, text_eq}
use sshgatew.Prelude.Tables.{count}

unfoldable pub text_le : Text → Text → Bool
text_le [] t = true
text_le (a ∷ s) [] = false
text_le (a ∷ s) (b ∷ t) = let rest = text_le s t in if a == b then rest else ltb a b

unfoldable pub keys_le : List Text → List Text → Bool
keys_le [] ls = true
keys_le (k ∷ ks) [] = false
keys_le (k ∷ ks) (l ∷ ls) = let rest = keys_le ks ls in if text_eq k l then rest else text_le k l

pub text_le_total : (s t : Text) → text_le s t ≡ false → text_le t s ≡ true
unfolding text_le
text_le_total [] t e = ground arith
text_le_total (a ∷ s) [] e = ground arith
text_le_total (a ∷ s) (b ∷ t) e = ground (arith, text_le_total s t)

pub keys_le_total : (ks ls : List Text) → keys_le ks ls ≡ false → keys_le ls ks ≡ true
unfolding keys_le
keys_le_total [] ls e = ground arith
keys_le_total (k ∷ ks) [] e = ground arith
keys_le_total (k ∷ ks) (l ∷ ls) e = ground (arith, keys_le_total ks ls, text_le_total k l)

module _ {A : Type 0} (key : A → List Text) where
  unfoldable pub insert : A → List A → List A
  insert x [] = x ∷ []
  insert x (y ∷ ys) =
      let rest = insert x ys in if keys_le (key x) (key y) then x ∷ y ∷ ys else y ∷ rest

  unfoldable pub order_by : List A → List A
  unfolding insert
  order_by [] = []
  order_by (x ∷ xs) = insert x (order_by xs)

  abbrev pub IsOrdered : List A → Type 0
  IsOrdered [] = Unit
  IsOrdered (x ∷ []) = Unit
  IsOrdered (x ∷ y ∷ ys) = (keys_le (key x) (key y) ≡ true) × IsOrdered (y ∷ ys)

  insert-IsOrdered : (x : A) (ys : List A) → IsOrdered ys → IsOrdered (insert x ys)
  unfolding insert
  insert-IsOrdered x [] o = tt
  insert-IsOrdered x (y ∷ []) o = ground (arith, keys_le_total (key x) (key y))
  insert-IsOrdered x (y ∷ z ∷ ys) o =
      ground (arith, keys_le_total (key x) (key y), insert-IsOrdered x (z ∷ ys))

  pub order_by-IsOrdered : (xs : List A) → IsOrdered (order_by xs)
  unfolding order_by
  order_by-IsOrdered [] = tt
  order_by-IsOrdered (x ∷ xs) = insert-IsOrdered x (order_by xs) (order_by-IsOrdered xs)

  count-insert : (p : A → Bool) (x : A) (ys : List A) → count p (insert x ys) ≡ count p (x ∷ ys)
  unfolding insert count
  count-insert p x [] = refl
  count-insert p x (y ∷ ys) = ground (arith, count-insert p x ys)

  pub count-order_by : (p : A → Bool) (xs : List A) → count p (order_by xs) ≡ count p xs
  unfolding order_by count
  count-order_by p [] = refl
  count-order_by p (x ∷ xs) = ground (arith, count-insert p x (order_by xs), count-order_by p xs)
