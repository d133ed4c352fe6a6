-- ===== src/Prelude/Tables.antt =====
-- A database table as a list of rows: the operations that SQL statements come down to.
use Prim.Native.Nat.{ℕ, suc, ◌+◌, ◌≤◌, ◌<◌, max}
use mathlib.Core.Path.{◌≡◌, refl, sym, ap, ◌∙◌}
use mathlib.Core.Bool.{Bool, true, false, not, ◌&&◌, ◌||◌}
use mathlib.Core.Logic.{◌⊎◌, inl, inr}
use mathlib.Core.Option.{Option, none, some}
use mathlib.Core.List.{List, [], ◌∷◌, map}
use native.Mathlib.Omega.{arith}
use sshgatew.Prelude.Tests.{if◌then◌else◌, Bool-cases, ◌==◌, and_split}

module _ {ℓ} {A : Type ℓ} where
  -- SELECT EXISTS(… WHERE p)
  unfoldable pub any : (A → Bool) → List A → Bool
  any p [] = false
  any p (x ∷ xs) = p x || any p xs

  -- SELECT … WHERE p, read by `Row.Scan`: the first row, if there is one.
  unfoldable pub find? : (A → Bool) → List A → Option A
  find? p [] = none
  find? p (x ∷ xs) = if p x then some x else find? p xs

  -- SELECT … WHERE p, all rows; with `not` of a test it is DELETE.
  unfoldable pub filter : (A → Bool) → List A → List A
  filter p [] = []
  filter p (x ∷ xs) = let rest = filter p xs in if p x then x ∷ rest else rest

  -- SELECT count(*) … WHERE p
  unfoldable pub count : (A → Bool) → List A → ℕ
  count p [] = 0
  count p (x ∷ xs) = let rest = count p xs in if p x then suc rest else rest

  -- DELETE … WHERE p
  abbrev pub delete : (A → Bool) → List A → List A
  delete p xs = filter (λ x. not (p x)) xs

  -- UPDATE … SET f WHERE p
  abbrev pub update : (A → Bool) → (A → A) → List A → List A
  update p f xs = map (λ x. if p x then f x else x) xs

  -- The rowid that SQLite gives to a new row of an INTEGER PRIMARY KEY table.
  unfoldable pub next_id : (A → ℕ) → List A → ℕ
  next_id id [] = 1
  next_id id (x ∷ xs) = max (suc (id x)) (next_id id xs)

  -- No two rows stand in the relation: a UNIQUE constraint.
  abbrev pub IsUnique : (A → A → Bool) → List A → Type 0
  IsUnique same [] = Unit
  IsUnique same (x ∷ xs) = (any (same x) xs ≡ false) × IsUnique same xs

  pub any_mono :
      (p q : A → Bool) (xs : List A)
      → ((x : A) → p x ≡ true → q x ≡ true)
      → any p xs ≡ true
      → any q xs ≡ true
  unfolding any
  any_mono p q [] h e = e
  any_mono p q (x ∷ xs) h e = ground (arith, h x, any_mono p q xs h)

  pub any-false_mono :
      (p q : A → Bool) (xs : List A)
      → ((x : A) → p x ≡ true → q x ≡ true)
      → any q xs ≡ false
      → any p xs ≡ false
  unfolding any
  any-false_mono p q [] h e = e
  any-false_mono p q (x ∷ xs) h e = ground (arith, h x, any-false_mono p q xs h)

  pub any-filter : (p q : A → Bool) (xs : List A) → any p (filter q xs) ≡ any (λ x. q x && p x) xs
  unfolding any filter
  any-filter p q [] = refl
  any-filter p q (x ∷ xs) = ground (arith, any-filter p q xs)

  pub find?_sound : (p : A → Bool) (xs : List A) (x : A) → find? p xs ≡ some x → p x ≡ true
  unfolding find?
  find?_sound p [] y e = ground arith
  find?_sound p (x ∷ xs) y e = ground (arith, find?_sound p xs y)

  pub find?-any : (p : A → Bool) (xs : List A) → find? p xs ≡ none → any p xs ≡ false
  unfolding find? any
  find?-any p [] e = refl
  find?-any p (x ∷ xs) e = ground (arith, find?-any p xs)

  pub any-find? :
      (p q : A → Bool) (xs : List A) (x : A) → find? p xs ≡ some x → q x ≡ true → any q xs ≡ true
  unfolding find? any
  any-find? p q [] y e h = ground arith
  any-find? p q (x ∷ xs) y e h = ground (arith, any-find? p q xs y)

  pub any-count : (p : A → Bool) (xs : List A) → 0 < count p xs → any p xs ≡ true
  unfolding any count
  any-count p [] h = elim h [ ]
  any-count p (x ∷ xs) h = ground (arith, any-count p xs)

  pub count-zero_iff_any : (p : A → Bool) (xs : List A) → (count p xs == 0) ≡ not (any p xs)
  unfolding any count
  count-zero_iff_any p [] = refl
  count-zero_iff_any p (x ∷ xs) = ground (arith, count-zero_iff_any p xs)

  pub count-delete :
      (p q : A → Bool) (xs : List A)
      → count p (delete q xs) + count (λ x. p x && q x) xs ≡ count p xs
  unfolding filter count
  count-delete p q [] = omega arith
  count-delete p q (x ∷ xs) = ground (arith, count-delete p q xs)

  pub next_id_fresh :
      (id : A → ℕ) (xs : List A) (n : ℕ) → next_id id xs ≤ n → any (λ x. n == id x) xs ≡ false
  unfolding any next_id
  next_id_fresh id [] n h = refl
  next_id_fresh id (x ∷ xs) n h = ground (arith, next_id_fresh id xs n)

  pub filter-IsUnique :
      (same : A → A → Bool) (p : A → Bool) (xs : List A)
      → IsUnique same xs
      → IsUnique same (filter p xs)
  unfolding filter
  filter-IsUnique same p [] u = tt
  filter-IsUnique same p (x ∷ xs) u = elim (Bool-cases (p x)) [
    | inl e ↦ rw e (
      any-filter (same x) p xs
          ∙ any-false_mono (λ y. p y && same x y) (same x) xs
              (λ y h. (and_split (p y) (same x y) h).1) u.0,
      filter-IsUnique same p xs u.1,
    )
    | inr e ↦ rw e (filter-IsUnique same p xs u.1)
  ]

  pub any-split :
      (p q : A → Bool) (xs : List A)
      → any p xs ≡ true
      → (any (λ x. p x && not (q x)) xs ≡ true) ⊎ (any (λ x. q x && p x) xs ≡ true)
  unfolding any
  any-split p q [] e = inl e
  any-split p q (x ∷ xs) e = ground (arith, any-split p q xs)

  -- With a key that no two rows share, a test of the rows of that key is a test of the row found.
  pub any-found :
      (id : A → ℕ) (p q : A → Bool) (xs : List A) (x : A)
      → IsUnique (λ y z. id y == id z) xs
      → find? p xs ≡ some x
      → any (λ y. id y == id x && q y) xs ≡ true
      → q x ≡ true
  unfolding any find?
  any-found id p q [] x u e h = ground arith
  any-found id p q (y ∷ xs) x u e h = ground (
    arith,
    any-found id p q xs x,
    any-find? p (λ z. id y == id z) xs x,
    any_mono (λ z. id z == id y && q z) (λ z. id y == id z) xs (λ z k. ground arith),
  )

  -- A UNIQUE constraint bounds what a test by its columns can meet.
  pub count-le-one :
      (same : A → A → Bool) (p : A → Bool) (xs : List A)
      → ((x y : A) → p x ≡ true → p y ≡ true → same x y ≡ true)
      → IsUnique same xs
      → count p xs ≤ 1
  unfolding count
  count-le-one same p [] h u = omega arith
  count-le-one same p (x ∷ xs) h u = elim (Bool-cases (p x)) [
    | inl e ↦
        let none_left = any-false_mono p (same x) xs (λ y k. h x y e k) u.0 in
        rw e (ground (arith, count-zero_iff_any p xs))
    | inr e ↦ rw e (count-le-one same p xs h u.1)
  ]

module _ {ℓ κ} {A : Type ℓ} {B : Type κ} where
  pub any-map : (p : A → Bool) (f : B → A) (xs : List B) → any p (map f xs) ≡ any (λ x. p (f x)) xs
  unfolding any
  any-map p f [] = refl
  any-map p f (x ∷ xs) = ap (λ b. p (f x) || b) (any-map p f xs)

module _ {ℓ} {A : Type ℓ} (same : A → A → Bool) (f : A → A) where
  -- An UPDATE of columns outside the constraint keeps it.
  pub map-IsUnique :
      (xs : List A)
      → ((x y : A) → same (f x) (f y) ≡ same x y)
      → IsUnique same xs
      → IsUnique same (map f xs)
  map-IsUnique [] h u = tt
  map-IsUnique (x ∷ xs) h u = (
    any-map (same (f x)) f xs
        ∙ any-false_mono (λ y. same (f x) (f y)) (same x) xs (λ y k. sym (h x y) ∙ k) u.0,
    map-IsUnique xs h u.1,
  )

module _ {ℓ κ} {A : Type ℓ} {B : Type κ} where
  abbrev pub map_option : (A → B) → Option A → Option B
  map_option f none = none
  map_option f (some a) = some (f a)

module _ {ℓ} {A : Type ℓ} where
  -- An UPDATE that leaves the columns of a query alone is seen in what the query finds.
  pub find?-map :
      (p : A → Bool) (f : A → A) (xs : List A)
      → ((x : A) → p (f x) ≡ p x)
      → find? p (map f xs) ≡ map_option f (find? p xs)
  unfolding find?
  find?-map p f [] h = refl
  find?-map p f (x ∷ xs) h = elim (Bool-cases (p x)) [
    | inl e ↦ rw (h x, e)
    | inr e ↦ rw (h x, e) (find?-map p f xs h)
  ]

  pub any-find?_weaker :
      (p q : A → Bool) (xs : List A)
      → ((x : A) → q x ≡ true → p x ≡ true)
      → find? p xs ≡ none
      → any q xs ≡ false
  any-find?_weaker p q xs h e = any-false_mono q p xs h (find?-any p xs e)

  pub any-of-count : (p : A → Bool) (xs : List A) → count p xs ≡ 1 → any p xs ≡ true
  any-of-count p xs e = any-count p xs (omega arith)
