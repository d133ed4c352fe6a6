-- ===== src/Prelude/Texts.antt =====
-- Texts as lists of bytes, with what the repository uses of Go's package `strings`.
-- Case mapping and white space are those of ASCII: a text with other bytes keeps them as they are.
use Prim.Native.Nat.{ℕ, ◌+◌, ◌-◌}
use Prim.Native.Char.{code}
use Prim.Native.String.{String}
use mathlib.Core.Path.{◌≡◌, refl}
use mathlib.Core.Bool.{Bool, true, false, ◌&&◌, ◌||◌}
use mathlib.Core.List.{List, [], ◌∷◌, ◌++◌, map, reverse}
use native.Mathlib.Omega.{arith}
use native.Mathlib.Decide.{ℕ_discrete}
use sshgatew.Prelude.Tests.{if◌then◌else◌, leb, ◌==◌}
use sshgatew.Prelude.Tables.{any}

abbrev pub Text : Type 0
Text = List ℕ

-- The bytes of an ASCII literal.
abbrev pub codes : String → Text
codes String.[] = []
codes (String.◌∷◌ c s) = code c ∷ codes s

unfoldable pub text_discrete : Discrete Text
unfolding ℕ_discrete
text_discrete = hlevel ℕ_discrete

-- Go's `==` of two strings, and SQL's with COLLATE BINARY.
abbrev pub text_eq : Text → Text → Bool
text_eq a b = elim (text_discrete a b) [ yes _ ↦ true | no _ ↦ false ]

pub text_eq_iff : (a b : Text) → text_eq a b ≡ true → a ≡ b
text_eq_iff a b h = ground arith

pub text_eq_refl : (a : Text) → text_eq a a ≡ true
text_eq_refl a = ground arith

-- A byte of ASCII. On texts of such bytes the functions below agree with Go's.
abbrev pub is_ascii : ℕ → Bool
is_ascii c = leb c 127

unfoldable pub is_upper : ℕ → Bool
is_upper c = leb b'A' c && leb c b'Z'

-- One byte of strings.ToLower.
unfoldable pub lower_byte : ℕ → ℕ
unfolding is_upper
lower_byte c = if is_upper c then c + 32 else c

unfoldable pub to_lower : Text → Text
unfolding lower_byte
to_lower s = map lower_byte s

-- strings.ToUpper
unfoldable pub to_upper : Text → Text
to_upper s = map (λ c. if leb b'a' c && leb c b'z' then c - 32 else c) s

-- unicode.IsSpace, on ASCII.
unfoldable pub is_space : ℕ → Bool
is_space c = leb 9 c && leb c 13 || c == 32

unfoldable pub trim_left : Text → Text
unfolding is_space
trim_left [] = []
trim_left (c ∷ s) = if is_space c then trim_left s else c ∷ s

-- strings.TrimSpace
unfoldable pub trim_space : Text → Text
unfolding trim_left
trim_space s = reverse (trim_left (reverse (trim_left s)))

-- A byte of UTF-8 that goes on with a rune.
unfoldable pub is_continuation : ℕ → Bool
is_continuation c = leb 128 c && leb c 191

-- `len([]rune(s))`, of valid UTF-8.
unfoldable pub rune_count : Text → ℕ
unfolding is_continuation
rune_count [] = 0
rune_count (c ∷ s) = let rest = rune_count s in if is_continuation c then rest else rest + 1

unfoldable pub is_empty : Text → Bool
is_empty [] = true
is_empty (c ∷ s) = false

-- strings.HasPrefix
unfoldable pub has_prefix : Text → Text → Bool
has_prefix s [] = true
has_prefix [] (p ∷ ps) = false
has_prefix (c ∷ s) (p ∷ ps) = c == p && has_prefix s ps

-- strings.ContainsRune, for an ASCII rune.
unfoldable pub contains : ℕ → Text → Bool
unfolding any
contains c s = any (λ d. c == d) s

-- strings.ContainsAny
unfoldable pub contains_any : Text → Text → Bool
unfolding any contains
contains_any s chars = any (λ c. contains c chars) s

abbrev pub cons_head : ℕ → List Text → List Text
cons_head c [] = (c ∷ []) ∷ []
cons_head c (w ∷ ws) = (c ∷ w) ∷ ws

-- strings.Split by one byte.
unfoldable pub split : ℕ → Text → List Text
split sep [] = [] ∷ []
split sep (c ∷ s) = let rest = split sep s in if c == sep then [] ∷ rest else cons_head c rest

-- strings.Join by one byte.
unfoldable pub join : ℕ → List Text → Text
join sep [] = []
join sep (w ∷ []) = w
join sep (w ∷ v ∷ ws) = w ++ sep ∷ join sep (v ∷ ws)

pub lower_byte_idem : (c : ℕ) → lower_byte (lower_byte c) ≡ lower_byte c
unfolding lower_byte
lower_byte_idem c = ground arith

pub to_lower_idem : (s : Text) → to_lower (to_lower s) ≡ to_lower s
unfolding to_lower
to_lower_idem [] = refl
to_lower_idem (c ∷ s) = cc (lower_byte_idem c, to_lower_idem s)

pub split-append :
    (sep : ℕ) (a b : Text) → contains sep a ≡ false → split sep (a ++ sep ∷ b) ≡ a ∷ split sep b
unfolding split contains
split-append sep [] b h = ground arith
split-append sep (c ∷ a) b h = ground (arith, split-append sep a b)

pub split-no_sep : (sep : ℕ) (a : Text) → contains sep a ≡ false → split sep a ≡ a ∷ []
unfolding split contains
split-no_sep sep [] h = refl
split-no_sep sep (c ∷ a) h = ground (arith, split-no_sep sep a)
