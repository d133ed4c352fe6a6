-- ===== src/Downstream/Scp/Shell.antt =====
-- A POSIX shell's reading of one simple command, to say what the text that `SafeSCPCommand` builds
-- means on the target: blanks, the two kinds of quotes, and a comment from a `#` that begins a word.
-- `none` is anything else: an expansion, an operator, an escape, a line end, an open quote.
use sshgatew.Prelude.{
  ℕ, Bool, ◌||◌, List, [], ◌∷◌, ◌++◌, Option, none, some, map_option, ◌==◌, if◌then◌else◌,
}
use sshgatew.Prelude.Texts.{Text, contains}

-- Where the reader stands: between words, in a word, or in a quoted part of a word. A word so far is
-- kept as it was read.
pub data Mode : Type 0 where
  blank : Mode
  word : Text → Mode
  single : Text → Mode
  double : Text → Mode

-- Characters that mean something else outside quotes.
abbrev active : Text
active =
    b'\\' ∷ b'$' ∷ b'`' ∷ b';' ∷ b'&' ∷ b'|' ∷ b'<' ∷ b'>' ∷ b'(' ∷ b')' ∷ b'*' ∷ b'?' ∷ b'!' ∷ b'['
    ∷ b']' ∷ b'{' ∷ b'}' ∷ 10 ∷ 13 ∷ 0 ∷ []

abbrev is_blank : ℕ → Bool
is_blank c = c == b' ' || c == 9

abbrev push : Text → ℕ → Text
push w c = w ++ c ∷ []

-- One character: a word that it ends, and the place after it.
unfoldable pub advance : Mode → ℕ → Option (Option Text × Mode)
unfolding contains
advance blank c =
    if is_blank c
    then some (none, blank)
    else if c == b'#' || c == b'~'
    then none
    else if c == b'\''
    then some (none, single [])
    else if c == b'"'
    then some (none, double [])
    else if contains c active
    then none
    else some (none, word (c ∷ []))
advance (word w) c =
    if is_blank c
    then some (some w, blank)
    else if c == b'\''
    then some (none, single w)
    else if c == b'"'
    then some (none, double w)
    else if contains c active
    then none
    else some (none, word (push w c))
advance (single w) c = some (none, if c == b'\'' then word w else single (push w c))
advance (double w) c =
    if c == b'"'
    then some (none, word w)
    else if c == b'$' || c == b'`' || c == b'\\'
    then none
    else some (none, double (push w c))

abbrev ended : Mode → Option (List Text)
ended blank = some []
ended (word w) = some (w ∷ [])
ended (single w) = none
ended (double w) = none

abbrev add_word : Option Text → Option (List Text) → Option (List Text)
add_word none ws = ws
add_word (some w) ws = map_option (λ vs. w ∷ vs) ws

unfoldable pub read_words : Mode → Text → Option (List Text)
unfolding advance
read_words m [] = ended m
read_words m (c ∷ s) = elim (advance m c) [
  | none ↦ none
  | some (w, m') ↦ add_word w (read_words m' s)
]

-- The words of a command line.
abbrev pub shell_words : Text → Option (List Text)
shell_words s = read_words blank s
