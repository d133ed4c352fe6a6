-- ===== src/Downstream/Scp/Quoting.antt =====
-- internal/downstream/protocols.go: the command line that `SafeSCPCommand` builds means to a shell
-- exactly the arguments that it checked.
use mathlib.Core.List.{append_assoc, append-nil}
use sshgatew.Prelude.{
  ℕ, ◌≡◌, refl, sym, ap, ◌∙◌, inl, inr, Bool, true, false, not, ◌&&◌, ◌||◌, List, [], ◌∷◌, ◌++◌,
  some, map, any, map_option, ◌==◌, arith, Bool-cases,
}
use sshgatew.Prelude.Lists.{all}
use sshgatew.Prelude.Texts.{Text, contains, contains_any, is_empty, join}
use sshgatew.Downstream.Scp.{special, shell_quote, replace_quotes}
use sshgatew.Downstream.Scp.Shell.{blank, word, single, read_words, advance, shell_words}

-- A byte that needs no quotes within a word.
abbrev is_plain : ℕ → Bool
is_plain c = not (contains c special) && not (contains c (0 ∷ 13 ∷ 10 ∷ []))

-- A word that a shell neither expands nor takes for a comment where `shell_quote` leaves it bare: it
-- does not begin with `#` or `~`, and has no NUL or line end.
abbrev pub is_safe_word : Text → Bool
is_safe_word [] = true
is_safe_word (c ∷ s) = not (c == b'#' || c == b'~') && not (contains_any (c ∷ s) (0 ∷ 13 ∷ 10 ∷ []))

plain-word :
    (c : ℕ) (w s : Text)
    → is_plain c ≡ true
    → read_words (word w) (c ∷ s) ≡ read_words (word (w ++ c ∷ [])) s
unfolding read_words advance contains any
plain-word c w s h = ground arith

plain-blank :
    (c : ℕ) (s : Text)
    → is_plain c ≡ true
    → (c == b'#' || c == b'~') ≡ false
    → read_words blank (c ∷ s) ≡ read_words (word (c ∷ [])) s
unfolding read_words advance contains any
plain-blank c s h g = ground arith

plain_words :
    (v w s : Text)
    → all is_plain v ≡ true
    → read_words (word w) (v ++ s) ≡ read_words (word (w ++ v)) s
unfolding all
plain_words [] w s h = rw append-nil
plain_words (c ∷ v) w s h =
    plain-word c w (v ++ s) (ground arith)
    ∙ plain_words v (w ++ c ∷ []) s (ground arith)
    ∙ ap (λ u. read_words (word u) s) (append_assoc w (c ∷ []) v)

-- Inside single quotes all characters stand for themselves, and a quote is written in five.
quoted_words :
    (v w s : Text)
    → read_words (single w) (replace_quotes v ++ b'\'' ∷ s) ≡ read_words (word (w ++ v)) s
unfolding read_words advance replace_quotes contains any
quoted_words [] w s = rw append-nil
quoted_words (c ∷ v) w s = elim (Bool-cases (c == b'\'')) [
  | inl e ↦
      let same : c ≡ b'\'' = ground arith in
      rw same (
        quoted_words v (w ++ b'\'' ∷ []) s
        ∙ ap (λ u. read_words (word u) s) (append_assoc w (b'\'' ∷ []) v))
  | inr e ↦
      rw (e, replace_quotes)
        (rw (e, advance)
          (quoted_words v (w ++ c ∷ []) s
            ∙ ap (λ u. read_words (word u) s) (append_assoc w (c ∷ []) v)))
]

all_plain :
    (v : Text)
    → contains_any v special ≡ false
    → contains_any v (0 ∷ 13 ∷ 10 ∷ []) ≡ false
    → all is_plain v ≡ true
unfolding all contains_any any
all_plain [] h g = refl
all_plain (c ∷ v) h g = ground (arith, all_plain v)

bare_word :
    (v s : Text)
    → is_empty v ≡ false
    → contains_any v special ≡ false
    → is_safe_word v ≡ true
    → read_words blank (v ++ s) ≡ read_words (word v) s
unfolding all is_empty
bare_word [] s e n h = cc
bare_word (c ∷ v) s e n h =
    let plain = all_plain (c ∷ v) n (ground arith) in
    plain-blank c (v ++ s) (ground arith) (ground arith) ∙ plain_words v (c ∷ []) s (ground arith)

quoted_word :
    (v s : Text)
    → read_words blank (b'\'' ∷ (replace_quotes v ++ b'\'' ∷ []) ++ s) ≡ read_words (word v) s
unfolding read_words advance
quoted_word v s = rw (append_assoc (replace_quotes v) (b'\'' ∷ []) s) (quoted_words v [] s)

-- A quoted argument is read back as one word, from the blank before it to what follows it.
quote_word :
    (v s : Text)
    → is_safe_word v ≡ true
    → read_words blank (shell_quote v ++ s) ≡ read_words (word v) s
unfolding shell_quote
quote_word v s h = elim (Bool-cases (not (is_empty v) && not (contains_any v special))) [
  | inr e ↦ rw e (quoted_word v s)
  | inl e ↦ rw e (bare_word v s (ground arith) (ground arith) h)
]

word-blank :
    (v s : Text) → read_words (word v) (b' ' ∷ s) ≡ map_option (λ vs. v ∷ vs) (read_words blank s)
unfolding read_words advance
word-blank v s = refl

-- A command line of quoted arguments is read back as these arguments.
pub shell_words-join :
    (v : Text) (vs : List Text)
    → all is_safe_word (v ∷ vs) ≡ true
    → shell_words (join b' ' (map shell_quote (v ∷ vs))) ≡ some (v ∷ vs)
unfolding all join
shell_words-join v [] h =
    ap (read_words blank) (sym (append-nil (shell_quote v)))
    ∙ quote_word v [] (ground arith)
    ∙ (unfold read_words in refl)
shell_words-join v (u ∷ vs) h =
    quote_word v (b' ' ∷ join b' ' (map shell_quote (u ∷ vs))) (ground arith)
    ∙ word-blank v (join b' ' (map shell_quote (u ∷ vs)))
    ∙ rw (shell_words-join u vs (ground arith))
