-- ===== src/Tests/Keyboard.antt =====
-- internal/tui/remote.go: the theorems on the terminal's input, at a decoder of single bytes.
use sshgatew.Prelude.{
  ℕ, ◌≡◌, ◌≢◌, refl, ◌≤◌, [], ◌∷◌, ◌++◌, true, false, ◌-◌, ◌*◌, ◌+◌, Option, none, some, any, arith,
  ℕ_discrete,
}
use sshgatew.Prelude.Int.{ℤ, pos}
use sshgatew.Prelude.Texts.{
  Text, codes, text_discrete, has_prefix, contains, split, to_lower, lower_byte, is_upper,
}
use sshgatew.Tui.{
  key, paste, Decoder, esc, paste_start, paste_end, add_event, parse_input, input_step,
  find_sequence, find_final, parse_extended_key, extended_key_name, leading_number,
}
use sshgatew.Tui.Parsing.{parse_input-paste, parse_input-length}

abbrev first_byte : Text → ℕ
first_byte [] = 0
first_byte (c ∷ s) = c

abbrev rune_of : ℤ → Text
rune_of (pos n) = n ∷ []
rune_of n = []

-- A reader of the two numbers below.
abbrev number : Text → Option ℤ
number (c ∷ []) = some (pos (c - 48))
number (a ∷ b ∷ c ∷ []) = some (pos (100 * (a - 48) + 10 * (b - 48) + (c - 48)))
number s = none

abbrev single_bytes : Decoder
single_bytes = record {
  full_rune = λ s. true;
  decode_rune = λ s. (pos (first_byte s), 1);
  rune_text = rune_of;
  atoi = number;
}

no_escape : contains esc (3 ∷ codes "rm" ++ 13 ∷ []) ≡ false
unfolding contains any
no_escape = refl

parse_input-paste_example :
    parse_input single_bytes 3
      (paste_start ++ ((3 ∷ codes "rm" ++ 13 ∷ []) ++ (paste_end ++ codes "x")))
    ≡ add_event single_bytes
        (some (paste (3 ∷ codes "rm" ++ 13 ∷ [])))
        (parse_input single_bytes 2 (codes "x"))
parse_input-paste_example =
    parse_input-paste single_bytes 2 (3 ∷ codes "rm" ++ 13 ∷ []) (codes "x") no_escape

one_byte : (c : ℕ) (s : Text) → 1 ≤ (single_bytes.decode_rune (c ∷ s)).1
one_byte c s = omega arith

parse_input-length_example : parse_input single_bytes 9 (esc ∷ codes "[100;5ux") ≢ none
parse_input-length_example =
    parse_input-length single_bytes one_byte 9 (esc ∷ codes "[100;5ux") (omega arith)

-- Ctrl+D in Kitty's form, and a letter.
control_d :
    parse_input single_bytes 9 (esc ∷ codes "[100;5ux")
    ≡ some (key (codes "ctrl+d") ∷ key (codes "x") ∷ [], [])
unfolding parse_input input_step find_sequence find_final parse_extended_key extended_key_name
    leading_number has_prefix split to_lower lower_byte is_upper text_discrete ℕ_discrete any
control_d = refl
