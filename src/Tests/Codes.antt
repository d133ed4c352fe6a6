-- ===== src/Tests/Codes.antt =====
-- internal/totp, internal/secrets and internal/downstream: the theorems at concrete inputs.
use sshgatew.Prelude.{
  ◌≡◌, ◌≢◌, refl, inl, ◌+◌, ◌/◌, List, [], ◌∷◌, none, some, ℕ_discrete, any, true, Option,
}
use sshgatew.Prelude.Int.{pos, negsuc, ◌+ℤ◌, ◌≤ℤ◌}
use sshgatew.Prelude.Lists.{all}
use sshgatew.Prelude.Texts.{
  Text, codes, trim_space, trim_left, is_space, is_empty, text_discrete, contains, contains_any,
  has_prefix, join,
}
use sshgatew.Store.{ok, err, authentication_failed}
use sshgatew.Secrets.{aad, encrypt, encrypt_with, empty_payload, Payload}
use sshgatew.Secrets.Binding.{credential, user_totp, encrypt_for, decrypt_for, decrypt-other}
use sshgatew.Totp.{
  code_at, code_value, validate, matches, six_digits, truncated, byte_at, put_uint64, to_uint64,
  period,
}
use sshgatew.Totp.Codes.{validate_sound, validate_complete}
use sshgatew.Downstream.Scp
use sshgatew.Downstream.Scp.{
  safe_scp_command, scan_flags, scan_options, shell_quote, replace_quotes,
}
use sshgatew.Downstream.Scp.Quoting.{is_safe_word}
use sshgatew.Downstream.Scp.Shell.{shell_words}
use sshgatew.Downstream.Scp.Allowed.{IsServerCommand, safe_scp_command_sound}
use sshgatew.Tests.Ciphers.{open_book, open_book-IsAuthentic, counting}

-- At second 95 the counter is 3, and the code of the step before it is taken.
code_two : code_at counting (codes "S") (pos 2) ≡ some (codes "000002")
unfolding code_at code_value six_digits truncated byte_at put_uint64 to_uint64
code_two = refl

taken : validate counting (codes "S") (codes " 000002") 95 ≡ some (pos 2)
unfolding validate matches code_at code_value six_digits truncated byte_at put_uint64 to_uint64
    trim_space trim_left is_space text_discrete ℕ_discrete ◌+ℤ◌
taken = refl

validate_sound_example :
    (pos (95 / period) ≤ℤ pos 2 +ℤ pos 1)
    × (pos 2 ≤ℤ pos (95 / period + 1))
    × (code_at counting (codes "S") (pos 2) ≡ some (trim_space (codes " 000002")))
validate_sound_example = validate_sound counting (codes "S") (codes " 000002") 95 (pos 2) taken

two_is_near : pos 2 ≡ pos (95 / period) +ℤ negsuc 0
unfolding ◌+ℤ◌
two_is_near = refl

validate_complete_example : validate counting (codes "S") (codes "000002") 95 ≢ none
validate_complete_example =
    validate_complete counting (codes "S") (codes "000002") 95 (pos 2) (inl two_is_near) code_two

abbrev password : Payload
password = record empty_payload { password = codes "hunter2" }

abbrev sealed : Text
sealed = open_book.seal (codes "n") (2 ∷ 1 ∷ codes "hunter2") (aad 7 (codes "password"))

was_sealed :
    encrypt_for open_book (credential 7 (codes "password")) (codes "n") password
    ≡ ok (codes "n", sealed)
unfolding encrypt encrypt_with is_empty
was_sealed = refl

decrypt-other_example :
    decrypt_for open_book (user_totp 7) (codes "n") sealed ≡ err authentication_failed
decrypt-other_example =
    decrypt-other open_book open_book-IsAuthentic (credential 7 (codes "password")) (user_totp 7)
      (codes "n") (codes "n") sealed password was_sealed (λ e. cc)

abbrev copy_args : List Text
copy_args = codes "scp" ∷ codes "-rt" ∷ codes "my dir" ∷ []

-- A splitter that knows one text.
abbrev splitter : Text → Option (List Text)
splitter s = some copy_args

copy_command :
    safe_scp_command splitter (codes "scp -rt 'my dir'") ≡ Scp.ok (codes "scp -rt 'my dir'")
unfolding safe_scp_command scan_flags scan_options shell_quote replace_quotes text_discrete
    ℕ_discrete contains contains_any has_prefix join any is_empty
copy_command = refl

copy_args_safe : all is_safe_word copy_args ≡ true
unfolding all contains_any contains any
copy_args_safe = refl

safe_scp_command_sound_example :
    IsServerCommand copy_args × (shell_words (codes "scp -rt 'my dir'") ≡ some copy_args)
safe_scp_command_sound_example =
    safe_scp_command_sound splitter (codes "scp -rt 'my dir'") (codes "scp -rt 'my dir'") copy_args
      refl copy_args_safe copy_command
