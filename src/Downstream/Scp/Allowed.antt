-- ===== src/Downstream/Scp/Allowed.antt =====
-- internal/downstream/protocols.go: which commands `SafeSCPCommand` lets pass.
use sshgatew.Prelude.{
  ◌⊎◌, ℕ, ◌+◌, ◌≤◌, ◌≡◌, refl, inl, inr, Bool, true, false, not, ◌&&◌, ◌||◌, List, [], ◌∷◌, Option,
  some, map, count, ltb, if◌then◌else◌, arith,
}
use sshgatew.Prelude.Lists.{all, length}
use sshgatew.Prelude.Texts.{Text, codes, contains, has_prefix, is_empty, join}
use sshgatew.Downstream.Scp.Quoting.{is_safe_word, shell_words-join}
use sshgatew.Downstream.Scp.Shell.{shell_words}
use sshgatew.Downstream.Scp.{
  ScpResult, ScpError, ok, err, is_mode, scan_flags, trim_dash, scan_options, middle, last_arg,
  shell_quote, check_args, safe_scp_command,
}

abbrev bit : Bool → ℕ
bit b = if b then 1 else 0

abbrev is_allowed : ℕ → Bool
is_allowed flag = contains flag (codes "ftrpd")

-- A dash and at least one flag, all of them allowed.
abbrev pub is_option : Text → Bool
is_option arg =
    has_prefix arg (codes "-") && not (ltb (length arg) 2) && all is_allowed (trim_dash arg)

-- The flags -f and -t in all options.
unfoldable pub mode_count : List Text → ℕ
mode_count [] = 0
mode_count (arg ∷ args) = count is_mode (trim_dash arg) + mode_count args

-- A legacy server command: `scp`, options of the allowed flags with one transfer mode in all, and a
-- path.
pub record IsServerCommand (args : List Text) : Type 0 where
  pub command : Text
  pub rest : List Text
  pub args_eq : args ≡ command ∷ rest
  pub command_eq : command ≡ codes "scp"
  pub enough : 2 ≤ length rest
  pub options : all is_option (middle rest) ≡ true
  pub one_mode : mode_count (middle rest) ≡ 1
  pub path : is_empty (last_arg command rest) ≡ false

ScpResult-cases :
    {A : Type 0} (r : ScpResult A) → ((a : A) × (r ≡ ok a)) ⊎ ((e : ScpError) × (r ≡ err e))
ScpResult-cases (ok a) = inl (a, refl)
ScpResult-cases (err e) = inr (e, refl)

scan_flags_sound :
    (mode : Bool) (flags : Text) (m : Bool)
    → scan_flags mode flags ≡ ok m
    → (all is_allowed flags ≡ true) × (bit m ≡ bit mode + count is_mode flags)
unfolding scan_flags all count
scan_flags_sound mode [] m e = ground arith
scan_flags_sound mode (c ∷ flags) m e = ground (arith, scan_flags_sound (mode || is_mode c) flags m)

scan_options_sound :
    (mode : Bool) (args : List Text) (m : Bool)
    → scan_options mode args ≡ ok m
    → (all is_option args ≡ true) × (bit m ≡ bit mode + mode_count args)
unfolding scan_options all mode_count
scan_options_sound mode [] m e = ground arith
scan_options_sound mode (arg ∷ args) m e =
    elim (ScpResult-cases (scan_flags mode (trim_dash arg))) [
      | inr (f, k) ↦ absurd (ground (arith, k))
      | inl (b, k) ↦
          ground (arith, k, scan_flags_sound mode (trim_dash arg) b k, scan_options_sound b args m)
    ]

check_args_sound :
    (args : List Text) (out : Text)
    → check_args args ≡ ok out
    → IsServerCommand args × (out ≡ join b' ' (map shell_quote args))
check_args_sound [] out e = cc
check_args_sound (command ∷ args) out e =
    elim (ScpResult-cases (scan_options false (middle args))) [
      | inr (f, k) ↦ absurd (ground (arith, k))
      | inl (b, k) ↦
          let (options, modes) = scan_options_sound false (middle args) b k in
          (
            record {
              command = command;
              rest = args;
              args_eq = refl;
              command_eq = ground (arith, k);
              enough = ground (arith, k);
              options = options;
              one_mode = ground (arith, k, modes);
              path = ground (arith, k);
            },
            ground (arith, k),
          )
    ]

-- A command that passes is a legacy scp server command, and the text handed to the target's shell
-- is read there as exactly the arguments that were checked, provided no argument holds a NUL or a
-- line end or begins with `#` or `~`.
pub safe_scp_command_sound :
    (shlex_split : Text → Option (List Text)) (raw out : Text) (args : List Text)
    → shlex_split raw ≡ some args
    → all is_safe_word args ≡ true
    → safe_scp_command shlex_split raw ≡ ok out
    → IsServerCommand args × (shell_words out ≡ some args)
unfolding safe_scp_command
safe_scp_command_sound shlex_split raw out args s safe e =
    let (server, text) = check_args_sound args out (ground (arith, s)) in
    (server, rw text (lines args safe server))
  where
    lines :
        (args : List Text)
        → all is_safe_word args ≡ true
        → IsServerCommand args
        → shell_words (join b' ' (map shell_quote args)) ≡ some args
    lines [] h server = absurd (ground (arith, server.args_eq))
    lines (v ∷ vs) h server = shell_words-join v vs h
