-- ===== src/Downstream/Scp.antt =====
-- internal/downstream/protocols.go: `SafeSCPCommand` and `shellQuote`. The third-party splitter
-- `shlex.Split` is the argument `shlex_split`, `none` where it fails.
pub mod Shell
pub mod Quoting
pub mod Allowed
use sshgatew.Prelude.{
  ℕ, Bool, true, false, not, ◌&&◌, ◌||◌, List, [], ◌∷◌, ◌++◌, Option, none, some, map, any, ltb,
  ◌==◌, if◌then◌else◌,
}
use sshgatew.Prelude.Lists.{length}
use sshgatew.Prelude.Texts.{
  Text, codes, text_eq, has_prefix, contains, contains_any, is_empty, join,
}

pub data ScpError : Type 0 where
  invalid_command not_legacy_scp invalid_option option_not_allowed multiple_modes : ScpError
  mode_and_path_required : ScpError

pub data ScpResult (A : Type 0) : Type 0 where
  ok : A → ScpResult A
  err : ScpError → ScpResult A

abbrev pub guard : Bool → ScpError → ScpResult (Unit {0})
guard false failure = err failure
guard true failure = ok tt

infixl 5 ◌>>=◌
abbrev pub ◌>>=◌ : {A B : Type 0} → ScpResult A → (A → ScpResult B) → ScpResult B
err failure >>= step = err failure
ok value >>= step = step value

infixl 5 ◌>>◌
abbrev pub ◌>>◌ : {B : Type 0} → ScpResult (Unit {0}) → ScpResult B → ScpResult B
check >> rest = check >>= λ _. rest

abbrev pub is_mode : ℕ → Bool
is_mode flag = flag == b'f' || flag == b't'

-- The inner loop, over the flags of one option; the state is whether a mode was seen.
unfoldable pub scan_flags : Bool → Text → ScpResult Bool
scan_flags mode [] = ok mode
scan_flags mode (flag ∷ flags) =
    let rest = scan_flags (mode || is_mode flag) flags in
    if not (contains flag (codes "ftrpd"))
    then err option_not_allowed
    else if is_mode flag && mode
    then err multiple_modes
    else rest

-- strings.TrimPrefix(arg, "-")
abbrev pub trim_dash : Text → Text
trim_dash [] = []
trim_dash (c ∷ s) = if c == b'-' then s else c ∷ s

-- The outer loop, over the arguments between the first and the last. The case of an `elim` waits.
unfoldable pub scan_options : Bool → List Text → ScpResult Bool
scan_options mode [] = ok mode
scan_options mode (arg ∷ args) =
    if not (has_prefix arg (codes "-")) || ltb (length arg) 2
    then err invalid_option
    else scan_flags mode (trim_dash arg) >>= λ m. scan_options m args

-- `args[1 : len(args)-1]` and `args[len(args)-1]`, of a list with a first argument.
abbrev pub middle : List Text → List Text
middle [] = []
middle (a ∷ []) = []
middle (a ∷ b ∷ more) = a ∷ middle (b ∷ more)

abbrev pub last_arg : Text → List Text → Text
last_arg a [] = a
last_arg a (b ∷ more) = last_arg b more

-- The characters that make `shellQuote` quote.
abbrev pub special : Text
special =
    b' ' ∷ 9 ∷ b'\'' ∷ b'"' ∷ b'\\' ∷ b'$' ∷ b'`' ∷ b';' ∷ b'&' ∷ b'|' ∷ b'<' ∷ b'>' ∷ b'(' ∷ b')'
    ∷ b'*' ∷ b'?' ∷ b'!' ∷ b'[' ∷ b']' ∷ b'{' ∷ b'}' ∷ []

-- strings.ReplaceAll(value, "'", "'\"'\"'")
unfoldable pub replace_quotes : Text → Text
replace_quotes [] = []
replace_quotes (c ∷ s) =
    if c == b'\''
    then b'\'' ∷ b'"' ∷ b'\'' ∷ b'"' ∷ b'\'' ∷ replace_quotes s
    else c ∷ replace_quotes s

unfoldable pub shell_quote : Text → Text
shell_quote value =
    if not (is_empty value) && not (contains_any value special)
    then value
    else b'\'' ∷ (replace_quotes value ++ b'\'' ∷ [])

abbrev pub check_args : List Text → ScpResult Text
check_args [] = err not_legacy_scp
check_args (command ∷ args) = do
  guard (not (ltb (length args) 2) && text_eq command (codes "scp")) not_legacy_scp
  mode ← scan_options false (middle args)
  guard (mode && not (is_empty (last_arg command args))) mode_and_path_required
  ok (join b' ' (map shell_quote (command ∷ args)))

unfoldable pub safe_scp_command : (Text → Option (List Text)) → Text → ScpResult Text
safe_scp_command shlex_split raw =
    if contains_any raw (0 ∷ 13 ∷ 10 ∷ [])
    then err invalid_command
    else elim (shlex_split raw) [ none ↦ err not_legacy_scp | some args ↦ check_args args ]
