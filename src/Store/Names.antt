-- ===== src/Store/Names.antt =====
-- internal/store/store.go: `validateName`, `ValidateUsername` and `validRole`.
use sshgatew.Prelude.{ℕ, Bool, false, ◌&&◌, ◌||◌, [], ◌∷◌, leb, ◌==◌, if◌then◌else◌}
use sshgatew.Prelude.Lists.{length, all}
use sshgatew.Prelude.Texts.{Text, text_eq, to_lower, trim_space}
use sshgatew.Store.{Result, ok, err, bad_name, role_admin, role_member}

unfoldable pub is_lower : ℕ → Bool
is_lower c = leb b'a' c && leb c b'z'

-- The class [a-z0-9_-].
unfoldable pub is_name_byte : ℕ → Bool
unfolding is_lower
is_name_byte c = is_lower c || leb b'0' c && leb c b'9' || c == b'_' || c == b'-'

-- `nameRE`, ^[a-z][a-z0-9_-]{0,31}$
unfoldable pub matches_name : Text → Bool
unfolding is_name_byte all
matches_name [] = false
matches_name (c ∷ s) = is_lower c && all is_name_byte s && leb (length s) 31

unfoldable pub validate_name : Text → Result Text
unfolding to_lower trim_space
validate_name v =
    let name = to_lower (trim_space v) in if matches_name name then ok name else err bad_name

unfoldable pub valid_role : Text → Bool
valid_role role = text_eq role role_admin || text_eq role role_member
