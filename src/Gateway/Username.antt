-- ===== src/Gateway/Username.antt =====
-- internal/gateway/auth.go: `splitRoutedUsername`, the parsing of USER and USER+TARGET.
pub mod Names
use sshgatew.Prelude.{Bool, List, [], ◌∷◌, ◌||◌, if◌then◌else◌}
use sshgatew.Prelude.Texts.{Text, split, to_lower, is_empty}
use sshgatew.Store.Names.{validate_name}
use sshgatew.Store.{Result, ok, err, bad_routed_username, bad_gateway_username}

abbrev validated : Result Text → Text → Text → Result (Text × Text)
validated (ok name) user target = ok (to_lower user, to_lower target)
validated (err e) user target = err bad_gateway_username

abbrev split_parts : List Text → Result (Text × Text)
split_parts [] = err bad_routed_username
split_parts (user ∷ []) = ok (to_lower user, [])
split_parts (user ∷ target ∷ []) =
    if is_empty user || is_empty target
    then err bad_routed_username
    else validated (validate_name user) user target
split_parts (user ∷ target ∷ other ∷ more) = err bad_routed_username

-- The user name and the target name, which is empty for an interactive login.
unfoldable pub split_routed_username : Text → Result (Text × Text)
split_routed_username value = split_parts (split b'+' value)
