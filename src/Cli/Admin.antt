-- ===== src/Cli/Admin.antt =====
-- cmd/sshgatew/main.go: `adminCommand`, but for `audit`, whose pruning needs the time stamps.
use sshgatew.Prelude.{List}
use sshgatew.Prelude.Texts.{Text}
use sshgatew.Store.{Db}
use sshgatew.Store.Effects.{Effect}
use sshgatew.Cli.{Machine}
use sshgatew.Cli.Users.{users_command, groups_command}
use sshgatew.Cli.Targets.{targets_command, grants_command}

-- The first argument, but for `audit`.
pub data Part : Type 0 where
  users groups targets grants : Part

abbrev pub admin_command : Machine → Db → Part → List Text → Effect
admin_command w db Part.users args = users_command w db args
admin_command w db Part.groups args = groups_command w db args
admin_command w db Part.targets args = targets_command w db args
admin_command w db Part.grants args = grants_command w db args
