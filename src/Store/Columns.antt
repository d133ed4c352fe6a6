-- ===== src/Store/Columns.antt =====
-- internal/store/models.go and store.go: the four capabilities, as the documentation names them.
use sshgatew.Prelude.{◌≡◌, refl, Bool, ℕ, ℕ_discrete, some}
use sshgatew.Prelude.Texts.{Text, codes, text_discrete}
use sshgatew.Store.Grants.{Capabilities, column, grant_row}
use sshgatew.Store.{GrantRow}

pub data Capability : Type 0 where
  shell sftp scp tcp_forward : Capability

-- The name under which a check asks for it.
abbrev pub capability_name : Capability → Text
capability_name Capability.shell = codes "shell"
capability_name Capability.sftp = codes "sftp"
capability_name Capability.scp = codes "scp"
capability_name Capability.tcp_forward = codes "tcp_forward"

-- The flag of a stored grant that stands for it.
abbrev pub is_stored : Capability → GrantRow → Bool
is_stored Capability.shell g = g.allow_shell
is_stored Capability.sftp g = g.allow_sftp
is_stored Capability.scp g = g.allow_scp
is_stored Capability.tcp_forward g = g.allow_tcp_forward

-- The flag of a request that gives it.
abbrev pub is_given : Capability → Capabilities → Bool
is_given Capability.shell c = c.shell
is_given Capability.sftp c = c.sftp
is_given Capability.scp c = c.scp
is_given Capability.tcp_forward c = c.tcp_forward

pub column-capability_name : (k : Capability) → column (capability_name k) ≡ some (is_stored k)
unfolding column text_discrete ℕ_discrete
column-capability_name Capability.shell = refl
column-capability_name Capability.sftp = refl
column-capability_name Capability.scp = refl
column-capability_name Capability.tcp_forward = refl

pub stored-grant_row :
    (k : Capability) (p t : ℕ) (c : Capabilities) → is_stored k (grant_row p t c) ≡ is_given k c
stored-grant_row Capability.shell p t c = refl
stored-grant_row Capability.sftp p t c = refl
stored-grant_row Capability.scp p t c = refl
stored-grant_row Capability.tcp_forward p t c = refl
