-- ===== src/Tui/Menu.antt =====
-- internal/tui/menu.go: the state of the menu, and how it moves over its lists. What is only drawn is
-- left out: the status line, labels, titles and the QR code. Names and modes, which the code keeps
-- as strings, are data.
pub mod Commands
pub mod Finish
pub mod Forms
pub mod Submit
pub mod Actions
pub mod Keys
pub mod Loop
pub mod Rounds
pub mod Cursor
pub mod Dialogs
pub mod Shown
pub mod Member
pub mod Own
pub mod Audited
pub mod Undone
pub mod Visible
use sshgatew.Prelude.{
  ℕ, zero, suc, ◌+◌, ◌-◌, ◌%◌, Bool, true, false, not, ◌&&◌, ◌||◌, List, [], ◌∷◌, ◌++◌, Option,
  none, some, map, filter, any, leb, ltb, ◌==◌, if◌then◌else◌,
}
use sshgatew.Prelude.Lists.{length, get_elem?}
use mathlib.Core.List.{reverse}
use sshgatew.Prelude.Texts.{is_continuation, Text, text_eq, to_lower, is_empty, has_prefix, codes}
use sshgatew.Store.{
  User, Group, Target, SshIdentity, ForwardRow, AuditEvent, credential_private_key,
  credential_password, credential_stored_key, credential_agent, role_admin,
}
use sshgatew.Store.Lists.{Grant, GroupMember, OidcIdentity}

pub data Section : Type 0 where
  targets keys users groups grants forwards audit_log : Section

pub data Mode : Type 0 where
  browsing help totp_auth totp_enroll totp_confirm oidc_start oidc_link oidc_complete : Mode
  form actions user_keys member_add member_remove identity_public confirm_delete : Mode
  public_key agent_key scanning confirm_host secret_password secret_key : Mode
  secret_passphrase saving : Mode

-- The codes of the actions, and the other kinds of a pending operation. `item` is the code of an
-- action that stands for a key's fingerprint or a user's name.
pub data Code : Type 0 where
  target_connect target_edit target_credential target_host_key target_toggle : Code
  target_delete user_keys user_key_add user_totp_setup user_totp_remove user_role : Code
  user_toggle user_delete user_oidc_map user_oidc_remove identity_view identity_delete : Code
  group_member_add group_member_remove group_delete grant_edit grant_delete : Code
  forward_delete member_add member_remove : Code
  blank host_key credential target_add identity_add user_key_remove : Code
  item : Text → Code

pub data FormKind : Type 0 where
  target_add identity_add user_add group_add grant_add grant_edit forward_add : FormKind
  target_edit target_credential user_oidc_map : FormKind

-- The labels that the code reads.
pub data Label : Type 0 where
  authentication saved_key other : Label

pub record Field : Type 0 where
  pub label : Label
  pub value : Text
  pub options : List Text

pub record Form : Type 0 where
  pub kind : FormKind
  pub fields : List Field
  pub index : ℕ

pub record HostKey : Type 0 where
  pub algorithm : Text
  pub line : Text
  pub fingerprint : Text

-- `pendingOperation`; a part that is not set is the zero value of its type.
pub record Pending : Type 0 where
  pub kind : Code
  pub name : Text
  pub host : Text
  pub remote : Text
  pub credential_kind : Text
  pub username : Text
  pub group : Text
  pub port : ℕ
  pub target : Target
  pub user : User
  pub grant : Grant
  pub forward_rule : Text × ForwardRow
  pub identity : SshIdentity
  pub key_fingerprint : Text
  pub private_key : Text
  pub host_key : HostKey
  pub totp_secret : Text

pub record Result : Type 0 where
  pub target_id : ℕ
  pub quit : Bool
  pub verified : Bool

pub record Model : Type 0 where
  pub user : User
  pub source : Text
  pub targets : List Target
  pub users : List User
  pub groups : List Group
  pub group_members : List GroupMember
  pub identities : List SshIdentity
  pub grants : List Grant
  pub forward_rules : List (Text × ForwardRow)
  pub audit_events : List AuditEvent
  pub oidc_identities : List OidcIdentity
  pub cursor : ℕ
  pub height : ℕ
  pub query : Text
  pub result : Option Result
  pub section : Section
  pub oidc_configured : Bool
  pub oidc_issuer : Text
  pub can_self_link : Bool
  pub mode : Mode
  pub input : Text
  pub searching : Bool
  pub pending : Option Pending
  pub form : Option Form
  pub actions : List Code
  pub action_cursor : ℕ
  pub totp_attempts : ℕ

abbrev no_target : Target
no_target = record {
  id = 0;
  name = [];
  host = [];
  port = 0;
  remote_username = [];
  credential_kind = [];
  enabled = false;
  host_key_algorithm = [];
  host_public_key = [];
  nonce = [];
  ciphertext = [];
  identity_id = none;
}

abbrev no_user : User
no_user = record { id = 0; username = []; role = []; enabled = false; totp_enabled = false }

-- `&pendingOperation{}`
abbrev pub nothing_pending : Pending
nothing_pending = record {
  kind = blank;
  name = [];
  host = [];
  remote = [];
  credential_kind = [];
  username = [];
  group = [];
  port = 0;
  target = no_target;
  user = no_user;
  grant = record {
    target = [];
    kind = [];
    principal = [];
    shell = false;
    sftp = false;
    scp = false;
    tcp_forward = false;
  };
  forward_rule = ([], record { id = 0; target_id = 0; host = []; port = 0 });
  identity = record {
    id = 0;
    name = [];
    public_key = [];
    fingerprint = [];
    nonce = [];
    ciphertext = [];
  };
  key_fingerprint = [];
  private_key = [];
  host_key = record { algorithm = []; line = []; fingerprint = [] };
  totp_secret = [];
}

-- `New`, and `ConfigureOIDC` with the arguments that the menu reads.
unfoldable pub new : User → Text → Bool → Text → Bool → Model
new u source oidc_configured oidc_issuer can_self_link = record {
  user = u;
  source = source;
  targets = [];
  users = [];
  groups = [];
  group_members = [];
  identities = [];
  grants = [];
  forward_rules = [];
  audit_events = [];
  oidc_identities = [];
  cursor = 0;
  height = 0;
  query = [];
  result = none;
  section = targets;
  oidc_configured = oidc_configured;
  oidc_issuer = oidc_issuer;
  can_self_link = can_self_link;
  mode = browsing;
  input = [];
  searching = false;
  pending = none;
  form = none;
  actions = [];
  action_cursor = 0;
  totp_attempts = 0;
}

-- `NewTOTPChallenge`
unfoldable pub new_totp_challenge : User → Text → Model
new_totp_challenge u source = record (new u source false [] false) { mode = totp_auth }

abbrev pub is_admin_model : Model → Bool
is_admin_model m = text_eq m.user.role role_admin

-- strings.Contains
unfoldable pub contains_text : Text → Text → Bool
contains_text [] p = has_prefix [] p
contains_text (c ∷ s) p = has_prefix (c ∷ s) p || contains_text s p

abbrev matches_query : Text → Target → Bool
matches_query q t =
    contains_text (to_lower (t.name ++ b' ' ∷ (t.host ++ b' ' ∷ t.remote_username))) q

abbrev section_count : Section → (t k u g a f e : ℕ) → ℕ
section_count keys t k u g a f e = k
section_count users t k u g a f e = u
section_count groups t k u g a f e = g
section_count grants t k u g a f e = a
section_count forwards t k u g a f e = f
section_count audit_log t k u g a f e = e
section_count targets t k u g a f e = t

unfoldable pub search : Text → List Target → List Target
search query ts = if is_empty query then ts else filter (matches_query (to_lower query)) ts

abbrev pub filtered : Model → List Target
filtered m = search m.query m.targets

abbrev pub count_of : Section → Model → ℕ
count_of s m =
    section_count s (length (filtered m)) (length m.identities) (length m.users) (length m.groups)
      (length m.grants) (length m.forward_rules) (length m.audit_events)

abbrev pub item_count : Model → ℕ
item_count m = count_of m.section m

unfoldable pub clamp : Model → Model
clamp m =
    let n = item_count m in
    if n == 0
    then record m { cursor = 0 }
    else if leb n m.cursor
    then record m { cursor = n - 1 }
    else m

-- The height is a natural number; 0 stands for an unknown one.
unfoldable pub page_size : Model → ℕ
page_size m =
    let h0 = if m.height == 0 then 24 else m.height in
    let h = if ltb 1 h0 then h0 - 1 else h0 in if ltb h 10 then 1 else h - 8

abbrev pub section_number : Section → ℕ
section_number targets = 0
section_number keys = 1
section_number users = 2
section_number groups = 3
section_number grants = 4
section_number forwards = 5
section_number audit_log = 6

abbrev sections : List Section
sections = targets ∷ keys ∷ users ∷ groups ∷ grants ∷ forwards ∷ audit_log ∷ []

abbrev or_targets : Option Section → Section
or_targets none = targets
or_targets (some s) = s

-- The second argument is the delta with the number of sections added: 6 for -1 and 8 for 1.
unfoldable pub change_section : Model → ℕ → Model
change_section m delta = record m {
  section = or_targets (get_elem? sections ((section_number m.section + delta) % 7));
  cursor = 0;
  query = [];
  searching = false;
}

-- `[]rune(v)` is the text itself, of single bytes.
-- The bytes without those of the first rune from the end, last byte first.
abbrev pub drop_last_rune : Text → Text
drop_last_rune [] = []
drop_last_rune (c ∷ s) = let rest = drop_last_rune s in if is_continuation c then rest else s

-- Of valid UTF-8.
unfoldable pub remove_last_rune : Text → Text
remove_last_rune s = reverse (drop_last_rune (reverse s))

abbrev pub close_modal : Model → Model
close_modal m = record m {
  mode = browsing;
  input = [];
  form = none;
  actions = [];
  pending = none;
  action_cursor = 0;
}

unfoldable pub is_group_member : Model → Text → Text → Bool
is_group_member m group username =
    any (λ (g : GroupMember). text_eq g.group group && text_eq g.username username) m.group_members

abbrev pub first_or_empty : List Text → Text
first_or_empty [] = []
first_or_empty (t ∷ ts) = t

abbrev pub credential_kinds : List Text
credential_kinds =
    credential_private_key ∷ credential_password ∷ credential_stored_key ∷ credential_agent ∷ []

abbrev pub is_selected : Option ℕ → SshIdentity → Bool
is_selected none i = false
is_selected (some id) i = i.id == id

unfoldable pub selected_identity_name : List SshIdentity → Option ℕ → Text
selected_identity_name values selected =
    first_or_empty
      (map (λ (i : SshIdentity). i.name) (filter (is_selected selected) values ++ values))

-- The position of the value among the options, 0 if it is not there.
unfoldable pub option_index : List Text → Text → ℕ
option_index [] v = 0
option_index (o ∷ os) v =
    let rest = option_index os v in
    if text_eq o v then 0 else if any (λ p. text_eq p v) os then rest + 1 else 0

abbrev or_value : Text → Option Text → Text
or_value v none = v
or_value v (some o) = o

-- `back` is a delta of -1, and otherwise it is 1.
unfoldable pub cycle_option : Field → Bool → Field
cycle_option f back =
    let n = length f.options in
    let at = option_index f.options f.value in
    if n == 0 then f else record f {
      value = or_value f.value (get_elem? f.options ((at + n + (if back then 0 else 2) - 1) % n));
    }
