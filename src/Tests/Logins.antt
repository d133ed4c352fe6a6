-- ===== src/Tests/Logins.antt =====
-- internal/gateway: the theorems on logins, sessions and routing, at the small gateway.
use sshgatew.Prelude.{
  List, map, ◌≡◌, refl, [], ◌∷◌, ◌++◌, true, false, some, any, find?, count, map, ℕ_discrete,
}
use sshgatew.Prelude.Int.{◌+ℤ◌}
use sshgatew.Prelude.Lists.{all}
use sshgatew.Prelude.Decimal.{decimal}
use sshgatew.Prelude.Texts.{
  codes, to_lower, lower_byte, is_upper, trim_space, trim_left, is_space, is_empty, text_discrete,
  split, contains,
}
use sshgatew.Secrets.{decrypt, decrypt_totp, decrypt_with, aad, totp_aad}
use sshgatew.Store.Audit.{audit}
use sshgatew.Store.Forwards.{forward_allowed}
use sshgatew.Store.Grants.{can_access_capability, can_access, column}
use sshgatew.Store.Keys.{authenticate_key}
use sshgatew.Store.Names.{validate_name, matches_name, is_name_byte, is_lower}
use sshgatew.Store.Oidc.{authenticate_oidc, match_oidc, normalize_oidc_values, validate_oidc_value}
use sshgatew.Store.Targets.{target_by_name, target_by_id}
use sshgatew.Store.Totps.{user_totp, consume_totp_counter}
use sshgatew.Store.Users.{user_by_name}
use sshgatew.Store.{User, Db, ok}
use sshgatew.Totp.{
  validate, matches, code_at, code_value, six_digits, truncated, byte_at, put_uint64, to_uint64,
}
use sshgatew.Gateway.Username.{split_routed_username}
use sshgatew.Gateway.Username.Names.{split_routed_username-to_lower, split_routed_username_lem}
use sshgatew.Gateway.Sessions.{Limits, Sessions, acquire, sessions_of, set_sessions}
use sshgatew.Gateway.Sessions.Counts.{
  Reach, begin, refuse, start, next, idle, IsAccounted, Reach-IsAccounted,
}
use sshgatew.Gateway.Auth.{
  Env, Provider, permissions, key_login, oidc_login, second_factor, authenticate_totp, verify_totp,
  valid_oidc_subject,
}
use sshgatew.Gateway.Auth.Granted.{KeyGranted, key_login_sound}
use sshgatew.Gateway.Auth.Linked.{OidcGranted, oidc_login_sound}
use sshgatew.Gateway.Routing.{
  Request, Remote, DirectTcpIpData, handle_routed, route, load_credential, handle_direct_tcpip,
  state_from_context, forward_target, forward,
}
use sshgatew.Gateway.Routing.Permitted.{
  RoutedDial, ForwardDial, handle_routed_sound, handle_direct_tcpip_sound, handle_routed-sessions,
}
use sshgatew.Gateway.Interactive.{
  Menu, select, quit, interactive, handle, menu_loop, connect, session_event, Dial,
}
use sshgatew.Gateway.Interactive.Access.{AllAllowed, handle-AllAllowed}
use sshgatew.Tests.Ciphers.{open_book, counting}
use sshgatew.Tests.Data.{office, bob_user, web, web_payload}

abbrev pub env : Env
env = record {
  aead = open_book;
  hash = counting;
  json = λ fields. [];
  is_object = λ s. true;
  is_utf8 = λ s. true;
  issuer = codes "https://id";
}

bob_web : split_routed_username (codes "Bob+Web") ≡ ok (codes "bob", codes "web")
unfolding split_routed_username split to_lower lower_byte is_upper is_empty validate_name
    matches_name is_name_byte is_lower all trim_space trim_left is_space
bob_web = refl

split_routed_username-to_lower_example :
    (to_lower (codes "bob") ≡ codes "bob") × (to_lower (codes "web") ≡ codes "web")
split_routed_username-to_lower_example =
    split_routed_username-to_lower (codes "Bob+Web") (codes "bob") (codes "web") bob_web

bob_matches : matches_name (codes "bob") ≡ true
unfolding matches_name is_name_byte is_lower all
bob_matches = refl

one_plus : contains b'+' (codes "Web") ≡ false
unfolding contains any
one_plus = refl

split_routed_username_lem_example :
    split_routed_username (codes "bob" ++ b'+' ∷ codes "Web")
    ≡ ok (codes "bob", to_lower (codes "Web"))
split_routed_username_lem_example =
    split_routed_username_lem (codes "bob") (codes "Web") bob_matches (λ e. cc) one_plus

-- Bob logs in by key at second 95 with the code of counter 3.
bob_by_key :
    (key_login env office
      (codes "bob+web")
      (codes "SHA256:b")
      (codes "a:1")
      95
      (some (codes "000003" ∷ []))).1
    ≡ ok (permissions (codes "bob") (codes "web") (codes "publickey"))
unfolding key_login split_routed_username split to_lower lower_byte is_upper is_empty validate_name
    matches_name is_name_byte is_lower all trim_space trim_left is_space authenticate_key find? any
    text_discrete ℕ_discrete audit second_factor authenticate_totp verify_totp user_totp
    decrypt_totp decrypt_with totp_aad decimal validate matches code_at code_value six_digits
    truncated byte_at put_uint64 to_uint64 ◌+ℤ◌ consume_totp_counter count
bob_by_key = refl

key_login_sound_example :
    KeyGranted env office
      (codes "bob+web")
      (codes "SHA256:b")
      95
      (some (codes "000003" ∷ []))
      (permissions (codes "bob") (codes "web") (codes "publickey"))
key_login_sound_example =
    key_login_sound env office (codes "bob+web") (codes "SHA256:b") (codes "a:1") 95
      (some (codes "000003" ∷ [])) (permissions (codes "bob") (codes "web") (codes "publickey"))
      bob_by_key

abbrev provider : Provider
provider = record {
  begins = true;
  confirmation = some ([] ∷ []);
  identity = some (codes "sub-b", codes "bob@corp");
}

bob_by_oidc :
    (oidc_login env office
      (codes "bob+web")
      (codes "a:1")
      provider
      95
      (some (codes "000003" ∷ []))).1
    ≡ ok (permissions (codes "bob") (codes "web") (codes "oidc"))
unfolding oidc_login split_routed_username split to_lower lower_byte is_upper is_empty validate_name
    matches_name is_name_byte is_lower all trim_space trim_left is_space user_by_name find? any
    text_discrete ℕ_discrete audit second_factor authenticate_totp verify_totp user_totp
    decrypt_totp decrypt_with totp_aad decimal validate matches code_at code_value six_digits
    truncated byte_at put_uint64 to_uint64 ◌+ℤ◌ consume_totp_counter count valid_oidc_subject
    authenticate_oidc match_oidc normalize_oidc_values validate_oidc_value
bob_by_oidc = refl

oidc_login_sound_example :
    OidcGranted env office
      (codes "bob+web")
      provider
      95
      (some (codes "000003" ∷ []))
      (permissions (codes "bob") (codes "web") (codes "oidc"))
oidc_login_sound_example =
    oidc_login_sound env office (codes "bob+web") (codes "a:1") provider 95
      (some (codes "000003" ∷ [])) (permissions (codes "bob") (codes "web") (codes "oidc"))
      bob_by_oidc

abbrev one_each : Limits
one_each = record { max_sessions = 4; max_sessions_per_user = 1 }

abbrev one_open : Sessions
one_open = record { total = 1; per_user = (2, 1) ∷ [] }

-- A first session of user 2 begins, and a second one is refused.
one_session : Reach one_each one_open (2 ∷ [])
unfolding acquire sessions_of set_sessions ℕ_discrete
one_session =
    next (next (start idle [] refl refl) (begin idle [] 2 one_open refl))
      (refuse one_open (2 ∷ []) 2 one_open refl)

Reach-IsAccounted_example : IsAccounted one_each one_open (2 ∷ [])
Reach-IsAccounted_example = Reach-IsAccounted one_each one_session

abbrev remote : Remote
remote = record {
  opens_agent = false;
  dials = λ t p. true;
  proxies = λ t p. true;
  connects = λ t h p. true;
  accepts = true;
  end_details = λ r. [];
  forward_details = λ h p r. [];
}

abbrev shell_request : Request
shell_request = record { subsystem = []; raw_command = []; has_pty = true }

web_dialled :
    (handle_routed one_each env remote idle office bob_user
      (codes "a:1")
      (codes "web")
      shell_request).1.dialled
    ≡ some (web, web_payload)
unfolding handle_routed route target_by_name find? text_discrete ℕ_discrete is_empty
    can_access_capability column count any audit load_credential decrypt decrypt_with aad decimal
    acquire sessions_of
web_dialled = refl

handle_routed_sound_example :
    RoutedDial one_each env remote idle office bob_user (codes "web") shell_request web web_payload
handle_routed_sound_example =
    handle_routed_sound one_each env remote idle office bob_user (codes "a:1") (codes "web")
      shell_request web web_payload web_dialled

handle_routed-sessions_example :
    ((handle_routed one_each env remote one_open office bob_user
        (codes "a:1")
        (codes "web")
        shell_request).0.total
      ≡ 1)
    × (sessions_of 2
          (handle_routed one_each env remote one_open office bob_user
            (codes "a:1")
            (codes "web")
            shell_request).0.per_user
        ≡ sessions_of 2 ((2, 1) ∷ []))
handle_routed-sessions_example =
    handle_routed-sessions one_each env remote one_open office bob_user (codes "a:1") (codes "web")
      shell_request 2

abbrev to_db : DirectTcpIpData
to_db = record { dest_addr = codes "DB.local"; dest_port = 5432 }

db_dialled :
    (handle_direct_tcpip one_each env remote idle office
      (codes "bob+web")
      (codes "a:1")
      (some to_db)).1.dialled
    ≡ some (web, web_payload)
unfolding handle_direct_tcpip state_from_context forward_target forward split_routed_username split
    to_lower lower_byte is_upper is_empty validate_name matches_name is_name_byte is_lower all
    trim_space trim_left is_space user_by_name find? any text_discrete ℕ_discrete target_by_name
    can_access_capability column count forward_allowed load_credential decrypt decrypt_with aad
    decimal acquire sessions_of
db_dialled = refl

handle_direct_tcpip_sound_example :
    ForwardDial one_each env idle office (codes "bob+web") to_db web web_payload
handle_direct_tcpip_sound_example =
    handle_direct_tcpip_sound one_each env remote idle office (codes "bob+web") (codes "a:1") to_db
      web web_payload db_dialled

-- The menu gives the target, and quits after the connection.
abbrev menus : List Menu
menus = (λ db. (db, select 1)) ∷ (λ db. (db, select 7)) ∷ (λ db. (db, quit)) ∷ []

abbrev bob_started : Db
bob_started =
    session_event env bob_user (codes "a:1") (codes "gateway.session.start") (codes "success") []
      office

abbrev bob_course : Db × List Dial
bob_course = menu_loop env remote bob_user (codes "a:1") bob_started menus

abbrev bob_ended : Db
bob_ended =
    session_event env bob_user (codes "a:1") (codes "gateway.session.end") (codes "success") []
      bob_course.0

bob_interactive :
    (handle one_each env remote idle office (codes "bob") (codes "a:1") shell_request menus).1
    ≡ interactive bob_ended bob_course.1
unfolding handle state_from_context split_routed_username split to_lower lower_byte is_upper
    is_empty user_by_name find? any text_discrete ℕ_discrete acquire sessions_of
bob_interactive = refl

-- One connection is asked for.
one_connection : map (λ d. d.credential) bob_course.1 ≡ web_payload ∷ []
unfolding menu_loop connect can_access can_access_capability column count target_by_id find? any
    text_discrete ℕ_discrete audit load_credential decrypt decrypt_with aad decimal is_empty
one_connection = refl

handle-AllAllowed_example :
    (u : User) × (state_from_context office (codes "bob") ≡ some (u, []))
    × AllAllowed env u bob_course.1
handle-AllAllowed_example =
    handle-AllAllowed one_each env remote idle office (codes "bob") (codes "a:1") shell_request
      menus bob_ended bob_course.1 bob_interactive
