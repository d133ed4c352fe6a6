-- ===== src/Downstream/Dial.antt =====
-- internal/downstream/downstream.go: how a target is dialled, up to its authentication. Parameters: the
-- SSH library's keys and handshake, and the network. Keep-alives and the shell itself are left out.
pub mod Pinned
use sshgatew.Prelude.{
  ℕ, Bool, true, false, not, ◌&&◌, ◌||◌, List, [], ◌∷◌, Option, none, some, find?, if◌then◌else◌,
}
use sshgatew.Prelude.Texts.{Text, text_eq, is_empty}
use sshgatew.Secrets.{Payload}
use sshgatew.Store.{
  Target, credential_password, credential_private_key, credential_stored_key, credential_agent,
}

-- A public key: `Type()` and `Marshal()`.
pub record Key : Type 0 where
  pub type : Text
  pub blob : Text

-- `gossh.AuthMethod`, with the public key of the signer.
pub data AuthMethod : Type 0 where
  password : Text → AuthMethod
  public_keys : Key → AuthMethod

-- Private keys with a passphrase, or the empty one for none, and authorized keys with whether text
-- follows them.
pub record Keys : Type 0 where
  pub private : (key pass : Text) → Option Key
  pub authorized : Text → Option (Key × Bool)

-- The server at a host and a port: the host key that it presents, and whether it accepts a user with a
-- method; none if no connection is made.
pub record Server : Type 0 where
  pub host_key : Key
  pub accepts : Text → AuthMethod → Bool

pub record Client : Type 0 where
  pub user : Text
  pub host : Text
  pub port : ℕ
  pub host_key : Key
  pub auth : AuthMethod

abbrev pub same_key : Key → Key → Bool
same_key a b = text_eq a.type b.type && text_eq a.blob b.blob

abbrev pub public_of : Option Key → Option AuthMethod
public_of none = none
public_of (some k) = some (public_keys k)

-- The loop over the signers of the agent; without signers the agent failed.
abbrev pub signer_in : Key → Option (List Key) → Option AuthMethod
signer_in expected none = none
signer_in expected (some signers) = public_of (find? (λ s. same_key s expected) signers)

abbrev pub agent_method : Option (Key × Bool) → Option (Option (List Key)) → Option AuthMethod
agent_method stored none = none
agent_method none (some signers) = none
agent_method (some (expected, more)) (some signers) =
    if more then none else signer_in expected signers

-- `ParseHostKey`, of what the line holds: text after the key is passed over.
abbrev pub parse_host_key : Option (Key × Bool) → Option Key
parse_host_key none = none
parse_host_key (some (k, more)) = some k

-- The handshake, with the host key callback.
abbrev pub handshake : Target → Key → AuthMethod → Option Server → Option Client
handshake t pinned auth none = none
handshake t pinned auth (some server) =
    if not (same_key server.host_key pinned)
    then none
    else if not (server.accepts t.remote_username auth)
    then none
    else some (record {
      user = t.remote_username;
      host = t.host;
      port = t.port;
      host_key = server.host_key;
      auth = auth;
    })

abbrev pub dial_with :
    (Text → ℕ → Option Server) → Target → Option Key → Option AuthMethod → Option Client
dial_with network t none auth = none
dial_with network t (some pinned) none = none
dial_with network t (some pinned) (some auth) = handshake t pinned auth (network t.host t.port)

module _ (keys : Keys) where
  -- `forwarded` is the answer of the agent, none if there is no agent.
  unfoldable pub auth_method : Text → Payload → Option (Option (List Key)) → Option AuthMethod
  auth_method kind p forwarded =
      if text_eq kind credential_password
      then (if is_empty p.password then none else some (password p.password))
      else if text_eq kind credential_private_key || text_eq kind credential_stored_key
      then public_of (keys.private p.private_key p.passphrase)
      else if text_eq kind credential_agent
      then agent_method (keys.authorized p.public_key) forwarded
      else none

  unfoldable pub dial :
      (Text → ℕ → Option Server) → Target → Payload → Option (Option (List Key)) → Option Client
  dial network t p forwarded =
      dial_with network t (parse_host_key (keys.authorized t.host_public_key))
        (auth_method t.credential_kind p forwarded)
