-- ===== src/Downstream/Dial/Pinned.antt =====
-- internal/downstream/downstream.go: whom the gateway logs in to, and with what.
use sshgatew.Prelude.{
  ℕ, ◌≡◌, refl, arith, ◌⊎◌, inl, inr, ◌∙◌, ap, Bool, true, false, List, Option, none, some, any,
  find?, ◌||◌, if◌then◌else◌, any-find?, find?_sound,
}
use sshgatew.Prelude.Texts.{Text, text_eq, text_eq_iff, is_empty}
use sshgatew.Secrets.{Payload}
use sshgatew.Store.{
  Target, credential_password, credential_private_key, credential_stored_key, credential_agent,
}
use sshgatew.Downstream.Dial.{
  Key, AuthMethod, Keys, Server, Client, same_key, public_of, signer_in, agent_method, auth_method,
  parse_host_key, handshake, dial_with, dial,
}

same_key_iff : (a b : Key) → same_key a b ≡ true → a ≡ b
same_key_iff a b h = ground (arith, h, text_eq_iff a.type b.type, text_eq_iff a.blob b.blob)

-- The credential of a kind: the password, a signer of the private key, or a signer of the agent for
-- the key that is stored.
abbrev pub IsMethod : Keys → Text → Payload → Option (Option (List Key)) → AuthMethod → Type 0
IsMethod keys kind p forwarded auth =
    ((kind ≡ credential_password)
      × (is_empty p.password ≡ false)
      × (auth ≡ AuthMethod.password p.password))
    ⊎ (((kind ≡ credential_private_key) ⊎ (kind ≡ credential_stored_key))
        × ((k : Key) × (keys.private p.private_key p.passphrase ≡ some k)
            × (auth ≡ AuthMethod.public_keys k)))
    ⊎ ((kind ≡ credential_agent)
        × ((k : Key) × (signers : List Key) × (forwarded ≡ some (some signers))
            × (keys.authorized p.public_key ≡ some (k, false))
            × (any (λ s. same_key s k) signers ≡ true)
            × (auth ≡ AuthMethod.public_keys k)))

-- A connection to the target with its pinned host key and its credential.
abbrev pub IsPinned : Keys → Target → Payload → Option (Option (List Key)) → Client → Type 0
IsPinned keys t p forwarded c =
    (c.user ≡ t.remote_username)
    × (c.host ≡ t.host)
    × (c.port ≡ t.port)
    × ((more : Bool) × (keys.authorized t.host_public_key ≡ some (c.host_key, more)))
    × IsMethod keys t.credential_kind p forwarded c.auth

public_of_sound :
    (o : Option Key) (auth : AuthMethod)
    → public_of o ≡ some auth
    → (k : Key) × (o ≡ some k) × (auth ≡ AuthMethod.public_keys k)
public_of_sound none auth e = ground (arith, e)
public_of_sound (some k) auth e = (k, refl, ground (arith, e))

signer_in_sound :
    (k : Key) (signers : List Key) (auth : AuthMethod)
    → signer_in k (some signers) ≡ some auth
    → (any (λ s. same_key s k) signers ≡ true) × (auth ≡ AuthMethod.public_keys k)
signer_in_sound k signers auth e =
    let (found, f, a) = public_of_sound (find? (λ s. same_key s k) signers) auth e in
    let same = find?_sound (λ s. same_key s k) signers found f in
    (
      any-find? (λ s. same_key s k) (λ s. same_key s k) signers found f same,
      a ∙ ap AuthMethod.public_keys (same_key_iff found k same),
    )

agent_method_sound :
    (keys : Keys) (line : Text) (stored : Option (Key × Bool))
    (forwarded : Option (Option (List Key))) (auth : AuthMethod)
    → keys.authorized line ≡ stored
    → agent_method stored forwarded ≡ some auth
    → (k : Key) × (signers : List Key) × (forwarded ≡ some (some signers))
      × (keys.authorized line ≡ some (k, false))
      × (any (λ s. same_key s k) signers ≡ true)
      × (auth ≡ AuthMethod.public_keys k)
agent_method_sound keys line stored none auth q e = ground (arith, e)
agent_method_sound keys line none (some signers) auth q e = ground (arith, e)
agent_method_sound keys line (some (k, true)) (some signers) auth q e = ground (arith, e)
agent_method_sound keys line (some (k, false)) (some none) auth q e = ground (arith, e)
agent_method_sound keys line (some (k, false)) (some (some signers)) auth q e =
    let s = signer_in_sound k signers auth e in (k, signers, refl, q, s.0, s.1)

choice-IsMethod :
    (keys : Keys) (kind : Text) (p : Payload) (forwarded : Option (Option (List Key)))
    (auth : AuthMethod) (is_password is_key is_agent : Bool)
    → (is_password ≡ true → kind ≡ credential_password)
    → (is_key ≡ true → (kind ≡ credential_private_key) ⊎ (kind ≡ credential_stored_key))
    → (is_agent ≡ true → kind ≡ credential_agent)
    → (if is_password
        then (if is_empty p.password then none else some (AuthMethod.password p.password))
        else if is_key
        then public_of (keys.private p.private_key p.passphrase)
        else if is_agent
        then agent_method (keys.authorized p.public_key) forwarded
        else none)
      ≡ some auth
    → IsMethod keys kind p forwarded auth
choice-IsMethod keys kind p forwarded auth true k a h i j e =
    inl (h refl, ground (arith, e), ground (arith, e))
choice-IsMethod keys kind p forwarded auth false true a h i j e =
    inr (inl (i refl, public_of_sound (keys.private p.private_key p.passphrase) auth e))
choice-IsMethod keys kind p forwarded auth false false true h i j e = inr (
    inr (
      j refl,
      agent_method_sound keys p.public_key (keys.authorized p.public_key) forwarded auth refl e,
    ))
choice-IsMethod keys kind p forwarded auth false false false h i j e = ground (arith, e)

auth_method-IsMethod :
    (keys : Keys) (kind : Text) (p : Payload) (forwarded : Option (Option (List Key)))
    (auth : AuthMethod)
    → auth_method keys kind p forwarded ≡ some auth
    → IsMethod keys kind p forwarded auth
unfolding auth_method
auth_method-IsMethod keys kind p forwarded auth e =
    choice-IsMethod keys kind p forwarded auth (text_eq kind credential_password)
      (text_eq kind credential_private_key || text_eq kind credential_stored_key)
      (text_eq kind credential_agent) (text_eq_iff kind credential_password)
      (λ h.
        ground (
          arith,
          h,
          text_eq_iff kind credential_private_key,
          text_eq_iff kind credential_stored_key,
        ))
      (text_eq_iff kind credential_agent) e

handshake_sound :
    (t : Target) (pinned : Key) (auth : AuthMethod) (o : Option Server) (c : Client)
    → handshake t pinned auth o ≡ some c
    → (c.host_key ≡ pinned)
      × (c.user ≡ t.remote_username)
      × (c.host ≡ t.host)
      × (c.port ≡ t.port)
      × (c.auth ≡ auth)
handshake_sound t pinned auth none c e = ground (arith, e)
handshake_sound t pinned auth (some s) c e = ground (arith, e, same_key_iff s.host_key pinned)

parse_host_key_sound :
    (keys : Keys) (line : Text) (o : Option (Key × Bool)) (k : Key)
    → keys.authorized line ≡ o
    → parse_host_key o ≡ some k
    → (more : Bool) × (keys.authorized line ≡ some (k, more))
parse_host_key_sound keys line none k q e = ground (arith, e)
parse_host_key_sound keys line (some (v, more)) k q e = (more, ground (arith, q, e))

dial_with_sound :
    (keys : Keys) (network : Text → ℕ → Option Server) (t : Target) (p : Payload)
    (forwarded : Option (Option (List Key))) (c : Client) (pinned : Option Key)
    (auth : Option AuthMethod)
    → parse_host_key (keys.authorized t.host_public_key) ≡ pinned
    → auth_method keys t.credential_kind p forwarded ≡ auth
    → dial_with network t pinned auth ≡ some c
    → IsPinned keys t p forwarded c
dial_with_sound keys network t p forwarded c none auth k a e = ground (arith, e)
dial_with_sound keys network t p forwarded c (some pinned) none k a e = ground (arith, e)
dial_with_sound keys network t p forwarded c (some pinned) (some auth) k a e =
    let h = handshake_sound t pinned auth (network t.host t.port) c e in
    (
      h.1,
      h.2,
      h.3,
      rw h.0 (
          parse_host_key_sound keys t.host_public_key (keys.authorized t.host_public_key) pinned
            refl k),
      rw h.4 (auth_method-IsMethod keys t.credential_kind p forwarded auth a),
    )

-- A connection is made only to the host and port of the target, as its remote user, to a server that
-- presented exactly the host key pinned for the target, and with the credential of the target's kind:
-- its password, which is not empty, a signer of its private key, or a signer of the forwarded agent for
-- exactly the public key that is stored.
pub dial_sound :
    (keys : Keys) (network : Text → ℕ → Option Server) (t : Target) (p : Payload)
    (forwarded : Option (Option (List Key))) (c : Client)
    → dial keys network t p forwarded ≡ some c
    → IsPinned keys t p forwarded c
unfolding dial
dial_sound keys network t p forwarded c e =
    dial_with_sound keys network t p forwarded c
      (parse_host_key (keys.authorized t.host_public_key))
      (auth_method keys t.credential_kind p forwarded) refl refl e
