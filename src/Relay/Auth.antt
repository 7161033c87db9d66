-- ===== src/Relay/Auth.antt =====
-- congee/internal/relay/nip42.go: the authentication state of a connection, the AUTH handler, and the
-- kinds that want authentication. The random bytes of a challenge are an argument, as are the
-- signature check (btcec) and the normal form of a relay URL (net/url).
pub mod Handler
pub mod Skew
pub mod Once
use conduit_relay.Base.{
  Bool, true, false, not, ◌&&◌, ◌||◌, Option, none, some, List, [], ◌∷◌, if◌then◌else◌, ◌==◌,
  nat_eq, list_eq, list_beq, any, contains, ℤ, pos, ltb_ℤ, int_eq, sub64, neg64, Text, codes,
}
use conduit_relay.Nostr.Event.{Event}
use conduit_relay.Nostr.Filter.{Filter}
use conduit_relay.Relay.Config.{Config, nip_on, nip11_auth_required, nip42_created_at_skew}

-- The fields of `Conn` that `authMu` guards.
pub record AuthState : Type 0 where
  pub challenge : Text
  pub auth_sent : Bool
  pub pubkeys : List Text
  pub current_pubkey : Text

pub data AuthError : Type 0 where
  wrong_kind bad_signature relay_misconfigured bad_relay_tag relay_mismatch : AuthError
  challenge_mismatch outside_skew : AuthError

pub data PublishError : Type 0 where
  auth_required not_allowlisted : PublishError

unfoldable pub subscribe_auth_required : Config → List Filter → Bool
subscribe_auth_required cfg filters =
    if not (nip_on 42 cfg)
    then false
    else if list_beq cfg.require_auth_subscribe_kinds []
    then false
    else any
        (λ (f : Filter).
          list_beq f.kinds [] || any (contains cfg.require_auth_subscribe_kinds) f.kinds)
        filters

unfoldable pub current_auth_pubkey : AuthState → Text
current_auth_pubkey c = c.current_pubkey

unfoldable pub has_pubkey : AuthState → Text → Bool
has_pubkey c pk = contains c.pubkeys pk

unfoldable pub has_any_auth : AuthState → Bool
has_any_auth c = not (list_beq c.pubkeys [])

unfoldable pub authed_pubkeys : AuthState → List Text
authed_pubkeys c = c.pubkeys

-- `nip42Pubkeys` is a set; a key that is in it is not added again.
unfoldable pub add_pubkey : AuthState → Text → AuthState
add_pubkey c pk = record c {
  pubkeys = if contains c.pubkeys pk then c.pubkeys else pk ∷ c.pubkeys;
  current_pubkey = pk;
}

unfoldable pub validate_publish_policy : Config → AuthState → Event → Option PublishError
validate_publish_policy cfg c ev =
    if not (nip_on 42 cfg)
    then none
    else if list_beq cfg.require_auth_publish_kinds [] && list_beq cfg.allowlisted_pubkeys []
    then none
    else if not (contains cfg.require_auth_publish_kinds ev.kind)
    then none
    else if not (has_pubkey c ev.pub_key)
    then some PublishError.auth_required
    else if not (list_beq cfg.allowlisted_pubkeys [])
        && not (contains cfg.allowlisted_pubkeys ev.pub_key)
    then some PublishError.not_allowlisted
    else none

-- `fresh` is the hexadecimal text of the 24 random bytes.
unfoldable pub ensure_challenge : Text → AuthState → AuthState
ensure_challenge fresh c = if list_beq c.challenge [] then record c { challenge = fresh } else c

-- The new state, and the challenge that is sent, if one is.
unfoldable pub enqueue_auth_challenge : Config → Text → AuthState → AuthState × Option Text
unfolding ensure_challenge
enqueue_auth_challenge cfg fresh c =
    if not (nip_on 42 cfg)
    then (c, none)
    else if c.auth_sent
    then (c, none)
    else (let d = ensure_challenge fresh c in (record d { auth_sent = true }, some d.challenge))

unfoldable pub connect_gate : Config → AuthState → Bool
connect_gate cfg c = if not (nip11_auth_required cfg) then false else not (has_any_auth c)

unfoldable pub tag_first : List (List Text) → Text → Text
tag_first [] name = []
tag_first ([] ∷ tags) name = tag_first tags name
tag_first ((n ∷ []) ∷ tags) name = tag_first tags name
tag_first ((n ∷ v ∷ rest) ∷ tags) name =
    let later = tag_first tags name in if n == name then v else later

abbrev pub auth_event_kind : ℤ
auth_event_kind = pos 22242

-- The absolute difference as Go computes it, in int64.
unfoldable pub age : ℤ → ℤ → ℤ
unfolding sub64 neg64
age created_at now = let dt = sub64 created_at now in if ltb_ℤ dt (pos 0) then neg64 dt else dt

pub data Reply : Type 0 where
  notice : Reply
  rejected : Text → Option AuthError → Reply
  accepted : Text → Reply

module _ (verify_sig : Event → Bool) (normalize_url : Text → Option Text) where
  unfoldable pub relay_tag_error : Option Text → Option Text → Option AuthError
  relay_tag_error none got = some AuthError.relay_misconfigured
  relay_tag_error (some want) none = some AuthError.bad_relay_tag
  relay_tag_error (some want) (some got) =
      if list_beq got []
      then some AuthError.bad_relay_tag
      else if not (got == want)
      then some AuthError.relay_mismatch
      else none

  unfoldable pub verify_auth_event : Config → Event → Text → ℤ → Option AuthError
  verify_auth_event cfg ev challenge now =
      if not (ev.kind == auth_event_kind)
      then some AuthError.wrong_kind
      else if not (verify_sig ev)
      then some AuthError.bad_signature
      else elim (relay_tag_error (normalize_url cfg.nip42_relay_url)
          (normalize_url (tag_first ev.tags (codes "relay")))) [
            | some e ↦ some e
            | none ↦
                let got = tag_first ev.tags (codes "challenge") in
                if list_beq got [] || not (got == challenge)
                then some AuthError.challenge_mismatch
                else if ltb_ℤ (nip42_created_at_skew cfg) (age ev.created_at now)
                then some AuthError.outside_skew
                else none
          ]

  -- `handleNIP42AUTH`: the new state and the reply.
  unfoldable pub handle_auth : Config → ℤ → AuthState → Event → AuthState × Reply
  handle_auth cfg now c ev =
      if not (nip_on 42 cfg)
      then (c, Reply.notice)
      else if list_beq c.challenge []
      then (c, Reply.rejected ev.id none)
      else elim (verify_auth_event cfg ev c.challenge now) [
        | some e ↦ (c, Reply.rejected ev.id (some e))
        | none ↦ (add_pubkey c ev.pub_key, Reply.accepted ev.id)
      ]
