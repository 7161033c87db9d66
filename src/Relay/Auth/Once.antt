-- ===== src/Relay/Auth/Once.antt =====
-- congee/internal/relay/nip42.go: the challenges that a connection is sent over its life.
use mathlib.Core.List.{append-nil}
use conduit_relay.Base.{
  ◌≡◌, refl, ◌≢◌, ◌⊎◌, inl, true, false, Option, none, some, List, [], ◌∷◌, ◌++◌, arith, nat_eq,
  ==_refl, list_eq, list_beq_iff, contains, int_eq, Text,
}
use conduit_relay.Relay.Config.{Config}
use conduit_relay.Relay.Auth.{AuthState, enqueue_auth_challenge, ensure_challenge, add_pubkey}

abbrev sent_list : Option Text → List Text
sent_list none = []
sent_list (some t) = t ∷ []

-- What may happen to the authentication state of a connection, with the challenges that are sent. The
-- hexadecimal text of 24 random bytes is not empty, nor is an authenticated key.
pub data AuthStep (cfg : Config) (c d : AuthState) (new : List Text) : Type 0 where
  challenge :
      (fresh : Text) (sent : Option Text)
      → fresh ≢ []
      → enqueue_auth_challenge cfg fresh c ≡ (d, sent)
      → new ≡ sent_list sent
      → AuthStep cfg c d new
  issue :
      (fresh : Text) → fresh ≢ [] → d ≡ ensure_challenge fresh c → new ≡ [] → AuthStep cfg c d new
  authenticate : (pk : Text) → pk ≢ [] → d ≡ add_pubkey c pk → new ≡ [] → AuthStep cfg c d new

pub data AuthRun (cfg : Config) (c : AuthState) : AuthState → List Text → Type 0 where
  start : AuthRun cfg c c []
  more :
      {d e : AuthState} {sent new : List Text}
      → AuthRun cfg c d sent
      → AuthStep cfg d e new
      → AuthRun cfg c e (sent ++ new)

abbrev pub fresh_state : AuthState
fresh_state = record { challenge = []; auth_sent = false; pubkeys = []; current_pubkey = [] }

-- `sent` are the challenges that were sent to reach the state.
pub record AuthInv (c : AuthState) (sent : List Text) : Type 0 where
  pub sent_once :
      ((c.auth_sent ≡ false) × (sent ≡ []))
      ⊎ ((c.auth_sent ≡ true) × (sent ≡ c.challenge ∷ []) × (c.challenge ≢ []))
  pub current_known :
      ((c.current_pubkey ≡ []) × (c.pubkeys ≡ [])) ⊎ (contains c.pubkeys c.current_pubkey ≡ true)

step-AuthInv :
    (cfg : Config) (c d : AuthState) (sent new : List Text)
    → AuthStep cfg c d new
    → AuthInv c sent
    → AuthInv d (sent ++ new)
unfolding enqueue_auth_challenge ensure_challenge add_pubkey
step-AuthInv cfg c d sent new (challenge fresh o ne e n) v =
    ground (arith, list_beq_iff c.challenge [], append-nil sent)
step-AuthInv cfg c d sent new (issue fresh ne e n) v =
    ground (arith, list_beq_iff c.challenge [], append-nil sent)
step-AuthInv cfg c d sent new (authenticate pk ne e n) v =
    ground (arith, ==_refl pk, append-nil sent)

-- In every run of a new connection at most one challenge is sent, and it is the connection's challenge
-- from then on; and the current key, if there is one, is among the authenticated keys.
pub run-AuthInv :
    (cfg : Config) {c : AuthState} {sent : List Text}
    → AuthRun cfg fresh_state c sent
    → AuthInv c sent
run-AuthInv cfg start = record { sent_once = inl (refl, refl); current_known = inl (refl, refl) }
run-AuthInv cfg (more {d} {e} {sent} {new} r s) =
    step-AuthInv cfg d e sent new s (run-AuthInv cfg r)
