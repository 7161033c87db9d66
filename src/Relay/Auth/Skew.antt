-- ===== src/Relay/Auth/Skew.antt =====
-- congee/internal/relay/nip42.go: the age of an AUTH event in int64.
use conduit_relay.Base.{
  ℕ, ◌+◌, ◌-◌, ◌^◌, ◌<◌, ◌≡◌, ◌≢◌, inl, inr, Bool, true, Option, some, [], arith, nat_eq, list_eq,
  pos, negsuc, ◌-ℤ◌, ◌≤ℤ◌, int_eq, wrap64, sub64, neg64, Text, codes,
}
use conduit_relay.Nostr.Event.{Event}
use conduit_relay.Relay.Config.{Config, nip_on, nip42_created_at_skew}
use conduit_relay.Relay.Auth.{
  age, AuthState, Reply, auth_event_kind, tag_first, handle_auth, add_pubkey,
}
use conduit_relay.Relay.Auth.Handler.{handle_auth-accepts_iff}

-- If neither time is negative and both fit in int64, the computed age is the distance of the two.
pub age_distance :
    (created now : ℕ)
    → created < 2 ^ 63
    → now < 2 ^ 63
    → age (pos created) (pos now) ≡ pos ((created - now) + (now - created))
unfolding age sub64 neg64 wrap64 ◌-ℤ◌
age_distance created now h k = ground arith

-- For every present time there is a creation time, 2^63 seconds earlier, whose computed age is
-- negative: the negation of the smallest int64 is itself.
age_overflow :
    (now : ℕ) → now < 2 ^ 63 → age (pos now -ℤ pos (2 ^ 63)) (pos now) ≡ negsuc (2 ^ 63 - 1)
unfolding age sub64 neg64 wrap64 ◌-ℤ◌
age_overflow now h = ground arith

negative_age-within : (now : ℕ) (cfg : Config) → negsuc (2 ^ 63 - 1) ≤ℤ nip42_created_at_skew cfg
unfolding nip42_created_at_skew
negative_age-within now cfg = ground arith

-- An AUTH event that was created 2^63 seconds before the present is accepted, and its key added, whatever
-- the configured skew, if NIP-42 is on, a challenge was issued, and the event has the right kind, a valid
-- signature, this relay's URL and that challenge.
pub handle_auth-overflow :
    (verify_sig : Event → Bool) (normalize_url : Text → Option Text) (cfg : Config) (now : ℕ)
    (c : AuthState) (ev : Event) (url : Text)
    → now < 2 ^ 63
    → ev.created_at ≡ pos now -ℤ pos (2 ^ 63)
    → nip_on 42 cfg ≡ true
    → c.challenge ≢ []
    → ev.kind ≡ auth_event_kind
    → verify_sig ev ≡ true
    → url ≢ []
    → normalize_url cfg.nip42_relay_url ≡ some url
    → normalize_url (tag_first ev.tags (codes "relay")) ≡ some url
    → tag_first ev.tags (codes "challenge") ≡ c.challenge
    → handle_auth verify_sig normalize_url cfg (pos now) c ev
      ≡ (add_pubkey c ev.pub_key, Reply.accepted ev.id)
handle_auth-overflow verify_sig normalize_url cfg now c ev url h old on issued kind signed some_url
      ours theirs challenge =
    elim (handle_auth-accepts_iff verify_sig normalize_url cfg (pos now) c ev) [
      | inl (accepted, p) ↦ accepted
      | inr (same, refused, no_proof) ↦ absurd (
          no_proof (record {
            nip42_on = on;
            issued = issued;
            kind_right = kind;
            signed = signed;
            relay_right = (url, some_url, ours, theirs);
            challenge_right = challenge;
            fresh = rw (old, age_overflow now h) (negative_age-within now cfg);
          }))
    ]
