-- ===== src/Relay/Auth/Handler.antt =====
-- congee/internal/relay/nip42.go: when an AUTH message is accepted.
use conduit_relay.Base.{
  ◌≡◌, refl, ◌≢◌, ◌↔◌, ◌⊎◌, inl, inr, Bool, true, Option, none, some, [], arith, Bool-cases,
  Option-cases, nat_eq, list_eq, list_beq, list_beq_iff, ℤ, ◌≤ℤ◌, beq_ℤ_iff, int_eq, Text, codes,
}
use conduit_relay.Nostr.Event.{Event}
use conduit_relay.Relay.Config.{Config, nip_on, nip42_created_at_skew}
use conduit_relay.Relay.Auth.{
  AuthState, Reply, tag_first, age, auth_event_kind, relay_tag_error, verify_auth_event,
  handle_auth, add_pubkey,
}

module _ (verify_sig : Event → Bool) (normalize_url : Text → Option Text) where
  -- The conditions of NIP-42 on an AUTH event, as the code computes the age.
  pub record Proves (cfg : Config) (c : AuthState) (now : ℤ) (ev : Event) : Type 0 where
    pub nip42_on : nip_on 42 cfg ≡ true
    pub issued : c.challenge ≢ []
    pub kind_right : ev.kind ≡ auth_event_kind
    pub signed : verify_sig ev ≡ true
    pub relay_right :
        (url : Text) × (url ≢ [])
        × (normalize_url cfg.nip42_relay_url ≡ some url)
        × (normalize_url (tag_first ev.tags (codes "relay")) ≡ some url)
    pub challenge_right : tag_first ev.tags (codes "challenge") ≡ c.challenge
    pub fresh : age ev.created_at now ≤ℤ nip42_created_at_skew cfg

  relay_tag_error_iff :
      (want got : Option Text)
      → (relay_tag_error verify_sig normalize_url want got ≡ none)
        ↔ ((url : Text) × (url ≢ []) × (want ≡ some url) × (got ≡ some url))
  unfolding relay_tag_error
  relay_tag_error_iff none got = ((λ h. cc), λ h. cc (h.2))
  relay_tag_error_iff (some w) none = ((λ h. cc), λ h. cc (h.3))
  relay_tag_error_iff (some w) (some g) = (
    λ h. (
      w,
      ground (arith, list_beq_iff g [], list_beq_iff g w),
      refl,
      ground (arith, list_beq_iff g w),
    ),
    λ h. ground (arith, list_beq_iff g [], list_beq_iff g w),
  )

  module _ (cfg : Config) (now : ℤ) (c : AuthState) (ev : Event) where
    verify_auth_event_iff :
        nip_on 42 cfg ≡ true
        → c.challenge ≢ []
        → (verify_auth_event verify_sig normalize_url cfg ev c.challenge now ≡ none)
          ↔ Proves cfg c now ev
    unfolding verify_auth_event
    verify_auth_event_iff on issued = (
      λ h. record {
        nip42_on = on;
        issued = issued;
        kind_right = ground (arith, beq_ℤ_iff ev.kind auth_event_kind);
        signed = ground arith;
        relay_right = (relay_tag_error_iff _ _).0 (ground arith);
        challenge_right = ground (arith, list_beq_iff got c.challenge);
        fresh = ground arith;
      },
      λ p. ground (
        arith,
        p.kind_right,
        p.signed,
        (relay_tag_error_iff _ _).1 p.relay_right,
        p.challenge_right,
        p.fresh,
        list_beq_iff c.challenge [],
        list_beq_iff c.challenge c.challenge,
      ),
    )
      where
        got : Text
        got = tag_first ev.tags (codes "challenge")

    -- The handler either accepts an AUTH message, and adds its key as the current authenticated key, or
    -- it does not, and leaves the connection's state as it is. It accepts if, and only if, NIP-42 is on,
    -- a challenge was issued, and the event has the right kind, a valid signature, this relay's URL, that
    -- challenge and a computed age within the allowed skew.
    pub handle_auth-accepts_iff :
        ((handle_auth verify_sig normalize_url cfg now c ev
            ≡ (add_pubkey c ev.pub_key, Reply.accepted ev.id))
          × Proves cfg c now ev)
        ⊎ (((handle_auth verify_sig normalize_url cfg now c ev).0 ≡ c)
            × ((handle_auth verify_sig normalize_url cfg now c ev).1 ≢ Reply.accepted ev.id)
            × ¬ Proves cfg c now ev)
    unfolding handle_auth
    handle_auth-accepts_iff = elim (Bool-cases (nip_on 42 cfg)) [
      | inr off ↦
          inr (ground (arith, off), ground (arith, off), λ p. ground (arith, off, p.nip42_on))
      | inl on ↦ elim (Bool-cases (list_beq c.challenge [])) [
        | inl none_yet ↦ inr (
          ground (arith, on, none_yet),
          ground (arith, on, none_yet),
          λ p. p.issued ((list_beq_iff c.challenge []).0 none_yet),
        )
        | inr b ↦
            let issued : c.challenge ≢ [] = λ e. ground (arith, b, list_beq_iff c.challenge []) in
            elim (Option-cases
              (verify_auth_event verify_sig normalize_url cfg ev c.challenge now)) [
                | inl e ↦ inl (ground (arith, on, b, e), (verify_auth_event_iff on issued).0 e)
                | inr (err, e) ↦ inr (
                  ground (arith, on, b, e),
                  ground (arith, on, b, e),
                  λ p. ground (arith, e, (verify_auth_event_iff on issued).1 p),
                )
              ]
      ]
    ]
