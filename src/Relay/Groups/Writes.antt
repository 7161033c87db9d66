-- ===== src/Relay/Groups/Writes.antt =====
-- congee/internal/relay/nip29.go: what the validators of NIP-29 together let through.
use conduit_relay.Base.{
  ℕ, ◌+◌, ◌^◌, ◌≤◌, ◌<◌, ◌≡◌, ◌≢◌, ◌⊎◌, inl, inr, Bool, true, false, Option, none, some, [], arith,
  Bool-cases, ◌==◌, nat_eq, list_eq, list_beq_iff, ℤ, pos, negsuc, ◌-ℤ◌, beq_ℤ_iff, int_eq, wrap64,
  sub64, Text,
}
use conduit_relay.Nostr.Event.{Event}
use conduit_relay.Nostr.Groups.{
  group_h_tag, group_h_tags_valid, is_moderation_kind, metadata_is_restricted, admins_contain,
  kind_create_group, kind_delete_group, kind_join_request, kind_leave_req,
}
use conduit_relay.Relay.Config.{Config, nip_on, nip29_max_past_sec}
use conduit_relay.Relay.Groups.{
  got, Fetch-cases, Server, member_or, validate_h_tags, validate_previous,
  validate_late_publication, validate_restricted_write, validate_moderation,
  validate_moderation_and_join_leave, validate_group_event,
}

module _ (equal_fold : Text → Text → Bool) (s : Server) (now : ℤ) (ev : Event) where
  abbrev Passes : Type 0
  Passes = validate_group_event equal_fold s now ev ≡ none

  -- The chain of validators passes exactly when each of them does.
  Passes-parts :
      nip_on 29 s.cfg ≡ true
      → Passes
      → (validate_h_tags ev ≡ none)
        × (validate_previous s.store s.cfg ev ≡ none)
        × (validate_late_publication s.cfg now ev ≡ none)
        × (validate_restricted_write s ev ≡ none)
        × (validate_moderation_and_join_leave equal_fold s ev ≡ none)
  unfolding validate_group_event
  Passes-parts on h = ground arith

  -- If NIP-29 is on and the relay has an identity, a moderation event that passes names one group, and is
  -- signed by the relay, or it neither creates nor deletes a group and the group's list of admins can be
  -- read and contains its author.
  pub validate_group_event-moderation :
      (rpk : Text)
      → nip_on 29 s.cfg ≡ true
      → s.relay_id ≡ some rpk
      → is_moderation_kind ev.kind ≡ true
      → validate_group_event equal_fold s now ev ≡ none
      → (group_h_tags_valid ev ≡ true)
        × (group_h_tag ev ≢ [])
        × ((ev.pub_key ≡ rpk)
            ⊎ ((ev.kind ≢ kind_create_group)
                × (ev.kind ≢ kind_delete_group)
                × ((admins : Option Event) × (s.store.admins rpk (group_h_tag ev) ≡ got admins)
                    × (admins_contain equal_fold admins ev.pub_key ≡ true))))
  unfolding validate_h_tags validate_moderation_and_join_leave validate_moderation
  validate_group_event-moderation rpk on id mod_kind h =
      let p = Passes-parts on h in
      let named : group_h_tag ev ≢ [] =
        λ e. ground (arith, p.4, list_beq_iff (group_h_tag ev) []) in
      (
        ground (arith, p.0),
        named,
        elim (Bool-cases (ev.pub_key == rpk)) [
          | inl e ↦ inl ((list_beq_iff ev.pub_key rpk).0 e)
          | inr e ↦ elim (Fetch-cases (s.store.admins rpk (group_h_tag ev))) [
            | inl f ↦ ground (arith, p.4, e, f, named, list_beq_iff (group_h_tag ev) [])
            | inr (admins, f) ↦ inr (
              ground (
                arith,
                p.4,
                e,
                f,
                named,
                list_beq_iff (group_h_tag ev) [],
                beq_ℤ_iff ev.kind kind_create_group,
              ),
              ground (
                arith,
                p.4,
                e,
                f,
                named,
                list_beq_iff (group_h_tag ev) [],
                beq_ℤ_iff ev.kind kind_delete_group,
              ),
              (admins, f, ground (arith, p.4, e, f, named, list_beq_iff (group_h_tag ev) [])),
            )
          ]
        ],
      )

  -- If NIP-29 is on and the relay has an identity, an ordinary event of a restricted group that passes is
  -- signed by the relay or by a member of the group.
  pub validate_group_event-restricted :
      (rpk : Text) (md : Option Event)
      → nip_on 29 s.cfg ≡ true
      → s.relay_id ≡ some rpk
      → is_moderation_kind ev.kind ≡ false
      → ev.kind ≢ kind_join_request
      → ev.kind ≢ kind_leave_req
      → group_h_tag ev ≢ []
      → s.store.metadata rpk (group_h_tag ev) ≡ got md
      → metadata_is_restricted md ≡ true
      → validate_group_event equal_fold s now ev ≡ none
      → (ev.pub_key ≡ rpk) ⊎ (s.store.member rpk (group_h_tag ev) ev.pub_key ≡ got true)
  unfolding validate_restricted_write member_or
  validate_group_event-restricted rpk md on id plain nj nl named fetched restricted h =
      let p = Passes-parts on h in
      ground (
        arith,
        p.3,
        list_beq_iff (group_h_tag ev) [],
        list_beq_iff ev.pub_key rpk,
        beq_ℤ_iff ev.kind kind_join_request,
        beq_ℤ_iff ev.kind kind_leave_req,
        Fetch-cases (s.store.member rpk (group_h_tag ev) ev.pub_key),
      )

-- The age of a group event is an int64 difference: if it is 2^63 seconds or more, it wraps to a negative
-- number, and the test of late publication passes whatever the configured limit is.
pub validate_late_publication-overflow :
    (cfg : Config) (now m : ℕ) (ev : Event)
    → now < 2 ^ 63
    → m < 2 ^ 63
    → 2 ^ 63 ≤ now + m + 1
    → ev.created_at ≡ negsuc m
    → validate_late_publication cfg (pos now) ev ≡ none
unfolding validate_late_publication sub64 wrap64 ◌-ℤ◌ nip29_max_past_sec
validate_late_publication-overflow cfg now m ev h k l e = ground arith
