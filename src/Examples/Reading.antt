-- ===== src/Examples/Reading.antt =====
-- What a connection may ask for and is shown, on concrete events.
use conduit_relay.Base.{
  ◌≡◌, refl, ◌≢◌, ◌↔◌, ◌⊎◌, true, false, none, some, [], ◌∷◌, nat_eq, list_eq, list_beq, int_eq,
  codes, trim_space, trim_prefix, hex_decodes, to_lower,
}
use conduit_relay.Base.Assoc.{lookup}
use conduit_relay.Nostr.Filter.{
  search_text, has_search, tag_wanted, event_tag_matches, listed, not_before, not_after,
  past_cursor, tag_condition, matches, filters_match,
}
use conduit_relay.Nostr.Filter.Accepts.{Accepts, Tagged, matches_iff}
use conduit_relay.Nostr.Groups.{group_h_tags_valid, metadata_has_bare_tag, metadata_is_private}
use conduit_relay.Relay.Auth.{current_auth_pubkey}
use conduit_relay.Relay.GiftWrap.{
  is_gift_wrap_kind, valid_x_only_pubkey_hex, is_canonical, sole_gift_wrap_recipient,
  last_protected, protected_kind, check_recipient, check_filter, check_filters, validate_req,
}
use conduit_relay.Relay.GiftWrap.Recipient.{SoleRecipient, sole_gift_wrap_recipient_iff}
use conduit_relay.Relay.GiftWrap.Request.{validate_req-private}
use conduit_relay.Relay.Groups.{got, failed, event_visible}
use conduit_relay.Relay.Groups.Visible.{
  MemberOn, event_visible-gift_wrap, event_visible-private, event_visible-failed,
}
use conduit_relay.Relay.Config.{nip_on}
use conduit_relay.Examples.Data.{
  bob, wrap, config, as_bob, wraps_of_bob, chat, metadata, server_with,
}

matches_iff_example : (matches wraps_of_bob wrap ≡ true) ↔ Accepts wraps_of_bob wrap
matches_iff_example = matches_iff wraps_of_bob wrap

sole_gift_wrap_recipient_iff_example :
    (sole_gift_wrap_recipient wrap ≡ some bob) ↔ SoleRecipient wrap bob
sole_gift_wrap_recipient_iff_example = sole_gift_wrap_recipient_iff wrap bob

validate_req-private_example :
    (current_auth_pubkey as_bob ≢ [])
    × Tagged wrap.tags (codes "p") (current_auth_pubkey as_bob ∷ [])
unfolding validate_req protected_kind last_protected check_filters check_filter check_recipient
    lookup is_canonical valid_x_only_pubkey_hex hex_decodes to_lower list_beq is_gift_wrap_kind
    filters_match matches has_search search_text trim_space listed not_before not_after past_cursor
    tag_condition trim_prefix event_tag_matches tag_wanted current_auth_pubkey
validate_req-private_example =
    validate_req-private config as_bob (wraps_of_bob ∷ []) wrap refl refl refl refl

event_visible-gift_wrap_example :
    (event_visible (server_with [] (got none)) (codes "conn1") wrap ≡ true) ↔ (
      (nip_on 17 config ≡ true)
      × ((nip_on 29 config ≡ false) ⊎ (group_h_tags_valid wrap ≡ true))
      × ((c : _) × (lookup (codes "conn1") ((codes "conn1", as_bob) ∷ []) ≡ some c)
          × SoleRecipient wrap (current_auth_pubkey c)))
unfolding is_gift_wrap_kind
event_visible-gift_wrap_example =
    event_visible-gift_wrap (server_with [] (got none)) (codes "conn1") wrap refl

event_visible-private_example :
    (event_visible (server_with (bob ∷ []) (got (some metadata))) (codes "conn1") chat ≡ true) ↔ (
      (group_h_tags_valid chat ≡ true)
      × MemberOn
          (server_with (bob ∷ []) (got (some metadata)))
          (codes "relay")
          (codes "g")
          (codes "conn1"))
unfolding is_gift_wrap_kind event_tag_matches tag_wanted list_beq metadata_is_private
    metadata_has_bare_tag
event_visible-private_example =
    event_visible-private (server_with (bob ∷ []) (got (some metadata))) (codes "relay") (codes "g")
      (codes "conn1") chat (some metadata) refl refl refl (λ e. cc) refl refl refl

event_visible-failed_example : event_visible (server_with [] failed) (codes "conn1") chat ≡ false
unfolding is_gift_wrap_kind event_tag_matches tag_wanted list_beq
event_visible-failed_example =
    event_visible-failed (server_with [] failed) (codes "relay") (codes "g") (codes "conn1") chat
      refl refl refl (λ e. cc) refl refl
