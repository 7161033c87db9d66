-- ===== src/Relay/Groups/Visible.antt =====
-- congee/internal/relay/nip29.go: who may read the events of a group and gift wraps.
use conduit_relay.Base.{
  ◌≡◌, refl, ◌≢◌, ◌↔◌, ◌⊎◌, inl, inr, Bool, true, false, Option, some, List, [], ◌∷◌, arith,
  Bool-cases, Option-cases, nat_eq, list_eq, list_beq_iff, In, int_eq, Text, codes,
}
use conduit_relay.Base.Assoc.{lookup}
use conduit_relay.Nostr.Event.{Event}
use conduit_relay.Nostr.Filter.{event_tag_matches}
use conduit_relay.Nostr.Groups.{group_h_tag, group_h_tags_valid, metadata_is_private}
use conduit_relay.Nostr.Groups.HTag.{group_h_tag_selected}
use conduit_relay.Relay.Config.{nip_on}
use conduit_relay.Relay.Auth.{AuthState, authed_pubkeys, current_auth_pubkey}
use conduit_relay.Relay.GiftWrap.{is_gift_wrap_kind}
use conduit_relay.Relay.GiftWrap.Recipient.{SoleRecipient, gift_wrap_visible_iff}
use conduit_relay.Relay.Groups.{
  Fetch, failed, got, Fetch-cases, Server, some_member, private_visible, group_visible,
  event_visible,
}

some_member_found :
    (member : Text → Fetch Bool) (pks : List Text)
    → some_member member pks ≡ true
    → (pk : Text) × In pk pks × (member pk ≡ got true)
unfolding some_member
some_member_found member [] h = cc
some_member_found member (p ∷ pks) h = elim (Fetch-cases (member p)) [
  | inl e ↦ let (pk, m, k) = some_member_found member pks (ground (arith, e)) in (pk, inr m, k)
  | inr (true, e) ↦ (p, inl refl, e)
  | inr (false, e) ↦
      let (pk, m, k) = some_member_found member pks (ground (arith, e)) in (pk, inr m, k)
]

some_member_finds :
    (member : Text → Fetch Bool) (pks : List Text) (pk : Text)
    → In pk pks
    → member pk ≡ got true
    → some_member member pks ≡ true
unfolding some_member
some_member_finds member [] pk m e = absurd m
some_member_finds member (p ∷ pks) pk (inl i) e = rw (← i) (ground (arith, e))
some_member_finds member (p ∷ pks) pk (inr m) e = elim (Fetch-cases (member p)) [
  | inl k ↦ ground (arith, k, some_member_finds member pks pk m e)
  | inr (true, k) ↦ ground (arith, k)
  | inr (false, k) ↦ ground (arith, k, some_member_finds member pks pk m e)
]

-- A connection is live, and one of its authenticated keys is a member of the group.
abbrev pub MemberOn : Server → Text → Text → Text → Type 0
MemberOn s rpk h conn_id =
    (c : AuthState) × (lookup conn_id s.conns ≡ some c)
    × ((pk : Text) × In pk (authed_pubkeys c) × (s.store.member rpk h pk ≡ got true))

private_visible_iff :
    (s : Server) (rpk h conn_id : Text)
    → (private_visible s rpk h conn_id ≡ true) ↔ MemberOn s rpk h conn_id
unfolding private_visible
private_visible_iff s rpk h conn_id = (
  λ k. elim (Option-cases (lookup conn_id s.conns)) [
    | inl e ↦ ground (arith, e)
    | inr (c, e) ↦
        (c, e, some_member_found (s.store.member rpk h) (authed_pubkeys c) (ground (arith, e)))
  ],
  λ (c, e, (pk, m, k)).
      ground (arith, e, some_member_finds (s.store.member rpk h) (authed_pubkeys c) pk m k),
)

-- A gift wrap is shown on a connection only if NIP-17 is on and the connection is live with the sole
-- recipient of the gift wrap as its current authenticated key; with valid h tags, also if.
pub event_visible-gift_wrap :
    (s : Server) (conn_id : Text) (ev : Event)
    → is_gift_wrap_kind ev.kind ≡ true
    → (event_visible s conn_id ev ≡ true) ↔ (
        (nip_on 17 s.cfg ≡ true)
        × ((nip_on 29 s.cfg ≡ false) ⊎ (group_h_tags_valid ev ≡ true))
        × ((c : AuthState) × (lookup conn_id s.conns ≡ some c)
            × SoleRecipient ev (current_auth_pubkey c)))
unfolding event_visible
event_visible-gift_wrap s conn_id ev g = (
  λ h. (
    ground (arith, g),
    ground (arith, g),
    (gift_wrap_visible_iff s.conns conn_id ev).0 (ground (arith, g)),
  ),
  λ (on, tags, seen). ground (arith, g, (gift_wrap_visible_iff s.conns conn_id ev).1 seen),
)

module _ (s : Server) (rpk g conn_id : Text) (ev : Event) where
  -- If NIP-29 is on with a relay identity and an event that is no gift wrap can be selected by the
  -- group g, whose metadata marks it private, then the event is shown on a connection exactly when it
  -- names no second group, and the connection is live with an authenticated key that is a member.
  pub event_visible-private :
      (md : Option Event)
      → nip_on 29 s.cfg ≡ true
      → s.relay_id ≡ some rpk
      → is_gift_wrap_kind ev.kind ≡ false
      → g ≢ []
      → event_tag_matches ev.tags (codes "h") (g ∷ []) ≡ true
      → s.store.metadata rpk g ≡ got md
      → metadata_is_private md ≡ true
      → (event_visible s conn_id ev ≡ true)
        ↔ ((group_h_tags_valid ev ≡ true) × MemberOn s rpk g conn_id)
  unfolding event_visible group_visible
  event_visible-private md on id plain ne sel fetched priv =
      elim (Bool-cases (group_h_tags_valid ev)) [
        | inr bad ↦ ground (arith, bad)
        | inl valid ↦
            let named = group_h_tag_selected ev g valid ne sel in
            (
              λ h. (
                valid,
                (private_visible_iff s rpk g conn_id).0
                    (ground (arith, named, list_beq_iff (group_h_tag ev) [])),
              ),
              λ (_, m). ground (
                arith,
                named,
                list_beq_iff (group_h_tag ev) [],
                (private_visible_iff s rpk g conn_id).1 m,
              ),
            )
      ]

  -- If NIP-29 is on with a relay identity and the metadata of the group g cannot be read, then no event
  -- that can be selected by g and is no gift wrap is shown.
  pub event_visible-failed :
      nip_on 29 s.cfg ≡ true
      → s.relay_id ≡ some rpk
      → is_gift_wrap_kind ev.kind ≡ false
      → g ≢ []
      → event_tag_matches ev.tags (codes "h") (g ∷ []) ≡ true
      → s.store.metadata rpk g ≡ failed
      → event_visible s conn_id ev ≡ false
  unfolding event_visible group_visible
  event_visible-failed on id plain ne sel fetched = elim (Bool-cases (group_h_tags_valid ev)) [
    | inr bad ↦ ground (arith, bad)
    | inl valid ↦
        ground
          (arith, valid, group_h_tag_selected ev g valid ne sel, list_beq_iff (group_h_tag ev) [])
  ]
