-- ===== src/Nostr/Groups/HTag.antt =====
-- congee/internal/nostr/nip29.go: the group that an event names in its h tags.
use conduit_relay.Base.{
  ◌≡◌, refl, ◌≢◌, true, false, some, List, [], ◌∷◌, arith, nat_eq, list_eq, list_beq_iff, int_eq,
  Text, codes,
}
use conduit_relay.Nostr.Filter.{tag_wanted, event_tag_matches}
use conduit_relay.Nostr.Event.{Event}
use conduit_relay.Nostr.Groups.{
  named_value, h_tags_valid_from, group_h_tags_valid, first_h_tag, group_h_tag,
}

named_value_wanted :
    (name g : Text) (t : List Text)
    → g ≢ []
    → tag_wanted name (g ∷ []) t ≡ true
    → named_value name t ≡ some g
unfolding tag_wanted named_value
named_value_wanted name g [] ne h = cc
named_value_wanted name g (n ∷ []) ne h = cc
named_value_wanted name g (n ∷ [] ∷ rest) ne h = ground (arith, list_beq_iff g [])
named_value_wanted name g (n ∷ (c ∷ v) ∷ rest) ne h =
    ground (arith, list_beq_iff n name, list_beq_iff g (c ∷ v))

-- After one h tag the rest of a valid event has none.
no_second_h_tag :
    (tags : List (List Text)) (g : Text)
    → h_tags_valid_from true tags ≡ true
    → g ≢ []
    → event_tag_matches tags (codes "h") (g ∷ []) ≡ false
unfolding event_tag_matches h_tags_valid_from
no_second_h_tag [] g h ne = refl
no_second_h_tag (t ∷ tags) g h ne =
    ground (arith, named_value_wanted (codes "h") g t ne, no_second_h_tag tags g)

h_tag_unique_from :
    (tags : List (List Text)) (g : Text)
    → h_tags_valid_from false tags ≡ true
    → g ≢ []
    → event_tag_matches tags (codes "h") (g ∷ []) ≡ true
    → first_h_tag tags ≡ g
unfolding event_tag_matches h_tags_valid_from first_h_tag
h_tag_unique_from [] g h ne m = cc
h_tag_unique_from (t ∷ tags) g h ne m =
    ground (
      arith,
      named_value_wanted (codes "h") g t ne,
      no_second_h_tag tags g,
      h_tag_unique_from tags g,
    )

-- If an event passes the test of its h tags, then any group by which a filter can select it is the
-- group that `NIP29GroupHTag` returns, whose read and write policy the relay applies.
pub group_h_tag_selected :
    (ev : Event) (g : Text)
    → group_h_tags_valid ev ≡ true
    → g ≢ []
    → event_tag_matches ev.tags (codes "h") (g ∷ []) ≡ true
    → group_h_tag ev ≡ g
unfolding group_h_tags_valid group_h_tag
group_h_tag_selected ev g h ne m = h_tag_unique_from ev.tags g h ne m
