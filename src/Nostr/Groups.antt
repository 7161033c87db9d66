-- ===== src/Nostr/Groups.antt =====
-- congee/internal/nostr/nip29.go: the group tags of NIP-29 and the marks of group metadata. An
-- event pointer that the source tests for nil is an Option where its callers may pass nil.
pub mod HTag
use conduit_relay.Base.{
  Bool, true, false, not, ◌&&◌, ◌||◌, Option, none, some, List, [], ◌∷◌, nat_beq, if◌then◌else◌,
  ◌==◌, nat_eq, list_eq, list_beq, length, any, ℤ, pos, leb_ℤ, int_eq, Text, codes, trim_space,
  hex_decodes, to_lower,
}
use conduit_relay.Nostr.Event.{Event}

abbrev pub kind_group_metadata : ℤ
kind_group_metadata = pos 39000

abbrev pub kind_group_admins : ℤ
kind_group_admins = pos 39001

abbrev pub kind_put_user : ℤ
kind_put_user = pos 9000

abbrev pub kind_remove_user : ℤ
kind_remove_user = pos 9001

abbrev pub kind_create_group : ℤ
kind_create_group = pos 9007

abbrev pub kind_delete_group : ℤ
kind_delete_group = pos 9008

abbrev pub kind_join_request : ℤ
kind_join_request = pos 9021

abbrev pub kind_leave_req : ℤ
kind_leave_req = pos 9022

-- The value of a tag with the name, if the tag has a second entry that is not empty.
unfoldable pub named_value : Text → List Text → Option Text
named_value name [] = none
named_value name (n ∷ []) = none
named_value name (n ∷ [] ∷ rest) = none
named_value name (n ∷ (c ∷ v) ∷ rest) = if n == name then some (c ∷ v) else none

-- The loop of `NIP29GroupHTagsValid`; the flag is `found`.
unfoldable pub h_tags_valid_from : Bool → List (List Text) → Bool
h_tags_valid_from found [] = true
h_tags_valid_from found (t ∷ tags) =
    let kept = h_tags_valid_from found tags in
    let after = h_tags_valid_from true tags in
    elim (named_value (codes "h") t) [ none ↦ kept | some v ↦ if found then false else after ]

unfoldable pub group_h_tags_valid : Event → Bool
unfolding h_tags_valid_from named_value
group_h_tags_valid ev = h_tags_valid_from false ev.tags

unfoldable pub first_h_tag : List (List Text) → Text
first_h_tag [] = []
first_h_tag (t ∷ tags) =
    let rest = first_h_tag tags in elim (named_value (codes "h") t) [ none ↦ rest | some v ↦ v ]

unfoldable pub group_h_tag : Event → Text
unfolding first_h_tag named_value
group_h_tag ev = first_h_tag ev.tags

unfoldable pub previous_values : List (List Text) → List Text
unfolding named_value
previous_values [] = []
previous_values (t ∷ tags) =
    let rest = previous_values tags in
    elim (named_value (codes "previous") t) [ none ↦ rest | some v ↦ v ∷ rest ]

unfoldable pub previous_tag_values : Event → List Text
unfolding previous_values
previous_tag_values ev = previous_values ev.tags

unfoldable pub is_valid_previous_prefix : Text → Bool
unfolding trim_space to_lower hex_decodes
is_valid_previous_prefix s =
    let low = trim_space (to_lower s) in nat_beq (length low) 8 && hex_decodes low

unfoldable pub is_moderation_kind : ℤ → Bool
is_moderation_kind k = leb_ℤ (pos 9000) k && leb_ℤ k (pos 9020)

abbrev pub has_name : Text → List Text → Bool
has_name name [] = false
has_name name (n ∷ rest) = n == name

unfoldable pub metadata_has_bare_tag : Event → Text → Bool
metadata_has_bare_tag ev [] = false
metadata_has_bare_tag ev (c ∷ name) = any (has_name (c ∷ name)) ev.tags

abbrev marked : Text → Option Event → Bool
marked name none = false
marked name (some md) = md.kind == kind_group_metadata && metadata_has_bare_tag md name

unfoldable pub metadata_is_private : Option Event → Bool
unfolding metadata_has_bare_tag
metadata_is_private = marked (codes "private")

unfoldable pub metadata_is_restricted : Option Event → Bool
unfolding metadata_has_bare_tag
metadata_is_restricted = marked (codes "restricted")

unfoldable pub metadata_is_closed : Option Event → Bool
unfolding metadata_has_bare_tag
metadata_is_closed = marked (codes "closed")

-- `equal_fold` is `strings.EqualFold`, whose tables are Go's.
module _ (equal_fold : Text → Text → Bool) where
  unfoldable pub names_pubkey : Text → List Text → Bool
  names_pubkey want [] = false
  names_pubkey want (n ∷ []) = false
  names_pubkey want (n ∷ v ∷ rest) = n == codes "p" && equal_fold (trim_space v) want

  unfoldable pub admins_contain : Option Event → Text → Bool
  unfolding names_pubkey trim_space
  admins_contain none pubkey = false
  admins_contain (some admins) pubkey =
      if not (admins.kind == kind_group_admins) || list_beq pubkey []
      then false
      else if list_beq (trim_space pubkey) []
      then false
      else any (names_pubkey (trim_space pubkey)) admins.tags
