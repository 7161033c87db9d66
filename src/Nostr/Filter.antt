-- ===== src/Nostr/Filter.antt =====
-- congee/internal/nostr/filter.go: the filter of a REQ and the events that it matches. The pointers
-- that `Matches` tests for nil are values here.
pub mod Accepts
use conduit_relay.Base.{
  Bool, true, false, not, ◌&&◌, ◌||◌, Option, none, some, List, [], ◌∷◌, Eq, ◌==◌, nat_eq, list_eq,
  list_beq, any, all, contains, ℤ, ltb_ℤ, beq_ℤ, int_eq, Text, codes, text_leb, trim_space,
  trim_prefix,
}
use conduit_relay.Nostr.Event.{Event, newer}

pub record QueryCursor : Type 0 where
  pub created_at : ℤ
  pub id : Text

pub record Filter : Type 0 where
  pub cursor : Option QueryCursor
  pub ids : List Text
  pub authors : List Text
  pub kinds : List ℤ
  pub since : Option ℤ
  pub until : Option ℤ
  pub limit : Option ℤ
  pub search : Option Text
  pub tag : List (Text × List Text)

abbrev pub ptr_str : Option Text → Text
ptr_str none = []
ptr_str (some s) = s

unfoldable pub search_text : Filter → Text
unfolding trim_space
search_text f = trim_space (ptr_str f.search)

unfoldable pub has_search : Filter → Bool
unfolding search_text
has_search f = not (list_beq (search_text f) [])

unfoldable pub without_search : Filter → Filter
without_search f = record f { search = none }

-- A tag with the name whose first value is among the wanted ones.
unfoldable pub tag_wanted : Text → List Text → List Text → Bool
tag_wanted name want [] = false
tag_wanted name want (n ∷ []) = false
tag_wanted name want (n ∷ v ∷ rest) = n == name && contains want v

unfoldable pub event_tag_matches : List (List Text) → Text → List Text → Bool
unfolding tag_wanted
event_tag_matches tags name want = any (tag_wanted name want) tags

-- An empty list of a filter sets no condition.
unfoldable pub listed : {A : Type 0} ⦃e : Eq A⦄ → List A → A → Bool
listed [] a = true
listed (x ∷ xs) a = contains (x ∷ xs) a

unfoldable pub not_before : Option ℤ → ℤ → Bool
not_before none t = true
not_before (some s) t = not (ltb_ℤ t s)

unfoldable pub not_after : Option ℤ → ℤ → Bool
not_after none t = true
not_after (some u) t = not (ltb_ℤ u t)

unfoldable pub past_cursor : Option QueryCursor → Event → Bool
past_cursor none e = true
past_cursor (some c) e =
    not (ltb_ℤ c.created_at e.created_at || (beq_ℤ e.created_at c.created_at && text_leb e.id c.id))

unfoldable pub tag_condition : List (List Text) → Text × List Text → Bool
unfolding event_tag_matches trim_prefix
tag_condition tags (key, []) = false
tag_condition tags (key, v ∷ vs) = event_tag_matches tags (trim_prefix key (codes "#")) (v ∷ vs)

unfoldable pub matches : Filter → Event → Bool
matches f e =
    not (has_search f)
    && listed f.ids e.id
    && listed f.authors e.pub_key
    && listed f.kinds e.kind
    && not_before f.since e.created_at
    && not_after f.until e.created_at
    && past_cursor f.cursor e
    && all (tag_condition e.tags) f.tag

-- relay/subscription.go: an event matches a list of filters if it matches one of them.
unfoldable pub filters_match : List Filter → Event → Bool
filters_match fs e = any (λ f. matches f e) fs
