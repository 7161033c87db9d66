-- ===== src/Examples/Storing.antt =====
-- The tables of the store, on two versions of a profile and on a chat message.
use conduit_relay.Base.{
  ◌≡◌, refl, ◌↔◌, ◌⊎◌, inl, true, false, some, [], ◌∷◌, nat_eq, list_eq, list_beq, In, pos, int_eq,
  codes, text_compare, trim_space,
}
use conduit_relay.Nostr.Event.{Event}
use conduit_relay.Nostr.Kinds.{classify_kind, is_ephemeral}
use conduit_relay.Nostr.Filter.{
  listed, not_before, not_after, Filter, has_search, search_text, matches,
}
use conduit_relay.Store.{
  select_rows, order_rows, insert_row, filter_sql_limit, before_cursor, Row, Tables, to_row,
  extract_d_tag, same_coordinate, outdated, delete_rows, tag_rows_from, insert_event, save_event,
  where_filter,
}
use conduit_relay.Store.Coordinates.{Sound, save_event-Sound}
use conduit_relay.Store.Newer.{before, select_rows-newest}
use conduit_relay.Store.GroupQueries.{is_group_member, LatestPut, is_group_member_iff}
use conduit_relay.Store.Newest.{save_event-newest, Saved, Stale}
use conduit_relay.Store.Where.{save_event-selected}
use conduit_relay.Examples.Data.{alice, event_of, chat, any_filter}

abbrev new_profile : Event
new_profile = record (event_of (pos 0) []) { id = codes "e2"; created_at = pos 2000 }

abbrev stored : Tables
stored = record {
  rows =
      record {
        id = codes "e1";
        pubkey = alice;
        created_at = pos 1000;
        kind = pos 0;
        content = [];
        sig = [];
        d_tag = [];
      }
      ∷ [];
  tag_rows = [];
}

stored-Sound : Sound stored
stored-Sound = record { apart = (tt, tt); tags_owned = tt }

save_event-Sound_example : Sound (save_event (λ t. some []) new_profile stored).0
save_event-Sound_example = save_event-Sound (λ t. some []) new_profile stored stored-Sound

-- The new version is saved, and the old one is gone.
save_event-newest_example :
    Saved (λ t. some []) new_profile stored ⊎ Stale (λ t. some []) new_profile stored
unfolding save_event insert_event delete_rows same_coordinate outdated tag_rows_from to_row
    extract_d_tag classify_kind is_ephemeral list_beq text_compare
save_event-newest_example =
    save_event-newest (λ t. some []) new_profile stored stored-Sound refl (inl refl)

abbrev chat_filter : Filter
chat_filter = record any_filter { tag = (codes "#h", codes "g" ∷ []) ∷ [] }

save_event-selected_example :
    where_filter
      (save_event (λ t. some []) (record chat { id = codes "e3" }) stored).0.tag_rows
      chat_filter
      (to_row (record chat { id = codes "e3" }))
    ≡ matches chat_filter (record chat { id = codes "e3" })
unfolding save_event insert_event delete_rows tag_rows_from classify_kind is_ephemeral list_beq
    has_search search_text trim_space
save_event-selected_example =
    save_event-selected (λ t. some []) (record chat { id = codes "e3" }) stored chat_filter
      stored-Sound refl (tt, tt) (refl, tt) refl

abbrev row_of : Event → Row
row_of ev = record {
  id = ev.id;
  pubkey = ev.pub_key;
  created_at = ev.created_at;
  kind = ev.kind;
  content = [];
  sig = [];
  d_tag = [];
}

abbrev two_stored : Tables
two_stored = record { rows = row_of chat ∷ row_of new_profile ∷ []; tag_rows = [] }

abbrev newest_one : Filter
newest_one = record any_filter { limit = some (pos 1) }

-- Of the two rows the newer one is returned.
select_rows-newest_example :
    (In (row_of new_profile) two_stored.rows
      × (where_filter [] newest_one (row_of new_profile) ≡ true))
    × (In (row_of chat) (select_rows two_stored newest_one true)
        ⊎ (before (row_of chat) (row_of new_profile) ≡ false))
unfolding select_rows where_filter order_rows insert_row filter_sql_limit has_search search_text
    trim_space listed not_before not_after before_cursor list_beq text_compare
select_rows-newest_example =
    select_rows-newest two_stored newest_one true (row_of new_profile) (row_of chat) refl (inl refl)
      (inl refl) refl

-- The relay put alice into the group g.
abbrev with_member : Tables
with_member = record {
  rows = record (row_of chat) { pubkey = codes "relay"; kind = pos 9000 } ∷ [];
  tag_rows =
      record {
        event_id = codes "e1";
        position = 0;
        name = codes "h";
        value = codes "g";
        full_json = [];
      }
      ∷ record {
        event_id = codes "e1";
        position = 1;
        name = codes "p";
        value = alice;
        full_json = [];
      }
      ∷ [];
}

with_member-Sound : Sound with_member
unfolding list_beq
with_member-Sound = record { apart = (tt, tt); tags_owned = (refl, (refl, tt)) }

is_group_member_iff_example :
    (is_group_member with_member (codes "relay") (codes "g") alice ≡ true)
    ↔ ((r : Row) × LatestPut with_member (codes "relay") (codes "g") alice r)
is_group_member_iff_example =
    is_group_member_iff with_member (codes "relay") (codes "g") alice with_member-Sound
