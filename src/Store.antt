-- ===== src/Store.antt =====
-- congee/internal/storage/sqlevent/store.go: the tables of events and of their tags, `SaveEvent`,
-- `DeleteEvent` and the rows that a filter selects. A statement of SQL is its effect on the lists of
-- rows: the primary key of `events` refuses a second row with an id, and the tags of a deleted row are
-- deleted with it (ON DELETE CASCADE). A transaction that fails leaves the tables as they were.
pub mod Coordinates
pub mod Newest
pub mod Where
pub mod Newer
pub mod GroupQueries
use conduit_relay.Base.{
  ℕ, ◌+◌, Bool, true, false, not, ◌&&◌, Option, none, some, List, [], ◌∷◌, ◌++◌, if◌then◌else◌,
  ◌==◌, nat_eq, list_eq, take, drop, select, any, all, contains, ℤ, pos, pos_part, ltb_ℤ, int_eq,
  Text, codes,
}
use conduit_relay.Nostr.Event.{Event, newer}
use conduit_relay.Nostr.Kinds.{KindClass, classify_kind, is_ephemeral}
use conduit_relay.Nostr.Filter.{Filter, QueryCursor, has_search, listed, not_before, not_after}

pub record Row : Type 0 where
  pub id : Text
  pub pubkey : Text
  pub created_at : ℤ
  pub kind : ℤ
  pub content : Text
  pub sig : Text
  pub d_tag : Text

pub record TagRow : Type 0 where
  pub event_id : Text
  pub position : ℕ
  pub name : Text
  pub value : Text
  pub full_json : Text

pub record Tables : Type 0 where
  pub rows : List Row
  pub tag_rows : List TagRow

pub data SaveError : Type 0 where
  ephemeral_event stale_replaceable duplicate_id bad_tag : SaveError

unfoldable pub extract_d_tag : List (List Text) → Text
extract_d_tag [] = []
extract_d_tag (t ∷ tags) =
    let rest = extract_d_tag tags in
    elim t [
      | [] ↦ rest
      | n ∷ vs ↦ if n == codes "d" then (elim vs [ [] ↦ [] | v ∷ _ ↦ v ]) else rest
    ]

unfoldable pub to_row : Event → Row
to_row ev = record {
  id = ev.id;
  pubkey = ev.pub_key;
  created_at = ev.created_at;
  kind = ev.kind;
  content = ev.content;
  sig = ev.sig;
  d_tag = extract_d_tag ev.tags;
}

-- Whether an event of the class takes the place of others, `conditionalInsert`.
abbrev pub replaces : KindClass → Bool
replaces KindClass.replaceable = true
replaces KindClass.addressable = true
replaces KindClass.regular = false
replaces KindClass.ephemeral = false

abbrev pub same_d_tag : KindClass → Row → Row → Bool
same_d_tag KindClass.addressable new r = r.d_tag == new.d_tag
same_d_tag KindClass.replaceable new r = true
same_d_tag KindClass.regular new r = true
same_d_tag KindClass.ephemeral new r = true

-- `pubkey = ? AND kind = ?`, with `AND d_tag = ?` for an addressable event.
unfoldable pub same_coordinate : KindClass → Row → Row → Bool
same_coordinate class new r = r.pubkey == new.pubkey && r.kind == new.kind && same_d_tag class new r

-- `created_at < ? OR (created_at = ? AND id > ?)`.
unfoldable pub outdated : Row → Row → Bool
outdated new r = newer new.created_at new.id r.created_at r.id

unfoldable pub delete_rows : (Row → Bool) → Tables → Tables
delete_rows p t = record {
  rows = select (λ r. not (p r)) t.rows;
  tag_rows =
      select (λ (g : TagRow). not (any (λ (r : Row). p r && r.id == g.event_id) t.rows)) t.tag_rows;
}

-- The rows of the tags from position `i` on; `none` if a tag cannot be marshalled.
unfoldable pub tag_rows_from :
    (List Text → Option Text) → Text → ℕ → List (List Text) → Option (List TagRow)
tag_rows_from marshal id i [] = some []
tag_rows_from marshal id i (t ∷ tags) =
    let rest = tag_rows_from marshal id (i + 1) tags in
    elim (marshal t) [
      | none ↦ none
      | some full ↦ elim rest [
        | none ↦ none
        | some gs ↦ some (
            record {
              event_id = id;
              position = i;
              name = elim t [ [] ↦ [] | n ∷ _ ↦ n ];
              value = elim t [ [] ↦ [] | _ ∷ vs ↦ elim vs [ [] ↦ [] | v ∷ _ ↦ v ] ];
              full_json = full;
            }
            ∷ gs)
      ]
    ]

abbrev pub has_id : Text → Row → Bool
has_id id r = r.id == id

unfoldable pub has_event_id : Tables → Text → Bool
has_event_id t id = any (has_id id) t.rows

-- The inserts at the end of the transaction: `old` are the tables before it, `t` those now.
unfoldable pub insert_event :
    (List Text → Option Text) → Tables → Tables → Event → Tables × Option SaveError
insert_event marshal old t ev =
    if any (has_id ev.id) t.rows
    then (old, some SaveError.duplicate_id)
    else elim (tag_rows_from marshal ev.id 0 ev.tags) [
      | none ↦ (old, some SaveError.bad_tag)
      | some gs ↦ (record { rows = to_row ev ∷ t.rows; tag_rows = gs ++ t.tag_rows }, none)
    ]

-- `marshal` is `json.Marshal` on a tag.
unfoldable pub save_event : (List Text → Option Text) → Event → Tables → Tables × Option SaveError
save_event marshal ev t =
    let class = classify_kind ev.kind in
    let new = to_row ev in
    let kept = delete_rows (λ r. same_coordinate class new r && outdated new r) t in
    if is_ephemeral ev.kind
    then (t, some SaveError.ephemeral_event)
    else if not (replaces class)
    then insert_event marshal t t ev
    else if any (same_coordinate class new) kept.rows
    then (t, some SaveError.stale_replaceable)
    else insert_event marshal t kept ev

unfoldable pub delete_event : Text → Tables → Tables
delete_event id t = record {
  rows = select (λ r. not (has_id id r)) t.rows;
  tag_rows = select (λ (g : TagRow). not (g.event_id == id)) t.tag_rows;
}

-- `applyFilterQuery`: one condition for each part of the filter that is set.
unfoldable pub before_cursor : Option QueryCursor → Row → Bool
before_cursor none r = true
before_cursor (some c) r = newer c.created_at c.id r.created_at r.id

-- `id IN (SELECT event_id FROM event_tags WHERE name = ? AND value IN (?))`; the name is `key[1:]`.
unfoldable pub tag_selected : List TagRow → Text → Text × List Text → Bool
tag_selected gs id (key, []) = false
tag_selected gs id (key, v ∷ vs) =
    any (λ (g : TagRow). g.event_id == id && g.name == drop 1 key && contains (v ∷ vs) g.value) gs

unfoldable pub where_filter : List TagRow → Filter → Row → Bool
where_filter gs f r =
    listed f.ids r.id
    && listed f.authors r.pubkey
    && listed f.kinds r.kind
    && not_before f.since r.created_at
    && not_after f.until r.created_at
    && before_cursor f.cursor r
    && all (tag_selected gs r.id) f.tag

-- `ORDER BY created_at DESC, id ASC`.
unfoldable pub insert_row : Row → List Row → List Row
insert_row r [] = r ∷ []
insert_row r (x ∷ xs) =
    let rest = insert_row r xs in
    if newer x.created_at x.id r.created_at r.id then x ∷ rest else r ∷ x ∷ xs

unfoldable pub order_rows : List Row → List Row
order_rows [] = []
order_rows (r ∷ rs) = insert_row r (order_rows rs)

-- storage/filter_sql_limit.go
unfoldable pub filter_sql_limit : Filter → Bool → Option ℕ
filter_sql_limit f apply_limits =
    if not apply_limits
    then none
    else elim f.limit [ none ↦ none | some n ↦ if ltb_ℤ (pos 0) n then some (pos_part n) else none ]

unfoldable pub select_rows : Tables → Filter → Bool → List Row
select_rows t f apply_limits =
    if has_search f
    then []
    else (let rows = order_rows (select (where_filter t.tag_rows f) t.rows) in
        elim (filter_sql_limit f apply_limits) [ none ↦ rows | some n ↦ take n rows ])
