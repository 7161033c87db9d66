-- ===== src/Relay/Req.antt =====
-- congee/internal/relay/req_query.go: the pages of the events that a REQ is first answered with. The
-- store is an interface. An error of the store ends the REQ, so the state is then of no use.
pub mod Keys
pub mod Page
pub mod Pages
use conduit_relay.Base.{
  Bool, true, false, not, ◌&&◌, ◌||◌, Option, none, some, List, [], ◌∷◌, ◌++◌, map, if◌then◌else◌,
  nat_eq, list_eq, length, select, any, contains, ℤ, pos, ◌-ℤ◌, ltb_ℤ, leb_ℤ, int_eq, Text,
}
use conduit_relay.Base.Assoc.{lookup, insert}
use conduit_relay.Nostr.Event.{Event, newer}
use conduit_relay.Nostr.Filter.{Filter, QueryCursor, has_search, search_text, without_search}
use conduit_relay.Relay.Groups.{Fetch, failed, got}

pub record EventStore : Type 0 where
  pub query_events : Filter → Fetch (List Event)
  pub search_events : Text → Filter → Fetch (List Event)

-- The two checks before the copy only save the copy: without a filter that lacks a limit, the copy
-- equals the original.
unfoldable pub apply_default_query_limit : List Filter → ℤ → List Filter
apply_default_query_limit filters default_limit =
    if leb_ℤ default_limit (pos 0)
    then filters
    else map
        (λ (f : Filter). record f {
          limit = elim f.limit [ none ↦ some default_limit | some n ↦ some n ];
        })
        filters

-- A `remaining` of 0 is no budget.
pub record FilterCursor : Type 0 where
  pub base : Filter
  pub cursor : Option QueryCursor
  pub remaining : ℤ
  pub exhausted : Bool

pub record ReqState : Type 0 where
  pub non_search : List FilterCursor
  pub search : List Filter
  pub seen : List Text
  pub search_done : Bool

abbrev pub budget : Option ℤ → ℤ
budget none = pos 0
budget (some n) = if ltb_ℤ (pos 0) n then n else pos 0

unfoldable pub new_req_query_state : List Filter → ℤ → Bool → ReqState
new_req_query_state filters default_limit search_enabled =
    let limited = apply_default_query_limit filters default_limit in
    record {
      non_search =
          map
            (λ (f : Filter). record {
              base = f;
              cursor = none;
              remaining = budget f.limit;
              exhausted = false;
            })
            (select (λ f. not (has_search f)) limited);
      search = if search_enabled then select has_search limited else [];
      seen = [];
      search_done = false;
    }

-- `pageByID`.
abbrev pub Page : Type 0
Page = List (Text × Event)

unfoldable pub add_events : List Event → Page → Page
add_events [] page = page
add_events (ev ∷ evs) page = add_events evs (insert ev.id ev page)

abbrev pub event_ids : List Event → List Text
event_ids [] = []
event_ids (ev ∷ evs) = ev.id ∷ event_ids evs

-- The first loop of `mergePageEvents`: what it appends to `out`, and `seen` after it.
unfoldable pub emit_search : Page → List Text → List Text → List Event × List Text
emit_search page [] seen = ([], seen)
emit_search page (id ∷ order) seen = elim (if contains seen id then none else lookup id page) [
  | none ↦ emit_search page order seen
  | some ev ↦ let (out, after) = emit_search page order (id ∷ seen) in (ev ∷ out, after)
]

-- `sort.Slice` by time, newest first, and by id.
unfoldable pub insert_sorted : Text × Event → Page → Page
insert_sorted (id, ev) [] = (id, ev) ∷ []
insert_sorted (id, ev) ((j, e) ∷ rest) =
    let later = insert_sorted (id, ev) rest in
    if newer e.created_at e.id ev.created_at ev.id then (j, e) ∷ later else (id, ev) ∷ (j, e) ∷ rest

unfoldable pub sort_page : Page → Page
sort_page [] = []
sort_page (kv ∷ rest) = insert_sorted kv (sort_page rest)

-- The last loop.
unfoldable pub emit_all : Page → List Text → List Event × List Text
emit_all [] seen = ([], seen)
emit_all ((id, ev) ∷ rest) seen = let (out, after) = emit_all rest (id ∷ seen) in (ev ∷ out, after)

unfoldable pub merge_page_events : Page → List Text → List Text → List Event × List Text
merge_page_events page search_order seen =
    let (found, seen_found) = emit_search page search_order seen in
    let unseen = select (λ (kv : Text × Event). not (contains seen_found kv.0)) page in
    let (rest, after) = emit_all (sort_page unseen) seen_found in (found ++ rest, after)

abbrev pub last_cursor : Option QueryCursor → List Event → Option QueryCursor
last_cursor c [] = c
last_cursor c (ev ∷ evs) =
    last_cursor (some (record { created_at = ev.created_at; id = ev.id })) evs

abbrev pub page_limit : ℤ → ℤ → ℤ
page_limit page_size remaining =
    if ltb_ℤ (pos 0) remaining && ltb_ℤ remaining page_size then remaining else page_size

-- The cursor after its query returned the events.
unfoldable pub advance : ℤ → List Event → FilterCursor → FilterCursor
advance lim evs fc =
    let n = pos (length evs) in
    let left = if ltb_ℤ (pos 0) fc.remaining then fc.remaining -ℤ n else fc.remaining in
    record fc {
      cursor = last_cursor fc.cursor evs;
      remaining = left;
      exhausted = (ltb_ℤ (pos 0) fc.remaining && leb_ℤ left (pos 0)) || ltb_ℤ n lim || fc.exhausted;
    }

unfoldable pub page_query : ℤ → FilterCursor → Filter
page_query page_size fc = record fc.base {
  limit = some (page_limit page_size fc.remaining);
  cursor = fc.cursor;
}

abbrev pub is_empty : {A : Type 0} → List A → Bool
is_empty [] = true
is_empty (x ∷ xs) = false

-- What `fetchREQPage` returns, and the state after it.
pub record Answer : Type 0 where
  pub events : List Event
  pub has_more : Bool
  pub state : ReqState

unfoldable pub answer : ReqState → Bool → List Text → Page × List FilterCursor → Answer
answer st paged order (page, cursors) =
    let (out, seen) = merge_page_events page order st.seen in
    record {
      events = out;
      has_more = paged && any (λ (fc : FilterCursor). not fc.exhausted) cursors;
      state = record st { non_search = cursors; seen = seen; search_done = true };
    }

module _ (store : EventStore) where
  -- The loop over the search filters: the page and `searchOrder`.
  unfoldable pub run_searches : List Filter → Page → List Text → Fetch (Page × List Text)
  run_searches [] page order = got (page, order)
  run_searches (f ∷ fs) page order = elim (store.search_events (search_text f) (without_search f)) [
    | failed ↦ failed
    | got evs ↦ run_searches fs (add_events evs page) (order ++ event_ids evs)
  ]

  -- `none` is no budget on the page: the legacy `fetchREQAll`.
  unfoldable pub run_all : List FilterCursor → Page → Fetch (Page × List FilterCursor)
  run_all [] page = got (page, [])
  run_all (fc ∷ fcs) page = elim (store.query_events fc.base) [
    | failed ↦ failed
    | got evs ↦ elim (run_all fcs (add_events evs page)) [
      | failed ↦ failed
      | got (after, rest) ↦ got (after, record fc { exhausted = true } ∷ rest)
    ]
  ]

  unfoldable pub run_page : ℤ → List FilterCursor → Page → Fetch (Page × List FilterCursor)
  run_page page_size [] page = got (page, [])
  run_page page_size (fc ∷ fcs) page =
      elim (if fc.exhausted then got [] else store.query_events (page_query page_size fc)) [
        | failed ↦ failed
        | got evs ↦ elim (run_page page_size fcs (add_events evs page)) [
          | failed ↦ failed
          | got (after, rest) ↦
              let moved = advance (page_limit page_size fc.remaining) evs fc in
              got (after, (if fc.exhausted then fc else moved) ∷ rest)
        ]
      ]

  unfoldable pub fetch_req_all : ReqState → Fetch Answer
  fetch_req_all st = elim (run_searches st.search [] []) [
    | failed ↦ failed
    | got (page, order) ↦ elim (run_all st.non_search page) [
      | failed ↦ failed
      | got r ↦ got (answer st false order r)
    ]
  ]

  unfoldable pub fetch_req_page : ℤ → ReqState → Fetch Answer
  fetch_req_page page_size st =
      if leb_ℤ page_size (pos 0)
      then fetch_req_all st
      else if is_empty st.non_search && is_empty st.search
      then got (record { events = []; has_more = false; state = st })
      else elim (run_searches (if st.search_done then [] else st.search) [] []) [
        | failed ↦ failed
        | got (page, order) ↦ elim (run_page page_size st.non_search page) [
          | failed ↦ failed
          | got r ↦ got (answer st true order r)
        ]
      ]
