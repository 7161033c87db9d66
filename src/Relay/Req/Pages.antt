-- ===== src/Relay/Req/Pages.antt =====
-- All the pages of a REQ.
use conduit_relay.Base.{
  ◌≡◌, subst, inl, inr, Bool, true, false, ◌&&◌, List, [], ◌∷◌, ◌++◌, arith, if◌then◌else◌,
  Bool-cases, nat_eq, list_eq, ℤ, pos, leb_ℤ, int_eq, Text,
}
use conduit_relay.Nostr.Filter.{Filter, search_text, without_search}
use conduit_relay.Relay.Groups.{got, Fetch-cases}
use conduit_relay.Relay.Req.{
  EventStore, FilterCursor, ReqState, new_req_query_state, Page, add_events, event_ids,
  run_searches, run_all, run_page, page_query, Answer, answer, fetch_req_all, fetch_req_page,
  is_empty,
}
use conduit_relay.Relay.Req.Keys.{WellKeyed, Distinct, add_events-WellKeyed}
use conduit_relay.Relay.Req.Page.{Sends, Sends-append, merge_page_events-Sends}

-- The fetches of one REQ, with the ids of the events that they returned.
pub data Pages (store : EventStore) (page_size : ℤ) : ReqState → List Text → Type 0 where
  begin :
      (filters : List Filter) (limit : ℤ) (search : Bool)
      → Pages store page_size (new_req_query_state filters limit search) []
  next_page :
      {st : ReqState} {ids : List Text} (a : Answer)
      → Pages store page_size st ids
      → fetch_req_page store page_size st ≡ got a
      → Pages store page_size a.state (ids ++ event_ids a.events)

module _ (store : EventStore) where
  run_searches-WellKeyed :
      (fs : List Filter) (page after : Page) (order out : List Text)
      → WellKeyed page
      → run_searches store fs page order ≡ got (after, out)
      → WellKeyed after
  unfolding run_searches
  run_searches-WellKeyed [] page after order out w h = subst WellKeyed (ground arith) w
  run_searches-WellKeyed (f ∷ fs) page after order out w h =
      elim (Fetch-cases (store.search_events (search_text f) (without_search f))) [
        | inl e ↦ ground (arith, e)
        | inr (evs, e) ↦
            run_searches-WellKeyed fs (add_events evs page) after (order ++ event_ids evs) out
              (add_events-WellKeyed evs page w) (ground (arith, e, h))
      ]

  run_all-WellKeyed :
      (fcs : List FilterCursor) (page after : Page) (rest : List FilterCursor)
      → WellKeyed page
      → run_all store fcs page ≡ got (after, rest)
      → WellKeyed after
  unfolding run_all
  run_all-WellKeyed [] page after rest w h = subst WellKeyed (ground arith) w
  run_all-WellKeyed (fc ∷ fcs) page after rest w h =
      elim (Fetch-cases (store.query_events fc.base)) [
        | inl e ↦ ground (arith, e)
        | inr (evs, e) ↦ elim (Fetch-cases (run_all store fcs (add_events evs page))) [
          | inl k ↦ ground (arith, e, k)
          | inr ((p, more), k) ↦
              run_all-WellKeyed fcs (add_events evs page) after more
                (add_events-WellKeyed evs page w) (ground (arith, e, k))
        ]
      ]

  run_page-WellKeyed :
      (page_size : ℤ) (fcs : List FilterCursor) (page after : Page) (rest : List FilterCursor)
      → WellKeyed page
      → run_page store page_size fcs page ≡ got (after, rest)
      → WellKeyed after
  unfolding run_page
  run_page-WellKeyed n [] page after rest w h = subst WellKeyed (ground arith) w
  run_page-WellKeyed n (fc ∷ fcs) page after rest w h =
      elim (Fetch-cases (if fc.exhausted then got [] else store.query_events (page_query n fc))) [
        | inl e ↦ ground (arith, e)
        | inr (evs, e) ↦ elim (Fetch-cases (run_page store n fcs (add_events evs page))) [
          | inl k ↦ ground (arith, e, k)
          | inr ((p, more), k) ↦
              run_page-WellKeyed n fcs (add_events evs page) after more
                (add_events-WellKeyed evs page w) (ground (arith, e, k))
        ]
      ]

  answer-Sends :
      (st : ReqState) (paged : Bool) (order : List Text) (page : Page) (fcs : List FilterCursor)
      → WellKeyed page
      → let a = answer st paged order (page, fcs) in Sends st.seen (event_ids a.events) a.state.seen
  unfolding answer
  answer-Sends st paged order page fcs w = merge_page_events-Sends page order st.seen w

  no_events : WellKeyed []
  no_events = record { keyed = tt; once = tt }

  fetch_req_all-Sends :
      (st : ReqState) (a : Answer)
      → fetch_req_all store st ≡ got a
      → Sends st.seen (event_ids a.events) a.state.seen
  unfolding fetch_req_all
  fetch_req_all-Sends st a h = elim (Fetch-cases (run_searches store st.search [] [])) [
    | inl e ↦ ground (arith, e)
    | inr ((page, order), e) ↦ elim (Fetch-cases (run_all store st.non_search page)) [
      | inl k ↦ ground (arith, e, k)
      | inr ((after, fcs), k) ↦
          let same : answer st false order (after, fcs) ≡ a = ground (arith, e, k) in
          subst (λ (b : Answer). Sends st.seen (event_ids b.events) b.state.seen) same
            (answer-Sends st false order after fcs (
              run_all-WellKeyed st.non_search page after fcs
                (run_searches-WellKeyed st.search [] page [] order no_events e) k))
    ]
  ]

  fetch_req_paged-Sends :
      (page_size : ℤ) (st : ReqState) (a : Answer)
      → leb_ℤ page_size (pos 0) ≡ false
      → (is_empty st.non_search && is_empty st.search) ≡ false
      → fetch_req_page store page_size st ≡ got a
      → Sends st.seen (event_ids a.events) a.state.seen
  unfolding fetch_req_page
  fetch_req_paged-Sends n st a big some_filter h =
      elim (Fetch-cases (run_searches store fs [] [])) [
        | inl e ↦ ground (arith, big, some_filter, e)
        | inr ((page, order), e) ↦ elim (Fetch-cases (run_page store n st.non_search page)) [
          | inl k ↦ ground (arith, big, some_filter, e, k)
          | inr ((after, fcs), k) ↦
              let same : answer st true order (after, fcs) ≡ a =
                ground (arith, big, some_filter, e, k) in
              subst (λ (b : Answer). Sends st.seen (event_ids b.events) b.state.seen) same
                (answer-Sends st true order after fcs (
                  run_page-WellKeyed n st.non_search page after fcs
                    (run_searches-WellKeyed fs [] page [] order no_events e) k))
        ]
      ]
    where
      fs : List Filter
      fs = if st.search_done then [] else st.search

  nothing_sent : (seen : List Text) → Sends seen [] seen
  nothing_sent seen = record { distinct = tt; unseen = tt; counted = λ x. ground arith }

  fetch_req_page-Sends :
      (page_size : ℤ) (st : ReqState) (a : Answer)
      → fetch_req_page store page_size st ≡ got a
      → Sends st.seen (event_ids a.events) a.state.seen
  unfolding fetch_req_page
  fetch_req_page-Sends n st a h = elim (Bool-cases (leb_ℤ n (pos 0))) [
    | inl small ↦ fetch_req_all-Sends st a (ground (arith, small))
    | inr big ↦ elim (Bool-cases (is_empty st.non_search && is_empty st.search)) [
      | inl none_at_all ↦
          let same : ◌≡◌ {A = Answer} (record { events = []; has_more = false; state = st }) a =
            ground (arith, big, none_at_all) in
          subst (λ (b : Answer). Sends st.seen (event_ids b.events) b.state.seen) same
            (nothing_sent st.seen)
      | inr some_filter ↦ fetch_req_paged-Sends n st a big some_filter h
    ]
  ]

  Pages-Sends :
      (page_size : ℤ) {st : ReqState} {ids : List Text}
      → Pages store page_size st ids
      → Sends [] ids st.seen
  unfolding new_req_query_state
  Pages-Sends n (begin filters limit search) = nothing_sent []
  Pages-Sends n (next_page {st} {ids} a r h) =
      Sends-append [] ids st.seen (event_ids a.events) a.state.seen (Pages-Sends n r)
        (fetch_req_page-Sends n st a h)

  -- Over all the pages of a REQ, whatever the store returns, no event is returned twice.
  pub Pages-Distinct :
      (page_size : ℤ) {st : ReqState} {ids : List Text}
      → Pages store page_size st ids
      → Distinct ids
  Pages-Distinct n r = Sends.distinct (Pages-Sends n r)
