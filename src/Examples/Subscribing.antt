-- ===== src/Examples/Subscribing.antt =====
-- The pages of a REQ and the subscriptions of a connection, on short runs.
use conduit_relay.Base.{
  ◌≤◌, refl, true, some, [], ◌∷◌, nat_eq, list_eq, list_beq, All, pos, ◌-ℤ◌, int_eq, Text, codes,
  text_compare, trim_space,
}
use conduit_relay.Base.Assoc.{lookup, insert}
use conduit_relay.Nostr.Filter.{has_search, search_text}
use conduit_relay.Relay.Groups.{got}
use conduit_relay.Relay.Req.{
  EventStore, ReqState, apply_default_query_limit, new_req_query_state, add_events, emit_search,
  insert_sorted, sort_page, emit_all, merge_page_events, run_searches, run_page, advance,
  page_query, answer, fetch_req_page,
}
use conduit_relay.Relay.Req.Keys.{Distinct}
use conduit_relay.Relay.Req.Pages.{Pages, Pages-Distinct}
use conduit_relay.Relay.Subs.{
  Manager, SubEntry, subs_of, sub_count, new_subscription_manager, register_sender, add_sub,
}
use conduit_relay.Relay.Subs.Bounds.{EntryOk}
use conduit_relay.Relay.Subs.Runs.{SubRun, SubStep, SubRun-Bounded}
use conduit_relay.Examples.Data.{wrap, chat, any_filter}

-- The store answers every query with the same events, one of them twice.
abbrev repeating : EventStore
repeating = record {
  query_events = λ f. got (chat ∷ record wrap { id = codes "e2" } ∷ chat ∷ []);
  search_events = λ s f. got [];
}

abbrev start_state : ReqState
start_state = new_req_query_state (any_filter ∷ []) (pos 500) true

-- A page of three events, of which two are new.
one_page : (st : ReqState) × Pages repeating (pos 3) st (codes "e1" ∷ codes "e2" ∷ [])
unfolding new_req_query_state apply_default_query_limit fetch_req_page run_searches run_page
    page_query advance ◌-ℤ◌ add_events answer merge_page_events emit_search emit_all sort_page
    insert_sorted has_search search_text trim_space lookup insert list_beq text_compare
one_page = (_, Pages.next_page _ (Pages.begin (any_filter ∷ []) (pos 500) true) refl)

Pages-Distinct_example : Distinct (codes "e1" ∷ codes "e2" ∷ [])
Pages-Distinct_example = Pages-Distinct repeating (pos 3) one_page.1

-- A connection registers and opens a subscription.
abbrev opened : Manager
opened =
    (add_sub (codes "conn1") (codes "s") (any_filter ∷ [])
      (register_sender (codes "conn1") (new_subscription_manager (pos 2) (pos 64) (pos 10)))).0

SubRun-Bounded_example :
    (sub_count (codes "conn1") opened ≤ 2)
    × All (λ (kv : Text × SubEntry). EntryOk kv.1) (subs_of (codes "conn1") opened)
SubRun-Bounded_example =
    SubRun-Bounded (λ conn n. true) (λ s e. some s) some (pos 2) (pos 64) (pos 10)
      (SubRun.then_step (SubRun.then_step SubRun.fresh (SubStep.registered (codes "conn1")))
        (SubStep.added (codes "conn1") (codes "s") (any_filter ∷ [])))
      (codes "conn1")
