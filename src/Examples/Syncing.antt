-- ===== src/Examples/Syncing.antt =====
-- The import of three events, and a backfill of three windows.
use conduit_relay.Base.{
  ℕ, ◌+◌, ◌*◌, refl, ◌≢◌, true, false, none, List, [], ◌∷◌, arith, ◌==◌, nat_eq, list_eq, list_beq,
  pos, ◌-ℤ◌, ltb_ℤ, int_eq,
}
use conduit_relay.Nostr.Event.{Event}
use conduit_relay.Conduit.Sync.{
  added, Host, SyncConfig, Syncer, second, sync_defaults, handle_all, handle_incoming_event,
  add_incoming, settle, lookup_current_replaceable, targets_product_deletion, fetch_window,
  advance_state,
}
use conduit_relay.Conduit.Sync.Incoming.{Effect, handle_all-Effect}
use conduit_relay.Conduit.Sync.Backfill.{
  out_of_fuel, backfill_loop, fetch_and_log, initial_backfill_start, backfill,
}
use conduit_relay.Conduit.Sync.Ends.{backfill-ends}
use conduit_relay.Conduit.Sync.Covered.{Fetched, backfill-Fetched}
use conduit_relay.Examples.Data.{event_of}
use conduit_relay.Examples.Library.{mug}

-- A relay that remembers how many events it was given, and that is sent one product when asked.
abbrev small_host : Host ℕ
small_host = record {
  check_id = λ e. true;
  verify_signature = λ e. true;
  is_regular = λ k. false;
  is_replaceable = λ k. false;
  is_addressable = λ k. k == pos 30402;
  is_older = λ a b. ltb_ℤ a.created_at b.created_at;
  get_d = λ tags. [];
  query = none;
  add_event = λ w e. (added, w + 1);
  fetch_many = λ w since until limit. mug ∷ [];
  cancelled = λ w. false;
  write_state = λ n. true;
}

abbrev sync_config : SyncConfig
sync_config = record {
  fetch_limit = pos 500;
  backfill_window = pos (4 * second);
  live_lookback = pos 0;
  reconnect_delay = pos 0;
  verify_signatures = true;
}

abbrev idle : Syncer ℕ
idle = record {
  host = 0;
  synced_until = pos 100;
  stats = record { imported = 0; rejected = 0; duplicates = 0; ignored = 0 };
  broadcasts = [];
  lines = [];
}

abbrev incoming : List Event
incoming = mug ∷ event_of (pos 5) [] ∷ event_of (pos 1) [] ∷ []

handle_all-Effect_example :
    Effect small_host sync_config incoming idle
      (handle_all small_host (λ t. false) sync_config incoming idle)
handle_all-Effect_example = handle_all-Effect small_host sync_config (λ t. false) incoming idle

backfill-ends_example :
    (backfill small_host (λ t. false) sync_config none (110 * second) idle).0 ≢ out_of_fuel
backfill-ends_example = backfill-ends small_host (λ t. false) sync_config none (110 * second) idle

backfill-Fetched_example :
    Fetched small_host
      (λ t. false)
      (sync_defaults sync_config)
      105
      idle
      (backfill small_host (λ t. false) sync_config none (110 * second) idle).1
unfolding backfill backfill_loop initial_backfill_start fetch_and_log fetch_window handle_all
    handle_incoming_event add_incoming settle lookup_current_replaceable targets_product_deletion
    advance_state sync_defaults ◌-ℤ◌ list_beq
backfill-Fetched_example =
    backfill-Fetched small_host (λ t. false) sync_config none (110 * second) 105 idle refl
      (omega arith) (omega arith)
