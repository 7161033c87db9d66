-- ===== src/Conduit/Sync.antt =====
-- sync.go: the import of products from other relays. A time is its nanoseconds since 1970 and a duration its
-- nanoseconds. The relay, the pool of connections and the file of the state are fields of `Host`, over a state `S` of theirs.
pub mod Incoming
pub mod Backfill
pub mod Ends
pub mod Covered
use conduit_relay.Base.{
  ℕ, ◌+◌, ◌*◌, ◌/◌, Bool, true, false, not, ◌&&◌, ◌||◌, Option, none, some, List, [], ◌∷◌, ◌++◌,
  map, if◌then◌else◌, ◌==◌, nat_eq, list_eq, list_beq, ℤ, pos, ◌-ℤ◌, leb_ℤ, int_eq, Text, codes,
  has_prefix,
}
use conduit_relay.Nostr.Event.{Event}

-- What `lookupCurrentReplaceable` and `hasStoredID` ask the relay's store for.
pub data StoreQuery : Type 0 where
  by_id : Text → StoreQuery
  by_author : ℤ → Text → Option Text → StoreQuery

-- The results of `relay.AddEvent`: stored, or with skipBroadcast, or an error.
pub data AddResult : Type 0 where
  added skipped : AddResult
  failed : Text → AddResult

pub record Host (S : Type 0) : Type 0 where
  pub check_id : Event → Bool
  pub verify_signature : Event → Bool
  pub is_regular : ℤ → Bool
  pub is_replaceable : ℤ → Bool
  pub is_addressable : ℤ → Bool
  pub is_older : Event → Event → Bool
  pub get_d : List (List Text) → Text
  pub query : Option (S → StoreQuery → List Event)
  pub add_event : S → Event → AddResult × S
  -- The events of `pool.FetchMany` for Since, Until and Limit.
  pub fetch_many : S → ℤ → ℤ → ℤ → List Event
  pub cancelled : S → Bool
  pub write_state : ℤ → Bool

pub record SyncConfig : Type 0 where
  pub fetch_limit : ℤ
  pub backfill_window : ℤ
  pub live_lookback : ℤ
  pub reconnect_delay : ℤ
  pub verify_signatures : Bool

pub record SyncStats : Type 0 where
  pub imported : ℕ
  pub rejected : ℕ
  pub duplicates : ℕ
  pub ignored : ℕ

-- A line of the log about a window of the backfill.
pub record WindowLine : Type 0 where
  pub window_start : ℕ
  pub window_end : ℕ
  pub full : Bool

pub record Syncer (S : Type 0) : Type 0 where
  pub host : S
  pub synced_until : ℤ
  pub stats : SyncStats
  pub broadcasts : List Event
  pub lines : List WindowLine

abbrev pub second : ℕ
second = 1000000000

abbrev pub unix : ℕ → ℕ
unix t = t / second

abbrev pub min_backfill_window : ℕ
min_backfill_window = second

abbrev pub or_else_ℤ : ℤ → ℤ → ℤ
or_else_ℤ n d = if leb_ℤ n (pos 0) then d else n

-- `withDefaults`; the list of relays and the logger are left out.
unfoldable pub sync_defaults : SyncConfig → SyncConfig
sync_defaults cfg = record cfg {
  fetch_limit = or_else_ℤ cfg.fetch_limit (pos 500);
  backfill_window = or_else_ℤ cfg.backfill_window (pos (7 * 24 * 3600 * second));
  live_lookback = or_else_ℤ cfg.live_lookback (pos (600 * second));
  reconnect_delay = or_else_ℤ cfg.reconnect_delay (pos (5 * second));
}

unfoldable pub targets_product_deletion : List (List Text) → Bool
targets_product_deletion [] = false
targets_product_deletion ([] ∷ tags) = targets_product_deletion tags
targets_product_deletion ((n ∷ []) ∷ tags) = targets_product_deletion tags
targets_product_deletion ((n ∷ v ∷ rest) ∷ tags) =
    (n == codes "a" && has_prefix v (codes "30402:"))
    || (n == codes "k" && v == codes "30402")
    || targets_product_deletion tags

module _ {S : Type 0} where
  abbrev pub record_imported : Syncer S → Syncer S
  record_imported s = record s { stats = record s.stats { imported = s.stats.imported + 1 } }

  abbrev pub record_rejected : Syncer S → Syncer S
  record_rejected s = record s { stats = record s.stats { rejected = s.stats.rejected + 1 } }

  abbrev pub record_duplicate : Syncer S → Syncer S
  record_duplicate s = record s { stats = record s.stats { duplicates = s.stats.duplicates + 1 } }

  abbrev pub record_ignored : Syncer S → Syncer S
  record_ignored s = record s { stats = record s.stats { ignored = s.stats.ignored + 1 } }

  abbrev pub broadcast_event : Event → Syncer S → Syncer S
  broadcast_event ev s = record s { broadcasts = s.broadcasts ++ ev ∷ [] }

  -- What is done with the result of `relay.AddEvent`.
  unfoldable pub settle : (Text → Bool) → AddResult → Event → Syncer S → Syncer S
  settle says_duplicate (failed message) ev s =
      if says_duplicate message then record_duplicate s else record_rejected s
  settle says_duplicate skipped ev s = record_duplicate s
  settle says_duplicate added ev s = record_imported (broadcast_event ev s)

  module _ (h : Host S) where
    unfoldable pub has_stored_id : S → Text → Bool
    has_stored_id w id = elim h.query [
      | none ↦ false
      | some query ↦ not (list_beq (map (λ (e : Event). e.id) (query w (by_id id))) [])
    ]

    -- The loop over the results; `latest` is what it has found so far.
    unfoldable pub latest_of : List Event → Option Event → Option Event
    latest_of [] latest = latest
    latest_of (current ∷ events) none = latest_of events (some current)
    latest_of (current ∷ events) (some latest) =
        latest_of events (some (if h.is_older latest current then current else latest))

    unfoldable pub lookup_current_replaceable : S → Event → Option Event
    lookup_current_replaceable w ev = elim h.query [
      | none ↦ none
      | some query ↦
          latest_of
            (query w (
              by_author ev.kind ev.pub_key
                (if h.is_addressable ev.kind then some (h.get_d ev.tags) else none)))
            none
    ]

    abbrev pub outdated_event : S → Event → Bool
    outdated_event w ev = elim (lookup_current_replaceable w ev) [
      | none ↦ false
      | some current ↦ not (h.is_older current ev)
    ]

    -- `relay.AddEvent` and what follows it.
    unfoldable pub add_incoming : (Text → Bool) → Event → Syncer S → Syncer S
    add_incoming says_duplicate ev s =
        settle says_duplicate (h.add_event s.host ev).0 ev
          (record s { host = (h.add_event s.host ev).1 })

    -- `handleIncomingEvent`; `says_duplicate` is strings.Contains with "duplicate".
    unfoldable pub handle_incoming_event : (Text → Bool) → SyncConfig → Event → Syncer S → Syncer S
    handle_incoming_event says_duplicate cfg ev s =
        if ev.kind == pos 5 && not (targets_product_deletion ev.tags)
        then record_ignored s
        else if not (ev.kind == pos 30402) && not (ev.kind == pos 5)
        then s
        else if not (h.check_id ev)
        then record_rejected s
        else if cfg.verify_signatures && not (h.verify_signature ev)
        then record_rejected s
        else if h.is_regular ev.kind && has_stored_id s.host ev.id
        then record_duplicate s
        else if (h.is_replaceable ev.kind || h.is_addressable ev.kind) && outdated_event s.host ev
        then record_duplicate s
        else add_incoming says_duplicate ev s

    unfoldable pub handle_all : (Text → Bool) → SyncConfig → List Event → Syncer S → Syncer S
    handle_all says_duplicate cfg [] s = s
    handle_all says_duplicate cfg (ev ∷ events) s =
        handle_all says_duplicate cfg events (handle_incoming_event says_duplicate cfg ev s)

    -- `fetchWindow`; the caller does not use its result.
    unfoldable pub fetch_window : (Text → Bool) → SyncConfig → ℕ → ℕ → Syncer S → Syncer S
    fetch_window says_duplicate cfg start end s =
        handle_all says_duplicate cfg
          (h.fetch_many s.host (pos (unix start)) (pos (unix end) -ℤ pos 1) cfg.fetch_limit) s

    -- `advanceState`: the state, and whether it could be written.
    unfoldable pub advance_state : ℕ → Syncer S → Syncer S × Bool
    advance_state ts s =
        if leb_ℤ (pos (unix ts)) s.synced_until
        then (s, true)
        else (record s { synced_until = pos (unix ts) }, h.write_state (pos (unix ts)))
