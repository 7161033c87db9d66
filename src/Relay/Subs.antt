-- ===== src/Relay/Subs.antt =====
-- congee/internal/relay/subscription.go: the subscriptions of every connection, the broadcast of a stored
-- event, and the end of a snapshot. The manager's lock makes each operation one step; a broadcast
-- takes it once for each delivery, so a delivery is a step of its own. A sender is the log of the
-- messages that were offered to it, each with the answer of the connection's queue, which is a parameter
-- of the model, as is the JSON of a message. An entry that leaves the map is marked as closed only for
-- those that still hold it; its `address` tells it from another entry.
pub mod Broadcast
pub mod Bounds
pub mod Sending
pub mod Runs
use conduit_relay.Base.{
  ℕ, ◌+◌, ◌%◌, ◌^◌, Bool, true, false, not, ◌&&◌, ◌||◌, Option, none, some, List, [], ◌∷◌,
  if◌then◌else◌, is_some, ◌==◌, nat_eq, list_eq, length, ℤ, pos, ltb_ℤ, leb_ℤ, int_eq, Text,
}
use conduit_relay.Base.Assoc.{lookup, insert, delete}
use conduit_relay.Nostr.Event.{Event}
use conduit_relay.Nostr.Filter.{Filter}

pub data SubError : Type 0 where
  subscription_id_too_long too_many_subscriptions too_many_filters : SubError

abbrev pub pending_live_cap : ℕ
pending_live_cap = 256

pub record SubEntry : Type 0 where
  pub address : ℕ
  pub filters : List Filter
  pub generation : ℕ
  pub initial_sent : ℕ
  pub initial_dropped : ℕ
  pub broadcast_ok : ℕ
  pub broadcast_drop : ℕ
  pub eose_sent : ℕ
  pub snapshot_done : Bool
  pub pending_live : List Text

abbrev pub SubMap : Type 0
SubMap = List (Text × SubEntry)

abbrev pub Log : Type 0
Log = List (Text × Bool)

pub record Manager : Type 0 where
  pub allocated : ℕ
  pub next_generation : ℕ
  pub subs : List (Text × SubMap)
  pub senders : List (Text × Log)
  pub max_subs_per_conn : ℤ
  pub max_sub_id_len : ℤ
  pub max_filters : ℤ

abbrev pub subs_of : Text → Manager → SubMap
subs_of conn m = elim (lookup conn m.subs) [ none ↦ [] | some cmap ↦ cmap ]

abbrev pub entry_of : Text → Text → Manager → Option SubEntry
entry_of conn sub m = lookup sub (subs_of conn m)

unfoldable pub new_subscription_manager : ℤ → ℤ → ℤ → Manager
new_subscription_manager max_subs max_len max_filters = record {
  allocated = 0;
  next_generation = 0;
  subs = [];
  senders = [];
  max_subs_per_conn = max_subs;
  max_sub_id_len = max_len;
  max_filters = max_filters;
}

unfoldable pub register_sender : Text → Manager → Manager
register_sender conn m = record m { senders = insert conn [] m.senders }

unfoldable pub unregister_sender : Text → Manager → Manager
unregister_sender conn m = record m { senders = delete conn m.senders; subs = delete conn m.subs }

abbrev pub new_entry : ℕ → ℕ → List Filter → SubEntry
new_entry address generation filters = record {
  address = address;
  filters = filters;
  generation = generation;
  initial_sent = 0;
  initial_dropped = 0;
  broadcast_ok = 0;
  broadcast_drop = 0;
  eose_sent = 0;
  snapshot_done = false;
  pending_live = [];
}

-- `nextGeneration` is a uint64.
unfoldable pub add_sub : Text → Text → List Filter → Manager → Manager × Option SubError
add_sub conn sub filters m =
    let cmap = subs_of conn m in
    let generation = (m.next_generation + 1) % 2 ^ 64 in
    if ltb_ℤ m.max_sub_id_len (pos (length sub))
    then (m, some SubError.subscription_id_too_long)
    else if ltb_ℤ m.max_filters (pos (length filters))
    then (m, some SubError.too_many_filters)
    else if not (is_some (lookup sub cmap)) && leb_ℤ m.max_subs_per_conn (pos (length cmap))
    then (record m { subs = insert conn cmap m.subs }, some SubError.too_many_subscriptions)
    else (
      record m {
        allocated = m.allocated + 1;
        next_generation = generation;
        subs = insert conn (insert sub (new_entry m.allocated generation filters) cmap) m.subs;
      },
      none,
    )

unfoldable pub put_subs : Text → SubMap → Manager → Manager
put_subs conn [] m = record m { subs = delete conn m.subs }
put_subs conn (kv ∷ cmap) m = record m { subs = insert conn (kv ∷ cmap) m.subs }

-- `removeLocked`: the map of a connection goes with its last subscription.
unfoldable pub remove_sub : Text → Text → Manager → Manager
remove_sub conn sub m = elim (lookup conn m.subs) [
  | none ↦ m
  | some cmap ↦ put_subs conn (delete sub cmap) m
]

unfoldable pub sub_count : Text → Manager → ℕ
sub_count conn m = length (subs_of conn m)

unfoldable pub total_subscriptions : List (Text × SubMap) → ℕ
total_subscriptions [] = 0
total_subscriptions ((conn, cmap) ∷ subs) = length cmap + total_subscriptions subs

unfoldable pub sub_generation : Text → Text → Manager → Option ℕ
sub_generation conn sub m = elim (entry_of conn sub m) [ none ↦ none | some e ↦ some e.generation ]

unfoldable pub is_same_snapshot : Text → Text → ℕ → Manager → Bool
is_same_snapshot conn sub generation m =
    is_some (lookup conn m.senders)
    && elim (entry_of conn sub m) [ none ↦ false | some e ↦ e.generation == generation ]

unfoldable pub is_open : Text → Text → Manager → Bool
is_open conn sub m = is_some (lookup conn m.senders) && is_some (entry_of conn sub m)

unfoldable pub put_entry : Text → Text → SubEntry → Manager → Manager
put_entry conn sub e m = record m { subs = insert conn (insert sub e (subs_of conn m)) m.subs }

-- `withSnapshot` with a callback that changes the manager.
unfoldable pub with_snapshot :
    Text → Text → ℕ → (SubEntry → Manager → Manager) → Manager → Manager × Bool
with_snapshot conn sub generation fn m = elim (entry_of conn sub m) [
  | none ↦ (m, false)
  | some e ↦
      if not (e.generation == generation) || not (is_some (lookup conn m.senders))
      then (m, false)
      else (fn e m, true)
]

unfoldable pub note_initial : Text → Text → Bool → Manager → Manager
note_initial conn sub ok m = elim (entry_of conn sub m) [
  | none ↦ m
  | some e ↦
      put_entry conn sub
        (if ok
          then record e { initial_sent = e.initial_sent + 1 }
          else record e { initial_dropped = e.initial_dropped + 1 })
        m
]

unfoldable pub note_eose : Text → Text → Manager → Manager
note_eose conn sub m = elim (entry_of conn sub m) [
  | none ↦ m
  | some e ↦ put_entry conn sub (record e { eose_sent = e.eose_sent + 1 }) m
]
