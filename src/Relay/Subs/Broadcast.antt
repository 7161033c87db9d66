-- ===== src/Relay/Subs/Broadcast.antt =====
-- The sending operations of congee/internal/relay/subscription.go: the broadcast of an event and the end
-- of a snapshot.
use conduit_relay.Base.{
  ℕ, ◌+◌, Bool, true, false, not, ◌||◌, Option, none, some, List, [], ◌∷◌, ◌++◌, leb, if◌then◌else◌,
  is_some, ◌==◌, nat_eq, list_eq, length, int_eq, Text,
}
use conduit_relay.Base.Assoc.{lookup, insert}
use conduit_relay.Nostr.Event.{Event}
use conduit_relay.Nostr.Filter.{filters_match}
use conduit_relay.Relay.Subs.{
  pending_live_cap, SubEntry, SubMap, Manager, entry_of, put_entry, remove_sub,
}

-- A subscription that an event is meant for.
pub record Match : Type 0 where
  pub conn : Text
  pub sub : Text
  pub entry : ℕ

unfoldable pub matches_of : Text → Event → SubMap → List Match
matches_of conn ev [] = []
matches_of conn ev ((sub, e) ∷ cmap) =
    let rest = matches_of conn ev cmap in
    if filters_match e.filters ev
    then record { conn = conn; sub = sub; entry = e.address } ∷ rest
    else rest

-- The first part of `Broadcast`: connections without a sender are passed over.
unfoldable pub find_matches : Manager → Event → List (Text × SubMap) → List Match
find_matches m ev [] = []
find_matches m ev ((conn, cmap) ∷ subs) =
    let rest = find_matches m ev subs in
    if is_some (lookup conn m.senders) then matches_of conn ev cmap ++ rest else rest

-- `accepts conn n` is the answer of the connection's queue to the n-th message that is offered to it.
module _ (accepts : Text → ℕ → Bool) where
  unfoldable pub offer : Text → Text → Manager → Manager × Bool
  offer conn b m = elim (lookup conn m.senders) [
    | none ↦ (m, false)
    | some log ↦
        let ok = accepts conn (length log) in
        (record m { senders = insert conn (log ++ (b, ok) ∷ []) m.senders }, ok)
  ]

  abbrev pub count_broadcast : Bool → SubEntry → SubEntry
  count_broadcast ok e =
      if ok
      then record e { broadcast_ok = e.broadcast_ok + 1 }
      else record e { broadcast_drop = e.broadcast_drop + 1 }

  -- The loop of `finishSnapshotLocked`; it carries the entry with its counters.
  unfoldable pub flush : Text → List Text → SubEntry → Manager → Manager × SubEntry
  flush conn [] e m = (m, e)
  flush conn (b ∷ pending) e m =
      let (n, ok) = offer conn b m in flush conn pending (count_broadcast ok e) n

  unfoldable pub finish_snapshot : Text → Text → Manager → Manager
  finish_snapshot conn sub m = elim (entry_of conn sub m) [
    | none ↦ m
    | some e ↦
        let cleared = record e { snapshot_done = true; pending_live = [] } in
        let (n, done) =
          (if is_some (lookup conn m.senders)
            then flush conn e.pending_live cleared m
            else (m, cleared)) in
        put_entry conn sub done n
  ]

  module _ (marshal_event : Text → Event → Option Text) (marshal_closed : Text → Option Text) where
    -- The overflow of the buffer: the subscription is closed, and its client told.
    unfoldable pub overflow : Text → Text → Manager → Manager
    overflow conn sub m =
        let removed = remove_sub conn sub m in
        elim (marshal_closed sub) [ none ↦ removed | some b ↦ (offer conn b removed).0 ]

    unfoldable pub deliver_to : Text → Text → SubEntry → Text → Manager → Manager
    deliver_to conn sub e b m =
        if e.snapshot_done
        then (let (n, ok) = offer conn b m in put_entry conn sub (count_broadcast ok e) n)
        else if leb pending_live_cap (length e.pending_live)
        then overflow conn sub m
        else put_entry conn sub (record e { pending_live = e.pending_live ++ b ∷ [] }) m

    -- One round of the last loop of `Broadcast`.
    unfoldable pub deliver : Match → Event → Manager → Manager
    deliver t ev m = elim (marshal_event t.sub ev) [
      | none ↦ m
      | some b ↦ elim (entry_of t.conn t.sub m) [
        | none ↦ m
        | some e ↦
            if not (e.address == t.entry) || not (is_some (lookup t.conn m.senders))
            then m
            else deliver_to t.conn t.sub e b m
      ]
    ]

    unfoldable pub deliver_all : (Text → Bool) → List Match → Event → Manager → Manager
    deliver_all visible [] ev m = m
    deliver_all visible (t ∷ ts) ev m =
        deliver_all visible ts ev (if visible t.conn then deliver t ev m else m)

    -- A broadcast that nothing else comes between. A nil `visible` is the constant true.
    unfoldable pub broadcast : (Text → Event → Bool) → Event → Manager → Manager
    broadcast visible ev m = deliver_all (λ conn. visible conn ev) (find_matches m ev m.subs) ev m
