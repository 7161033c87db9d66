-- ===== src/Relay/NegSessions.antt =====
-- congee/internal/relay/neg_sessions.go: the negentropy sessions of every connection, and the counter of
-- reservations that the connections share. The lock and the compare-and-swap make each operation one
-- step. `address` tells a session from another with the same subscription id; an address is fresh
-- when a session is reserved.
pub mod Count
use conduit_relay.Base.{
  ℕ, ◌+◌, ◌-◌, Bool, true, false, not, Option, none, some, List, [], ◌∷◌, if◌then◌else◌, ◌==◌,
  nat_eq, list_eq, ℤ, pos, leb_ℤ, int_eq, Text,
}
use conduit_relay.Base.Assoc.{lookup, insert, delete}

pub record NegSession : Type 0 where
  pub address : ℕ
  pub rounds : ℕ
  pub last_act_unix : ℤ
  pub ready : Bool
  pub holds : Bool

pub record NegSessionMap : Type 0 where
  pub by_id : List (Text × NegSession)
  pub closed : Bool

-- The maps of the connections, and the shared counter.
pub record Sessions : Type 0 where
  pub active : ℕ
  pub allocated : ℕ
  pub maps : List (Text × NegSessionMap)

abbrev pub new_neg_session_map : NegSessionMap
new_neg_session_map = record { by_id = []; closed = false }

abbrev pub map_of : Text → Sessions → NegSessionMap
map_of conn s = elim (lookup conn s.maps) [ none ↦ new_neg_session_map | some m ↦ m ]

-- `close`: a reservation that is held is given back. The counter is never 0 then.
abbrev pub close_session : NegSession → ℕ → ℕ
close_session s active = if s.holds then active - 1 else active

unfoldable pub close_each : List (Text × NegSession) → ℕ → ℕ
close_each [] active = active
close_each ((id, s) ∷ rest) active = close_each rest (close_session s active)

unfoldable pub close_all : Text → Sessions → Sessions
close_all conn s = record s {
  active = close_each (map_of conn s).by_id s.active;
  maps = insert conn (record { by_id = []; closed = true }) s.maps;
}

unfoldable pub drop_session : Text → Text → NegSession → Sessions → Sessions
drop_session conn sub old s = record s {
  active = close_session old s.active;
  maps = insert conn (record (map_of conn s) { by_id = delete sub (map_of conn s).by_id }) s.maps;
}

unfoldable pub remove : Text → Text → Sessions → Sessions × Option NegSession
remove conn sub s = elim (lookup sub (map_of conn s).by_id) [
  | none ↦ (s, none)
  | some old ↦ (drop_session conn sub old s, some old)
]

unfoldable pub remove_if : Text → Text → ℕ → Sessions → Sessions × Bool
remove_if conn sub address s = elim (lookup sub (map_of conn s).by_id) [
  | none ↦ (s, false)
  | some old ↦
      if not (old.address == address) then (s, false) else (drop_session conn sub old s, true)
]

-- The slot is taken if the counter is below the maximum.
unfoldable pub take_slot : Text → Text → ℤ → Sessions → Sessions × Option NegSession
take_slot conn sub max s =
    let new : NegSession = record {
      address = s.allocated;
      rounds = 0;
      last_act_unix = pos 0;
      ready = false;
      holds = true;
    } in
    if leb_ℤ max (pos s.active) then (s, none) else (
      record {
        active = s.active + 1;
        allocated = s.allocated + 1;
        maps =
            insert conn (record (map_of conn s) { by_id = insert sub new (map_of conn s).by_id })
              s.maps;
      },
      some new,
    )

unfoldable pub reserve : Text → Text → ℤ → Sessions → Sessions × Option NegSession
reserve conn sub max s =
    if (map_of conn s).closed then (s, none) else take_slot conn sub max (remove conn sub s).0

unfoldable pub get_ready : Text → Text → Sessions → Option NegSession
get_ready conn sub s = elim (lookup sub (map_of conn s).by_id) [
  | none ↦ none
  | some x ↦ if x.ready then some x else none
]

unfoldable pub touch_activity : ℤ → NegSession → NegSession
touch_activity now x = record x { last_act_unix = now; rounds = x.rounds + 1 }
