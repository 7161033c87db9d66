-- ===== src/Relay/NegSessions/Count.antt =====
-- congee/internal/relay/neg_sessions.go: the shared counter of the sessions.
use conduit_relay.Base.{
  ℕ, ◌+◌, ◌-◌, ◌≤◌, ◌≡◌, refl, inl, inr, true, false, not, none, some, List, [], ◌∷◌, arith,
  Bool-cases, Option-cases, ◌==◌, nat_eq, list_eq, list_beq_iff, length, All, ℤ, pos, pos_part,
  leb_ℤ, int_eq, Text,
}
use conduit_relay.Base.Assoc.{lookup, insert, delete, lookup-insert}
use conduit_relay.Base.Maps.{
  Unique, Unique-insert, Unique-delete, Values-insert, Values-delete, Values-lookup, length-delete,
  length-insert_new, lookup-delete_same,
}
use conduit_relay.Relay.NegSessions.{
  NegSession, NegSessionMap, Sessions, map_of, close_session, close_each, close_all, drop_session,
  remove, remove_if, take_slot, reserve,
}

-- The sessions of all connections.
unfoldable pub count_all : List (Text × NegSessionMap) → ℕ
count_all [] = 0
count_all ((conn, m) ∷ maps) = length m.by_id + count_all maps

count_all-insert :
    (conn : Text) (m : NegSessionMap) (maps : List (Text × NegSessionMap))
    → count_all (insert conn m maps)
        + (elim (lookup conn maps) [ none ↦ 0 | some old ↦ length old.by_id ])
      ≡ count_all maps + length m.by_id
unfolding count_all insert lookup
count_all-insert conn m [] = omega arith
count_all-insert conn m ((c, old) ∷ maps) = ground (arith, count_all-insert conn m maps)

-- A map of sessions: each id once, and each session with its reservation.
abbrev pub MapFine : NegSessionMap → Type 0
MapFine m = Unique m.by_id × All (λ (kv : Text × NegSession). kv.1.holds ≡ true) m.by_id

pub record Counted (max : ℤ) (s : Sessions) : Type 0 where
  pub fine : All (λ (kv : Text × NegSessionMap). MapFine kv.1) s.maps
  pub exact : s.active ≡ count_all s.maps
  pub within : s.active ≤ pos_part max

map_of-MapFine :
    (conn : Text) (s : Sessions)
    → All (λ (kv : Text × NegSessionMap). MapFine kv.1) s.maps
    → MapFine (map_of conn s)
map_of-MapFine conn s v = elim (Option-cases (lookup conn s.maps)) [
  | inl e ↦ rw (e, map_of) (tt, tt)
  | inr (m, e) ↦ rw (e, map_of) (Values-lookup MapFine conn m s.maps v e)
]

-- What replacing a connection's map does to the number of sessions.
count_all-replace :
    (conn : Text) (m : NegSessionMap) (s : Sessions)
    → count_all (insert conn m s.maps) + length (map_of conn s).by_id
      ≡ count_all s.maps + length m.by_id
count_all-replace conn m s = elim (Option-cases (lookup conn s.maps)) [
  | inl e ↦ ground (arith, e, count_all-insert conn m s.maps)
  | inr (old, e) ↦ ground (arith, e, count_all-insert conn m s.maps)
]

module _ (max : ℤ) (conn sub : Text) (s : Sessions) where
  drop_session-Counted :
      (old : NegSession)
      → lookup sub (map_of conn s).by_id ≡ some old
      → Counted max s
      → Counted max (drop_session conn sub old s)
  unfolding drop_session
  drop_session-Counted old there v =
      let fine = map_of-MapFine conn s v.fine in
      let held =
        Values-lookup (λ (x : NegSession). x.holds ≡ true) sub old (map_of conn s).by_id fine.1
          there in
      let m : NegSessionMap = record (map_of conn s) { by_id = delete sub (map_of conn s).by_id } in
      let shorter = length-delete sub old (map_of conn s).by_id fine.0 there in
      record {
        fine =
            Values-insert MapFine conn m s.maps
              (
                Unique-delete sub (map_of conn s).by_id fine.0,
                Values-delete (λ (x : NegSession). x.holds ≡ true) sub (map_of conn s).by_id fine.1,
              )
              v.fine;
        exact = ground (arith, held, shorter, v.exact, count_all-replace conn m s);
        within = ground (arith, held, v.within);
      }

  remove-Counted : Counted max s → Counted max (remove conn sub s).0
  unfolding remove
  remove-Counted v = elim (Option-cases (lookup sub (map_of conn s).by_id)) [
    | inl e ↦ rw (e, remove) v
    | inr (old, e) ↦ rw (e, remove) (drop_session-Counted old e v)
  ]

  remove_if-Counted : (address : ℕ) → Counted max s → Counted max (remove_if conn sub address s).0
  unfolding remove_if
  remove_if-Counted address v = elim (Option-cases (lookup sub (map_of conn s).by_id)) [
    | inl e ↦ rw (e, remove_if) v
    | inr (old, e) ↦ elim (Bool-cases (not (old.address == address))) [
      | inl f ↦ rw (e, f, remove_if) v
      | inr f ↦ rw (e, f, remove_if) (drop_session-Counted old e v)
    ]
  ]

  take_slot-Counted :
      lookup sub (map_of conn s).by_id ≡ none
      → Counted max s
      → Counted max (take_slot conn sub max s).0
  unfolding take_slot
  take_slot-Counted free v = elim (Bool-cases (leb_ℤ max (pos s.active))) [
    | inl e ↦ rw (e, take_slot) v
    | inr e ↦
        let fine = map_of-MapFine conn s v.fine in
        let longer = length-insert_new sub new (map_of conn s).by_id free in
        rw (e, take_slot)
          (record {
            fine =
                Values-insert MapFine conn m s.maps
                  (
                    Unique-insert sub new (map_of conn s).by_id fine.0,
                    Values-insert (λ (x : NegSession). x.holds ≡ true) sub new (map_of conn s).by_id
                        refl fine.1,
                  )
                  v.fine;
            exact = ground (arith, longer, v.exact, count_all-replace conn m s);
            within = ground (arith, e, v.within);
          })
  ]
    where
      new : NegSession
      new = record {
        address = s.allocated;
        rounds = 0;
        last_act_unix = pos 0;
        ready = false;
        holds = true;
      }

      m : NegSessionMap
      m = record (map_of conn s) { by_id = insert sub new (map_of conn s).by_id }

  removed_free : lookup sub (map_of conn (remove conn sub s).0).by_id ≡ none
  unfolding remove drop_session
  removed_free = elim (Option-cases (lookup sub (map_of conn s).by_id)) [
    | inl e ↦ rw (e, remove) e
    | inr (old, e) ↦
        rw (e, remove)
          (ground (
            arith,
            lookup-delete_same sub (map_of conn s).by_id,
            list_beq_iff conn conn,
            lookup-insert conn conn
                (record (map_of conn s) { by_id = delete sub (map_of conn s).by_id }) s.maps,
          ))
  ]

reserve-Counted :
    (max : ℤ) (conn sub : Text) (s : Sessions)
    → Counted max s
    → Counted max (reserve conn sub max s).0
unfolding reserve
reserve-Counted max conn sub s v = elim (Bool-cases (map_of conn s).closed) [
  | inl e ↦ rw (e, reserve) v
  | inr e ↦
      rw (e, reserve)
        (take_slot-Counted max conn sub (remove conn sub s).0 (removed_free max conn sub s)
          (remove-Counted max conn sub s v))
]

close_each_held :
    (l : List (Text × NegSession)) (active : ℕ)
    → All (λ (kv : Text × NegSession). kv.1.holds ≡ true) l
    → close_each l active ≡ active - length l
unfolding close_each
close_each_held [] active h = omega arith
close_each_held ((id, x) ∷ l) active h =
    ground (arith, h.0, close_each_held l (close_session x active) h.1)

close_all-Counted :
    (max : ℤ) (conn : Text) (s : Sessions) → Counted max s → Counted max (close_all conn s)
unfolding close_all
close_all-Counted max conn s v =
    let all_closed : NegSessionMap = record { by_id = []; closed = true } in
    let gone = close_each_held (map_of conn s).by_id s.active (map_of-MapFine conn s v.fine).1 in
    record {
      fine = Values-insert MapFine conn all_closed s.maps (tt, tt) v.fine;
      exact = ground (arith, gone, v.exact, count_all-replace conn all_closed s);
      within = ground (arith, gone, v.within);
    }

abbrev pub no_sessions : Sessions
no_sessions = record { active = 0; allocated = 0; maps = [] }

-- The operations of the connections on their sessions, under one maximum.
pub data SessionRun (max : ℤ) : Sessions → Type 0 where
  none_yet : SessionRun max no_sessions
  reserved :
      {s : Sessions} (conn sub : Text)
      → SessionRun max s
      → SessionRun max (reserve conn sub max s).0
  removed :
      {s : Sessions} (conn sub : Text) → SessionRun max s → SessionRun max (remove conn sub s).0
  removed_same :
      {s : Sessions} (conn sub : Text) (address : ℕ)
      → SessionRun max s
      → SessionRun max (remove_if conn sub address s).0
  closed_all : {s : Sessions} (conn : Text) → SessionRun max s → SessionRun max (close_all conn s)

-- After any operations of the connections, in any order, the shared counter is the number of sessions
-- in all maps and at most the maximum, each subscription id is in a map once, and each session in a map
-- holds its reservation.
pub SessionRun-Counted : (max : ℤ) {s : Sessions} → SessionRun max s → Counted max s
unfolding count_all
SessionRun-Counted max none_yet = record { fine = tt; exact = refl; within = omega arith }
SessionRun-Counted max (reserved {s} conn sub r) =
    reserve-Counted max conn sub s (SessionRun-Counted max r)
SessionRun-Counted max (removed {s} conn sub r) =
    remove-Counted max conn sub s (SessionRun-Counted max r)
SessionRun-Counted max (removed_same {s} conn sub address r) =
    remove_if-Counted max conn sub s address (SessionRun-Counted max r)
SessionRun-Counted max (closed_all {s} conn r) =
    close_all-Counted max conn s (SessionRun-Counted max r)
