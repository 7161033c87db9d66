-- ===== src/Relay/Subs/Sending.antt =====
-- congee/internal/relay/subscription.go: what sending leaves alone.
use conduit_relay.Base.{
  ℕ, ◌≡◌, refl, ◌∙◌, inl, inr, Bool, true, false, Option, List, [], ◌∷◌, arith, Bool-cases,
  Option-cases, is_some, nat_eq, list_eq, int_eq, Text,
}
use conduit_relay.Base.Assoc.{lookup, delete}
use conduit_relay.Nostr.Event.{Event}
use conduit_relay.Nostr.Filter.{Filter}
use conduit_relay.Relay.Subs.{
  SubEntry, SubMap, Manager, entry_of, put_subs, add_sub, remove_sub, put_entry, note_initial,
  note_eose,
}
use conduit_relay.Relay.Subs.Broadcast.{
  Match, offer, count_broadcast, flush, finish_snapshot, overflow, deliver_to, deliver,
}
use conduit_relay.Relay.Subs.Bounds.{EntryOk}

put_subs-max :
    (conn : Text) (cmap : SubMap) (m : Manager)
    → (put_subs conn cmap m).max_subs_per_conn ≡ m.max_subs_per_conn
unfolding put_subs
put_subs-max conn [] m = refl
put_subs-max conn (kv ∷ cmap) m = refl

pub remove_sub-max :
    (conn sub : Text) (m : Manager)
    → (remove_sub conn sub m).max_subs_per_conn ≡ m.max_subs_per_conn
unfolding remove_sub
remove_sub-max conn sub m = elim (Option-cases (lookup conn m.subs)) [
  | inl e ↦ ground (arith, e)
  | inr (cmap, e) ↦ ground (arith, e, put_subs-max conn (delete sub cmap) m)
]

pub add_sub-max :
    (conn sub : Text) (filters : List Filter) (m : Manager)
    → (add_sub conn sub filters m).0.max_subs_per_conn ≡ m.max_subs_per_conn
unfolding add_sub
add_sub-max conn sub filters m = ground arith

pub note_initial-max :
    (conn sub : Text) (ok : Bool) (m : Manager)
    → (note_initial conn sub ok m).max_subs_per_conn ≡ m.max_subs_per_conn
unfolding note_initial put_entry
note_initial-max conn sub ok m = ground arith

pub note_eose-max :
    (conn sub : Text) (m : Manager) → (note_eose conn sub m).max_subs_per_conn ≡ m.max_subs_per_conn
unfolding note_eose put_entry
note_eose-max conn sub m = ground arith

-- Two managers that differ at most in what was sent.
abbrev pub SameSubs : Manager → Manager → Type 0
SameSubs m n = (n.subs ≡ m.subs) × (n.max_subs_per_conn ≡ m.max_subs_per_conn)

module _ (accepts : Text → ℕ → Bool) where
  pub offer-SameSubs : (conn b : Text) (m : Manager) → SameSubs m (offer accepts conn b m).0
  unfolding offer
  offer-SameSubs conn b m = elim (Option-cases (lookup conn m.senders)) [
    | inl e ↦ ground (arith, e)
    | inr (log, e) ↦ ground (arith, e)
  ]

  pub count_broadcast-EntryOk :
      (ok : Bool) (e : SubEntry) → EntryOk e → EntryOk (count_broadcast accepts ok e)
  count_broadcast-EntryOk true e v = v
  count_broadcast-EntryOk false e v = v

  pub flush-ok :
      (conn : Text) (pending : List Text) (e : SubEntry) (m : Manager)
      → EntryOk e
      → SameSubs m (flush accepts conn pending e m).0 × EntryOk (flush accepts conn pending e m).1
  unfolding flush
  flush-ok conn [] e m v = ((refl, refl), v)
  flush-ok conn (b ∷ pending) e m v =
      let sent = offer accepts conn b m in
      let (same, ok) =
        flush-ok conn pending (count_broadcast accepts sent.1 e) sent.0
          (count_broadcast-EntryOk sent.1 e v) in
      let first = offer-SameSubs conn b m in ((same.0 ∙ first.0, same.1 ∙ first.1), ok)

  -- No operation changes the maximum.
  pub finish_snapshot-max :
      (conn sub : Text) (m : Manager)
      → (finish_snapshot accepts conn sub m).max_subs_per_conn ≡ m.max_subs_per_conn
  unfolding finish_snapshot put_entry
  finish_snapshot-max conn sub m = elim (Option-cases (entry_of conn sub m)) [
    | inl e ↦ ground (arith, e)
    | inr (e, k) ↦ elim (Bool-cases (is_some (lookup conn m.senders))) [
      | inr off ↦ ground (arith, k, off)
      | inl on ↦
          let cleared : SubEntry = record e { snapshot_done = true; pending_live = [] } in
          let same = (flush-ok conn e.pending_live cleared m (omega arith, inr refl)).0 in
          rw (k, on, finish_snapshot) same.1
    ]
  ]

  module _ (marshal_event : Text → Event → Option Text) (marshal_closed : Text → Option Text) where
    overflow-max :
        (conn sub : Text) (m : Manager)
        → (overflow accepts marshal_event marshal_closed conn sub m).max_subs_per_conn
          ≡ m.max_subs_per_conn
    unfolding overflow
    overflow-max conn sub m = elim (Option-cases (marshal_closed sub)) [
      | inl e ↦ ground (arith, e, remove_sub-max conn sub m)
      | inr (b, e) ↦
          let same = offer-SameSubs conn b (remove_sub conn sub m) in
          ground (arith, e, same.1, remove_sub-max conn sub m)
    ]

    deliver_to-max :
        (conn sub b : Text) (e : SubEntry) (m : Manager)
        → (deliver_to accepts marshal_event marshal_closed conn sub e b m).max_subs_per_conn
          ≡ m.max_subs_per_conn
    unfolding deliver_to put_entry
    deliver_to-max conn sub b e m =
        let same = offer-SameSubs conn b m in ground (arith, same.1, overflow-max conn sub m)

    pub deliver-max :
        (t : Match) (ev : Event) (m : Manager)
        → (deliver accepts marshal_event marshal_closed t ev m).max_subs_per_conn
          ≡ m.max_subs_per_conn
    unfolding deliver
    deliver-max t ev m = elim (Option-cases (marshal_event t.sub ev)) [
      | inl e ↦ ground (arith, e)
      | inr (b, e) ↦ elim (Option-cases (entry_of t.conn t.sub m)) [
        | inl k ↦ ground (arith, e, k)
        | inr (s, k) ↦ ground (arith, e, k, deliver_to-max t.conn t.sub b s m)
      ]
    ]
