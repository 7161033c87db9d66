-- ===== src/Relay/Subs/Runs.antt =====
-- congee/internal/relay/subscription.go: the operations of a manager in any order.
use conduit_relay.Base.{
  ℕ, ◌≤◌, ◌≡◌, refl, sym, ◌∙◌, subst, inl, inr, Bool, true, not, ◌||◌, Option, some, List, [], ◌∷◌,
  arith, leb, Bool-cases, Option-cases, is_some, ◌==◌, nat_eq, list_eq, length, length-append, All,
  ℤ, pos_part, int_eq, Text,
}
use conduit_relay.Base.Assoc.{lookup}
use conduit_relay.Base.Maps.{Values-delete}
use conduit_relay.Nostr.Event.{Event}
use conduit_relay.Nostr.Filter.{Filter}
use conduit_relay.Relay.Subs.{
  pending_live_cap, SubEntry, Manager, subs_of, entry_of, new_subscription_manager, register_sender,
  unregister_sender, add_sub, remove_sub, put_entry, note_initial, note_eose, sub_count,
}
use conduit_relay.Relay.Subs.Broadcast.{
  Match, offer, count_broadcast, flush, finish_snapshot, overflow, deliver_to, deliver,
}
use conduit_relay.Relay.Subs.Sending.{
  SameSubs, offer-SameSubs, count_broadcast-EntryOk, flush-ok, remove_sub-max, add_sub-max,
  note_initial-max, note_eose-max, finish_snapshot-max, deliver-max,
}
use conduit_relay.Relay.Subs.Bounds.{
  EntryOk, MapOk, Bounded, subs_of-MapOk, put_entry-Bounded, entry_of-EntryOk, add_sub-Bounded,
  remove_sub-Bounded, note_initial-Bounded, note_eose-Bounded,
}

Bounded-same : (m n : Manager) → SameSubs m n → Bounded m → Bounded n
Bounded-same m n s v = rw (s.0, s.1) v

entry_of-same :
    (conn sub : Text) (m n : Manager) → SameSubs m n → entry_of conn sub n ≡ entry_of conn sub m
entry_of-same conn sub m n s = cc (s.0)

module _ (accepts : Text → ℕ → Bool) where
  finish_snapshot-Bounded :
      (conn sub : Text) (m : Manager) → Bounded m → Bounded (finish_snapshot accepts conn sub m)
  unfolding finish_snapshot
  finish_snapshot-Bounded conn sub m v = elim (Option-cases (entry_of conn sub m)) [
    | inl k ↦ rw (k, finish_snapshot) v
    | inr (e, k) ↦ elim (Bool-cases (is_some (lookup conn m.senders))) [
      | inr off ↦
          rw (k, off, finish_snapshot)
            (put_entry-Bounded conn sub e (cleared e) m k (omega arith, inr refl) v)
      | inl on ↦
          let done = flush accepts conn e.pending_live (cleared e) m in
          let (same, ok) =
            flush-ok accepts conn e.pending_live (cleared e) m (omega arith, inr refl) in
          rw (k, on, finish_snapshot)
            (put_entry-Bounded conn sub e done.1 done.0 (entry_of-same conn sub m done.0 same ∙ k)
              ok (Bounded-same m done.0 same v))
    ]
  ]
    where
      cleared : SubEntry → SubEntry
      cleared e = record e { snapshot_done = true; pending_live = [] }

  module _ (marshal_event : Text → Event → Option Text) (marshal_closed : Text → Option Text) where
    overflow-Bounded :
        (conn sub : Text) (m : Manager)
        → Bounded m
        → Bounded (overflow accepts marshal_event marshal_closed conn sub m)
    unfolding overflow
    overflow-Bounded conn sub m v = elim (Option-cases (marshal_closed sub)) [
      | inl e ↦ rw (e, overflow) (remove_sub-Bounded conn sub m v)
      | inr (b, e) ↦
          rw (e, overflow)
            (Bounded-same (remove_sub conn sub m) (offer accepts conn b (remove_sub conn sub m)).0
              (offer-SameSubs accepts conn b (remove_sub conn sub m))
              (remove_sub-Bounded conn sub m v))
    ]

    deliver_to-Bounded :
        (conn sub b : Text) (e : SubEntry) (m : Manager)
        → entry_of conn sub m ≡ some e
        → Bounded m
        → Bounded (deliver_to accepts marshal_event marshal_closed conn sub e b m)
    unfolding deliver_to
    deliver_to-Bounded conn sub b e m k v = elim (Bool-cases e.snapshot_done) [
      | inl d ↦
          let sent = offer accepts conn b m in
          let same = offer-SameSubs accepts conn b m in
          let counted = count_broadcast accepts sent.1 e in
          let now : deliver_to accepts marshal_event marshal_closed conn sub e b m
              ≡ put_entry conn sub counted sent.0 =
            ground (arith, d) in
          subst Bounded (sym now) (
            put_entry-Bounded conn sub e counted sent.0 (entry_of-same conn sub m sent.0 same ∙ k)
              (count_broadcast-EntryOk accepts sent.1 e (entry_of-EntryOk conn sub e m k v))
              (Bounded-same m sent.0 same v))
      | inr d ↦ elim (Bool-cases (leb pending_live_cap (length e.pending_live))) [
        | inl f ↦ rw (d, f, deliver_to) (overflow-Bounded conn sub m v)
        | inr f ↦
            rw (d, f, deliver_to)
              (put_entry-Bounded conn sub e _ m k
                (ground (arith, f, length-append e.pending_live (b ∷ [])), inl refl) v)
      ]
    ]

    deliver-Bounded :
        (t : Match) (ev : Event) (m : Manager)
        → Bounded m
        → Bounded (deliver accepts marshal_event marshal_closed t ev m)
    unfolding deliver
    deliver-Bounded t ev m v = elim (Option-cases (marshal_event t.sub ev)) [
      | inl e ↦ rw (e, deliver) v
      | inr (b, e) ↦ elim (Option-cases (entry_of t.conn t.sub m)) [
        | inl k ↦ rw (e, k, deliver) v
        | inr (s, k) ↦
            elim (Bool-cases
              (not (s.address == t.entry) || not (is_some (lookup t.conn m.senders)))) [
                | inl skip ↦ rw (e, k, skip, deliver) v
                | inr meant ↦ rw (e, k, meant, deliver) (deliver_to-Bounded t.conn t.sub b s m k v)
              ]
      ]
    ]

    -- What the relay may do to a manager; a delivery is a step of any broadcast, at any later time.
    pub data SubStep (m : Manager) : Manager → Type 0 where
      registered : (conn : Text) → SubStep m (register_sender conn m)
      unregistered : (conn : Text) → SubStep m (unregister_sender conn m)
      added : (conn sub : Text) (filters : List Filter) → SubStep m (add_sub conn sub filters m).0
      removed : (conn sub : Text) → SubStep m (remove_sub conn sub m)
      initial : (conn sub : Text) (ok : Bool) → SubStep m (note_initial conn sub ok m)
      eose : (conn sub : Text) → SubStep m (note_eose conn sub m)
      finished : (conn sub : Text) → SubStep m (finish_snapshot accepts conn sub m)
      delivered :
          (t : Match) (ev : Event) → SubStep m (deliver accepts marshal_event marshal_closed t ev m)

    pub data SubRun (max_subs max_len max_filters : ℤ) : Manager → Type 0 where
      fresh :
          SubRun max_subs max_len max_filters
            (new_subscription_manager max_subs max_len max_filters)
      then_step :
          {m n : Manager}
          → SubRun max_subs max_len max_filters m
          → SubStep m n
          → SubRun max_subs max_len max_filters n

    step-Bounded : {m n : Manager} → SubStep m n → Bounded m → Bounded n
    step-Bounded {m} (registered conn) v = unfold register_sender in v
    step-Bounded {m} (unregistered conn) v =
        unfold unregister_sender in Values-delete (MapOk m.max_subs_per_conn) conn m.subs v
    step-Bounded {m} (added conn sub filters) v = add_sub-Bounded conn sub filters m v
    step-Bounded {m} (removed conn sub) v = remove_sub-Bounded conn sub m v
    step-Bounded {m} (initial conn sub ok) v = note_initial-Bounded conn sub ok m v
    step-Bounded {m} (eose conn sub) v = note_eose-Bounded conn sub m v
    step-Bounded {m} (finished conn sub) v = finish_snapshot-Bounded conn sub m v
    step-Bounded {m} (delivered t ev) v = deliver-Bounded t ev m v

    step-max : {m n : Manager} → SubStep m n → n.max_subs_per_conn ≡ m.max_subs_per_conn
    step-max {m} (registered conn) = unfold register_sender in refl
    step-max {m} (unregistered conn) = unfold unregister_sender in refl
    step-max {m} (added conn sub filters) = add_sub-max conn sub filters m
    step-max {m} (removed conn sub) = remove_sub-max conn sub m
    step-max {m} (initial conn sub ok) = note_initial-max conn sub ok m
    step-max {m} (eose conn sub) = note_eose-max conn sub m
    step-max {m} (finished conn sub) = finish_snapshot-max accepts conn sub m
    step-max {m} (delivered t ev) = deliver-max accepts marshal_event marshal_closed t ev m

    reached-max :
        (max_subs max_len max_filters : ℤ) {m : Manager}
        → SubRun max_subs max_len max_filters m
        → m.max_subs_per_conn ≡ max_subs
    unfolding new_subscription_manager
    reached-max a b c fresh = refl
    reached-max a b c (then_step r s) = step-max s ∙ reached-max a b c r

    reached-Bounded :
        (max_subs max_len max_filters : ℤ) {m : Manager}
        → SubRun max_subs max_len max_filters m
        → Bounded m
    unfolding new_subscription_manager
    reached-Bounded a b c fresh = tt
    reached-Bounded a b c (then_step r s) = step-Bounded s (reached-Bounded a b c r)

    -- In every manager that the operations can reach, in any order, no connection has more subscriptions
    -- than the maximum, no entry buffers more than 256 live events, and an entry whose snapshot is done
    -- buffers none.
    pub SubRun-Bounded :
        (max_subs max_len max_filters : ℤ) {m : Manager}
        → SubRun max_subs max_len max_filters m
        → (conn : Text)
        → (sub_count conn m ≤ pos_part max_subs)
          × All (λ (kv : Text × SubEntry). EntryOk kv.1) (subs_of conn m)
    unfolding sub_count
    SubRun-Bounded a b c {m} r conn =
        let ok = subs_of-MapOk conn m (reached-Bounded a b c r) in
        (ground (arith, reached-max a b c r, ok.0), ok.1)
