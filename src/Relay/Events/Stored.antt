-- ===== src/Relay/Events/Stored.antt =====
-- congee/internal/storage/sqlevent/store.go as the store of the EVENT handler.
use conduit_relay.Base.{
  ◌≡◌, refl, inl, inr, true, ◌&&◌, Option, none, some, List, arith, Bool-cases, Option-cases,
  nat_eq, list_eq, list_beq_iff, any, int_eq, Text,
}
use conduit_relay.Nostr.Event.{Event}
use conduit_relay.Nostr.Kinds.{KindClass, classify_kind, is_ephemeral}
use conduit_relay.Store.{
  Tables, SaveError, to_row, replaces, same_coordinate, outdated, delete_rows, has_id,
  tag_rows_from, insert_event, save_event, has_event_id,
}
use conduit_relay.Relay.Events.{StoreOps}
use conduit_relay.Relay.Events.Acknowledged.{Saves}

module _ (marshal : List Text → Option Text) (message : SaveError → Text)
    (meanwhile : Tables → Tables) where
  unfoldable pub tables_store : StoreOps Tables
  tables_store = record {
    lookup_id = λ t id. some (has_event_id t id);
    save = λ ev t.
        let step = save_event marshal ev t in
        (step.0, elim step.1 [ none ↦ none | some e ↦ some (message e) ]);
    meanwhile = meanwhile;
  }

  insert_event-has_event_id :
      (old t : Tables) (ev : Event)
      → (insert_event marshal old t ev).1 ≡ none
      → has_event_id (insert_event marshal old t ev).0 ev.id ≡ true
  unfolding insert_event has_event_id to_row
  insert_event-has_event_id old t ev h = elim (Bool-cases (any (has_id ev.id) t.rows)) [
    | inl e ↦ ground (arith, e)
    | inr e ↦ elim (Option-cases (tag_rows_from marshal ev.id 0 ev.tags)) [
      | inl k ↦ ground (arith, e, k)
      | inr (gs, k) ↦ rw (e, k, (list_beq_iff ev.id ev.id).1 refl) refl
    ]
  ]

  save_event-has_event_id :
      (t : Tables) (ev : Event)
      → (save_event marshal ev t).1 ≡ none
      → has_event_id (save_event marshal ev t).0 ev.id ≡ true
  unfolding save_event
  save_event-has_event_id t ev h = elim (Bool-cases (is_ephemeral ev.kind)) [
    | inl e ↦ ground (arith, e)
    | inr e ↦ elim (Bool-cases (replaces class)) [
      | inr n ↦ ground (arith, insert_event-has_event_id t t ev, e, n)
      | inl n ↦ elim (Bool-cases (any (same_coordinate class (to_row ev)) kept.rows)) [
        | inl s ↦ ground (arith, e, n, s)
        | inr s ↦ ground (arith, insert_event-has_event_id t kept ev, e, n, s)
      ]
    ]
  ]
    where
      class : KindClass
      class = classify_kind ev.kind

      kept : Tables
      kept = delete_rows (λ r. same_coordinate class (to_row ev) r && outdated (to_row ev) r) t

  pub tables_store-Saves : (ev : Event) → Saves tables_store ev
  unfolding tables_store
  tables_store-Saves ev t h = elim (Option-cases (save_event marshal ev t).1) [
    | inl e ↦ rw (save_event-has_event_id t ev e) refl
    | inr (reason, e) ↦ ground (arith, e)
  ]
