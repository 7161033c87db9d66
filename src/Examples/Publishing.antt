-- ===== src/Examples/Publishing.antt =====
-- A chat message that is published and sent again.
use conduit_relay.Base.{
  ℕ, ◌+◌, ◌≡◌, refl, Bool, true, false, Option, none, some, List, [], ◌∷◌, arith, nat_eq, list_eq,
  list_beq, pos, int_eq, Text, codes,
}
use conduit_relay.Nostr.Event.{Event}
use conduit_relay.Nostr.Kinds.{is_ephemeral, classify_kind}
use conduit_relay.Store.{
  Tables, to_row, extract_d_tag, tag_rows_from, insert_event, save_event, has_event_id,
}
use conduit_relay.Relay.Events.{
  Outbound, HookEnv, Conn, NamedHook, StoreOps, Session, Validator, enqueue, send_ok, validate,
  run_hooks, store_event, accept_event, handle_event,
}
use conduit_relay.Relay.Events.Acknowledged.{handle_event-replay}
use conduit_relay.Relay.Events.Replies.{answered, IsOpen, enqueue-answered, enqueue-IsOpen}
use conduit_relay.Relay.Events.Room.{handle_event-one_reply}
use conduit_relay.Relay.Events.Stored.{tables_store, tables_store-Saves}
use conduit_relay.Examples.Data.{event_of, config, as_bob}

abbrev note : Event
note = event_of (pos 1) []

abbrev ops : StoreOps Tables
ops = tables_store (λ t. some []) (λ e. codes "error") (λ t. t)

-- The validator counts the events it sees, and the hook sends an event to a subscription of its publisher.
abbrev counting : List (Validator Tables ℕ)
counting = (λ c ev s. (s.rest + 1, none)) ∷ []

abbrev to_publisher : HookEnv → Session Tables ℕ → Session Tables ℕ × Option Text
to_publisher env n =
    (record n { conn = (enqueue (Outbound.event (codes "sub") env.event) n.conn).0 }, none)

abbrev hooks : List (NamedHook Tables ℕ)
hooks = record { name = codes "nip01_broadcast_event"; run = to_publisher } ∷ []

abbrev conn : Conn
conn = record { auth_state = as_bob; sent = []; room = 4; outbound_closed = false }

abbrev before : Session Tables ℕ
before = record {
  server = record { store = record { rows = []; tag_rows = [] }; rest = 0 };
  conn = conn;
}

abbrev publish : Session Tables ℕ → Session Tables ℕ × Bool
publish n = handle_event config [] ops counting hooks note n

handle_event-replay_example :
    (ops.lookup_id (publish before).0.server.store note.id ≡ some true)
    × ((publish (record { server = (publish before).0.server; conn = conn })).0.server
        ≡ record (publish before).0.server { rest = 2 })
unfolding handle_event validate accept_event store_event send_ok enqueue tables_store save_event
    insert_event has_event_id tag_rows_from to_row extract_d_tag is_ephemeral classify_kind
    run_hooks list_beq
handle_event-replay_example =
    handle_event-replay config [] ops counting hooks note before conn refl
      (tables_store-Saves (λ t. some []) (λ e. codes "error") (λ t. t) note) ((λ env s h. h), tt)
      refl refl

to_publisher-IsSilent :
    (env : HookEnv) (n : Session Tables ℕ)
    → answered note.id (to_publisher env n).0.conn ≡ answered note.id n.conn
to_publisher-IsSilent env n =
    enqueue-answered note.id (Outbound.event (codes "sub") env.event) n.conn

to_publisher-Takes :
    (env : HookEnv) (n : Session Tables ℕ) (room : ℕ)
    → IsOpen (1 + room) n.conn
    → (r : ℕ) × IsOpen (r + room) (to_publisher env n).0.conn
to_publisher-Takes env n room h =
    let (closed, left) =
      (enqueue-IsOpen (Outbound.event (codes "sub") env.event) room n.conn
        (h.0, omega (arith, h.1))).1 in
    (0, (closed, omega (arith, left)))

handle_event-one_reply_example :
    ((publish before).1 ≡ true) × (answered note.id (publish before).0.conn ≡ 1)
handle_event-one_reply_example =
    handle_event-one_reply config [] ops counting hooks note before 1 1 (to_publisher-IsSilent, tt)
      (to_publisher-Takes, tt) (refl, refl)
