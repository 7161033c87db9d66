-- ===== src/Relay/Events/Room.antt =====
-- congee/internal/relay/nip01.go: the room that the replies to an EVENT need.
use conduit_relay.Base.{
  ℕ, suc, ◌+◌, ◌≡◌, refl, ◌∙◌, inl, inr, Bool, true, false, List, [], arith, Bool-cases,
  Option-cases, nat_eq, list_eq, All, int_eq, Text, codes, has_prefix,
}
use conduit_relay.Nostr.Event.{Event}
use conduit_relay.Nostr.Kinds.{is_ephemeral}
use conduit_relay.Relay.Config.{Config}
use conduit_relay.Relay.Events.{
  Outbound, Conn, ServerState, NamedHook, StoreOps, Session, Validator, send_ok, validate,
  reject_event, accept_ephemeral, duplicate_message, store_event, accept_event, handle_event,
}
use conduit_relay.Relay.Events.Replies.{
  answered, IsOpen, IsSilent, Takes, slots, enqueue-IsOpen, send_challenge-IsOpen, run_hooks-Takes,
  handle_event-answered,
}

send_ok-queued :
    (id message : Text) (accepted : Bool) (room : ℕ) (c : Conn)
    → IsOpen (suc room) c
    → (send_ok id accepted message c).1 ≡ true
unfolding send_ok
send_ok-queued id message accepted room c h =
    (enqueue-IsOpen (Outbound.ok id accepted message) room c h).0

module _ {S G : Type 0} (cfg : Config) (fresh : Text) (store : StoreOps S)
    (validators : List (Validator S G)) (hooks : List (NamedHook S G)) (ev : Event) where
  reject_event-succeeds :
      (reason : Text) (s : ServerState S G) (room : ℕ) (c : Conn)
      → IsOpen (suc (suc room)) c
      → (reject_event cfg fresh store validators hooks ev reason s c).1 ≡ true
  unfolding reject_event
  reject_event-succeeds reason s room c h =
      elim (Bool-cases (has_prefix (codes "auth-required:") reason)) [
        | inl e ↦
            let (k, takes) = send_challenge-IsOpen cfg fresh room c h in
            rw (e, reject_event) (send_ok-queued ev.id reason false k _ takes)
        | inr e ↦ rw (e, reject_event) (send_ok-queued ev.id reason false (suc room) c h)
      ]

  store_event-succeeds :
      (k room : ℕ) (s : ServerState S G) (c : Conn)
      → All (Takes k) hooks
      → IsOpen (slots k hooks + suc room) c
      → (store_event cfg fresh store validators hooks ev s c).1 ≡ true
  unfolding store_event
  store_event-succeeds k room s c takes h =
      elim (Option-cases (store.save ev (store.meanwhile s.store)).1) [
        | inl e ↦
            let (r, left) =
              run_hooks-Takes k hooks (record { event = ev; stored = true })
                (record {
                  server = record s { store = (store.save ev (store.meanwhile s.store)).0 };
                  conn = c;
                })
                (suc room) takes h in
            rw (e, store_event)
              (send_ok-queued ev.id [] true (r + room) _ (left.0, omega (arith, left.1)))
        | inr (reason, e) ↦
            elim (Option-cases
              (store.lookup_id (store.save ev (store.meanwhile s.store)).0 ev.id)) [
                | inl f ↦ rw (e, f, store_event) (fits reason false)
                | inr (exists, f) ↦ elim (Bool-cases exists) [
                  | inl g ↦ rw (e, f, g, store_event) (fits duplicate_message true)
                  | inr g ↦ rw (e, f, g, store_event) (fits reason false)
                ]
              ]
      ]
    where
      fits : (message : Text) (accepted : Bool) → (send_ok ev.id accepted message c).1 ≡ true
      fits message accepted =
          send_ok-queued ev.id message accepted (slots k hooks + room) c (h.0, omega (arith, h.1))

  accept_ephemeral-succeeds :
      (s : ServerState S G) (room : ℕ) (c : Conn)
      → IsOpen (suc room) c
      → (accept_ephemeral cfg fresh store validators hooks ev s c).1 ≡ true
  unfolding accept_ephemeral
  accept_ephemeral-succeeds s room c h =
      rw (send_ok-queued ev.id [] true room c h, accept_ephemeral) refl

  accept_event-succeeds :
      (k room : ℕ) (s : ServerState S G) (c : Conn)
      → All (Takes k) hooks
      → IsOpen (slots k hooks + suc room) c
      → (accept_event cfg fresh store validators hooks ev s c).1 ≡ true
  unfolding accept_event
  accept_event-succeeds k room s c takes h = elim (Bool-cases (is_ephemeral ev.kind)) [
    | inl e ↦ rw (e, accept_event) (accept_ephemeral-succeeds s (slots k hooks + room) c one_left)
    | inr e ↦ elim (Option-cases (store.lookup_id s.store ev.id)) [
      | inl f ↦
          rw (e, f, accept_event) (send_ok-queued ev.id _ false (slots k hooks + room) c one_left)
      | inr (exists, f) ↦ elim (Bool-cases exists) [
        | inl g ↦
            rw (e, f, g, accept_event)
              (send_ok-queued ev.id duplicate_message true (slots k hooks + room) c one_left)
        | inr g ↦ rw (e, f, g, accept_event) (store_event-succeeds k room s c takes h)
      ]
    ]
  ]
    where
      one_left : IsOpen (suc (slots k hooks + room)) c
      one_left = (h.0, omega (arith, h.1))

  -- Each hook queues at most `k` messages on the connection and no OK for the event, and the connection is
  -- open and takes these messages and two more. Then the handler succeeds and queues exactly one OK for the
  -- event, whatever the validators, the store and the hooks answer.
  pub handle_event-one_reply :
      (n : Session S G) (k room : ℕ)
      → All (IsSilent ev.id) hooks
      → All (Takes k) hooks
      → IsOpen (slots k hooks + 2 + room) n.conn
      → ((handle_event cfg fresh store validators hooks ev n).1 ≡ true)
        × (answered ev.id (handle_event cfg fresh store validators hooks ev n).0.conn
            ≡ suc (answered ev.id n.conn))
  unfolding handle_event
  handle_event-one_reply n k room silent takes h =
      (done, handle_event-answered cfg fresh store validators hooks ev n silent ∙ rw done refl)
    where
      done : (handle_event cfg fresh store validators hooks ev n).1 ≡ true
      done = elim (Option-cases (validate validators n.conn ev n.server).1) [
        | inl e ↦
            rw (e, handle_event)
              (accept_event-succeeds k (suc room) _ n.conn takes (h.0, omega (arith, h.1)))
        | inr (reason, e) ↦
            rw (e, handle_event)
              (reject_event-succeeds reason _ (slots k hooks + room) n.conn
                (h.0, omega (arith, h.1)))
      ]
