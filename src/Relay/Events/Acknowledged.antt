-- ===== src/Relay/Events/Acknowledged.antt =====
-- congee/internal/relay/nip01.go: what the acknowledgement of an EVENT promises.
use conduit_relay.Base.{
  ℕ, zero, suc, ◌≡◌, refl, sym, inl, inr, Bool, true, false, ◌&&◌, none, some, List, [], ◌∷◌, arith,
  Bool-cases, Option-cases, ◌==◌, nat_eq, list_eq, list_beq_iff, any, All, int_eq, Text, codes,
  has_prefix,
}
use conduit_relay.Nostr.Event.{Event}
use conduit_relay.Nostr.Kinds.{is_ephemeral}
use conduit_relay.Relay.Config.{Config}
use conduit_relay.Relay.Auth.{enqueue_auth_challenge}
use conduit_relay.Relay.Events.{
  Outbound, Conn, ServerState, HookEnv, NamedHook, StoreOps, Session, Validator, enqueue, send_ok,
  send_challenge, validate, run_hooks, reject_event, store_event, accept_event, handle_event,
}

-- An OK for the event that says it was accepted.
abbrev pub acknowledges : Text → Outbound → Bool
acknowledges id (Outbound.ok i accepted message) = i == id && accepted
acknowledges id (Outbound.auth challenge) = false
acknowledges id (Outbound.event sub ev) = false

abbrev pub acknowledged : Text → Conn → Bool
acknowledged id c = any (acknowledges id) c.sent

enqueue-acknowledged :
    (id : Text) (m : Outbound) (c : Conn)
    → acknowledges id m ≡ false
    → acknowledged id c ≡ false
    → acknowledged id (enqueue m c).0 ≡ false
unfolding enqueue
enqueue-acknowledged id m c h k = elim (Bool-cases c.outbound_closed) [
  | inl e ↦ rw (e) k
  | inr e ↦ go e c.room refl
]
  where
    go :
        c.outbound_closed ≡ false
        → (room : ℕ) → c.room ≡ room
        → acknowledged id (enqueue m c).0 ≡ false
    go e zero n = rw (e, n) k
    go e (suc room) n = rw (e, n, h) k

send_challenge-acknowledged :
    (cfg : Config) (fresh id : Text) (c : Conn)
    → acknowledged id c ≡ false
    → acknowledged id (send_challenge cfg fresh c) ≡ false
unfolding send_challenge
send_challenge-acknowledged cfg fresh id c k =
    elim (Option-cases (enqueue_auth_challenge cfg fresh c.auth_state).1) [
      | inl e ↦ rw (e, send_challenge) k
      | inr (text, e) ↦
          rw (e, send_challenge)
            (enqueue-acknowledged id (Outbound.auth text)
              (record c { auth_state = (enqueue_auth_challenge cfg fresh c.auth_state).0 }) refl k)
    ]

refused : (id reason : Text) → acknowledges id (Outbound.ok id false reason) ≡ false
refused id reason = ground (arith, list_beq_iff id id)

-- A save that succeeds leaves the event stored.
abbrev pub Saves : {S : Type 0} → StoreOps S → Event → Type 0
Saves {S} store ev =
    (s : S) → (store.save ev s).1 ≡ none → store.lookup_id (store.save ev s).0 ev.id ≡ some true

module _ {S G : Type 0} where
  validate-store :
      (vs : List (Validator S G)) (c : Conn) (ev : Event) (s : ServerState S G)
      → (validate vs c ev s).0.store ≡ s.store
  unfolding validate
  validate-store [] c ev s = refl
  validate-store (v ∷ vs) c ev s = elim (Option-cases (v c ev s).1) [
    | inl e ↦ rw (e, validate) (validate-store vs c ev (record s { rest = (v c ev s).0 }))
    | inr (reason, e) ↦ rw (e, validate) refl
  ]

  same_server : (s t : ServerState S G) → s.store ≡ t.store → s ≡ record t { rest = s.rest }
  same_server s t h = rw (sym h) refl

  -- The hook leaves what is stored under the id.
  abbrev pub Keeps : StoreOps S → Text → NamedHook S G → Type 0
  Keeps store id h =
      (env : HookEnv) (n : Session S G)
      → store.lookup_id n.server.store id ≡ some true
      → store.lookup_id (h.run env n).0.server.store id ≡ some true

  run_hooks-Keeps :
      (store : StoreOps S) (id : Text) (hs : List (NamedHook S G)) (env : HookEnv) (s : Session S G)
      → All (Keeps store id) hs
      → store.lookup_id s.server.store id ≡ some true
      → store.lookup_id (run_hooks hs env s).0.server.store id ≡ some true
  unfolding run_hooks
  run_hooks-Keeps store id [] env s ks h = h
  run_hooks-Keeps store id (k ∷ hs) env s ks h = elim (Option-cases (k.run env s).1) [
    | inl e ↦
        rw (e, run_hooks) (run_hooks-Keeps store id hs env (k.run env s).0 ks.1 (ks.0 env s h))
    | inr (reason, e) ↦ rw (e, run_hooks) (ks.0 env s h)
  ]

  module _ (cfg : Config) (fresh : Text) (store : StoreOps S) (validators : List (Validator S G))
      (hooks : List (NamedHook S G)) (ev : Event) where
    abbrev pub IsStored : Session S G → Type 0
    IsStored n = store.lookup_id n.server.store ev.id ≡ some true

    not_accepted :
        (reason : Text) (c : Conn)
        → acknowledged ev.id c ≡ false
        → acknowledged ev.id (send_ok ev.id false reason c).0 ≡ false
    unfolding send_ok
    not_accepted reason c =
        enqueue-acknowledged ev.id (Outbound.ok ev.id false reason) c (refused ev.id reason)

    reject_event-acknowledged :
        (reason : Text) (s : ServerState S G) (c : Conn)
        → acknowledged ev.id c ≡ false
        → acknowledged ev.id (reject_event cfg fresh store validators hooks ev reason s c).0.conn
          ≡ false
    unfolding reject_event
    reject_event-acknowledged reason s c h =
        elim (Bool-cases (has_prefix (codes "auth-required:") reason)) [
          | inl e ↦
              rw (e, reject_event)
                (not_accepted reason _ (send_challenge-acknowledged cfg fresh ev.id c h))
          | inr e ↦ rw (e, reject_event) (not_accepted reason c h)
        ]

    store_event-IsStored :
        (s : ServerState S G) (c : Conn)
        → Saves store ev
        → All (Keeps store ev.id) hooks
        → acknowledged ev.id c ≡ false
        → acknowledged ev.id (store_event cfg fresh store validators hooks ev s c).0.conn ≡ true
        → IsStored (store_event cfg fresh store validators hooks ev s c).0
    unfolding store_event
    store_event-IsStored s c saves keeps h k =
        elim (Option-cases (store.save ev (store.meanwhile s.store)).1) [
          | inl e ↦
              rw (e, store_event)
                (run_hooks-Keeps store ev.id hooks _ _ keeps (saves (store.meanwhile s.store) e))
          | inr (reason, e) ↦
              elim (Option-cases
                (store.lookup_id (store.save ev (store.meanwhile s.store)).0 ev.id)) [
                  | inl f ↦ cc (not_accepted reason c h, rw (e, f, store_event) at k)
                  | inr (exists, f) ↦ elim (Bool-cases exists) [
                    | inl g ↦ rw (e, f, g, store_event) (cc)
                    | inr g ↦ cc (not_accepted reason c h, rw (e, f, g, store_event) at k)
                  ]
                ]
        ]

    accept_event-IsStored :
        (s : ServerState S G) (c : Conn)
        → is_ephemeral ev.kind ≡ false
        → Saves store ev
        → All (Keeps store ev.id) hooks
        → acknowledged ev.id c ≡ false
        → acknowledged ev.id (accept_event cfg fresh store validators hooks ev s c).0.conn ≡ true
        → IsStored (accept_event cfg fresh store validators hooks ev s c).0
    unfolding accept_event
    accept_event-IsStored s c regular saves keeps h k =
        elim (Option-cases (store.lookup_id s.store ev.id)) [
          | inl f ↦ cc (
            not_accepted (codes "error: cannot check stored event") c h,
            rw (regular, f, accept_event) at k,
          )
          | inr (exists, f) ↦ elim (Bool-cases exists) [
            | inl g ↦ rw (regular, f, g, accept_event) (cc)
            | inr g ↦
                rw (regular, f, g, accept_event)
                  (store_event-IsStored s c saves keeps h (rw (regular, f, g, accept_event) at k))
          ]
        ]

    handle_event-IsStored :
        (n : Session S G)
        → is_ephemeral ev.kind ≡ false
        → Saves store ev
        → All (Keeps store ev.id) hooks
        → acknowledged ev.id n.conn ≡ false
        → acknowledged ev.id (handle_event cfg fresh store validators hooks ev n).0.conn ≡ true
        → IsStored (handle_event cfg fresh store validators hooks ev n).0
    unfolding handle_event
    handle_event-IsStored n regular saves keeps h k =
        elim (Option-cases (validate validators n.conn ev n.server).1) [
          | inl e ↦
              rw (e, handle_event)
                (accept_event-IsStored _ n.conn regular saves keeps h (rw (e, handle_event) at k))
          | inr (reason, e) ↦ cc (
            reject_event-acknowledged reason (validate validators n.conn ev n.server).0 n.conn h,
            rw (e, handle_event) at k,
          )
        ]

    stored-store :
        (n : Session S G)
        → is_ephemeral ev.kind ≡ false
        → IsStored n
        → (handle_event cfg fresh store validators hooks ev n).0.server
          ≡ (validate validators n.conn ev n.server).0
    unfolding handle_event accept_event reject_event
    stored-store n regular there = elim (Option-cases (validate validators n.conn ev n.server).1) [
      | inl e ↦ rw (e, handle_event, accept_event, regular, found) refl
      | inr (reason, e) ↦ rw (e, handle_event, reject_event) refl
    ]
      where
        found : store.lookup_id (validate validators n.conn ev n.server).0.store ev.id ≡ some true
        found = rw (validate-store validators n.conn ev n.server) there

    -- The event is not ephemeral, a save that succeeds leaves it stored, the hooks keep it, and the connection
    -- has queued no acceptance of it. If the handler queues one, the store then has the event, and when it is
    -- sent again, on any connection, the server changes at most by what the validators do.
    pub handle_event-replay :
        (n : Session S G) (c : Conn)
        → is_ephemeral ev.kind ≡ false
        → Saves store ev
        → All (Keeps store ev.id) hooks
        → acknowledged ev.id n.conn ≡ false
        → acknowledged ev.id (handle_event cfg fresh store validators hooks ev n).0.conn ≡ true
        → let after = (handle_event cfg fresh store validators hooks ev n).0.server in
          (store.lookup_id after.store ev.id ≡ some true)
          × ((handle_event cfg fresh store validators hooks ev
                (record { server = after; conn = c })).0.server
              ≡ record after { rest = (validate validators c ev after).0.rest })
    handle_event-replay n c regular saves keeps h k =
        let there = handle_event-IsStored n regular saves keeps h k in
        let after = (handle_event cfg fresh store validators hooks ev n).0.server in
        (
          there,
          cc (
            stored-store (record { server = after; conn = c }) regular there,
            same_server (validate validators c ev after).0 after
                (validate-store validators c ev after),
          ),
        )
