-- ===== src/Relay/Events/Replies.antt =====
-- congee/internal/relay/nip01.go: the replies to an EVENT.
use conduit_relay.Base.{
  ℕ, zero, suc, ◌+◌, ◌≡◌, refl, sym, ◌∙◌, inl, inr, Bool, true, false, List, [], ◌∷◌, arith,
  if◌then◌else◌, Bool-cases, Option-cases, ◌==◌, nat_eq, list_eq, list_beq_iff, length, select, All,
  int_eq, Text, codes, has_prefix,
}
use conduit_relay.Nostr.Event.{Event}
use conduit_relay.Nostr.Kinds.{is_ephemeral}
use conduit_relay.Relay.Config.{Config}
use conduit_relay.Relay.Auth.{enqueue_auth_challenge}
use conduit_relay.Relay.Events.{
  HookEnv, run_hooks, Outbound, Conn, ServerState, NamedHook, StoreOps, Session, Validator, enqueue,
  send_ok, send_challenge, validate, reject_event, accept_ephemeral, duplicate_message, store_event,
  accept_event, handle_event,
}

-- An OK for the event, accepted or not.
abbrev pub answers : Text → Outbound → Bool
answers id (Outbound.ok i accepted message) = i == id
answers id (Outbound.auth challenge) = false
answers id (Outbound.event sub ev) = false

abbrev pub answered : Text → Conn → ℕ
answered id c = length (select (answers id) c.sent)

-- The connection is open and takes so many more messages.
abbrev pub IsOpen : ℕ → Conn → Type 0
IsOpen room c = (c.outbound_closed ≡ false) × (c.room ≡ room)

-- One more if the OK was queued.
abbrev pub one_if : Bool → ℕ → ℕ
one_if queued n = if queued then suc n else n

pub enqueue-answered :
    (id : Text) (m : Outbound) (c : Conn)
    → answered id (enqueue m c).0
      ≡ (if answers id m then one_if (enqueue m c).1 (answered id c) else answered id c)
unfolding enqueue
enqueue-answered id m c = elim (Bool-cases c.outbound_closed) [
  | inl e ↦ elim (Bool-cases (answers id m)) [ inl f ↦ rw (e, f) refl | inr f ↦ rw (e, f) refl ]
  | inr e ↦ go e c.room refl
]
  where
    go :
        c.outbound_closed ≡ false
        → (room : ℕ) → c.room ≡ room
        → answered id (enqueue m c).0
          ≡ (if answers id m then one_if (enqueue m c).1 (answered id c) else answered id c)
    go e zero n = elim (Bool-cases (answers id m)) [
      | inl f ↦ rw (e, n, f) refl
      | inr f ↦ rw (e, n, f) refl
    ]
    go e (suc room) n = elim (Bool-cases (answers id m)) [
      | inl f ↦ rw (e, n, f) refl
      | inr f ↦ rw (e, n, f) refl
    ]

pub enqueue-IsOpen :
    (m : Outbound) (room : ℕ) (c : Conn)
    → IsOpen (suc room) c
    → ((enqueue m c).1 ≡ true) × IsOpen room (enqueue m c).0
unfolding enqueue
enqueue-IsOpen m room c h = rw (h.0, h.1) (refl, (h.0, refl))

send_ok-answered :
    (id message : Text) (accepted : Bool) (c : Conn)
    → answered id (send_ok id accepted message c).0
      ≡ one_if (send_ok id accepted message c).1 (answered id c)
unfolding send_ok
send_ok-answered id message accepted c =
    enqueue-answered id (Outbound.ok id accepted message) c ∙ rw ((list_beq_iff id id).1 refl) refl

send_challenge-answered :
    (cfg : Config) (fresh id : Text) (c : Conn)
    → answered id (send_challenge cfg fresh c) ≡ answered id c
unfolding send_challenge
send_challenge-answered cfg fresh id c =
    elim (Option-cases (enqueue_auth_challenge cfg fresh c.auth_state).1) [
      | inl e ↦ rw (e, send_challenge) refl
      | inr (text, e) ↦ rw (e, send_challenge) (enqueue-answered id (Outbound.auth text) _)
    ]

pub send_challenge-IsOpen :
    (cfg : Config) (fresh : Text) (room : ℕ) (c : Conn)
    → IsOpen (suc (suc room)) c
    → (k : ℕ) × IsOpen (suc k) (send_challenge cfg fresh c)
unfolding send_challenge
send_challenge-IsOpen cfg fresh room c h =
    elim (Option-cases (enqueue_auth_challenge cfg fresh c.auth_state).1) [
      | inl e ↦ rw (e, send_challenge) (suc room, h)
      | inr (text, e) ↦
          rw (e, send_challenge) (room, (enqueue-IsOpen (Outbound.auth text) (suc room) _ h).1)
    ]

module _ {S G : Type 0} where
  -- The hook queues no OK for the event.
  abbrev pub IsSilent : Text → NamedHook S G → Type 0
  IsSilent id h =
      (env : HookEnv) (n : Session S G) → answered id (h.run env n).0.conn ≡ answered id n.conn

  -- The hook queues at most `k` messages on the connection, as nip01_broadcast_event does where that many
  -- subscriptions of the connection match.
  abbrev pub Takes : ℕ → NamedHook S G → Type 0
  Takes k h =
      (env : HookEnv) (n : Session S G) (room : ℕ)
      → IsOpen (k + room) n.conn
      → (r : ℕ) × IsOpen (r + room) (h.run env n).0.conn

  -- The messages that the hooks queue at most.
  abbrev pub slots : ℕ → List (NamedHook S G) → ℕ
  slots k [] = 0
  slots k (h ∷ hs) = k + slots k hs

  run_hooks-IsSilent :
      (id : Text) (hs : List (NamedHook S G)) (env : HookEnv) (n : Session S G)
      → All (IsSilent id) hs
      → answered id (run_hooks hs env n).0.conn ≡ answered id n.conn
  unfolding run_hooks
  run_hooks-IsSilent id [] env n qs = refl
  run_hooks-IsSilent id (q ∷ hs) env n qs = elim (Option-cases (q.run env n).1) [
    | inl e ↦ rw (e, run_hooks) (run_hooks-IsSilent id hs env (q.run env n).0 qs.1 ∙ qs.0 env n)
    | inr (reason, e) ↦ rw (e, run_hooks) (qs.0 env n)
  ]

  pub run_hooks-Takes :
      (k : ℕ) (hs : List (NamedHook S G)) (env : HookEnv) (n : Session S G) (room : ℕ)
      → All (Takes k) hs
      → IsOpen (slots k hs + room) n.conn
      → (r : ℕ) × IsOpen (r + room) (run_hooks hs env n).0.conn
  unfolding run_hooks
  run_hooks-Takes k [] env n room ts h = (0, h)
  run_hooks-Takes k (t ∷ hs) env n room ts h =
      let (r, takes) = ts.0 env n (slots k hs + room) (h.0, omega (arith, h.1)) in
      elim (Option-cases (t.run env n).1) [
        | inl e ↦
            let (q, more) =
              run_hooks-Takes k hs env (t.run env n).0 (r + room) ts.1
                (takes.0, omega (arith, takes.1)) in
            rw (e, run_hooks) (q + r, (more.0, omega (arith, more.1)))
        | inr (reason, e) ↦ rw (e, run_hooks) (r + slots k hs, (takes.0, omega (arith, takes.1)))
      ]

module _ {S G : Type 0} (cfg : Config) (fresh : Text) (store : StoreOps S)
    (validators : List (Validator S G)) (hooks : List (NamedHook S G)) (ev : Event) where
  -- As many OKs for the event as before, and one more if the step succeeded.
  abbrev Answered : Conn → Session S G × Bool → Type 0
  Answered c step = answered ev.id step.0.conn ≡ one_if step.1 (answered ev.id c)

  reject_event-Answered :
      (reason : Text) (s : ServerState S G) (c : Conn)
      → Answered c (reject_event cfg fresh store validators hooks ev reason s c)
  unfolding reject_event
  reject_event-Answered reason s c =
      elim (Bool-cases (has_prefix (codes "auth-required:") reason)) [
        | inl e ↦
            rw (e, reject_event, sym (send_challenge-answered cfg fresh ev.id c))
              (send_ok-answered ev.id reason false (send_challenge cfg fresh c))
        | inr e ↦ rw (e, reject_event) (send_ok-answered ev.id reason false c)
      ]

  store_event-Answered :
      (s : ServerState S G) (c : Conn)
      → All (IsSilent ev.id) hooks
      → Answered c (store_event cfg fresh store validators hooks ev s c)
  unfolding store_event
  store_event-Answered s c silent =
      elim (Option-cases (store.save ev (store.meanwhile s.store)).1) [
        | inl e ↦
            rw
              (
                e,
                store_event,
                sym (
                    run_hooks-IsSilent ev.id hooks (record { event = ev; stored = true })
                      (record {
                        server = record s { store = (store.save ev (store.meanwhile s.store)).0 };
                        conn = c;
                      })
                      silent),
              )
              (send_ok-answered ev.id [] true _)
        | inr (reason, e) ↦
            elim (Option-cases
              (store.lookup_id (store.save ev (store.meanwhile s.store)).0 ev.id)) [
                | inl f ↦ rw (e, f, store_event) (send_ok-answered ev.id reason false c)
                | inr (exists, f) ↦ elim (Bool-cases exists) [
                  | inl g ↦
                      rw (e, f, g, store_event) (send_ok-answered ev.id duplicate_message true c)
                  | inr g ↦ rw (e, f, g, store_event) (send_ok-answered ev.id reason false c)
                ]
              ]
      ]

  accept_ephemeral-Answered :
      (s : ServerState S G) (c : Conn)
      → All (IsSilent ev.id) hooks
      → Answered c (accept_ephemeral cfg fresh store validators hooks ev s c)
  unfolding accept_ephemeral
  accept_ephemeral-Answered s c silent =
      let count = send_ok-answered ev.id [] true c in
      let same =
        run_hooks-IsSilent ev.id hooks (record { event = ev; stored = false })
          (record { server = s; conn = (send_ok ev.id true [] c).0 }) silent in
      elim (Bool-cases (send_ok ev.id true [] c).1) [
        | inl e ↦ rw (e, accept_ephemeral) (same ∙ (rw e at count))
        | inr e ↦ rw (e, accept_ephemeral) (rw e at count)
      ]

  accept_event-Answered :
      (s : ServerState S G) (c : Conn)
      → All (IsSilent ev.id) hooks
      → Answered c (accept_event cfg fresh store validators hooks ev s c)
  unfolding accept_event
  accept_event-Answered s c silent = elim (Bool-cases (is_ephemeral ev.kind)) [
    | inl e ↦ rw (e, accept_event) (accept_ephemeral-Answered s c silent)
    | inr e ↦ elim (Option-cases (store.lookup_id s.store ev.id)) [
      | inl f ↦ rw (e, f, accept_event) (send_ok-answered ev.id _ false c)
      | inr (exists, f) ↦ elim (Bool-cases exists) [
        | inl g ↦ rw (e, f, g, accept_event) (send_ok-answered ev.id duplicate_message true c)
        | inr g ↦ rw (e, f, g, accept_event) (store_event-Answered s c silent)
      ]
    ]
  ]

  -- No hook queues an OK for the event. Then the handler queues exactly one OK for the event if it
  -- succeeds, and none if it returns an error, whatever room the connection has and whatever the validators,
  -- the store and the hooks answer.
  pub handle_event-answered :
      (n : Session S G)
      → All (IsSilent ev.id) hooks
      → answered ev.id (handle_event cfg fresh store validators hooks ev n).0.conn
        ≡ one_if (handle_event cfg fresh store validators hooks ev n).1 (answered ev.id n.conn)
  unfolding handle_event
  handle_event-answered n silent = elim (Option-cases (validate validators n.conn ev n.server).1) [
    | inl e ↦ rw (e, handle_event) (accept_event-Answered _ n.conn silent)
    | inr (reason, e) ↦ rw (e, handle_event) (reject_event-Answered reason _ n.conn)
  ]
