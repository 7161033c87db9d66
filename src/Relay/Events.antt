-- ===== src/Relay/Events.antt =====
-- congee/internal/relay: the EVENT handler of nip01.go, the chain of the validators (middleware.go) and
-- of the hooks (hooks.go), and the queue of a connection (handler.go). The store, the validators and
-- the hooks are arguments, over a state `S` of the store and a state `G` of all else they change; a hook
-- may also queue messages. The log, the metrics and the audit log are left out.
pub mod Acknowledged
pub mod Replies
pub mod Room
pub mod Stored
use conduit_relay.Base.{
  ℕ, zero, suc, Bool, true, false, not, Option, none, some, List, [], ◌∷◌, ◌++◌, if◌then◌else◌,
  nat_eq, list_eq, int_eq, Text, codes, has_prefix,
}
use conduit_relay.Nostr.Event.{Event}
use conduit_relay.Nostr.Kinds.{is_ephemeral}
use conduit_relay.Relay.Config.{Config}
use conduit_relay.Relay.Auth.{AuthState, enqueue_auth_challenge}

-- OK, AUTH, and EVENT under the id of a subscription of the connection.
pub data Outbound : Type 0 where
  ok : Text → Bool → Text → Outbound
  auth : Text → Outbound
  event : Text → Event → Outbound

-- `room` is how many more messages the channel `send` takes.
pub record Conn : Type 0 where
  pub auth_state : AuthState
  pub sent : List Outbound
  pub room : ℕ
  pub outbound_closed : Bool

pub record ServerState (S G : Type 0) : Type 0 where
  pub store : S
  pub rest : G

pub record HookEnv : Type 0 where
  pub event : Event
  pub stored : Bool

pub record Session (S G : Type 0) : Type 0 where
  pub server : ServerState S G
  pub conn : Conn

pub record NamedHook (S G : Type 0) : Type 0 where
  pub name : Text
  pub run : HookEnv → Session S G → Session S G × Option Text

-- The operations of `storage.Store` that the handler calls. `meanwhile` is what other connections do to
-- the store between the lookup and the insert; `none` is an error of the lookup.
pub record StoreOps (S : Type 0) : Type 0 where
  pub lookup_id : S → Text → Option Bool
  pub save : Event → S → S × Option Text
  pub meanwhile : S → S

-- The new connection, and whether the message was queued.
unfoldable pub enqueue : Outbound → Conn → Conn × Bool
enqueue m c = if c.outbound_closed then (c, false) else elim c.room [
  | zero ↦ (c, false)
  | suc room ↦ (record c { sent = m ∷ c.sent; room = room }, true)
]

unfoldable pub send_ok : Text → Bool → Text → Conn → Conn × Bool
send_ok id accepted message c = enqueue (Outbound.ok id accepted message) c

-- The challenge is sent at most once; that it could not be queued is ignored.
unfoldable pub send_challenge : Config → Text → Conn → Conn
send_challenge cfg fresh c =
    let step = enqueue_auth_challenge cfg fresh c.auth_state in
    let d = record c { auth_state = step.0 } in
    elim step.1 [ none ↦ d | some text ↦ (enqueue (Outbound.auth text) d).0 ]

abbrev pub Validator : Type 0 → Type 0 → Type 0
Validator S G = Conn → Event → ServerState S G → G × Option Text

abbrev pub duplicate_message : Text
duplicate_message = codes "duplicate: already have this event"

module _ {S G : Type 0} where
  -- The first error ends the chain.
  unfoldable pub validate :
      List (Validator S G) → Conn → Event → ServerState S G → ServerState S G × Option Text
  validate [] c ev s = (s, none)
  validate (v ∷ vs) c ev s =
      let step = v c ev s in
      let later = validate vs c ev (record s { rest = step.0 }) in
      elim step.1 [ none ↦ later | some e ↦ (record s { rest = step.0 }, some e) ]

  unfoldable pub run_hooks :
      List (NamedHook S G) → HookEnv → Session S G → Session S G × Option Text
  run_hooks [] env n = (n, none)
  run_hooks (h ∷ hs) env n =
      let step = h.run env n in
      let later = run_hooks hs env step.0 in
      elim step.1 [
        | none ↦ later
        | some e ↦ (step.0, some (codes "post_hook " ++ h.name ++ codes ": " ++ e))
      ]

  abbrev pub reply : ServerState S G → Conn × Bool → Session S G × Bool
  reply s step = (record { server = s; conn = step.0 }, step.1)

  module _ (cfg : Config) (fresh : Text) (store : StoreOps S) (validators : List (Validator S G))
      (hooks : List (NamedHook S G)) where
    unfoldable pub reject_event : Event → Text → ServerState S G → Conn → Session S G × Bool
    reject_event ev reason s c = reply s (
        send_ok ev.id false reason
          (if has_prefix (codes "auth-required:") reason then send_challenge cfg fresh c else c))

    -- The reply comes first; after one that could not be queued the hooks do not run.
    unfoldable pub accept_ephemeral : Event → ServerState S G → Conn → Session S G × Bool
    accept_ephemeral ev s c =
        let step = send_ok ev.id true [] c in
        if not step.1 then (record { server = s; conn = step.0 }, false) else (
          (run_hooks hooks (record { event = ev; stored = false })
              (record { server = s; conn = step.0 })).0,
          true,
        )

    unfoldable pub store_event : Event → ServerState S G → Conn → Session S G × Bool
    store_event ev s c =
        let step = store.save ev (store.meanwhile s.store) in
        let after = record s { store = step.0 } in
        elim step.1 [
          | none ↦
              let ran =
                run_hooks hooks (record { event = ev; stored = true })
                  (record { server = after; conn = c }) in
              reply ran.0.server (send_ok ev.id true [] ran.0.conn)
          | some reason ↦ elim (store.lookup_id step.0 ev.id) [
            | none ↦ reply after (send_ok ev.id false reason c)
            | some exists ↦
                if exists
                then reply after (send_ok ev.id true duplicate_message c)
                else reply after (send_ok ev.id false reason c)
          ]
        ]

    unfoldable pub accept_event : Event → ServerState S G → Conn → Session S G × Bool
    accept_event ev s c =
        if is_ephemeral ev.kind
        then accept_ephemeral ev s c
        else elim (store.lookup_id s.store ev.id) [
          | none ↦ reply s (send_ok ev.id false (codes "error: cannot check stored event") c)
          | some exists ↦
              if exists
              then reply s (send_ok ev.id true duplicate_message c)
              else store_event ev s c
        ]

    -- `handleEVENT`: the new state, and whether it returned nil.
    unfoldable pub handle_event : Event → Session S G → Session S G × Bool
    handle_event ev n =
        let step = validate validators n.conn ev n.server in
        elim step.1 [
          | some reason ↦ reject_event ev reason step.0 n.conn
          | none ↦ accept_event ev step.0 n.conn
        ]
