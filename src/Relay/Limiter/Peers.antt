-- ===== src/Relay/Limiter/Peers.antt =====
-- The windows of the peer addresses in limiter.go. The map of the source indexes exactly the elements
-- of the queue `order`, which the source adds, moves and removes together with their keys; here a
-- lookup in the map is a search of the queue. The front of the queue is the head of the list.
use conduit_relay.Base.{
  ℕ, zero, suc, ◌+◌, ◌^◌, ◌≡◌, refl, inl, inr, Bool, false, Option, none, some, List, [], ◌∷◌, ◌++◌,
  arith, ltb, if◌then◌else◌, Bool-cases, ◌==◌, nat_eq, list_eq, list_beq_iff, ℤ, pos, leb_ℤ, int_eq,
  Text,
}
use conduit_relay.Relay.Limiter.{
  SlidingEvents, new_sliding_events, allow_event, ByteWindow, new_byte_window, allow_bytes,
}

pub record PeerWindow : Type 0 where
  pub ip : Text
  pub last_seen : ℕ
  pub limiter : SlidingEvents

abbrev pub minute : ℕ
minute = 60000000000

abbrev pub second : ℕ
second = 1000000000

-- `t.Before(now - minute)`.
abbrev pub is_stale : ℕ → PeerWindow → Bool
is_stale now x = ltb (x.last_seen + minute) now

-- At most `rounds` windows are evicted, from the front, while they are stale.
unfoldable pub evict : ℕ → ℕ → List PeerWindow → List PeerWindow
evict zero now order = order
evict (suc rounds) now [] = []
evict (suc rounds) now (x ∷ order) =
    let rest = evict rounds now order in if is_stale now x then rest else x ∷ order

unfoldable pub find : Text → List PeerWindow → Option PeerWindow
find ip [] = none
find ip (x ∷ order) = if x.ip == ip then some x else find ip order

unfoldable pub without : Text → List PeerWindow → List PeerWindow
without ip [] = []
without ip (x ∷ order) = if x.ip == ip then order else x ∷ without ip order

-- `ipWindows.allow`. The source reads the clock again for the limiter and for `lastSeen`; one time
-- stands for the three.
unfoldable pub allow_peer : ℕ → Text → ℤ → List PeerWindow → List PeerWindow × Bool
allow_peer now ip max order =
    let kept = evict 64 now order in
    elim (find ip kept) [
      | some x ↦
          let step = allow_event now x.limiter in
          (without ip kept ++ record { ip = ip; last_seen = now; limiter = step.0 } ∷ [], step.1)
      | none ↦
          let step = allow_event now (new_sliding_events minute max) in
          (kept ++ record { ip = ip; last_seen = now; limiter = step.0 } ∷ [], step.1)
    ]

-- The limiters of one connection, `newConnLimiter`. A bound of NIP-77 below 1 means no bound.
pub record ConnLimiter : Type 0 where
  pub events : SlidingEvents
  pub reqs : SlidingEvents
  pub neg_open : SlidingEvents
  pub neg_msg : SlidingEvents
  pub bytes : ByteWindow

abbrev or_unbounded : ℤ → ℤ
or_unbounded n = if leb_ℤ n (pos 0) then pos (2 ^ 30) else n

-- The arguments are the configured bounds, those of NIP-77 with their defaults applied.
unfoldable pub new_conn_limiter : ℤ → ℤ → ℤ → ℤ → ℤ → ConnLimiter
new_conn_limiter events reqs neg_open neg_msg bytes = record {
  events = new_sliding_events minute events;
  reqs = new_sliding_events minute reqs;
  neg_open = new_sliding_events minute (or_unbounded neg_open);
  neg_msg = new_sliding_events minute (or_unbounded neg_msg);
  bytes = new_byte_window second bytes;
}

unfoldable pub allow_inbound_bytes : ℕ → ℕ → ConnLimiter → ConnLimiter × Bool
allow_inbound_bytes now n c =
    let (b, ok) = allow_bytes now n c.bytes in (record c { bytes = b }, ok)

unfoldable pub allow_req : ℕ → ConnLimiter → ConnLimiter × Bool
allow_req now c = let (s, ok) = allow_event now c.reqs in (record c { reqs = s }, ok)

evict-find :
    (rounds now t : ℕ) (ip : Text) (x : PeerWindow) (order : List PeerWindow)
    → find ip order ≡ some x
    → is_stale now x ≡ false
    → find ip (evict rounds now order) ≡ some x
unfolding evict find
evict-find zero now t ip x order h fresh = h
evict-find (suc rounds) now t ip x [] h fresh = cc
evict-find (suc rounds) now t ip x (y ∷ order) h fresh =
    ground (arith, evict-find rounds now t ip x order)

-- No address has a second window in the queue.
abbrev pub OneEach : List PeerWindow → Type 0
OneEach [] = Unit {0}
OneEach (x ∷ order) = (find x.ip order ≡ none) × OneEach order

evict-OneEach :
    (rounds now : ℕ) (order : List PeerWindow) → OneEach order → OneEach (evict rounds now order)
unfolding evict
evict-OneEach zero now order v = v
evict-OneEach (suc rounds) now [] v = tt
evict-OneEach (suc rounds) now (x ∷ order) v = elim (Bool-cases (is_stale now x)) [
  | inl e ↦ rw (e, evict) (evict-OneEach rounds now order v.1)
  | inr e ↦ rw (e, evict) v
]

find-without :
    (ip : Text) (order : List PeerWindow) → OneEach order → find ip (without ip order) ≡ none
unfolding find without
find-without ip [] v = refl
find-without ip (x ∷ order) v = elim (Bool-cases (x.ip == ip)) [
  | inl e ↦ rw (e, without) (rw ((list_beq_iff x.ip ip).0 e) at v.0)
  | inr e ↦ ground (arith, e, find-without ip order v.1)
]

find-without-absent :
    (j ip : Text) (order : List PeerWindow) → find j order ≡ none → find j (without ip order) ≡ none
unfolding find without
find-without-absent j ip [] h = refl
find-without-absent j ip (x ∷ order) h = ground (arith, find-without-absent j ip order)

without-OneEach : (ip : Text) (order : List PeerWindow) → OneEach order → OneEach (without ip order)
unfolding without
without-OneEach ip [] v = tt
without-OneEach ip (x ∷ order) v = elim (Bool-cases (x.ip == ip)) [
  | inl e ↦ rw (e, without) v.1
  | inr e ↦ rw (e, without) (find-without-absent x.ip ip order v.0, without-OneEach ip order v.1)
]

find-last :
    (w : PeerWindow) (order : List PeerWindow)
    → find w.ip order ≡ none
    → find w.ip (order ++ w ∷ []) ≡ some w
unfolding find
find-last w [] h = rw ((list_beq_iff w.ip w.ip).1 refl) refl
find-last w (x ∷ order) h = ground (arith, find-last w order)

find-append :
    (j : Text) (w : PeerWindow) (order : List PeerWindow)
    → (w.ip == j) ≡ false
    → find j order ≡ none
    → find j (order ++ w ∷ []) ≡ none
unfolding find
find-append j w [] e h = rw e refl
find-append j w (x ∷ order) e h = ground (arith, find-append j w order)

append-OneEach :
    (w : PeerWindow) (order : List PeerWindow)
    → OneEach order
    → find w.ip order ≡ none
    → OneEach (order ++ w ∷ [])
unfolding find
append-OneEach w [] v h = (refl, tt)
append-OneEach w (x ∷ order) v h = (
  find-append x.ip w order (ground (arith, list_beq_iff x.ip w.ip, list_beq_iff w.ip x.ip)) v.0,
  append-OneEach w order v.1 (ground arith),
)

-- The queue has at most one window for each address. The window of a peer that was seen within the last
-- minute is never evicted: the next message of the peer is answered as that window answers it, whatever the
-- maximum of new windows is by then, the peer then has the window in which the message is counted, last
-- seen at that time, and the queue still has at most one window for each address.
pub allow_peer_kept :
    (now : ℕ) (ip : Text) (max : ℤ) (x : PeerWindow) (order : List PeerWindow)
    → OneEach order
    → find ip order ≡ some x
    → is_stale now x ≡ false
    → ((allow_peer now ip max order).1 ≡ (allow_event now x.limiter).1)
      × (find ip (allow_peer now ip max order).0
          ≡ some (record { ip = ip; last_seen = now; limiter = (allow_event now x.limiter).0 }))
      × OneEach (allow_peer now ip max order).0
unfolding allow_peer
allow_peer_kept now ip max x order v h fresh =
    let kept = evict 64 now order in
    let one = evict-OneEach 64 now order v in
    let gone = find-without ip kept one in
    let w : PeerWindow = record {
      ip = ip;
      last_seen = now;
      limiter = (allow_event now x.limiter).0;
    } in
    rw (evict-find 64 now 0 ip x order h fresh, allow_peer)
      (
        refl,
        find-last w (without ip kept) gone,
        append-OneEach w (without ip kept) (without-OneEach ip kept one) gone,
      )
