-- ===== src/Examples/Limits.antt =====
-- The limiters and the counts of connections, on short runs.
use conduit_relay.Base.{
  ◌≤◌, ◌≡◌, refl, some, [], ◌∷◌, arith, nat_eq, list_eq, list_beq, pos, int_eq, Text, codes,
}
use conduit_relay.Base.Assoc.{lookup, insert}
use conduit_relay.Relay.Limiter.{new_sliding_events, new_byte_window, allow_event}
use conduit_relay.Relay.Limiter.Window.{load}
use conduit_relay.Relay.Limiter.Events.{one, same, admitted, admitted_bounded}
use conduit_relay.Relay.Limiter.Bytes.{when, size, passed, passed_bounded}
use conduit_relay.Relay.Limiter.Peers.{PeerWindow, find, allow_peer, allow_peer_kept, OneEach}
use conduit_relay.Relay.IpConns.{open_count, try_acquire, release, count, Reaches, Reaches-max}

admitted_bounded_example :
    load same one 10 2 (admitted (new_sliding_events 10 (pos 2)) (1 ∷ 2 ∷ 3 ∷ 12 ∷ [])) ≤ 2
admitted_bounded_example =
    admitted_bounded 10 (pos 2) 2 0 (1 ∷ 2 ∷ 3 ∷ 12 ∷ [])
      (omega arith, (omega arith, (omega arith, (omega arith, tt))))

passed_bounded_example :
    load when size 10 2 (passed (new_byte_window 10 (pos 90)) ((1, 50) ∷ (3, 60) ∷ (12, 40) ∷ []))
    ≤ 90
passed_bounded_example =
    passed_bounded 10 (pos 90) 2 0 ((1, 50) ∷ (3, 60) ∷ (12, 40) ∷ [])
      (omega arith, (omega arith, (omega arith, tt)))

abbrev full : PeerWindow
full = record {
  ip = codes "10.0.0.1";
  last_seen = 5;
  limiter = record { window = 60000000000; max = pos 1; stamps = 5 ∷ [] };
}

allow_peer_kept_example :
    ((allow_peer 7 (codes "10.0.0.1") (pos 9) (full ∷ [])).1 ≡ (allow_event 7 full.limiter).1)
    × (find (codes "10.0.0.1") (allow_peer 7 (codes "10.0.0.1") (pos 9) (full ∷ [])).0
        ≡ some (record {
          ip = codes "10.0.0.1";
          last_seen = 7;
          limiter = (allow_event 7 full.limiter).0;
        }))
    × OneEach (allow_peer 7 (codes "10.0.0.1") (pos 9) (full ∷ [])).0
unfolding find list_beq
allow_peer_kept_example =
    allow_peer_kept 7 (codes "10.0.0.1") (pos 9) full (full ∷ []) (refl, tt) refl refl

abbrev peer : Text
peer = codes "10.0.0.1"

two_opened : Reaches (pos 2) ((peer, 1) ∷ []) (peer ∷ [])
unfolding open_count try_acquire release lookup insert list_beq
two_opened =
    Reaches.closed peer (peer ∷ []) []
      (Reaches.opened peer (Reaches.opened peer Reaches.start refl) refl) refl

Reaches-max_example : count peer (peer ∷ []) ≤ 2
Reaches-max_example = Reaches-max 2 (omega arith) two_opened peer
