-- ===== src/Examples/Sessions.antt =====
-- The negentropy sessions of two connections.
use conduit_relay.Base.{nat_eq, list_eq, pos, int_eq, codes}
use conduit_relay.Relay.NegSessions.{Sessions, reserve, close_all}
use conduit_relay.Relay.NegSessions.Count.{Counted, SessionRun, no_sessions, SessionRun-Counted}

-- Two sessions are reserved under a maximum of 2; a third is refused, and one is closed.
abbrev after_three : Sessions
after_three =
    let one = (reserve (codes "conn1") (codes "a") (pos 2) no_sessions).0 in
    let two = (reserve (codes "conn2") (codes "a") (pos 2) one).0 in
    close_all (codes "conn1") (reserve (codes "conn2") (codes "b") (pos 2) two).0

SessionRun-Counted_example : Counted (pos 2) after_three
SessionRun-Counted_example = SessionRun-Counted (pos 2) (
    SessionRun.closed_all (codes "conn1") (
      SessionRun.reserved (codes "conn2") (codes "b") (
        SessionRun.reserved (codes "conn2") (codes "a")
          (SessionRun.reserved (codes "conn1") (codes "a") SessionRun.none_yet))))
