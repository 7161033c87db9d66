-- ===== src/Relay/Limiter.antt =====
-- congee/internal/relay/limiter.go: rolling windows over events and bytes, and the windows of the peer
-- addresses. A time is a number of nanoseconds and an argument of each operation; `t.Before(now - w)`
-- is `t + w < now`. An int that only bounds is an integer, so that bounds below 1 refuse everything.
pub mod Window
pub mod Events
pub mod Bytes
pub mod Peers
use conduit_relay.Base.{
  ℕ, ◌+◌, Bool, true, false, List, [], ◌∷◌, ◌++◌, leb, if◌then◌else◌, nat_eq, list_eq, length, ℤ,
  pos, ltb_ℤ, leb_ℤ, int_eq,
}
use Window.{drop_expired, total}

pub record SlidingEvents : Type 0 where
  pub window : ℕ
  pub max : ℤ
  pub stamps : List ℕ

unfoldable pub new_sliding_events : ℕ → ℤ → SlidingEvents
new_sliding_events window max = record { window = window; max = max; stamps = [] }

unfoldable pub allow_event : ℕ → SlidingEvents → SlidingEvents × Bool
allow_event now s =
    let kept = drop_expired (λ t. t) s.window now s.stamps in
    if leb_ℤ s.max (pos (length kept))
    then (record s { stamps = kept }, false)
    else (record s { stamps = kept ++ now ∷ [] }, true)

-- An entry is the time of a message and its number of bytes.
pub record ByteWindow : Type 0 where
  pub window : ℕ
  pub max_bytes : ℤ
  pub entries : List (ℕ × ℕ)

unfoldable pub new_byte_window : ℕ → ℤ → ByteWindow
new_byte_window window max = record { window = window; max_bytes = max; entries = [] }

-- The messages of a connection have a length, which is not negative.
unfoldable pub allow_bytes : ℕ → ℕ → ByteWindow → ByteWindow × Bool
allow_bytes now n b =
    if leb n 0
    then (b, true)
    else (let kept = drop_expired (λ e. e.0) b.window now b.entries in
        if ltb_ℤ b.max_bytes (pos (total (λ e. e.1) kept + n))
        then (record b { entries = kept }, false)
        else (record b { entries = kept ++ (now, n) ∷ [] }, true))
