-- ===== src/Relay.antt =====
-- congee/internal/relay: the WebSocket relay of Congee.
pub mod Config
pub mod Auth
pub mod GiftWrap
pub mod Groups
pub mod Limiter
pub mod IpConns
pub mod Req
pub mod Subs
pub mod Events
pub mod NegSessions
