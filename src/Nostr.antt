-- ===== src/Nostr.antt =====
-- congee/internal/nostr: events, filters, kinds and the group tags of NIP-29.
pub mod Event
pub mod Kinds
pub mod Filter
pub mod Groups
pub mod Order
