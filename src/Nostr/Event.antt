-- ===== src/Nostr/Event.antt =====
-- The event of congee/internal/nostr/event.go, and the newest-first order of the stores.
use conduit_relay.Base.{
  Bool, ◌&&◌, ◌||◌, List, nat_eq, list_eq, ℤ, ltb_ℤ, beq_ℤ, int_eq, Text, text_ltb,
}

pub record Event : Type 0 where
  pub id : Text
  pub pub_key : Text
  pub created_at : ℤ
  pub kind : ℤ
  pub tags : List (List Text)
  pub content : Text
  pub sig : Text

-- `created_at DESC, id ASC`: whether the first key comes strictly before the second.
abbrev pub newer : ℤ → Text → ℤ → Text → Bool
newer t i u j = ltb_ℤ u t || (beq_ℤ t u && text_ltb i j)
