-- ===== src/Relay/Config.antt =====
-- The settings of congee/internal/config that the modelled handlers read, and the switches that they
-- derive from them. A nil configuration is not modelled: the server always holds one.
use conduit_relay.Base.{
  ℕ, Bool, true, false, not, Option, none, some, List, if◌then◌else◌, nat_eq, list_eq, contains, ℤ,
  pos, leb_ℤ, int_eq, Text,
}

pub record Config : Type 0 where
  pub enabled : List ℤ
  pub reject_gift_wrap_when_disabled : Option Bool
  pub require_auth_connect : Bool
  pub require_auth_subscribe_kinds : List ℤ
  pub require_auth_publish_kinds : List ℤ
  pub allowlisted_pubkeys : List Text
  pub created_at_skew_seconds : ℤ
  pub nip42_relay_url : Text
  pub late_publication_max_past_seconds : ℤ
  pub strict_previous_same_h : Bool

abbrev pub nip_on : ℕ → Config → Bool
nip_on n cfg = contains cfg.enabled (pos n)

unfoldable pub nip17_reject_gift_wrap_when_disabled : Config → Bool
nip17_reject_gift_wrap_when_disabled cfg =
    if nip_on 17 cfg
    then false
    else elim cfg.reject_gift_wrap_when_disabled [ none ↦ true | some b ↦ b ]

unfoldable pub nip11_auth_required : Config → Bool
nip11_auth_required cfg = if not cfg.require_auth_connect then false else nip_on 42 cfg

unfoldable pub nip42_created_at_skew : Config → ℤ
nip42_created_at_skew cfg =
    if leb_ℤ cfg.created_at_skew_seconds (pos 0) then pos 600 else cfg.created_at_skew_seconds

unfoldable pub nip29_max_past_sec : Config → ℤ
nip29_max_past_sec cfg =
    if leb_ℤ cfg.late_publication_max_past_seconds (pos 0)
    then pos 86400
    else cfg.late_publication_max_past_seconds
