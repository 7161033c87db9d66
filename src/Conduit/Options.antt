-- ===== src/Conduit/Options.antt =====
-- scope2.go: the options of the package, the modes of gift-wrap protection, and the bounds of a request.
pub mod Bounds
use conduit_relay.Base.{
  ℕ, Bool, true, false, List, [], ◌∷◌, ◌++◌, if◌then◌else◌, ◌==◌, nat_eq, list_eq, list_beq,
  contains, ℤ, pos, ltb_ℤ, leb_ℤ, int_eq, Text, codes, trim_space, to_lower,
}
use conduit_relay.Conduit.{Query, Library}

pub data GiftWrapProtectionMode : Type 0 where
  enforce disabled challenge_only : GiftWrapProtectionMode
  -- Any other value of the source's uint8.
  unknown : ℕ → GiftWrapProtectionMode

pub record Scope2Options : Type 0 where
  pub max_query_limit : ℤ
  pub default_query_limit : ℤ
  pub max_projection_scan : ℤ
  pub allow_mixed_currency_sort : Bool
  pub enable_nip50 : Bool
  pub gift_wrap_protection : GiftWrapProtectionMode

-- The mode, and whether there is no error.
unfoldable pub parse_gift_wrap_protection_mode : Library → Text → GiftWrapProtectionMode × Bool
parse_gift_wrap_protection_mode lib raw =
    let mode = lib.to_lower (trim_space raw) in
    if list_beq mode []
    then (enforce, true)
    else if mode == codes "disabled"
    then (disabled, true)
    else if mode == codes "challenge-only"
    then (challenge_only, true)
    else if mode == codes "enforce"
    then (enforce, true)
    else (enforce, false)

unfoldable pub mode_string : GiftWrapProtectionMode → Text
mode_string disabled = codes "disabled"
mode_string challenge_only = codes "challenge-only"
mode_string enforce = codes "enforce"
mode_string (unknown n) = codes "invalid"

unfoldable pub known_mode : GiftWrapProtectionMode → GiftWrapProtectionMode
known_mode enforce = enforce
known_mode disabled = disabled
known_mode challenge_only = challenge_only
known_mode (unknown n) = enforce

abbrev pub or_default : ℤ → ℕ → ℤ
or_default n d = if leb_ℤ n (pos 0) then pos d else n

unfoldable pub with_defaults : Scope2Options → Scope2Options
with_defaults opts = record opts {
  gift_wrap_protection = known_mode opts.gift_wrap_protection;
  max_query_limit = or_default opts.max_query_limit 100;
  default_query_limit = or_default opts.default_query_limit 50;
  max_projection_scan = or_default opts.max_projection_scan 2000;
}

unfoldable pub apply_request_bounds : Query → Scope2Options → Query
apply_request_bounds q opts =
    let wanted = if leb_ℤ q.limit (pos 0) then opts.default_query_limit else q.limit in
    if q.limit_zero then q else record q {
      limit = if ltb_ℤ opts.max_query_limit wanted then opts.max_query_limit else wanted;
    }

unfoldable pub resolved_limit : Query → Scope2Options → ℤ
resolved_limit q opts =
    if leb_ℤ q.limit (pos 0)
    then opts.default_query_limit
    else if ltb_ℤ opts.max_query_limit q.limit
    then opts.max_query_limit
    else q.limit

unfoldable pub append_unique : List Text → List Text → List Text
append_unique target [] = target
append_unique target (v ∷ values) =
    append_unique (if contains target v then target else target ++ v ∷ []) values

-- The tags that `ConfigureRelay` adds to the information document.
unfoldable pub policy_tags : GiftWrapProtectionMode → List Text
policy_tags mode =
    codes "conduit_l2"
    ∷ codes "scope2-mvp"
    ∷ codes "marketplace_product_browse"
    ∷ codes "merchant_storefront_browse"
    ∷ codes "sort:newest"
    ∷ codes "sort:price_asc"
    ∷ codes "sort:price_desc"
    ∷ codes "sort:updated_at_desc"
    ∷ codes "cursor:conduit-l2-v1"
    ∷ codes "search_scope:bounded_commerce_search"
    ∷ (codes "giftwrap_read_policy:" ++ mode_string mode)
    ∷ protected_tag mode
  where
    protected_tag : GiftWrapProtectionMode → List Text
    protected_tag enforce = codes "protected_kind:1059" ∷ []
    protected_tag _ = []
