-- ===== src/Nostr/Kinds.antt =====
-- congee/internal/nostr/kinds.go: the storage class of a kind.
use conduit_relay.Base.{
  ℕ, Bool, true, false, ◌&&◌, ◌||◌, if◌then◌else◌, nat_eq, list_eq, ℤ, pos, ltb_ℤ, leb_ℤ, beq_ℤ,
  int_eq,
}

pub data KindClass : Type 0 where
  regular replaceable ephemeral addressable : KindClass

-- lo ≤ kind < hi
abbrev pub in_range : ℕ → ℕ → ℤ → Bool
in_range lo hi k = leb_ℤ (pos lo) k && ltb_ℤ k (pos hi)

unfoldable pub classify_kind : ℤ → KindClass
classify_kind k =
    if in_range 20000 30000 k
    then KindClass.ephemeral
    else if in_range 30000 40000 k
    then KindClass.addressable
    else if beq_ℤ k (pos 0) || beq_ℤ k (pos 3) || in_range 10000 20000 k
    then KindClass.replaceable
    else if beq_ℤ k (pos 1) || beq_ℤ k (pos 2) || in_range 4 45 k || in_range 1000 10000 k
    then KindClass.regular
    else KindClass.regular

abbrev is_class : KindClass → KindClass → Bool
is_class KindClass.regular KindClass.regular = true
is_class KindClass.replaceable KindClass.replaceable = true
is_class KindClass.ephemeral KindClass.ephemeral = true
is_class KindClass.addressable KindClass.addressable = true
is_class _ _ = false

unfoldable pub is_regular : ℤ → Bool
unfolding classify_kind
is_regular k = is_class (classify_kind k) KindClass.regular

unfoldable pub is_replaceable : ℤ → Bool
unfolding classify_kind
is_replaceable k = is_class (classify_kind k) KindClass.replaceable

unfoldable pub is_ephemeral : ℤ → Bool
unfolding classify_kind
is_ephemeral k = is_class (classify_kind k) KindClass.ephemeral

unfoldable pub is_addressable : ℤ → Bool
unfolding classify_kind
is_addressable k = is_class (classify_kind k) KindClass.addressable
