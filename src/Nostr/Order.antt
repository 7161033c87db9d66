-- ===== src/Nostr/Order.antt =====
-- The order newest first, then lowest id, of congee/internal/storage.
use conduit_relay.Base.{
  ◌≡◌, true, false, arith, nat_eq, list_eq, ℤ, int_eq, Text, text_compare-flip, text_compare_refl,
  eq_of_text_compare, text_lt_trans,
}
use conduit_relay.Nostr.Event.{newer}

pub not_newer_trans :
    (s x r : ℤ) (i j k : Text)
    → newer s i x j ≡ false
    → newer x j r k ≡ false
    → newer s i r k ≡ false
not_newer_trans s x r i j k h l = ground (
  arith,
  text_compare-flip i j,
  text_compare-flip j k,
  text_compare-flip i k,
  text_lt_trans k j i,
  eq_of_text_compare i j,
  eq_of_text_compare j k,
)

pub newer_asym : (t u : ℤ) (i j : Text) → newer t i u j ≡ true → newer u j t i ≡ false
newer_asym t u i j h = ground (arith, text_compare-flip i j)

pub newer_irrefl : (t : ℤ) (i : Text) → newer t i t i ≡ false
newer_irrefl t i = ground (arith, text_compare_refl i)

pub not_newer_id : (t u : ℤ) (i j : Text) → newer t i u j ≡ false → newer u j t i ≡ false → i ≡ j
not_newer_id t u i j h k = ground (arith, text_compare-flip i j, eq_of_text_compare i j)
