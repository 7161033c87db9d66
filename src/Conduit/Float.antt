-- ===== src/Conduit/Float.antt =====
-- A float64 by its 64 bits, and the comparisons of Go: a NaN is neither equal to nor less than any
-- number, and the two zeros are equal.
use conduit_relay.Base.{
  ℕ, ◌-◌, ◌%◌, ◌^◌, ◌≡◌, refl, Bool, true, false, not, ◌&&◌, ltb, nat_beq, if◌then◌else◌, nat_eq,
  list_eq, ℤ, pos, negsuc, ltb_ℤ, beq_ℤ, int_eq,
}

abbrev pub Float : Type 0
Float = ℕ

abbrev pub is_nan : Float → Bool
is_nan b = ltb 0x7ff0000000000000 (b % 2 ^ 63)

-- Where a number stands among the others: the magnitude's bits are in the order of the magnitudes.
unfoldable pub rank : Float → ℤ
rank b =
    if ltb b (2 ^ 63)
    then pos b
    else if nat_beq (b % 2 ^ 63) 0
    then pos 0
    else negsuc (b - 2 ^ 63 - 1)

unfoldable pub float_ltb : Float → Float → Bool
float_ltb a b = not (is_nan a) && not (is_nan b) && ltb_ℤ (rank a) (rank b)

unfoldable pub float_beq : Float → Float → Bool
float_beq a b = not (is_nan a) && not (is_nan b) && beq_ℤ (rank a) (rank b)

pub float_ltb_lem :
    (a b : Float) → is_nan a ≡ false → is_nan b ≡ false → float_ltb a b ≡ ltb_ℤ (rank a) (rank b)
unfolding float_ltb
float_ltb_lem a b h k = rw (h, k) refl

pub float_beq_lem :
    (a b : Float) → is_nan a ≡ false → is_nan b ≡ false → float_beq a b ≡ beq_ℤ (rank a) (rank b)
unfolding float_beq
float_beq_lem a b h k = rw (h, k) refl

-- 2.5 is less than 10, -1 is less than 0, and a NaN is not equal to itself.
float_order :
    (float_ltb 0x4004000000000000 0x4024000000000000 ≡ true)
    × (float_ltb 0xbff0000000000000 0 ≡ true)
    × (float_beq 0 (2 ^ 63) ≡ true)
    × (float_beq 0x7ff8000000000000 0x7ff8000000000000 ≡ false)
unfolding float_ltb float_beq rank
float_order = (refl, refl, refl, refl)
