-- ===== src/Base/Trim.antt =====
-- The functions on text of Go's standard library that the source calls: `strings.TrimSpace`,
-- `strings.TrimPrefix`, hexadecimal digits, and `strings.ToLower` on hexadecimal text.
use mathlib.Core.Path.{◌≡◌, refl}
use mathlib.Core.Bool.{Bool, true, false, ◌&&◌, ◌||◌}
use mathlib.Core.List.{[], ◌∷◌, map}
use Prim.Native.Nat.{ℕ, zero, suc, ◌+◌}
use conduit_relay.Base.Tests.{nat_beq, leb, if◌then◌else◌}
use conduit_relay.Base.Class.{list_beq, nat_eq}
use conduit_relay.Base.Lists.{length, drop, all}
use conduit_relay.Base.Strings.{Text, has_prefix}

-- `strings.TrimSpace`: the Unicode white space, each character by its UTF-8 bytes.
abbrev space_tail3 : ℕ → ℕ → ℕ → Bool
space_tail3 a b c =
    (nat_beq a 0xe1 && nat_beq b 0x9a && nat_beq c 0x80)
    || (nat_beq a 0xe2
        && nat_beq b 0x80
        && (leb 0x80 c && leb c 0x8a || nat_beq c 0xa8 || nat_beq c 0xa9 || nat_beq c 0xaf))
    || (nat_beq a 0xe2 && nat_beq b 0x81 && nat_beq c 0x9f)
    || (nat_beq a 0xe3 && nat_beq b 0x80 && nat_beq c 0x80)

space_width_long : ℕ → Text → ℕ
space_width_long a [] = 0
space_width_long a (b ∷ []) = if nat_beq a 0xc2 && (nat_beq b 0x85 || nat_beq b 0xa0) then 2 else 0
space_width_long a (b ∷ c ∷ r) =
    if nat_beq a 0xc2 && (nat_beq b 0x85 || nat_beq b 0xa0)
    then 2
    else if space_tail3 a b c
    then 3
    else 0

-- The bytes of the white space character that the text begins with, or 0.
space_width : Text → ℕ
unfolding space_width_long
space_width [] = 0
space_width (a ∷ s) = if nat_beq a 32 || leb 9 a && leb a 13 then 1 else space_width_long a s

-- Each round drops a character, so the number of bytes is enough fuel.
trim_left_rounds : ℕ → Text → Text
trim_left_rounds zero s = s
trim_left_rounds (suc n) s =
    let w = space_width s in
    let rest = trim_left_rounds n (drop w s) in if nat_beq w 0 then s else rest

trim_left : Text → Text
unfolding trim_left_rounds space_width
trim_left s = trim_left_rounds (length s) s

trim_right : Text → Text
unfolding trim_left list_beq
trim_right [] = []
trim_right (c ∷ s) = if list_beq (trim_left (c ∷ s)) [] then [] else c ∷ trim_right s

unfoldable pub trim_space : Text → Text
unfolding trim_right
trim_space s = trim_right (trim_left s)

unfoldable pub trim_prefix : Text → Text → Text
unfolding has_prefix
trim_prefix s p = if has_prefix s p then drop (length p) s else s

abbrev pub is_hex_digit : ℕ → Bool
is_hex_digit c = leb b'0' c && leb c b'9' || leb b'a' c && leb c b'f' || leb b'A' c && leb c b'F'

abbrev is_even : ℕ → Bool
is_even zero = true
is_even (suc zero) = false
is_even (suc (suc n)) = is_even n

-- Whether `hex.DecodeString` succeeds.
unfoldable pub hex_decodes : Text → Bool
hex_decodes s = is_even (length s) && all is_hex_digit s

-- `strings.ToLower` on ASCII. Where the source calls it the text is then tested for hexadecimal
-- digits, which no other letter folds to.
unfoldable pub to_lower : Text → Text
to_lower = map (λ c. if leb b'A' c && leb c b'Z' then c + 32 else c)

trim_lem : trim_space (32 ∷ 9 ∷ 97 ∷ 32 ∷ 98 ∷ 0xc2 ∷ 0xa0 ∷ 10 ∷ []) ≡ 97 ∷ 32 ∷ 98 ∷ []
unfolding trim_space
trim_lem = refl
