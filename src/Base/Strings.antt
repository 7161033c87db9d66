-- ===== src/Base/Strings.antt =====
-- Go strings as the list of their bytes. A literal of the source is `codes "..."`.
use Prim.Native.Char.{code}
use Prim.Native.Nat.{ℕ, compare, Ordering}
use Prim.Native.String.{String}
use mathlib.Core.Bool.{Bool, true, false, ◌&&◌}
use mathlib.Core.Path.{◌≡◌, refl}
use native.Mathlib.Omega.{arith}
use mathlib.Core.List.{List, [], ◌∷◌}
use conduit_relay.Base.Tests.{nat_beq}

abbrev pub Text : Type 0
Text = List ℕ

abbrev pub codes : String → Text
codes String.[] = []
codes (String.◌∷◌ c s) = code c ∷ codes s

-- `strings.Compare` and `<` on strings: lexicographic on bytes.
abbrev pub then_compare : Ordering → Ordering → Ordering
then_compare Ordering.eq o = o
then_compare Ordering.lt o = Ordering.lt
then_compare Ordering.gt o = Ordering.gt

unfoldable pub text_compare : Text → Text → Ordering
text_compare [] [] = Ordering.eq
text_compare [] (y ∷ ys) = Ordering.lt
text_compare (x ∷ xs) [] = Ordering.gt
text_compare (x ∷ xs) (y ∷ ys) = then_compare (compare x y) (text_compare xs ys)

-- `strings.HasPrefix`.
unfoldable pub has_prefix : Text → Text → Bool
has_prefix s [] = true
has_prefix [] (p ∷ ps) = false
has_prefix (c ∷ s) (p ∷ ps) = nat_beq c p && has_prefix s ps

abbrev pub text_ltb : Text → Text → Bool
text_ltb a b = elim (text_compare a b) [ Ordering.lt ↦ true | _ ↦ false ]

abbrev pub text_leb : Text → Text → Bool
text_leb a b = elim (text_compare a b) [ Ordering.gt ↦ false | _ ↦ true ]

abbrev pub flip : Ordering → Ordering
flip Ordering.lt = Ordering.gt
flip Ordering.eq = Ordering.eq
flip Ordering.gt = Ordering.lt

pub text_compare-flip : (a b : Text) → text_compare b a ≡ flip (text_compare a b)
unfolding text_compare
text_compare-flip [] [] = refl
text_compare-flip [] (y ∷ ys) = refl
text_compare-flip (x ∷ xs) [] = refl
text_compare-flip (x ∷ xs) (y ∷ ys) = ground (arith, text_compare-flip xs ys)

pub text_compare_refl : (a : Text) → text_compare a a ≡ Ordering.eq
unfolding text_compare
text_compare_refl [] = refl
text_compare_refl (x ∷ xs) = ground (arith, text_compare_refl xs)

pub eq_of_text_compare : (a b : Text) → text_compare a b ≡ Ordering.eq → a ≡ b
unfolding text_compare
eq_of_text_compare [] [] h = refl
eq_of_text_compare [] (y ∷ ys) h = cc
eq_of_text_compare (x ∷ xs) [] h = cc
eq_of_text_compare (x ∷ xs) (y ∷ ys) h = ground (arith, eq_of_text_compare xs ys)

pub text_lt_trans :
    (a b c : Text)
    → text_compare a b ≡ Ordering.lt
    → text_compare b c ≡ Ordering.lt
    → text_compare a c ≡ Ordering.lt
unfolding text_compare
text_lt_trans [] [] c h k = cc
text_lt_trans [] (y ∷ ys) [] h k = cc
text_lt_trans [] (y ∷ ys) (z ∷ zs) h k = refl
text_lt_trans (x ∷ xs) [] c h k = cc
text_lt_trans (x ∷ xs) (y ∷ ys) [] h k = cc
text_lt_trans (x ∷ xs) (y ∷ ys) (z ∷ zs) h k =
    ground (arith, text_lt_trans xs ys zs, eq_of_text_compare xs ys, eq_of_text_compare ys zs)
