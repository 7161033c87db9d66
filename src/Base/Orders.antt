-- ===== src/Base/Orders.antt =====
-- Comparators as the source's sort functions take them: the laws of a linear order on the elements that
-- satisfy a predicate, and that comparing by one key and then by another keeps them.
use Prim.Native.Nat.{Ordering}
use mathlib.Core.Path.{◌≡◌, refl}
use mathlib.Core.Logic.{◌⊎◌, inl, inr}
use native.Mathlib.Omega.{arith}
use conduit_relay.Base.Tests.{if◌then◌else◌}
use conduit_relay.Base.Int.{ℤ, ltb_ℤ, eq_of_parts}
use conduit_relay.Base.Strings.{
  Text, then_compare, flip, text_compare, text_compare-flip, eq_of_text_compare, text_lt_trans,
}

pub record Comparator {A : Type 0} (P : A → Type 0) (cmp : A → A → Ordering) : Type 0 where
  pub flips : (a b : A) → P a → P b → cmp b a ≡ flip (cmp a b)
  pub same : (a b c : A) → P a → P b → P c → cmp a b ≡ Ordering.eq → cmp a c ≡ cmp b c
  pub chain :
      (a b c : A)
      → P a
      → P b
      → P c
      → cmp a b ≡ Ordering.lt
      → cmp b c ≡ Ordering.lt
      → cmp a c ≡ Ordering.lt

-- Two comparisons of Go's `<` and `>` on one key.
abbrev pub int_compare : ℤ → ℤ → Ordering
int_compare a b = if ltb_ℤ a b then Ordering.lt else if ltb_ℤ b a then Ordering.gt else Ordering.eq

pub Ordering-cases : (o : Ordering) → (o ≡ Ordering.lt) ⊎ ((o ≡ Ordering.eq) ⊎ (o ≡ Ordering.gt))
Ordering-cases Ordering.lt = inl refl
Ordering-cases Ordering.eq = inr (inl refl)
Ordering-cases Ordering.gt = inr (inr refl)

module _ {A : Type 0} (P : A → Type 0) where
  pub int_key-Comparator : (key : A → ℤ) → Comparator P (λ a b. int_compare (key a) (key b))
  int_key-Comparator key = record {
    flips = λ a b p q. ground arith;
    same = λ a b c p q r h.
        let e : key a ≡ key b = eq_of_parts (key a) (key b) (ground arith) in rw e refl;
    chain = λ a b c p q r h k. ground arith;
  }

  pub text_key-Comparator : (key : A → Text) → Comparator P (λ a b. text_compare (key a) (key b))
  text_key-Comparator key = record {
    flips = λ a b p q. text_compare-flip (key a) (key b);
    same = λ a b c p q r h. rw (eq_of_text_compare (key a) (key b) h) refl;
    chain = λ a b c p q r h k. text_lt_trans (key a) (key b) (key c) h k;
  }

  pub reversed-Comparator :
      (cmp : A → A → Ordering) → Comparator P cmp → Comparator P (λ a b. cmp b a)
  reversed-Comparator cmp o = record {
    flips = λ a b p q. o.flips b a q p;
    same = λ a b c p q r h. ground (arith, o.flips a c p r, o.flips b c q r, o.same b a c q p r);
    chain = λ a b c p q r h k. o.chain c b a r q p k h;
  }

  pub then_compare-Comparator :
      (first second : A → A → Ordering)
      → Comparator P first
      → Comparator P second
      → Comparator P (λ a b. then_compare (first a b) (second a b))
  then_compare-Comparator first second o l = record {
    flips = λ a b p q. ground (arith, o.flips a b p q, l.flips a b p q);
    same = λ a b c p q r h. ground (arith, o.same a b c p q r, l.same a b c p q r);
    chain = λ a b c p q r h k. ground (
      arith,
      o.chain a b c p q r,
      l.chain a b c p q r,
      o.same a b c p q r,
      o.same c b a r q p,
      o.flips b c q r,
      o.flips a c p r,
      o.flips a b p q,
    );
  }
