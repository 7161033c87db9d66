-- ===== src/Base/Sorting.antt =====
-- Sorting by a comparator that tells any two elements of the list apart: the result is the one sorted list
-- of these elements, whatever sorting routine produces it.
use Prim.Native.Nat.{Ordering, ◌+◌}
use mathlib.Core.Path.{◌≡◌, refl, sym, ap, ◌∙◌, subst}
use mathlib.Core.Logic.{◌⊎◌, inl, inr, ◌↔◌}
use mathlib.Core.Bool.{Bool}
use mathlib.Core.List.{List, [], ◌∷◌}
use native.Mathlib.Omega.{arith}
use conduit_relay.Base.Lists.{length, select, All, All-In, In, In-All}
use conduit_relay.Base.Orders.{Comparator, Ordering-cases}

module _ {A : Type 0} (cmp : A → A → Ordering) where
  unfoldable pub insert_in_order : A → List A → List A
  insert_in_order x [] = x ∷ []
  insert_in_order x (y ∷ ys) =
      let later = insert_in_order x ys in
      elim (cmp x y) [ Ordering.gt ↦ y ∷ later | _ ↦ x ∷ y ∷ ys ]

  unfoldable pub sort : List A → List A
  sort [] = []
  sort (x ∷ xs) = insert_in_order x (sort xs)

  -- No two elements compare as equal.
  abbrev pub Apart : List A → Type 0
  Apart [] = Unit {0}
  Apart (x ∷ xs) = All (λ y. cmp x y ≡ Ordering.eq → ⊥) xs × Apart xs

  abbrev pub Sorted : List A → Type 0
  Sorted [] = Unit {0}
  Sorted (x ∷ xs) = All (λ y. cmp x y ≡ Ordering.lt) xs × Sorted xs

  pub In-insert_in_order :
      (a x : A) (xs : List A) → In a (insert_in_order x xs) ↔ ((a ≡ x) ⊎ In a xs)
  unfolding insert_in_order
  In-insert_in_order a x [] = ((λ m. m), λ m. m)
  In-insert_in_order a x (y ∷ ys) = ground (arith, In-insert_in_order a x ys)

  pub In-sort : (a : A) (xs : List A) → In a (sort xs) ↔ In a xs
  unfolding sort
  In-sort a [] = ((λ m. m), λ m. m)
  In-sort a (x ∷ xs) = ground (arith, In-sort a xs, In-insert_in_order a x (sort xs))

  length-insert_in_order : (x : A) (xs : List A) → length (insert_in_order x xs) ≡ length xs + 1
  unfolding insert_in_order
  length-insert_in_order x [] = refl
  length-insert_in_order x (y ∷ ys) = ground (arith, length-insert_in_order x ys)

  pub length-sort : (xs : List A) → length (sort xs) ≡ length xs
  unfolding sort
  length-sort [] = refl
  length-sort (x ∷ xs) = ground (arith, length-sort xs, length-insert_in_order x (sort xs))

  length-select-insert_in_order :
      (p : A → Bool) (x : A) (xs : List A)
      → length (select p (insert_in_order x xs)) ≡ length (select p (x ∷ xs))
  unfolding insert_in_order
  length-select-insert_in_order p x [] = refl
  length-select-insert_in_order p x (y ∷ ys) = ground (arith, length-select-insert_in_order p x ys)

  pub length-select-sort :
      (p : A → Bool) (xs : List A) → length (select p (sort xs)) ≡ length (select p xs)
  unfolding sort
  length-select-sort p [] = refl
  length-select-sort p (x ∷ xs) =
      ground (arith, length-select-sort p xs, length-select-insert_in_order p x (sort xs))

  module _ (P : A → Type 0) (o : Comparator P cmp) where
    irrefl : (a : A) → P a → cmp a a ≡ Ordering.eq
    irrefl a p = ground (arith, o.flips a a p p)

    below_tail :
        (x y : A) (ys : List A)
        → P x
        → P y
        → All P ys
        → cmp x y ≡ Ordering.lt
        → All (λ z. cmp y z ≡ Ordering.lt) ys
        → All (λ z. cmp x z ≡ Ordering.lt) ys
    below_tail x y [] p q r e h = tt
    below_tail x y (z ∷ ys) p q r e h =
        (o.chain x y z p q r.0 e h.0, below_tail x y ys p q r.1 e h.1)

    insert_in_order-Sorted :
        (x : A) (xs : List A)
        → P x
        → All P xs
        → Sorted xs
        → All (λ y. cmp x y ≡ Ordering.eq → ⊥) xs
        → Sorted (insert_in_order x xs)
    unfolding insert_in_order
    insert_in_order-Sorted x [] p ps s n = (tt, tt)
    insert_in_order-Sorted x (y ∷ ys) p ps s n = elim (Ordering-cases (cmp x y)) [
      | inl e ↦ rw (e, insert_in_order) ((e, below_tail x y ys p ps.0 ps.1 e s.0), s)
      | inr (inl e) ↦ absurd (n.0 e)
      | inr (inr e) ↦
          let back : cmp y x ≡ Ordering.lt = ground (arith, o.flips x y p ps.0) in
          rw (e, insert_in_order)
            (
              All-In (λ z. cmp y z ≡ Ordering.lt) (insert_in_order x ys)
                  (λ z m. elim ((In-insert_in_order z x ys).0 m) [
                    | inl f ↦ rw f back
                    | inr k ↦ In-All (λ z. cmp y z ≡ Ordering.lt) ys z s.0 k
                  ]),
              insert_in_order-Sorted x ys p ps.1 s.1 n.1,
            )
    ]

    pub sort-Sorted : (xs : List A) → All P xs → Apart xs → Sorted (sort xs)
    unfolding sort
    sort-Sorted [] p a = tt
    sort-Sorted (x ∷ xs) p a =
        insert_in_order-Sorted x (sort xs) p.0
          (All-In P (sort xs) (λ b m. In-All P xs b p.1 ((In-sort b xs).0 m)))
          (sort-Sorted xs p.1 a.1)
          (All-In (λ y. cmp x y ≡ Ordering.eq → ⊥) (sort xs)
            (λ b m. In-All (λ y. cmp x y ≡ Ordering.eq → ⊥) xs b a.0 ((In-sort b xs).0 m)))

    -- Two sorted lists of the same elements are one list.
    pub Sorted-unique :
        (xs ys : List A)
        → All P xs
        → All P ys
        → Sorted xs
        → Sorted ys
        → ((a : A) → In a xs ↔ In a ys)
        → xs ≡ ys
    Sorted-unique [] [] p q s t h = refl
    Sorted-unique [] (y ∷ ys) p q s t h = absurd ((h y).1 (inl refl))
    Sorted-unique (x ∷ xs) [] p q s t h = absurd ((h x).0 (inl refl))
    Sorted-unique (x ∷ xs) (y ∷ ys) p q s t h =
        let head : x ≡ y = same_head x y xs ys p q s t ((h x).0 (inl refl)) ((h y).1 (inl refl)) in
        rw head (
          ap (◌∷◌ y) (
            Sorted-unique xs ys p.1 q.1 s.1 t.1 (λ a. (
              λ m. tail x y a xs ys p s head ((h a).0 (inr m)) m,
              λ m. tail y x a ys xs q t (sym head) ((h a).1 (inr m)) m,
            ))))
      where
        tail :
            (x y a : A) (xs ys : List A)
            → All P (x ∷ xs)
            → Sorted (x ∷ xs)
            → x ≡ y
            → In a (y ∷ ys)
            → In a xs
            → In a ys
        tail x y a xs ys p s e (inr m) k = m
        tail x y a xs ys p s e (inl f) k =
            let less = In-All (λ z. cmp x z ≡ Ordering.lt) xs a s.0 k in
            let here : a ≡ x = f ∙ sym e in
            let less2 : cmp x x ≡ Ordering.lt = subst (λ w. cmp x w ≡ Ordering.lt) here less in
            ground (arith, less2, irrefl x p.0)

        same_head :
            (x y : A) (xs ys : List A)
            → All P (x ∷ xs)
            → All P (y ∷ ys)
            → Sorted (x ∷ xs)
            → Sorted (y ∷ ys)
            → In x (y ∷ ys)
            → In y (x ∷ xs)
            → x ≡ y
        same_head x y xs ys p q s t (inl e) n = e
        same_head x y xs ys p q s t (inr m) (inl e) = sym e
        same_head x y xs ys p q s t (inr m) (inr n) =
            let first = In-All (λ z. cmp y z ≡ Ordering.lt) ys x t.0 m in
            let second = In-All (λ z. cmp x z ≡ Ordering.lt) xs y s.0 n in
            ground (arith, first, second, o.flips x y p.0 q.0)
