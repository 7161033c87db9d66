-- ===== src/Conduit/Products/Sorted.antt =====
-- scope2.go: the answer to a query under another order of the map of the products.
use conduit_relay.Base.{
  Ordering, ◌≡◌, refl, sym, ap, ◌∙◌, ◌↔◌, inl, inr, Bool, true, false, ◌&&◌, List, [], ◌∷◌, arith,
  leb, Bool-cases, ◌==◌, nat_eq, ==_refl, list_eq, list_beq, length, select, All, All-select, In,
  All-In, In-All, In-select, int_eq, Text, trim_space,
}
use conduit_relay.Base.Assoc.{lookup}
use conduit_relay.Base.Maps.{same_length}
use conduit_relay.Base.Sorting.{
  sort, Apart, Sorted, In-sort, sort-Sorted, Sorted-unique, length-select-sort,
}
use conduit_relay.Conduit.{Query, Library}
use conduit_relay.Conduit.Options.{Scope2Options}
use conduit_relay.Conduit.Plan.{ProductSort, newest, SearchPlan}
use conduit_relay.Conduit.Products.{ProductEnvelope}
use conduit_relay.Conduit.Products.Store.{Products}
use conduit_relay.Conduit.Products.Compare.{
  Ordinary, compare_products, compare_products-Comparator, compare_products_id,
}
use conduit_relay.Conduit.Products.Evaluate.{
  match_products, answer_for, envelopes, wanted, PricePolicy, count_currencies,
  evaluate_price_policy, keep_currency_cohort, ordered, answer_for, envelopes, evaluate,
}
use conduit_relay.Conduit.Products.Policy.{
  count_currencies-Counted, count_in-cohort, lookup-Counted, best_currency-agree,
}

-- No two products have the same id.
abbrev pub Distinct : List ProductEnvelope → Type 0
Distinct [] = Unit {0}
Distinct (x ∷ xs) =
    All (λ (y : ProductEnvelope). (x.event.id == y.event.id) ≡ false) xs × Distinct xs

abbrev pub Sortable : List ProductEnvelope → Type 0
Sortable pes = All Ordinary pes × Distinct pes

pub Distinct-select :
    (p : ProductEnvelope → Bool) (xs : List ProductEnvelope) → Distinct xs → Distinct (select p xs)
Distinct-select p [] d = tt
Distinct-select p (x ∷ xs) d = elim (Bool-cases (p x)) [
  | inl e ↦
      rw e (All-select (λ y. (x.event.id == y.event.id) ≡ false) p xs d.0, Distinct-select p xs d.1)
  | inr e ↦ rw e (Distinct-select p xs d.1)
]

pub Sortable-select :
    (p : ProductEnvelope → Bool) (xs : List ProductEnvelope) → Sortable xs → Sortable (select p xs)
Sortable-select p xs s = (All-select Ordinary p xs s.0, Distinct-select p xs s.1)

Sortable-Apart :
    (mode : ProductSort) (xs : List ProductEnvelope)
    → Sortable xs
    → Apart (compare_products mode) xs
Sortable-Apart mode [] s = tt
Sortable-Apart mode (x ∷ xs) s =
    (apart x xs s.0.0 s.0.1 s.1.0, Sortable-Apart mode xs (s.0.1, s.1.1))
  where
    apart :
        (x : ProductEnvelope) (ys : List ProductEnvelope)
        → Ordinary x
        → All Ordinary ys
        → All (λ (y : ProductEnvelope). (x.event.id == y.event.id) ≡ false) ys
        → All (λ y. compare_products mode x y ≡ Ordering.eq → ⊥) ys
    apart x [] p q d = tt
    apart x (y ∷ ys) p q d = (
      λ e.
          let same = compare_products_id mode x y p q.0 e in
          let other = d.0 in ground (arith, other, same, ==_refl y.event.id),
      apart x ys p q.1 d.1,
    )

-- Sorting gives the strictly ascending list of the products.
pub sort_products-Sorted :
    (mode : ProductSort) (xs : List ProductEnvelope)
    → Sortable xs
    → Sorted (compare_products mode) (sort (compare_products mode) xs)
sort_products-Sorted mode xs s =
    sort-Sorted (compare_products mode) Ordinary (compare_products-Comparator mode) xs s.0
      (Sortable-Apart mode xs s)

abbrev pub Same : List ProductEnvelope → List ProductEnvelope → Type 0
Same xs ys = (pe : ProductEnvelope) → In pe xs ↔ In pe ys

pub sort-Same :
    (mode : ProductSort) (xs ys : List ProductEnvelope)
    → Sortable xs
    → Sortable ys
    → Same xs ys
    → sort (compare_products mode) xs ≡ sort (compare_products mode) ys
sort-Same mode xs ys s t same =
    Sorted-unique cmp Ordinary (compare_products-Comparator mode) (sort cmp xs) (sort cmp ys)
      (ordinary_sort xs s.0) (ordinary_sort ys t.0) (sort_products-Sorted mode xs s)
      (sort_products-Sorted mode ys t)
      (λ a. ground (arith, In-sort cmp a xs, In-sort cmp a ys, same a))
  where
    cmp : ProductEnvelope → ProductEnvelope → Ordering
    cmp = compare_products mode

    ordinary_sort : (zs : List ProductEnvelope) → All Ordinary zs → All Ordinary (sort cmp zs)
    ordinary_sort zs h =
        All-In Ordinary (sort cmp zs) (λ a m. In-All Ordinary zs a h ((In-sort cmp a zs).0 m))

Same-select :
    (p : ProductEnvelope → Bool) (xs ys : List ProductEnvelope)
    → Same xs ys
    → Same (select p xs) (select p ys)
Same-select p xs ys same a = ground (arith, In-select p a xs, In-select p a ys, same a)

module _ (xs ys : List ProductEnvelope) (s : Sortable xs) (t : Sortable ys)
    (same : Same xs ys) where
  same_cohort : (c : Text) → length (keep_currency_cohort xs c) ≡ length (keep_currency_cohort ys c)
  unfolding keep_currency_cohort
  same_cohort c =
      let p = λ (pe : ProductEnvelope). pe.has_price && pe.currency == c in
      sym (length-select-sort (compare_products newest) p xs)
      ∙ ap (λ zs. length (select p zs)) (sort-Same newest xs ys s t same)
      ∙ length-select-sort (compare_products newest) p ys

  same_counts : (c : Text) → lookup c (count_currencies xs []) ≡ lookup c (count_currencies ys [])
  same_counts c = ground (
    arith,
    lookup-Counted c (count_currencies xs []) (count_currencies-Counted xs [] (tt, tt)),
    lookup-Counted c (count_currencies ys []) (count_currencies-Counted ys [] (tt, tt)),
    count_in-cohort c xs [],
    count_in-cohort c ys [],
    same_cohort c,
  )

  pub evaluate_price_policy-Same :
      (plan : SearchPlan) (opts : Scope2Options)
      → evaluate_price_policy xs plan opts ≡ evaluate_price_policy ys plan opts
  unfolding evaluate_price_policy
  evaluate_price_policy-Same plan opts =
      let u = count_currencies-Counted xs [] (tt, tt) in
      let v = count_currencies-Counted ys [] (tt, tt) in
      let long =
        same_length (count_currencies xs []) (count_currencies ys []) u.0 v.0 same_counts in
      elim (Bool-cases (leb (length (count_currencies xs [])) 1)) [
        | inl e ↦
            let f : leb (length (count_currencies ys [])) 1 ≡ true = rw (← long) e in rw (e, f) refl
        | inr e ↦
            let f : leb (length (count_currencies ys [])) 1 ≡ false = rw (← long) e in
            let best =
              best_currency-agree (count_currencies xs []) (count_currencies ys []) u.0 v.0
                (ground (arith, e)) same_counts in
            rw (e, f, best) refl
      ]

  ordered-Same :
      (plan : SearchPlan) (policy : PricePolicy) → ordered plan policy xs ≡ ordered plan policy ys
  unfolding ordered keep_currency_cohort
  ordered-Same plan policy =
      let p = λ (pe : ProductEnvelope). pe.has_price && pe.currency == policy.partial_currency in
      elim (Bool-cases (list_beq policy.partial_currency [])) [
        | inl e ↦ rw e (sort-Same plan.sort xs ys s t same)
        | inr e ↦ rw e (
            sort-Same plan.sort (select p xs) (select p ys) (Sortable-select p xs s)
              (Sortable-select p ys t) (Same-select p xs ys same))
      ]

  answer_for-Same :
      (lib : Library) (q : Query) (plan : SearchPlan) (opts : Scope2Options)
      → answer_for lib q plan opts xs ≡ answer_for lib q plan opts ys
  unfolding answer_for
  answer_for-Same lib q plan opts =
      let policy = evaluate_price_policy ys plan opts in
      rw (evaluate_price_policy-Same plan opts, ordered-Same plan policy) refl

-- `evaluate` does not depend on the order in which Go's map yields the products: the answers of two
-- lists of the same products are equal, if no two products have the same id and no price is NaN.
pub evaluate-Same :
    (lib : Library) (q : Query) (plan : SearchPlan) (opts : Scope2Options) (ps rs : Products)
    → Sortable (envelopes ps)
    → Sortable (envelopes rs)
    → ((pe : ProductEnvelope) → In pe (envelopes ps) ↔ In pe (envelopes rs))
    → evaluate lib q plan opts ps ≡ evaluate lib q plan opts rs
unfolding evaluate match_products
evaluate-Same lib q plan opts ps rs s t same =
    let p = wanted lib q (lib.to_lower (trim_space plan.text)) in
    answer_for-Same (select p (envelopes ps)) (select p (envelopes rs))
      (Sortable-select p (envelopes ps) s) (Sortable-select p (envelopes rs) t)
      (Same-select p (envelopes ps) (envelopes rs) same) lib q plan opts
