-- ===== src/Conduit/Products/Currency.antt =====
-- scope2.go: the currencies of the products in the answer to a price sort.
use conduit_relay.Base.{
  ℕ, ◌+◌, ◌≤◌, ◌<◌, ◌≡◌, refl, sym, ap, ◌∙◌, subst, ◌⊎◌, inl, inr, Bool, true, false, not, ◌&&◌,
  none, some, List, [], ◌∷◌, arith, leb, nat_beq, if◌then◌else◌, Bool-cases, ◌==◌, nat_eq, ==_refl,
  list_eq, list_beq, list_beq_iff, length, select, All, In, In-All, In-select, ℤ, int_eq, Text,
}
use conduit_relay.Base.Assoc.{lookup}
use conduit_relay.Base.Maps.{lookup-In, In-lookup}
use conduit_relay.Base.Sorting.{In-sort}
use conduit_relay.Conduit.Options.{Scope2Options}
use conduit_relay.Conduit.Plan.{SearchPlan}
use conduit_relay.Conduit.Products.Compare.{compare_products}
use conduit_relay.Conduit.Products.{ProductEnvelope}
use conduit_relay.Conduit.Products.Evaluate.{
  CurrencyCounts, count_in, count_currencies, best_currency, by_price, PricePolicy,
  evaluate_price_policy, keep_currency_cohort, ordered,
}
use conduit_relay.Conduit.Products.Policy.{
  count_currencies-Counted, count_in-cohort, lookup-Counted, best_of-entry,
}

length-In : (pe : ProductEnvelope) (pes : List ProductEnvelope) → In pe pes → 0 < length pes
length-In pe [] m = absurd m
length-In pe (x ∷ pes) m = omega arith

one_key :
    (counts : CurrencyCounts) (c d : Text) (i j : ℕ)
    → length counts ≤ 1
    → In (c, i) counts
    → In (d, j) counts
    → c ≡ d
one_key [] c d i j h m n = absurd m
one_key (x ∷ y ∷ counts) c d i j h m n = absurd (omega (arith, h))
one_key (x ∷ []) c d i j h (inl e) (inl f) = ap (λ (kv : Text × ℕ). kv.0) (e ∙ sym f)
one_key (x ∷ []) c d i j h (inl e) (inr f) = absurd f
one_key (x ∷ []) c d i j h (inr e) n = absurd e

abbrev counts_of : List ProductEnvelope → CurrencyCounts
counts_of pes = count_currencies pes []

priced_entry :
    (pe : ProductEnvelope) (pes : List ProductEnvelope)
    → In pe pes
    → pe.has_price ≡ true
    → (n : ℕ) × In (pe.currency, n) (counts_of pes)
unfolding keep_currency_cohort
priced_entry pe pes m h =
    let p = λ (x : ProductEnvelope). x.has_price && x.currency == pe.currency in
    let here = (In-select p pe pes).1 (m, ground (arith, h, ==_refl pe.currency)) in
    let some_in = length-In pe (select p pes) here in
    let total = count_in-cohort pe.currency pes [] in
    let found =
      lookup-Counted pe.currency (counts_of pes) (count_currencies-Counted pes [] (tt, tt)) in
    (
      count_in pe.currency (counts_of pes),
      lookup-In pe.currency (count_in pe.currency (counts_of pes)) (counts_of pes)
          (ground (arith, some_in, total, found)),
    )

some_In : (pes : List ProductEnvelope) → 0 < length pes → (pe : ProductEnvelope) × In pe pes
some_In [] h = absurd (omega (arith, h))
some_In (pe ∷ pes) h = (pe, inl refl)

abbrev in_cohort : Text → ProductEnvelope → Bool
in_cohort c pe = pe.has_price && pe.currency == c

no_count : (c : Text) → count_in c [] ≡ 0
unfolding count_in lookup
no_count c = refl

-- The best currency is that of a product, unless there is no product with a price.
best_from_product :
    (pes : List ProductEnvelope)
    → 0 < length (counts_of pes)
    → (pe : ProductEnvelope) × In pe pes × (in_cohort (best_currency (counts_of pes)) pe ≡ true)
unfolding best_currency keep_currency_cohort
best_from_product pes h =
    let counted = count_currencies-Counted pes [] (tt, tt) in
    let (c, n, there, e) = best_of-entry (counts_of pes) h in
    let found = In-lookup c n (counts_of pes) counted.0 there in
    let stored = lookup-Counted c (counts_of pes) counted in
    let total = count_in-cohort c pes [] in
    let many : 0 < length (select (in_cohort c) pes) = entry_cohort c pes n found stored total in
    let (pe, m) = some_In (select (in_cohort c) pes) many in
    let (i, k) = (In-select (in_cohort c) pe pes).0 m in
    (pe, i, subst (λ (b : Text × ℤ). in_cohort b.0 pe ≡ true) (sym e) k)
  where
    entry_cohort :
        (c : Text) (pes : List ProductEnvelope) (n : ℕ)
        → lookup c (counts_of pes) ≡ some n
        → lookup c (counts_of pes) ≡ (
            if nat_beq (count_in c (counts_of pes)) 0
            then none
            else some (count_in c (counts_of pes)))
        → count_in c (counts_of pes) ≡ count_in c [] + length (select (in_cohort c) pes)
        → 0 < length (select (in_cohort c) pes)
    entry_cohort c pes n found stored total = ground (arith, found, stored, total, no_count c)

policy_cases :
    (plan : SearchPlan) (opts : Scope2Options) (pes : List ProductEnvelope)
    → by_price plan.sort ≡ true
    → opts.allow_mixed_currency_sort ≡ false
    → (evaluate_price_policy pes plan opts).allowed ≡ true
    → ((length (counts_of pes) ≤ 1) × ((evaluate_price_policy pes plan opts).partial_currency ≡ []))
      ⊎ ((1 < length (counts_of pes))
          × ((evaluate_price_policy pes plan opts).partial_currency
              ≡ best_currency (counts_of pes)))
unfolding evaluate_price_policy
policy_cases plan opts pes sorts strict allowed =
    elim (Bool-cases (leb (length (counts_of pes)) 1)) [
      | inl e ↦ inl (ground (arith, e), rw (sorts, strict, e) refl)
      | inr e ↦ elim (Bool-cases plan.partial) [
        | inl f ↦ inr (ground (arith, e), rw (sorts, strict, e, f) refl)
        | inr f ↦
            let g : false ≡ true = rw (sorts, strict, e, f) at allowed in absurd (ground (arith, g))
      ]
    ]

ordered-In :
    (plan : SearchPlan) (policy : PricePolicy) (pes : List ProductEnvelope) (x : ProductEnvelope)
    → In x (ordered plan policy pes)
    → In x pes × ((policy.partial_currency ≡ []) ⊎ (in_cohort policy.partial_currency x ≡ true))
unfolding ordered keep_currency_cohort
ordered-In plan policy pes x m = elim (Bool-cases (list_beq policy.partial_currency [])) [
  | inl e ↦ (
    (In-sort (compare_products plan.sort) x pes).0 (rw e at m),
    inl ((list_beq_iff policy.partial_currency []).0 e),
  )
  | inr e ↦
      let cohort = select (in_cohort policy.partial_currency) pes in
      let n = (In-sort (compare_products plan.sort) x cohort).0 (rw e at m) in
      let (i, k) = (In-select (in_cohort policy.partial_currency) x pes).0 n in (i, inr k)
]

abbrev named : ProductEnvelope → Bool
named pe = not (pe.has_price && list_beq pe.currency [])

best_named :
    (pes : List ProductEnvelope)
    → 0 < length (counts_of pes)
    → All (λ pe. named pe ≡ true) pes
    → best_currency (counts_of pes) ≡ []
    → ⊥
best_named pes h a e =
    let (pe, m, k) = best_from_product pes h in
    let n = In-All (λ pe. named pe ≡ true) pes pe a m in
    let l : in_cohort [] pe ≡ true = subst (λ c. in_cohort c pe ≡ true) e k in ground (arith, n, l)

-- In the answer to a price sort that is allowed without mixing, any two products with a price
-- have the same currency, if no product with a price has an empty currency.
pub price_sort-currency :
    (plan : SearchPlan) (opts : Scope2Options) (pes : List ProductEnvelope) (x y : ProductEnvelope)
    → by_price plan.sort ≡ true
    → opts.allow_mixed_currency_sort ≡ false
    → All (λ (pe : ProductEnvelope). named pe ≡ true) pes
    → (evaluate_price_policy pes plan opts).allowed ≡ true
    → In x (ordered plan (evaluate_price_policy pes plan opts) pes)
    → In y (ordered plan (evaluate_price_policy pes plan opts) pes)
    → x.has_price ≡ true
    → y.has_price ≡ true
    → x.currency ≡ y.currency
price_sort-currency plan opts pes x y sorts strict names allowed m n h k =
    let policy = evaluate_price_policy pes plan opts in
    let (i, p) = ordered-In plan policy pes x m in
    let (j, q) = ordered-In plan policy pes y n in
    elim (policy_cases plan opts pes sorts strict allowed) [
      | inl (few, _) ↦
          let (a, here) = priced_entry x pes i h in
          let (b, there) = priced_entry y pes j k in
          one_key (counts_of pes) x.currency y.currency a b few here there
      | inr (many, best) ↦
          let one =
            kept x policy.partial_currency (best_currency (counts_of pes)) best
              (best_named pes (omega (arith, many)) names) p in
          let two =
            kept y policy.partial_currency (best_currency (counts_of pes)) best
              (best_named pes (omega (arith, many)) names) q in
          one ∙ sym two
    ]
  where
    kept :
        (z : ProductEnvelope) (c best : Text)
        → c ≡ best
        → (best ≡ [] → ⊥)
        → (c ≡ []) ⊎ (in_cohort c z ≡ true)
        → z.currency ≡ best
    kept z c best e some_best (inl f) = absurd (some_best (sym e ∙ f))
    kept z c best e some_best (inr f) = (list_beq_iff z.currency c).0 (ground (arith, f)) ∙ e
