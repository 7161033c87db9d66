-- ===== src/Conduit/Products/Policy.antt =====
-- scope2.go: the counts of the currencies and the currency that a partial price sort keeps, under
-- another order of the products.
use conduit_relay.Base.{
  ℕ, ◌+◌, ◌<◌, ◌≡◌, refl, sym, ap, ◌∙◌, subst, ◌⊎◌, inl, inr, false, none, some, List, [], ◌∷◌,
  arith, nat_beq, if◌then◌else◌, Bool-cases, Option-cases, ◌==◌, nat_eq, list_eq, list_beq_iff,
  length, In, ℤ, pos, negsuc, int_eq, Text,
}
use conduit_relay.Base.Assoc.{lookup, insert, lookup-insert}
use conduit_relay.Base.Maps.{
  Values, Values-insert, Values-lookup, Unique, Unique-insert, same_length, lookup-In, In-lookup,
}
use conduit_relay.Nostr.Event.{newer}
use conduit_relay.Nostr.Order.{not_newer_trans, newer_asym, newer_irrefl, not_newer_id}
use conduit_relay.Conduit.Products.{ProductEnvelope}
use conduit_relay.Conduit.Products.Evaluate.{
  CurrencyCounts, count_in, count_currencies, better, best_of, best_currency, keep_currency_cohort,
}

-- A count for every currency that has one.
abbrev Positive : CurrencyCounts → Type 0
Positive counts = Values (λ n. 0 < n) counts

abbrev pub Counted : CurrencyCounts → Type 0
Counted counts = Unique counts × Positive counts

pub count_currencies-Counted :
    (pes : List ProductEnvelope) (counts : CurrencyCounts)
    → Counted counts
    → Counted (count_currencies pes counts)
unfolding count_currencies
count_currencies-Counted [] counts h = h
count_currencies-Counted (pe ∷ pes) counts h = elim (Bool-cases pe.has_price) [
  | inl e ↦
      rw (e, count_currencies)
        (count_currencies-Counted pes _ (
          Unique-insert pe.currency (count_in pe.currency counts + 1) counts h.0,
          Values-insert (λ n. 0 < n) pe.currency (count_in pe.currency counts + 1) counts
              (omega arith) h.1,
        ))
  | inr e ↦ rw (e, count_currencies) (count_currencies-Counted pes counts h)
]

count_in-insert :
    (c k : Text) (n : ℕ) (counts : CurrencyCounts)
    → count_in c (insert k n counts) ≡ (if k == c then n else count_in c counts)
unfolding count_in
count_in-insert c k n counts = ground (arith, lookup-insert k c n counts)

-- The count of a currency is the number of the products in its cohort.
pub count_in-cohort :
    (c : Text) (pes : List ProductEnvelope) (counts : CurrencyCounts)
    → count_in c (count_currencies pes counts)
      ≡ count_in c counts + length (keep_currency_cohort pes c)
unfolding count_currencies keep_currency_cohort
count_in-cohort c [] counts = omega arith
count_in-cohort c (pe ∷ pes) counts = ground (
  arith,
  count_in-cohort c pes (insert pe.currency (count_in pe.currency counts + 1) counts),
  count_in-cohort c pes counts,
  count_in-insert c pe.currency (count_in pe.currency counts + 1) counts,
  list_beq_iff pe.currency c,
)

pub lookup-Counted :
    (c : Text) (counts : CurrencyCounts)
    → Counted counts
    → lookup c counts ≡ (if nat_beq (count_in c counts) 0 then none else some (count_in c counts))
unfolding count_in
lookup-Counted c counts h = elim (Option-cases (lookup c counts)) [
  | inl e ↦ ground (arith, e)
  | inr (n, e) ↦ let p = Values-lookup (λ n. 0 < n) c n counts h.1 e in ground (arith, e, p)
]

abbrev Unbeaten : Text × ℤ → Text × ℤ → Type 0
Unbeaten x best = newer x.1 x.0 best.1 best.0 ≡ false

Unbeaten-trans : (x y z : Text × ℤ) → Unbeaten x y → Unbeaten y z → Unbeaten x z
Unbeaten-trans (b, i) (c, j) (d, k) h l = not_newer_trans i j k b c d h l

abbrev next_best : Text → ℕ → Text × ℤ → Text × ℤ
next_best c n best = if better c (pos n) best then (c, pos n) else best

Unbeaten-next :
    (c : Text) (n : ℕ) (best : Text × ℤ)
    → Unbeaten best (next_best c n best) × Unbeaten (c, pos n) (next_best c n best)
Unbeaten-next c n (b, z) = elim (Bool-cases (better c (pos n) (b, z))) [
  | inl e ↦ rw e (newer_asym (pos n) z c b e, newer_irrefl (pos n) c)
  | inr e ↦ rw e (newer_irrefl z b, e)
]

-- The loop finds what neither the first value nor an entry beats.
best_of-Unbeaten :
    (counts : CurrencyCounts) (best : Text × ℤ)
    → Unbeaten best (best_of counts best)
      × ((c : Text) (n : ℕ) → In (c, n) counts → Unbeaten (c, pos n) (best_of counts best))
unfolding best_of
best_of-Unbeaten [] best = (newer_irrefl best.1 best.0, λ c n m. absurd m)
best_of-Unbeaten ((c, n) ∷ counts) best =
    let (first, rest) = best_of-Unbeaten counts (next_best c n best) in
    let (a, b) = Unbeaten-next c n best in
    (
      Unbeaten-trans best (next_best c n best) (best_of counts (next_best c n best)) a first,
      λ d k m. elim m [
        | inl e ↦
            subst (λ (x : Text × ℕ). Unbeaten (x.0, pos x.1) (best_of counts (next_best c n best)))
              (sym e)
              (Unbeaten-trans (c, pos n) (next_best c n best) (best_of counts (next_best c n best))
                b first)
        | inr i ↦ rest d k i
      ],
    )

best_of-member :
    (counts : CurrencyCounts) (best : Text × ℤ)
    → (best_of counts best ≡ best)
      ⊎ ((c : Text) × (n : ℕ) × In (c, n) counts × (best_of counts best ≡ (c, pos n)))
unfolding best_of
best_of-member [] best = inl refl
best_of-member ((c, n) ∷ counts) best = elim (Bool-cases (better c (pos n) best)) [
  | inl e ↦ rw e (elim (best_of-member counts (c, pos n)) [
    | inl f ↦ inr (c, n, inl refl, f)
    | inr (d, m, i, f) ↦ inr (d, m, inr i, f)
  ])
  | inr e ↦ rw e (elim (best_of-member counts best) [
    | inl f ↦ inl f
    | inr (d, m, i, f) ↦ inr (d, m, inr i, f)
  ])
]

-- Some currency has a count, so that the loop ends with one.
pub best_of-entry :
    (counts : CurrencyCounts)
    → 0 < length counts
    → (c : Text) × (n : ℕ) × In (c, n) counts × (best_of counts ([], negsuc 0) ≡ (c, pos n))
best_of-entry [] h = absurd (omega (arith, h))
best_of-entry ((c, n) ∷ counts) h = elim (best_of-member ((c, n) ∷ counts) ([], negsuc 0)) [
  | inl e ↦
      let u = (best_of-Unbeaten ((c, n) ∷ counts) ([], negsuc 0)).1 c n (inl refl) in
      let v : Unbeaten (c, pos n) ([], negsuc 0) = subst (Unbeaten (c, pos n)) e u in
      ground (arith, v)
  | inr m ↦ m
]

-- Two maps with the same counts have the same best currency.
pub best_currency-agree :
    (m n : CurrencyCounts)
    → Unique m
    → Unique n
    → 0 < length m
    → ((c : Text) → lookup c m ≡ lookup c n)
    → best_currency m ≡ best_currency n
unfolding best_currency
best_currency-agree m n u v h same =
    let (c, i, at, e) = best_of-entry m h in
    let (d, j, bt, f) = best_of-entry n (omega (arith, h, same_length m n u v same)) in
    let there = lookup-In c i n (sym (same c) ∙ In-lookup c i m u at) in
    let back = lookup-In d j m (same d ∙ In-lookup d j n v bt) in
    let k = subst (Unbeaten (c, pos i)) f ((best_of-Unbeaten n ([], negsuc 0)).1 c i there) in
    let l = subst (Unbeaten (d, pos j)) e ((best_of-Unbeaten m ([], negsuc 0)).1 d j back) in
    ap (λ (x : Text × ℤ). x.0) e
    ∙ not_newer_id (pos i) (pos j) c d k l
    ∙ ap (λ (x : Text × ℤ). x.0) (sym f)
