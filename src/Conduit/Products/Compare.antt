-- ===== src/Conduit/Products/Compare.antt =====
-- scope2.go: `compareProducts`, which orders the products of an answer.
use conduit_relay.Base.{
  Ordering, ◌≡◌, refl, sym, ap, ◌∙◌, Bool, true, false, not, ◌&&◌, arith, if◌then◌else◌, nat_eq,
  list_eq, ℤ, pos, ltb_ℤ, beq_ℤ, int_eq, then_compare, flip, text_compare, eq_of_text_compare,
}
use conduit_relay.Base.Orders.{
  Comparator, int_compare, int_key-Comparator, text_key-Comparator, reversed-Comparator,
  then_compare-Comparator,
}
use conduit_relay.Conduit.Float.{float_ltb, float_beq, float_ltb_lem, float_beq_lem, is_nan, rank}
use conduit_relay.Conduit.Plan.{ProductSort, newest, price_asc, price_desc, updated_at_desc}
use conduit_relay.Conduit.Products.{ProductEnvelope}

-- The part that all sorts end with.
unfoldable pub compare_tail : ProductEnvelope → ProductEnvelope → Ordering
compare_tail a b =
    if ltb_ℤ b.updated_at a.updated_at
    then Ordering.lt
    else if ltb_ℤ a.updated_at b.updated_at
    then Ordering.gt
    else if ltb_ℤ b.event.created_at a.event.created_at
    then Ordering.lt
    else if ltb_ℤ a.event.created_at b.event.created_at
    then Ordering.gt
    else text_compare a.event.id b.event.id

-- The cases `SortPriceAsc` and `SortPriceDesc`.
unfoldable pub compare_price : Bool → ProductEnvelope → ProductEnvelope → Ordering
compare_price ascending a b =
    if a.has_price && not b.has_price
    then Ordering.lt
    else if not a.has_price && b.has_price
    then Ordering.gt
    else if a.has_price && b.has_price && not (float_beq a.price b.price)
    then (if float_ltb a.price b.price
        then (if ascending then Ordering.lt else Ordering.gt)
        else if ascending
        then Ordering.gt
        else Ordering.lt)
    else compare_tail a b

unfoldable pub compare_products : ProductSort → ProductEnvelope → ProductEnvelope → Ordering
compare_products price_asc a b = compare_price true a b
compare_products price_desc a b = compare_price false a b
compare_products updated_at_desc a b =
    if ltb_ℤ b.updated_at a.updated_at
    then Ordering.lt
    else if ltb_ℤ a.updated_at b.updated_at
    then Ordering.gt
    else compare_tail a b
compare_products newest a b =
    if ltb_ℤ b.event.created_at a.event.created_at
    then Ordering.lt
    else if ltb_ℤ a.event.created_at b.event.created_at
    then Ordering.gt
    else compare_tail a b

-- A product whose price, if it has one, is not NaN.
abbrev pub ordinary : ProductEnvelope → Bool
ordinary pe = not (pe.has_price && is_nan pe.price)

abbrev pub Ordinary : ProductEnvelope → Type 0
Ordinary pe = ordinary pe ≡ true

abbrev price_place : ProductEnvelope → ℤ
price_place pe = if pe.has_price then rank pe.price else pos 0

abbrev presence : ProductEnvelope → ℤ
presence pe = if pe.has_price then pos 0 else pos 1

abbrev descending : (ProductEnvelope → ℤ) → ProductEnvelope → ProductEnvelope → Ordering
descending key a b = int_compare (key b) (key a)

abbrev tail_order : ProductEnvelope → ProductEnvelope → Ordering
tail_order a b =
    then_compare (descending (λ pe. pe.updated_at) a b) (
      then_compare (descending (λ pe. pe.event.created_at) a b)
        (text_compare a.event.id b.event.id))

abbrev mode_order : ProductSort → ProductEnvelope → ProductEnvelope → Ordering
mode_order price_asc a b =
    then_compare (int_compare (presence a) (presence b))
      (int_compare (price_place a) (price_place b))
mode_order price_desc a b =
    then_compare (int_compare (presence a) (presence b)) (descending price_place a b)
mode_order updated_at_desc a b = descending (λ pe. pe.updated_at) a b
mode_order newest a b = descending (λ pe. pe.event.created_at) a b

-- The order by keys that the code's comparisons amount to.
abbrev product_order : ProductSort → ProductEnvelope → ProductEnvelope → Ordering
product_order mode a b = then_compare (mode_order mode a b) (tail_order a b)

tail_lem : (a b : ProductEnvelope) → compare_tail a b ≡ tail_order a b
unfolding compare_tail
tail_lem a b = ground arith

rank_lem :
    (ascending : Bool) (i j : ℤ) (o : Ordering)
    → (if not (beq_ℤ i j)
        then (if ltb_ℤ i j
            then (if ascending then Ordering.lt else Ordering.gt)
            else if ascending
            then Ordering.gt
            else Ordering.lt)
        else o)
      ≡ then_compare (if ascending then int_compare i j else int_compare j i) o
rank_lem true i j o = ground arith
rank_lem false i j o = ground arith

abbrev price_mode : Bool → ProductSort
price_mode ascending = if ascending then price_asc else price_desc

-- Whether there are prices, and how they compare, as variables.
price_cases :
    (ascending h k e l : Bool) (i j : ℤ) (o : Ordering)
    → (h ≡ true → k ≡ true → (e ≡ beq_ℤ i j) × (l ≡ ltb_ℤ i j))
    → (if h && not k
        then Ordering.lt
        else if not h && k
        then Ordering.gt
        else if h && k && not e
        then (if l
            then (if ascending then Ordering.lt else Ordering.gt)
            else if ascending
            then Ordering.gt
            else Ordering.lt)
        else o)
      ≡ then_compare
          (then_compare (int_compare (if h then pos 0 else pos 1) (if k then pos 0 else pos 1)) (
            if ascending
            then int_compare (if h then i else pos 0) (if k then j else pos 0)
            else int_compare (if k then j else pos 0) (if h then i else pos 0)))
          o
price_cases ascending true true e l i j o h =
    let (f, g) = h refl refl in rw (f, g) (rank_lem ascending i j o)
price_cases true true false e l i j o h = refl
price_cases true false true e l i j o h = refl
price_cases true false false e l i j o h = refl
price_cases false true false e l i j o h = refl
price_cases false false true e l i j o h = refl
price_cases false false false e l i j o h = refl

abbrev price_order : Bool → ProductEnvelope → ProductEnvelope → Ordering
price_order ascending a b = then_compare (int_compare (presence a) (presence b)) (
    if ascending
    then int_compare (price_place a) (price_place b)
    else int_compare (price_place b) (price_place a))

price_lem :
    (ascending : Bool) (a b : ProductEnvelope)
    → Ordinary a
    → Ordinary b
    → compare_price ascending a b ≡ then_compare (price_order ascending a b) (compare_tail a b)
unfolding compare_price
price_lem ascending a b p q =
    price_cases ascending a.has_price b.has_price (float_beq a.price b.price)
      (float_ltb a.price b.price) (rank a.price) (rank b.price) (compare_tail a b)
      (λ h k.
        let m : is_nan a.price ≡ false = ground (arith, p, h) in
        let n : is_nan b.price ≡ false = ground (arith, q, k) in
        (float_beq_lem a.price b.price m n, float_ltb_lem a.price b.price m n))

compare_price_lem :
    (ascending : Bool) (a b : ProductEnvelope)
    → Ordinary a
    → Ordinary b
    → compare_price ascending a b ≡ product_order (price_mode ascending) a b
unfolding compare_price
compare_price_lem true a b p q =
    price_lem true a b p q ∙ ap (λ o. then_compare (mode_order price_asc a b) o) (tail_lem a b)
compare_price_lem false a b p q =
    price_lem false a b p q ∙ ap (λ o. then_compare (mode_order price_desc a b) o) (tail_lem a b)

compare_products-order :
    (mode : ProductSort) (a b : ProductEnvelope)
    → Ordinary a
    → Ordinary b
    → compare_products mode a b ≡ product_order mode a b
unfolding compare_products
compare_products-order price_asc a b p q = compare_price_lem true a b p q
compare_products-order price_desc a b p q = compare_price_lem false a b p q
compare_products-order updated_at_desc a b p q = ground (arith, tail_lem a b)
compare_products-order newest a b p q = ground (arith, tail_lem a b)

product_order-Comparator : (mode : ProductSort) → Comparator Ordinary (product_order mode)
product_order-Comparator mode =
    then_compare-Comparator Ordinary (mode_order mode) tail_order (by_mode mode) (
      then_compare-Comparator Ordinary (descending (λ pe. pe.updated_at)) _
        (down (λ pe. pe.updated_at))
        (then_compare-Comparator Ordinary (descending (λ pe. pe.event.created_at)) _
          (down (λ pe. pe.event.created_at)) (text_key-Comparator Ordinary (λ pe. pe.event.id))))
  where
    down : (key : ProductEnvelope → ℤ) → Comparator Ordinary (descending key)
    down key =
        reversed-Comparator Ordinary (λ a b. int_compare (key a) (key b))
          (int_key-Comparator Ordinary key)

    by_mode : (mode : ProductSort) → Comparator Ordinary (mode_order mode)
    by_mode price_asc =
        then_compare-Comparator Ordinary (λ a b. int_compare (presence a) (presence b)) _
          (int_key-Comparator Ordinary presence) (int_key-Comparator Ordinary price_place)
    by_mode price_desc =
        then_compare-Comparator Ordinary (λ a b. int_compare (presence a) (presence b)) _
          (int_key-Comparator Ordinary presence) (down price_place)
    by_mode updated_at_desc = down (λ pe. pe.updated_at)
    by_mode newest = down (λ pe. pe.event.created_at)

pub compare_products-Comparator : (mode : ProductSort) → Comparator Ordinary (compare_products mode)
compare_products-Comparator mode =
    let o = product_order-Comparator mode in
    let e = compare_products-order mode in
    record {
      flips = λ a b p q. e b a q p ∙ o.flips a b p q ∙ ap flip (sym (e a b p q));
      same =
          λ a b c p q r h. e a c p r ∙ o.same a b c p q r (sym (e a b p q) ∙ h) ∙ sym (e b c q r);
      chain = λ a b c p q r h k.
          e a c p r ∙ o.chain a b c p q r (sym (e a b p q) ∙ h) (sym (e b c q r) ∙ k);
    }

-- Products that compare as equal have the same id.
pub compare_products_id :
    (mode : ProductSort) (a b : ProductEnvelope)
    → Ordinary a
    → Ordinary b
    → compare_products mode a b ≡ Ordering.eq
    → a.event.id ≡ b.event.id
compare_products_id mode a b p q h =
    eq_of_text_compare a.event.id b.event.id
      (ground (arith, compare_products-order mode a b p q, h))
