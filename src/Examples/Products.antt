-- ===== src/Examples/Products.antt =====
-- The product index on two products.
use conduit_relay.Base.{
  ◌≡◌, refl, sym, ap, ◌∙◌, ◌⊎◌, inl, inr, true, false, ◌&&◌, List, [], ◌∷◌, arith, ◌==◌, nat_eq,
  list_eq, list_beq, In, pos, ◌≤ℤ◌, leb_ℤ, int_eq, codes, trim_space,
}
use conduit_relay.Base.Assoc.{lookup, insert}
use conduit_relay.Base.Sorting.{sort, insert_in_order}
use conduit_relay.Nostr.Event.{Event}
use conduit_relay.Conduit.Float.{float_ltb, float_beq, rank}
use conduit_relay.Conduit.Options.{with_defaults, apply_request_bounds, resolved_limit}
use conduit_relay.Conduit.Options.Bounds.{resolved_limit-Bounds}
use conduit_relay.Conduit.Plan.{SearchPlan, parse_search_plan}
use conduit_relay.Conduit.Plan.Print.{print_plan, parse_search_plan-print}
use conduit_relay.Conduit.Products.{
  ProductEnvelope, text_to_float, price_from, extract_price, build_product_envelope,
}
use conduit_relay.Conduit.Products.Store.{
  apply_delete_tag, apply_delete_tags, delete_id, apply_delete_event, apply_event, apply_events,
}
use conduit_relay.Conduit.Products.Compare.{Ordinary, compare_price, compare_products}
use conduit_relay.Conduit.Products.Evaluate.{
  evaluate, match_products, evaluate_price_policy, ordered, count_in, count_currencies,
}
use conduit_relay.Conduit.Products.Answers.{answers_agree}
use conduit_relay.Conduit.Products.Deleted.{deleted_product_hidden}
use conduit_relay.Conduit.Products.Currency.{price_sort-currency}
use conduit_relay.Examples.Data.{bob, event_of}
use conduit_relay.Examples.Library.{library, mug, bowl, product_query, options, by_price_plan}

abbrev mug_first : List Event
mug_first = mug ∷ bowl ∷ []

abbrev bowl_first : List Event
bowl_first = bowl ∷ mug ∷ mug ∷ []

example_prices :
    Ordinary (build_product_envelope library mug) × Ordinary (build_product_envelope library bowl)
unfolding build_product_envelope extract_price price_from text_to_float trim_space list_beq
example_prices = (refl, refl)

two_events : (e f : Event) → In e mug_first → In f mug_first → e.id ≡ f.id → e ≡ f
two_events e f (inl a) (inl b) h = a ∙ sym b
two_events e f (inl a) (inr (inl b)) h =
    let g : codes "m1" ≡ codes "m2" =
      ap (λ (x : Event). x.id) (sym a) ∙ h ∙ ap (λ (x : Event). x.id) b in
    absurd (ground (arith, g))
two_events e f (inr (inl a)) (inl b) h =
    let g : codes "m2" ≡ codes "m1" =
      ap (λ (x : Event). x.id) (sym a) ∙ h ∙ ap (λ (x : Event). x.id) b in
    absurd (ground (arith, g))
two_events e f (inr (inl a)) (inr (inl b)) h = a ∙ sym b
two_events e f (inr (inr a)) m h = absurd a
two_events e f (inl a) (inr (inr b)) h = absurd b
two_events e f (inr (inl a)) (inr (inr b)) h = absurd b

answers_agree_example :
    evaluate library product_query by_price_plan options (apply_events library mug_first [])
    ≡ evaluate library product_query by_price_plan options (apply_events library bowl_first [])
answers_agree_example =
    answers_agree library mug_first bowl_first product_query by_price_plan options
      (refl, (refl, tt)) (refl, (refl, (refl, tt))) (example_prices.0, (example_prices.1, tt))
      (example_prices.1, (example_prices.0, (example_prices.0, tt))) (λ e. ground arith) two_events

abbrev mug_entry : ProductEnvelope
mug_entry = record {
  address = codes "a";
  event = mug;
  updated_at = pos 5;
  price = 0x4014000000000000;
  currency = codes "USD";
  has_price = true;
  search_text = [];
  tombstoned = false;
}

abbrev bowl_entry : ProductEnvelope
bowl_entry = record mug_entry { address = codes "b"; event = bowl; price = 0x4022000000000000 }

price_sort-currency_example : mug_entry.currency ≡ bowl_entry.currency
unfolding evaluate_price_policy ordered list_beq count_currencies count_in lookup insert sort
    insert_in_order compare_products compare_price float_ltb float_beq rank
price_sort-currency_example =
    price_sort-currency by_price_plan options (mug_entry ∷ bowl_entry ∷ []) mug_entry bowl_entry
      refl refl (refl, (refl, tt)) refl (inl refl) (inr (inl refl)) refl refl

resolved_limit-Bounds_example :
    (pos 1
      ≤ℤ resolved_limit
          (apply_request_bounds product_query (with_defaults options))
          (with_defaults options))
    × (resolved_limit
          (apply_request_bounds product_query (with_defaults options))
          (with_defaults options)
        ≤ℤ (with_defaults options).max_query_limit)
    × ((leb_ℤ (pos 1) product_query.limit
            && leb_ℤ product_query.limit (with_defaults options).max_query_limit
          ≡ false)
        ⊎ (resolved_limit
              (apply_request_bounds product_query (with_defaults options))
              (with_defaults options)
            ≡ product_query.limit))
resolved_limit-Bounds_example = resolved_limit-Bounds options product_query refl

abbrev written_plan : SearchPlan
written_plan = record by_price_plan { text = codes "blue mug"; cursor = codes "abc" }

parse_search_plan-print_example :
    parse_search_plan library (print_plan written_plan) ≡ (written_plan, true)
unfolding trim_space list_beq
parse_search_plan-print_example =
    parse_search_plan-print library written_plan refl refl refl refl refl

-- A deletion that another key has signed.
abbrev deletion : Event
deletion = record (event_of (pos 5) ((codes "e" ∷ codes "m1" ∷ []) ∷ [])) { pub_key = bob }

deleted_product_hidden_example : (bowl_entry.event.id == codes "m1") ≡ false
unfolding match_products apply_event apply_delete_event apply_delete_tags apply_delete_tag delete_id
    list_beq trim_space
deleted_product_hidden_example =
    deleted_product_hidden library deletion (codes "m1") (codes "m1") [] [] product_query bowl_entry
      ((codes "a", mug_entry) ∷ (codes "b", bowl_entry) ∷ []) refl (inl refl) refl (inl refl)
