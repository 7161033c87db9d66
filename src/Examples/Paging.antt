-- ===== src/Examples/Paging.antt =====
-- The pages of a query, one product at a time.
use conduit_relay.Base.{true, false, List, [], ◌∷◌, nat_eq, list_eq, pos, int_eq, Text, codes}
use conduit_relay.Conduit.Options.{with_defaults, apply_request_bounds}
use conduit_relay.Conduit.Products.{ProductEnvelope}
use conduit_relay.Conduit.Products.Store.{Products}
use conduit_relay.Conduit.Products.Evaluate.{envelopes, match_products}
use conduit_relay.Examples.Library.{library, mug, product_query, options}

abbrev entry_of : Text → ProductEnvelope
entry_of id = record {
  address = id;
  event = record mug { id = id };
  updated_at = pos 5;
  price = 0x4014000000000000;
  currency = codes "USD";
  has_price = true;
  search_text = [];
  tombstoned = false;
}

abbrev shelf : Products
shelf =
    (codes "c", entry_of (codes "c"))
    ∷ (codes "a", entry_of (codes "a"))
    ∷ (codes "b", entry_of (codes "b"))
    ∷ []

abbrev limited : List ProductEnvelope
limited =
    match_products library (apply_request_bounds product_query (with_defaults options)) []
      (envelopes shelf)
