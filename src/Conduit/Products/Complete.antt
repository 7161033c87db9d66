-- ===== src/Conduit/Products/Complete.antt =====
-- scope2.go: all pages of a product query together, with the bounds that `WrapProductQueries`
-- applies to it.
use conduit_relay.Base.{nat_eq, list_eq, int_eq, Text}
use conduit_relay.Conduit.Plan.{SearchPlan}
use conduit_relay.Conduit.Products.Store.{Products}

abbrev pub at_cursor : SearchPlan → Text → SearchPlan
at_cursor plan cursor = record plan { cursor = cursor }
