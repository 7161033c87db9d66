-- ===== src/Examples/Library.antt =====
-- Small functions in the place of the libraries' for the examples of the package conduitl2, and two products.
use conduit_relay.Base.{
  ℕ, true, false, Option, none, some, List, [], ◌∷◌, if◌then◌else◌, ◌==◌, nat_eq, list_eq, contains,
  pos, int_eq, Text, codes,
}
use conduit_relay.Nostr.Event.{Event}
use conduit_relay.Conduit.{Query, Library}
use conduit_relay.Conduit.Options.{Scope2Options, enforce}
use conduit_relay.Conduit.Plan.{SearchPlan, price_asc}
use conduit_relay.Examples.Data.{event_of}

unfoldable pub d_value : List (List Text) → Text
d_value [] = []
d_value ([] ∷ tags) = d_value tags
d_value ((n ∷ []) ∷ tags) = d_value tags
d_value ((n ∷ v ∷ rest) ∷ tags) = let later = d_value tags in if n == codes "d" then v else later

-- 5 and 9 as float64.
abbrev pub price_bits : Text → Option ℕ
price_bits s =
    if s == codes "5"
    then some 0x4014000000000000
    else if s == codes "9"
    then some 0x4022000000000000
    else none

abbrev pub read_cursor : Text → Option Text
read_cursor [] = none
read_cursor (c ∷ id) = some id

abbrev pub library : Library
library = record {
  to_lower = λ s. s;
  to_upper = λ s. s;
  equal_fold = λ a b. a == b;
  atoi = λ s. some (pos 30402);
  parse_int = λ s. none;
  format_int = λ n. codes "30402";
  parse_float = price_bits;
  float_to_int = λ b. pos 0;
  unmarshal_object = λ s. none;
  marshal_cursor = λ id. b'"' ∷ id;
  unmarshal_cursor = read_cursor;
  encode_base64 = λ s. s;
  decode_base64 = λ s. some s;
  id_from_hex = λ s. some s;
  pubkey_from_hex = λ s. some s;
  get_d = d_value;
  filter_matches = λ q ev. contains q.kinds ev.kind;
}

abbrev pub product_of : Text → Text → Text → Event
product_of id d price =
    record (event_of (pos 30402)
      ((codes "d" ∷ d ∷ []) ∷ (codes "price" ∷ price ∷ codes "USD" ∷ []) ∷ [])) { id = id }

abbrev pub mug : Event
mug = product_of (codes "m1") (codes "mug") (codes "5")

abbrev pub bowl : Event
bowl = product_of (codes "m2") (codes "bowl") (codes "9")

abbrev pub product_query : Query
product_query = record {
  kinds = pos 30402 ∷ [];
  tags = [];
  limit = pos 1;
  limit_zero = false;
  search = codes "conduit-l2:sort=price_asc";
  other = [];
}

abbrev pub options : Scope2Options
options = record {
  max_query_limit = pos 10;
  default_query_limit = pos 0;
  max_projection_scan = pos 0;
  allow_mixed_currency_sort = false;
  enable_nip50 = true;
  gift_wrap_protection = enforce;
}

abbrev pub by_price_plan : SearchPlan
by_price_plan = record { sort = price_asc; text = []; cursor = []; partial = false }
