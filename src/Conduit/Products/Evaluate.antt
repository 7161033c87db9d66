-- ===== src/Conduit/Products/Evaluate.antt =====
-- scope2.go: the answer to a product query, from the products that match to the page that is sent.
use conduit_relay.Base.{
  ℕ, suc, ◌+◌, ◌-◌, Bool, true, false, not, ◌&&◌, ◌||◌, Option, none, some, List, [], ◌∷◌, map, leb,
  if◌then◌else◌, ◌==◌, nat_eq, list_eq, list_beq, length, take, drop, select, ℤ, pos, negsuc,
  pos_part, ◌+ℤ◌, ltb_ℤ, beq_ℤ, int_eq, wrap64, Text, codes, has_prefix, text_ltb, trim_space,
}
use conduit_relay.Base.Assoc.{lookup, insert}
use conduit_relay.Base.Sorting.{sort}
use conduit_relay.Nostr.Event.{Event}
use conduit_relay.Conduit.{Query, Library}
use conduit_relay.Conduit.Options.{
  Scope2Options, with_defaults, apply_request_bounds, resolved_limit,
}
use conduit_relay.Conduit.Plan.{
  ProductSort, newest, price_asc, price_desc, updated_at_desc, SearchPlan, parse_search_plan,
  is_product_query, requests_out_of_scope_search,
}
use conduit_relay.Conduit.Products.{ProductEnvelope}
use conduit_relay.Conduit.Products.Store.{Products}
use conduit_relay.Conduit.Products.Compare.{compare_products}

-- `strings.Contains`.
unfoldable pub has_part : Text → Text → Bool
has_part [] part = has_prefix [] part
has_part (c ∷ s) part = has_prefix (c ∷ s) part || has_part s part

-- What the loop of `matchProducts` keeps.
abbrev pub wanted : Library → Query → Text → ProductEnvelope → Bool
wanted lib q needle pe =
    not pe.tombstoned
    && lib.filter_matches (record q { search = [] }) pe.event
    && (list_beq needle [] || has_part pe.search_text needle)

unfoldable pub match_products : Library → Query → Text → List ProductEnvelope → List ProductEnvelope
match_products lib q search pes = select (wanted lib q (lib.to_lower (trim_space search))) pes

pub record PricePolicy : Type 0 where
  pub allowed : Bool
  pub reason : Text
  pub partial_currency : Text

abbrev pub CurrencyCounts : Type 0
CurrencyCounts = List (Text × ℕ)

unfoldable pub count_in : Text → CurrencyCounts → ℕ
count_in c counts = elim (lookup c counts) [ none ↦ 0 | some n ↦ n ]

-- `counts[currency]++` for every product with a price.
unfoldable pub count_currencies : List ProductEnvelope → CurrencyCounts → CurrencyCounts
count_currencies [] counts = counts
count_currencies (pe ∷ pes) counts =
    count_currencies pes
      (if pe.has_price then insert pe.currency (count_in pe.currency counts + 1) counts else counts)

-- The loop over the counts. It carries the best currency and its count, at first no currency and -1.
abbrev pub better : Text → ℤ → Text × ℤ → Bool
better c n best = ltb_ℤ best.1 n || beq_ℤ n best.1 && text_ltb c best.0

unfoldable pub best_of : CurrencyCounts → Text × ℤ → Text × ℤ
best_of [] best = best
best_of ((c, n) ∷ counts) best = best_of counts (if better c (pos n) best then (c, pos n) else best)

unfoldable pub best_currency : CurrencyCounts → Text
best_currency counts = (best_of counts ([], negsuc 0)).0

abbrev pub by_price : ProductSort → Bool
by_price price_asc = true
by_price price_desc = true
by_price newest = false
by_price updated_at_desc = false

abbrev pub mixed_currency_reason : Text
mixed_currency_reason =
    codes "blocked: mixed-currency price sort requires partial=1 or trusted normalization"

unfoldable pub evaluate_price_policy :
    List ProductEnvelope → SearchPlan → Scope2Options → PricePolicy
evaluate_price_policy pes plan opts =
    let counts = count_currencies pes [] in
    if not (by_price plan.sort)
    then record { allowed = true; reason = []; partial_currency = [] }
    else if opts.allow_mixed_currency_sort
    then record { allowed = true; reason = []; partial_currency = [] }
    else if leb (length counts) 1
    then record { allowed = true; reason = []; partial_currency = [] }
    else if not plan.partial
    then record { allowed = false; reason = mixed_currency_reason; partial_currency = [] }
    else record { allowed = true; reason = []; partial_currency = best_currency counts }

unfoldable pub keep_currency_cohort : List ProductEnvelope → Text → List ProductEnvelope
keep_currency_cohort pes currency =
    select (λ (pe : ProductEnvelope). pe.has_price && pe.currency == currency) pes

-- The place after the first product of that id.
unfoldable pub place_after : Text → List ProductEnvelope → Option ℕ
place_after id [] = none
place_after id (pe ∷ pes) =
    let later = place_after id pes in
    if pe.event.id == id then some 1 else elim later [ none ↦ none | some n ↦ some (suc n) ]

unfoldable pub find_cursor_start : Library → List ProductEnvelope → Text → ℕ
find_cursor_start lib pes cursor = elim (lib.decode_base64 cursor) [
  | none ↦ 0
  | some b ↦ elim (lib.unmarshal_cursor b) [
    | none ↦ 0
    | some id ↦ elim (place_after id pes) [ none ↦ 0 | some n ↦ n ]
  ]
]

unfoldable pub build_next_cursor : Library → Event → Text
build_next_cursor lib last = lib.encode_base64 (lib.marshal_cursor last.id)

-- What `evaluate` returns. The slice expression panics when its end is before its start, which needs a
-- sum of `int`s that wraps.
pub data Outcome : Type 0 where
  found : List ProductEnvelope → Outcome
  blocked : Text → Outcome
  panic : Outcome

unfoldable pub page : ℕ → ℤ → List ProductEnvelope → Outcome
page start limit pes =
    let sum = wrap64 (pos start +ℤ limit) in
    let end = if ltb_ℤ (pos (length pes)) sum then pos (length pes) else sum in
    if ltb_ℤ end (pos start) then panic else found (take (pos_part end - start) (drop start pes))

-- The products of the query that may be sent, all of them and in order.
unfoldable pub ordered : SearchPlan → PricePolicy → List ProductEnvelope → List ProductEnvelope
ordered plan policy pes =
    let cohort =
      if list_beq policy.partial_currency []
      then pes
      else keep_currency_cohort pes policy.partial_currency in
    sort (compare_products plan.sort) cohort

-- `evaluate`, for the products that match.
unfoldable pub answer_for :
    Library → Query → SearchPlan → Scope2Options → List ProductEnvelope → Outcome
answer_for lib q plan opts pes =
    let policy = evaluate_price_policy pes plan opts in
    let products = ordered plan policy pes in
    let start = if list_beq plan.cursor [] then 0 else find_cursor_start lib products plan.cursor in
    if not policy.allowed
    then blocked policy.reason
    else if leb (length products) start
    then found []
    else page start (resolved_limit q opts) products

abbrev pub envelopes : Products → List ProductEnvelope
envelopes ps = map (λ (kv : Text × ProductEnvelope). kv.1) ps

unfoldable pub evaluate : Library → Query → SearchPlan → Scope2Options → Products → Outcome
evaluate lib q plan opts ps =
    answer_for lib q plan opts (match_products lib q plan.text (envelopes ps))

abbrev pub sent : Outcome → Option (List Event)
sent (found pes) = some (map (λ (pe : ProductEnvelope). pe.event) pes)
sent (blocked reason) = some []
sent panic = none

-- The query that `WrapProductQueries` returns; `none` is a panic.
unfoldable pub wrap_product_queries :
    Library → (Query → List Event) → Scope2Options → Products → Query → Option (List Event)
wrap_product_queries lib base_query raw_opts ps q =
    let opts = with_defaults raw_opts in
    let (plan, has_plan) = parse_search_plan lib q.search in
    if not has_plan || not (is_product_query q)
    then some (base_query q)
    else sent (evaluate lib (apply_request_bounds q opts) plan opts ps)

-- What `relay.OnRequest` decides.
pub data Decision : Type 0 where
  accept : Decision
  reject : Text → Decision
  crash : Decision

abbrev pub out_of_scope_reason : Text
out_of_scope_reason = codes "blocked: use conduit-l2 capability search format"

abbrev pub of_answer : Outcome → Decision
of_answer (found pes) = accept
of_answer (blocked reason) = if list_beq reason [] then accept else reject reason
of_answer panic = crash

abbrev pub previous : Option (Query → Option Text) → Query → Option Text
previous none q = none
previous (some f) q = f q

-- `relay.OnRequest` as `ConfigureRelay` sets it, before gift-wrap protection; `prev` is the function that
-- it replaces, if there is one.
unfoldable pub on_request :
    Library → Option (Query → Option Text) → Scope2Options → Products → Query → Decision
on_request lib prev raw_opts ps q =
    let opts = with_defaults raw_opts in
    let (plan, has_plan) = parse_search_plan lib q.search in
    elim (previous prev q) [
      | some msg ↦ reject msg
      | none ↦
          if requests_out_of_scope_search lib q
          then reject out_of_scope_reason
          else if has_plan && is_product_query q
          then of_answer (evaluate lib (apply_request_bounds q opts) plan opts ps)
          else accept
    ]

-- `relay.QueryStored` as `ConfigureRelay` sets it.
unfoldable pub query_stored : (Query → List Event) → Scope2Options → Query → List Event
query_stored prev raw_opts q = prev (apply_request_bounds q (with_defaults raw_opts))
