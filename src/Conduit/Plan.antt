-- ===== src/Conduit/Plan.antt =====
-- scope2.go: the search string of a product query, `conduit-l2:q=..;sort=..;cursor=..;partial=..`.
pub mod Print
use conduit_relay.Base.{
  ℕ, Bool, true, false, not, ◌||◌, Option, none, some, List, [], ◌∷◌, nat_beq, if◌then◌else◌, ◌==◌,
  nat_eq, list_eq, list_beq, contains, pos, int_eq, Text, codes, has_prefix, trim_space,
  trim_prefix,
}
use conduit_relay.Conduit.{Query, Library}

pub data ProductSort : Type 0 where
  newest price_asc price_desc updated_at_desc : ProductSort

pub record SearchPlan : Type 0 where
  pub sort : ProductSort
  pub text : Text
  pub cursor : Text
  pub partial : Bool

-- `strings.Split` by one character: the first part and the others.
unfoldable pub split_at : ℕ → Text → Text × List Text
split_at c [] = ([], [])
split_at c (x ∷ s) =
    let (part, parts) = split_at c s in
    if nat_beq x c then ([], part ∷ parts) else (x ∷ part, parts)

abbrev pub split : ℕ → Text → List Text
split c s = let (part, parts) = split_at c s in part ∷ parts

-- `strings.Cut` by one character.
unfoldable pub cut : ℕ → Text → Option (Text × Text)
cut c [] = none
cut c (x ∷ s) =
    let rest = cut c s in
    if nat_beq x c then some ([], s) else elim rest [ none ↦ none | some (a, b) ↦ some (x ∷ a, b) ]

unfoldable pub parse_sort : Text → Option ProductSort
parse_sort v =
    if v == codes "newest"
    then some newest
    else if v == codes "price_asc"
    then some price_asc
    else if v == codes "price_desc"
    then some price_desc
    else if v == codes "updated_at_desc"
    then some updated_at_desc
    else none

-- The body of the loop, with the key and the value trimmed.
unfoldable pub set_field : Library → Text → Text → SearchPlan → SearchPlan
set_field lib k v plan =
    if k == codes "q"
    then record plan { text = v }
    else if k == codes "sort"
    then (elim (parse_sort v) [ none ↦ plan | some s ↦ record plan { sort = s } ])
    else if k == codes "cursor"
    then record plan { cursor = v }
    else if k == codes "partial"
    then record plan { partial = v == codes "1" || lib.equal_fold v (codes "true") }
    else plan

unfoldable pub read_token : Library → Text → SearchPlan → SearchPlan
read_token lib token plan = elim (cut b'=' token) [
  | none ↦ plan
  | some (k, v) ↦ set_field lib (trim_space k) (trim_space v) plan
]

unfoldable pub read_tokens : Library → List Text → SearchPlan → SearchPlan
read_tokens lib [] plan = plan
read_tokens lib (t ∷ ts) plan = read_tokens lib ts (read_token lib t plan)

abbrev pub prefix : Text
prefix = codes "conduit-l2:"

abbrev pub default_plan : SearchPlan
default_plan = record { sort = newest; text = []; cursor = []; partial = false }

unfoldable pub parse_search_plan : Library → Text → SearchPlan × Bool
parse_search_plan lib raw =
    if not (has_prefix raw prefix)
    then (default_plan, false)
    else (read_tokens lib (split b';' (trim_prefix raw prefix)) default_plan, true)

unfoldable pub requests_out_of_scope_search : Library → Query → Bool
requests_out_of_scope_search lib q =
    if list_beq q.search [] then false else not (parse_search_plan lib q.search).1

unfoldable pub is_product_query : Query → Bool
is_product_query q = contains q.kinds (pos 30402)

unfoldable pub requests_protected_gift_wraps : Query → Bool
requests_protected_gift_wraps q = contains q.kinds (pos 1059)
