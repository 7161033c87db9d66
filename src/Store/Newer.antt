-- ===== src/Store/Newer.antt =====
-- congee/internal/storage/sqlevent/store.go: the order of the rows of a query, and what a limit
-- leaves out.
use conduit_relay.Base.{
  ◌≡◌, ◌↔◌, ◌⊎◌, inl, inr, Bool, true, false, List, [], ◌∷◌, ◌++◌, arith, Bool-cases, Option-cases,
  nat_eq, list_eq, drop, select, take-append-drop, All, All-imp, In, In-All, In-append, In-select,
  int_eq, text_compare-flip, eq_of_text_compare, text_lt_trans,
}
use mathlib.Core.List.{append-nil}
use conduit_relay.Nostr.Event.{newer}
use conduit_relay.Nostr.Filter.{Filter, has_search}
use conduit_relay.Store.{
  Row, Tables, where_filter, insert_row, order_rows, filter_sql_limit, select_rows,
}

-- The first row comes strictly before the second.
abbrev pub before : Row → Row → Bool
before a b = newer a.created_at a.id b.created_at b.id

-- No row comes before an earlier one.
abbrev pub Ordered : List Row → Type 0
Ordered [] = Unit {0}
Ordered (r ∷ rs) = All (λ s. before s r ≡ false) rs × Ordered rs

not_before_trans : (s x r : Row) → before s x ≡ false → before x r ≡ false → before s r ≡ false
not_before_trans s x r h k = ground (
  arith,
  text_compare-flip s.id x.id,
  text_compare-flip x.id r.id,
  text_compare-flip s.id r.id,
  text_lt_trans r.id x.id s.id,
  eq_of_text_compare s.id x.id,
  eq_of_text_compare x.id r.id,
)

before_asym : (a b : Row) → before a b ≡ true → before b a ≡ false
before_asym a b h = ground (arith, text_compare-flip a.id b.id)

All-insert_row :
    (P : Row → Type 0) (r : Row) (xs : List Row) → P r → All P xs → All P (insert_row r xs)
unfolding insert_row
All-insert_row P r [] p h = (p, tt)
All-insert_row P r (x ∷ xs) p h = elim (Bool-cases (before x r)) [
  | inl e ↦ rw (e, insert_row) (h.0, All-insert_row P r xs p h.1)
  | inr e ↦ rw (e, insert_row) (p, h)
]

Ordered-insert_row : (r : Row) (xs : List Row) → Ordered xs → Ordered (insert_row r xs)
unfolding insert_row
Ordered-insert_row r [] h = (tt, tt)
Ordered-insert_row r (x ∷ xs) h = elim (Bool-cases (before x r)) [
  | inl e ↦
      rw (e, insert_row)
        (
          All-insert_row (λ s. before s x ≡ false) r xs (before_asym x r e) h.0,
          Ordered-insert_row r xs h.1,
        )
  | inr e ↦ rw (e, insert_row) ((e, All-imp _ _ xs (λ s k. not_before_trans s x r k e) h.0), h)
]

pub Ordered-order_rows : (xs : List Row) → Ordered (order_rows xs)
unfolding order_rows
Ordered-order_rows [] = tt
Ordered-order_rows (x ∷ xs) = Ordered-insert_row x (order_rows xs) (Ordered-order_rows xs)

In-insert_row : (a r : Row) (xs : List Row) → In a (insert_row r xs) ↔ ((a ≡ r) ⊎ In a xs)
unfolding insert_row
In-insert_row a r [] = ground arith
In-insert_row a r (x ∷ xs) = elim (Bool-cases (before x r)) [
  | inl e ↦ rw (e, insert_row) (ground (arith, In-insert_row a r xs))
  | inr e ↦ rw (e, insert_row) (ground arith)
]

pub In-order_rows : (a : Row) (xs : List Row) → In a (order_rows xs) ↔ In a xs
unfolding order_rows
In-order_rows a [] = ground arith
In-order_rows a (x ∷ xs) = ground (arith, In-insert_row a x (order_rows xs), In-order_rows a xs)

Ordered-split :
    (xs ys : List Row) (r s : Row) → Ordered (xs ++ ys) → In r xs → In s ys → before s r ≡ false
Ordered-split [] ys r s h m n = absurd m
Ordered-split (x ∷ xs) ys r s h (inl e) n =
    let all_after =
      In-All (λ z. before z x ≡ false) (xs ++ ys) s h.0 ((In-append s xs ys).1 (inr n)) in
    ground (arith, e, all_after)
Ordered-split (x ∷ xs) ys r s h (inr m) n = Ordered-split xs ys r s h.1 m n

module _ (t : Tables) (f : Filter) (apply_limits : Bool) where
  abbrev matching : List Row
  matching = order_rows (select (where_filter t.tag_rows f) t.rows)

  In-matching : (r : Row) → In r matching ↔ (In r t.rows × (where_filter t.tag_rows f r ≡ true))
  In-matching r = ground (
    arith,
    In-order_rows r (select (where_filter t.tag_rows f) t.rows),
    In-select (where_filter t.tag_rows f) r t.rows,
  )

  -- The result is a first part of the ordered rows, whose length is the limit if there is one.
  select_rows_part :
      has_search f ≡ false → (left : List Row) × (select_rows t f apply_limits ++ left ≡ matching)
  unfolding select_rows
  select_rows_part no_search = elim (Option-cases (filter_sql_limit f apply_limits)) [
    | inl e ↦ ([], rw (no_search, e, select_rows) (append-nil matching))
    | inr (n, e) ↦ (drop n matching, rw (no_search, e, select_rows) (take-append-drop n matching))
  ]

  -- A query without search returns only rows of the table that its conditions hold for; and a row that
  -- they hold for is returned, or it does not come before any row that is returned, in the order newest
  -- first, then lowest id.
  pub select_rows-newest :
      (r s : Row)
      → has_search f ≡ false
      → In r (select_rows t f apply_limits)
      → In s t.rows
      → where_filter t.tag_rows f s ≡ true
      → (In r t.rows × (where_filter t.tag_rows f r ≡ true))
        × (In s (select_rows t f apply_limits) ⊎ (before s r ≡ false))
  select_rows-newest r s no_search m n h =
      let (left, e) = select_rows_part no_search in
      let found = (In-append r (select_rows t f apply_limits) left).1 (inl m) in
      let there = rw (← e) at ((In-matching s).1 (n, h)) in
      (
        (In-matching r).0 (rw e at found),
        elim ((In-append s (select_rows t f apply_limits) left).0 there) [
          | inl k ↦ inl k
          | inr k ↦ inr (
              Ordered-split (select_rows t f apply_limits) left r s
                (rw e (Ordered-order_rows (select (where_filter t.tag_rows f) t.rows))) m k)
        ],
      )
