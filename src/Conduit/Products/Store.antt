-- ===== src/Conduit/Products/Store.antt =====
-- scope2.go: the map of the products by address, and the events that change it.
use conduit_relay.Base.{
  Ordering, Bool, true, not, ◌&&◌, ◌||◌, Option, none, some, List, [], ◌∷◌, if◌then◌else◌, ◌==◌,
  nat_eq, list_eq, select, ℤ, pos, ltb_ℤ, leb_ℤ, int_eq, Text, codes, text_compare,
}
use conduit_relay.Base.Assoc.{lookup, insert}
use conduit_relay.Base.Sorting.{sort}
use conduit_relay.Nostr.Event.{Event, newer}
use conduit_relay.Conduit.{Library}
use conduit_relay.Conduit.Plan.{cut}
use conduit_relay.Conduit.Products.{
  ProductEnvelope, join_address, product_address, build_product_envelope,
}

abbrev pub Products : Type 0
Products = List (Text × ProductEnvelope)

abbrev pub product_kind : ℤ
product_kind = pos 30402

abbrev pub delete_kind : ℤ
delete_kind = pos 5

-- A later event beats an earlier one, and of the same time the one with the lower id.
unfoldable pub event_beats_current : Event → Event → Bool
event_beats_current next current = newer next.created_at next.id current.created_at current.id

abbrev pub tombstone : ProductEnvelope → ProductEnvelope
tombstone pe = record pe { tombstoned = true }

-- The loop over the products of an `e` tag.
unfoldable pub delete_id : Text → Products → Products
delete_id id [] = []
delete_id id ((address, pe) ∷ ps) =
    (address, if pe.event.id == id then tombstone pe else pe) ∷ delete_id id ps

-- An `a` tag: a product of that address that is not newer than the deletion.
unfoldable pub delete_address : Text → ℤ → Products → Products
delete_address address at ps = elim (lookup address ps) [
  | none ↦ ps
  | some pe ↦ if leb_ℤ pe.event.created_at at then insert address (tombstone pe) ps else ps
]

-- `compareSeedEvents`: oldest first, and a product before a deletion of the same time.
unfoldable pub compare_seed_events : Event → Event → Ordering
compare_seed_events a b =
    if ltb_ℤ a.created_at b.created_at
    then Ordering.lt
    else if ltb_ℤ b.created_at a.created_at
    then Ordering.gt
    else if not (a.kind == b.kind) && a.kind == product_kind
    then Ordering.lt
    else if not (a.kind == b.kind) && b.kind == product_kind
    then Ordering.gt
    else text_compare a.id b.id

module _ (lib : Library) where
  unfoldable pub upsert_product : Event → Products → Products
  upsert_product ev ps =
      let pe = build_product_envelope lib ev in
      elim (lookup pe.address ps) [
        | none ↦ insert pe.address pe ps
        | some current ↦
            if event_beats_current pe.event current.event then insert pe.address pe ps else ps
      ]

  -- `SplitN(raw, ":", 3)` is two cuts.
  unfoldable pub canonical_address : Text → Option Text
  canonical_address raw = elim (cut b':' raw) [
    | none ↦ none
    | some (first, rest) ↦ elim (cut b':' rest) [
      | none ↦ none
      | some (second, third) ↦ elim (lib.atoi first) [
        | none ↦ none
        | some kind ↦ elim (lib.pubkey_from_hex second) [
          | none ↦ none
          | some pubkey ↦ some (join_address lib kind pubkey third)
        ]
      ]
    ]
  ]

  unfoldable pub apply_delete_tag : ℤ → List Text → Products → Products
  apply_delete_tag at [] ps = ps
  apply_delete_tag at (n ∷ []) ps = ps
  apply_delete_tag at (n ∷ v ∷ rest) ps =
      if n == codes "e"
      then (elim (lib.id_from_hex v) [ none ↦ ps | some id ↦ delete_id id ps ])
      else if n == codes "a"
      then (elim (canonical_address v) [ none ↦ ps | some address ↦ delete_address address at ps ])
      else ps

  unfoldable pub apply_delete_tags : ℤ → List (List Text) → Products → Products
  apply_delete_tags at [] ps = ps
  apply_delete_tags at (t ∷ tags) ps = apply_delete_tags at tags (apply_delete_tag at t ps)

  -- `applyDeleteEvent`.
  unfoldable pub apply_delete_event : Event → Products → Products
  apply_delete_event ev ps = apply_delete_tags ev.created_at ev.tags ps

  unfoldable pub apply_event : Event → Products → Products
  apply_event ev ps =
      if ev.kind == product_kind
      then upsert_product ev ps
      else if ev.kind == delete_kind
      then apply_delete_event ev ps
      else ps

  unfoldable pub apply_events : List Event → Products → Products
  apply_events [] ps = ps
  apply_events (ev ∷ evs) ps = apply_events evs (apply_event ev ps)

  -- An event that the relay has deleted from its store.
  unfoldable pub apply_deleted_event : Event → Products → Products
  apply_deleted_event ev ps =
      if not (ev.kind == product_kind) then ps else elim (lookup (product_address lib ev) ps) [
        | none ↦ ps
        | some pe ↦
            if not (pe.event.id == ev.id)
            then ps
            else insert (product_address lib ev) (tombstone pe) ps
      ]

  -- `seed` with the events that the store returns for products and deletions.
  unfoldable pub seed : List Event → Products
  seed stored =
      apply_events
        (sort compare_seed_events
          (select (λ (ev : Event). ev.kind == product_kind || ev.kind == delete_kind) stored))
        []
