-- ===== src/Conduit/Products/Deleted.antt =====
-- scope2.go: what a deletion event hides from the product queries.
use conduit_relay.Base.{
  ◌≡◌, refl, subst, inl, inr, Bool, true, false, not, ◌||◌, some, List, [], ◌∷◌, arith,
  if◌then◌else◌, Bool-cases, Option-cases, ◌==◌, nat_eq, list_eq, list_beq, In, In-select, ℤ, leb_ℤ,
  int_eq, Text, codes, trim_space,
}
use conduit_relay.Base.Assoc.{lookup}
use conduit_relay.Base.Maps.{Values, Values-insert}
use conduit_relay.Nostr.Event.{Event}
use conduit_relay.Conduit.{Query, Library}
use conduit_relay.Conduit.Products.{ProductEnvelope}
use conduit_relay.Conduit.Products.Store.{
  Products, delete_kind, tombstone, delete_id, delete_address, canonical_address, apply_delete_tag,
  apply_delete_tags, apply_delete_event, apply_event,
}
use conduit_relay.Conduit.Products.Evaluate.{wanted, match_products, envelopes}

-- A product of that id is tombstoned.
abbrev hidden : Text → ProductEnvelope → Bool
hidden id pe = not (pe.event.id == id) || pe.tombstoned

abbrev Hidden : Text → Products → Type 0
Hidden id ps = Values (λ (pe : ProductEnvelope). hidden id pe ≡ true) ps

hidden-tombstone : (id : Text) (pe : ProductEnvelope) → hidden id (tombstone pe) ≡ true
hidden-tombstone id pe = ground arith

delete_id-Hidden : (id : Text) (ps : Products) → Hidden id (delete_id id ps)
unfolding delete_id
delete_id-Hidden id [] = tt
delete_id-Hidden id ((a, pe) ∷ ps) = (now id pe, delete_id-Hidden id ps)
  where
    now :
        (id : Text) (pe : ProductEnvelope)
        → hidden id (if pe.event.id == id then tombstone pe else pe) ≡ true
    now id pe = elim (Bool-cases (pe.event.id == id)) [
      | inl e ↦ rw (e, e) refl
      | inr e ↦ rw (e, e) refl
    ]

delete_id-kept : (id other : Text) (ps : Products) → Hidden id ps → Hidden id (delete_id other ps)
unfolding delete_id
delete_id-kept id other [] h = tt
delete_id-kept id other ((a, pe) ∷ ps) h = (now id other pe h.0, delete_id-kept id other ps h.1)
  where
    now :
        (id other : Text) (pe : ProductEnvelope)
        → hidden id pe ≡ true
        → hidden id (if pe.event.id == other then tombstone pe else pe) ≡ true
    now id other pe h = elim (Bool-cases (pe.event.id == other)) [
      | inl e ↦ rw e (hidden-tombstone id pe)
      | inr e ↦ rw e h
    ]

delete_address-kept :
    (id address : Text) (at : ℤ) (ps : Products)
    → Hidden id ps
    → Hidden id (delete_address address at ps)
unfolding delete_address
delete_address-kept id address at ps h = elim (Option-cases (lookup address ps)) [
  | inl e ↦ rw (e, delete_address) h
  | inr (pe, e) ↦ elim (Bool-cases (leb_ℤ pe.event.created_at at)) [
    | inl f ↦
        rw (e, f, delete_address)
          (Values-insert (λ (pe : ProductEnvelope). hidden id pe ≡ true) address (tombstone pe) ps
            (hidden-tombstone id pe) h)
    | inr f ↦ rw (e, f, delete_address) h
  ]
]

module _ (lib : Library) where
  apply_delete_tag-kept :
      (id : Text) (at : ℤ) (tag : List Text) (ps : Products)
      → Hidden id ps
      → Hidden id (apply_delete_tag lib at tag ps)
  unfolding apply_delete_tag
  apply_delete_tag-kept id at [] ps h = h
  apply_delete_tag-kept id at (n ∷ []) ps h = h
  apply_delete_tag-kept id at (n ∷ v ∷ rest) ps h = elim (Bool-cases (n == codes "e")) [
    | inl e ↦ elim (Option-cases (lib.id_from_hex v)) [
      | inl f ↦ rw (e, f) h
      | inr (i, f) ↦ rw (e, f) (delete_id-kept id i ps h)
    ]
    | inr e ↦ elim (Bool-cases (n == codes "a")) [
      | inl f ↦ elim (Option-cases (canonical_address lib v)) [
        | inl g ↦ rw (e, f, g) h
        | inr (a, g) ↦ rw (e, f, g) (delete_address-kept id a at ps h)
      ]
      | inr f ↦ rw (e, f) h
    ]
  ]

  apply_delete_tags-kept :
      (id : Text) (at : ℤ) (tags : List (List Text)) (ps : Products)
      → Hidden id ps
      → Hidden id (apply_delete_tags lib at tags ps)
  unfolding apply_delete_tags
  apply_delete_tags-kept id at [] ps h = h
  apply_delete_tags-kept id at (t ∷ tags) ps h =
      apply_delete_tags-kept id at tags (apply_delete_tag lib at t ps)
        (apply_delete_tag-kept id at t ps h)

  apply_delete_tags-Hidden :
      (id raw : Text) (rest : List Text) (at : ℤ) (tags : List (List Text)) (ps : Products)
      → lib.id_from_hex raw ≡ some id
      → In (codes "e" ∷ raw ∷ rest) tags
      → Hidden id (apply_delete_tags lib at tags ps)
  unfolding apply_delete_tags apply_delete_tag list_beq delete_id
  apply_delete_tags-Hidden id raw rest at [] ps e m = absurd m
  apply_delete_tags-Hidden id raw rest at (t ∷ tags) ps e (inl same) =
      apply_delete_tags-kept id at tags (apply_delete_tag lib at t ps)
        (rw (← same, e) (delete_id-Hidden id ps))
  apply_delete_tags-Hidden id raw rest at (t ∷ tags) ps e (inr m) =
      apply_delete_tags-Hidden id raw rest at tags (apply_delete_tag lib at t ps) e m

  wanted-Hidden :
      (id needle : Text) (q : Query) (pe : ProductEnvelope) (ps : Products)
      → Hidden id ps
      → In pe (envelopes ps)
      → wanted lib q needle pe ≡ true
      → (pe.event.id == id) ≡ false
  wanted-Hidden id needle q pe [] h m w = absurd m
  wanted-Hidden id needle q pe (kv ∷ ps) h (inl e) w =
      let shown : pe.tombstoned ≡ false = ground (arith, w) in
      let now : hidden id pe ≡ true = rw e h.0 in ground (arith, shown, now)
  wanted-Hidden id needle q pe (kv ∷ ps) h (inr m) w = wanted-Hidden id needle q pe ps h.1 m w

  -- After a deletion event with an `e` tag for an id, whoever signed the deletion, no product query
  -- matches a product of that id.
  pub deleted_product_hidden :
      (ev : Event) (id raw search : Text) (rest : List Text) (q : Query) (pe : ProductEnvelope)
      (ps : Products)
      → ev.kind ≡ delete_kind
      → In (codes "e" ∷ raw ∷ rest) ev.tags
      → lib.id_from_hex raw ≡ some id
      → In pe (match_products lib q search (envelopes (apply_event lib ev ps)))
      → (pe.event.id == id) ≡ false
  unfolding match_products apply_event apply_delete_event
  deleted_product_hidden ev id raw search rest q pe ps kind tag e m =
      let needle = lib.to_lower (trim_space search) in
      let (there, w) =
        (In-select (wanted lib q needle) pe (envelopes (apply_event lib ev ps))).0 m in
      let step : apply_event lib ev ps ≡ apply_delete_tags lib ev.created_at ev.tags ps =
        rw kind refl in
      wanted-Hidden id needle q pe (apply_delete_tags lib ev.created_at ev.tags ps)
        (apply_delete_tags-Hidden id raw rest ev.created_at ev.tags ps e tag)
        (subst (λ (rs : Products). In pe (envelopes rs)) step there) w
