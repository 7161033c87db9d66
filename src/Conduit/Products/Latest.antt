-- ===== src/Conduit/Products/Latest.antt =====
-- scope2.go: which product is kept under an address.
use conduit_relay.Base.{
  ◌≡◌, refl, sym, ap, ◌∙◌, ◌⊎◌, inl, inr, true, false, none, some, arith, Bool-cases, Option-cases,
  is_some, ◌==◌, nat_eq, list_eq, list_beq_iff, int_eq, Text,
}
use conduit_relay.Base.Assoc.{lookup, insert, lookup-insert}
use conduit_relay.Nostr.Event.{Event}
use conduit_relay.Nostr.Order.{not_newer_trans, newer_asym, newer_irrefl}
use conduit_relay.Conduit.{Library}
use conduit_relay.Conduit.Products.{ProductEnvelope, product_address, build_product_envelope}
use conduit_relay.Conduit.Products.Store.{Products, event_beats_current, upsert_product}

module _ (lib : Library) where
  abbrev address : Event → Text
  address = product_address lib

  -- The products after the events that were seen.
  pub record Best (Seen : Event → Type 0) (ps : Products) : Type 0 where
    pub source :
        (a : Text) (pe : ProductEnvelope)
        → lookup a ps ≡ some pe
        → Seen pe.event × (address pe.event ≡ a) × (pe ≡ build_product_envelope lib pe.event)
    pub unbeaten :
        (a : Text) (pe : ProductEnvelope) (f : Event)
        → lookup a ps ≡ some pe
        → Seen f
        → address f ≡ a
        → event_beats_current f pe.event ≡ false
    pub kept : (f : Event) → Seen f → is_some (lookup (address f) ps) ≡ true

  built : (ev : Event) → (build_product_envelope lib ev).event ≡ ev
  unfolding build_product_envelope
  built ev = refl

  built_address : (ev : Event) → (build_product_envelope lib ev).address ≡ address ev
  unfolding build_product_envelope
  built_address ev = refl

  -- What an upsert leaves under an address.
  pub upsert_cases :
      (ev : Event) (ps : Products)
      → ((upsert_product lib ev ps ≡ insert (address ev) (build_product_envelope lib ev) ps)
          × ((lookup (address ev) ps ≡ none)
              ⊎ ((pe : ProductEnvelope) × (lookup (address ev) ps ≡ some pe)
                  × (event_beats_current ev pe.event ≡ true))))
        ⊎ ((upsert_product lib ev ps ≡ ps)
            × ((pe : ProductEnvelope) × (lookup (address ev) ps ≡ some pe)
                × (event_beats_current ev pe.event ≡ false)))
  unfolding upsert_product
  upsert_cases ev ps = elim (Option-cases (lookup (address ev) ps)) [
    | inl e ↦ inl (ground (arith, e, built ev, built_address ev), inl e)
    | inr (pe, e) ↦ elim (Bool-cases (event_beats_current ev pe.event)) [
      | inl b ↦ inl (ground (arith, e, b, built ev, built_address ev), inr (pe, e, b))
      | inr b ↦ inr (ground (arith, e, b, built ev, built_address ev), (pe, e, b))
    ]
  ]

  beats_trans :
      (e f g : Event)
      → event_beats_current e f ≡ false
      → event_beats_current f g ≡ false
      → event_beats_current e g ≡ false
  unfolding event_beats_current
  beats_trans e f g h k = not_newer_trans e.created_at f.created_at g.created_at e.id f.id g.id h k

  beats_asym : (e f : Event) → event_beats_current e f ≡ true → event_beats_current f e ≡ false
  unfolding event_beats_current
  beats_asym e f h = newer_asym e.created_at f.created_at e.id f.id h

  beats_irrefl : (e : Event) → event_beats_current e e ≡ false
  unfolding event_beats_current
  beats_irrefl e = newer_irrefl e.created_at e.id

  abbrev Also : Event → (Event → Type 0) → Event → Type 0
  Also ev Seen f = (f ≡ ev) ⊎ Seen f

  -- An event that is inserted beats all that were seen at its address.
  beats_seen :
      (Seen : Event → Type 0) (ps : Products) (ev f : Event)
      → Best Seen ps
      → (lookup (address ev) ps ≡ none)
        ⊎ ((pe : ProductEnvelope) × (lookup (address ev) ps ≡ some pe)
            × (event_beats_current ev pe.event ≡ true))
      → Seen f
      → address f ≡ address ev
      → event_beats_current f ev ≡ false
  beats_seen Seen ps ev f b (inl e) s same = let here = b.kept f s in ground (arith, here, e, same)
  beats_seen Seen ps ev f b (inr (pe, e, beats)) s same =
      beats_trans f pe.event ev (b.unbeaten (address ev) pe f e s same)
        (beats_asym ev pe.event beats)

  inserted-Best :
      (Seen : Event → Type 0) (ps : Products) (ev : Event)
      → Best Seen ps
      → ((f : Event) → Seen f → address f ≡ address ev → event_beats_current f ev ≡ false)
      → Best (Also ev Seen) (insert (address ev) (build_product_envelope lib ev) ps)
  inserted-Best Seen ps ev b wins = record {
    source = λ a pe h. elim (Bool-cases (address ev == a)) [
      | inl e ↦
          let same = found a pe h e in
          (
            rw (← same) (inl (built ev)),
            rw (← same) (ap address (built ev) ∙ (list_beq_iff (address ev) a).0 e),
            rw (← same) (ap (build_product_envelope lib) (sym (built ev))),
          )
      | inr e ↦ let (s, at, made) = b.source a pe (other a pe h e) in (inr s, at, made)
    ];
    unbeaten = λ a pe f h s at. elim (Bool-cases (address ev == a)) [
      | inl e ↦
          let same = found a pe h e in
          let here = (list_beq_iff (address ev) a).0 e in
          rw (← same, built ev)
            (elim s [ inl new ↦ rw new (beats_irrefl ev) | inr old ↦ wins f old (at ∙ sym here) ])
      | inr e ↦ elim s [
        | inl new ↦ ground (arith, e, new, at, list_beq_iff (address ev) a)
        | inr old ↦ b.unbeaten a pe f (other a pe h e) old at
      ]
    ];
    kept = λ f s. elim s [
      | inl new ↦ ground (
        arith,
        new,
        lookup-insert (address ev) (address f) (build_product_envelope lib ev) ps,
        list_beq_iff (address ev) (address f),
      )
      | inr old ↦
          let before = b.kept f old in
          ground (
            arith,
            before,
            lookup-insert (address ev) (address f) (build_product_envelope lib ev) ps,
          )
    ];
  }
    where
      found :
          (a : Text) (pe : ProductEnvelope)
          → lookup a (insert (address ev) (build_product_envelope lib ev) ps) ≡ some pe
          → (address ev == a) ≡ true
          → build_product_envelope lib ev ≡ pe
      found a pe h e =
          ground (arith, h, e, lookup-insert (address ev) a (build_product_envelope lib ev) ps)

      other :
          (a : Text) (pe : ProductEnvelope)
          → lookup a (insert (address ev) (build_product_envelope lib ev) ps) ≡ some pe
          → (address ev == a) ≡ false
          → lookup a ps ≡ some pe
      other a pe h e =
          ground (arith, h, e, lookup-insert (address ev) a (build_product_envelope lib ev) ps)

  kept-Best :
      (Seen : Event → Type 0) (ps : Products) (ev : Event) (cur : ProductEnvelope)
      → Best Seen ps
      → lookup (address ev) ps ≡ some cur
      → event_beats_current ev cur.event ≡ false
      → Best (Also ev Seen) ps
  kept-Best Seen ps ev cur b e loses = record {
    source = λ a pe h. let (s, at, made) = b.source a pe h in (inr s, at, made);
    unbeaten = λ a pe f h s at. elim s [
      | inl new ↦ let same : cur ≡ pe = ground (arith, e, h, new, at) in rw (new, ← same) loses
      | inr old ↦ b.unbeaten a pe f h old at
    ];
    kept = λ f s. elim s [ inl new ↦ ground (arith, new, e) | inr old ↦ b.kept f old ];
  }

  pub upsert-Best :
      (Seen : Event → Type 0) (ps : Products) (ev : Event)
      → Best Seen ps
      → Best (Also ev Seen) (upsert_product lib ev ps)
  upsert-Best Seen ps ev b = elim (upsert_cases ev ps) [
    | inl (e, why) ↦
        rw e (inserted-Best Seen ps ev b (λ f s same. beats_seen Seen ps ev f b why s same))
    | inr (e, (cur, k, loses)) ↦ rw e (kept-Best Seen ps ev cur b k loses)
  ]
