-- ===== src/Conduit/Products/Answers.antt =====
-- scope2.go: the answers of relays that received the same product events.
use conduit_relay.Base.{
  ◌≡◌, sym, ap, ◌∙◌, ◌↔◌, inl, inr, true, false, some, List, [], ◌∷◌, arith, ◌==◌, nat_eq, ==_refl,
  ==_ne, list_eq, All, In, All-In, In-All, beq_ℤ_iff, int_eq, Text,
}
use conduit_relay.Base.Assoc.{lookup}
use conduit_relay.Base.Maps.{Unique, Unique-insert, absent, In-lookup, lookup-In}
use conduit_relay.Nostr.Event.{Event}
use conduit_relay.Conduit.{Query, Library}
use conduit_relay.Conduit.Options.{Scope2Options}
use conduit_relay.Conduit.Plan.{SearchPlan}
use conduit_relay.Conduit.Products.{ProductEnvelope, product_address, build_product_envelope}
use conduit_relay.Conduit.Products.Store.{
  Products, product_kind, upsert_product, apply_event, apply_events,
}
use conduit_relay.Conduit.Products.Latest.{upsert_cases}
use conduit_relay.Conduit.Products.Agree.{Received, events-Best, apply_events_agree}
use conduit_relay.Conduit.Products.Compare.{Ordinary}
use conduit_relay.Conduit.Products.Evaluate.{envelopes, evaluate}
use conduit_relay.Conduit.Products.Sorted.{Distinct, Sortable, evaluate-Same}

module _ (lib : Library) where
  upsert-Unique : (ev : Event) (ps : Products) → Unique ps → Unique (upsert_product lib ev ps)
  upsert-Unique ev ps u = elim (upsert_cases lib ev ps) [
    | inl (e, _) ↦
        rw e (Unique-insert (product_address lib ev) (build_product_envelope lib ev) ps u)
    | inr (e, _) ↦ rw e u
  ]

  apply_events-Unique :
      (evs : List Event) (ps : Products)
      → All (λ (ev : Event). ev.kind ≡ product_kind) evs
      → Unique ps
      → Unique (apply_events lib evs ps)
  unfolding apply_events apply_event
  apply_events-Unique [] ps k u = u
  apply_events-Unique (ev ∷ evs) ps k u =
      let step : apply_event lib ev ps ≡ upsert_product lib ev ps =
        ground (arith, k.0, beq_ℤ_iff ev.kind product_kind) in
      rw step (apply_events-Unique evs (upsert_product lib ev ps) k.1 (upsert-Unique ev ps u))

  -- An entry stands under its product's address, and the product's event was received.
  abbrev Entry : List Event → Text × ProductEnvelope → Type 0
  Entry evs kv = (product_address lib kv.1.event ≡ kv.0) × In kv.1.event evs

  abbrev OneEvent : List Event → Type 0
  OneEvent evs = (e f : Event) → In e evs → In f evs → e.id ≡ f.id → e ≡ f

  entries-Distinct :
      (evs : List Event) (ps : Products)
      → OneEvent evs
      → All (Entry evs) ps
      → Unique ps
      → Distinct (envelopes ps)
  entries-Distinct evs [] one h u = tt
  entries-Distinct evs ((k, x) ∷ ps) one h u =
      (apart k x ps h.0 h.1 u.0, entries-Distinct evs ps one h.1 u.1)
    where
      apart :
          (k : Text) (x : ProductEnvelope) (ps : Products)
          → Entry evs (k, x)
          → All (Entry evs) ps
          → absent k ps ≡ true
          → All (λ (y : ProductEnvelope). (x.event.id == y.event.id) ≡ false) (envelopes ps)
      apart k x [] e h n = tt
      apart k x ((j, y) ∷ ps) e h n = (
        ==_ne x.event.id y.event.id (λ same.
            let f = one x.event y.event e.1 h.0.1 same in
            let g : k ≡ j = sym e.0 ∙ ap (product_address lib) f ∙ h.0.0 in
            ground (arith, n, g, ==_refl j)),
        apart k x ps e h.1 (ground (arith, n)),
      )

  In-envelopes :
      (pe : ProductEnvelope) (ps : Products) → In pe (envelopes ps) ↔ ((a : Text) × In (a, pe) ps)
  In-envelopes pe [] = (λ m. absurd m, λ h. absurd h.1)
  In-envelopes pe ((k, x) ∷ ps) = (
    λ m. elim m [
      | inl e ↦ (k, inl (ap (λ (y : ProductEnvelope). (k, y)) e))
      | inr n ↦ let (a, i) = (In-envelopes pe ps).0 n in (a, inr i)
    ],
    λ (a, m). elim m [
      | inl e ↦ inl (ap (λ (kv : Text × ProductEnvelope). kv.1) e)
      | inr n ↦ inr ((In-envelopes pe ps).1 (a, n))
    ],
  )

  module _ (evs : List Event) (k : All (λ (ev : Event). ev.kind ≡ product_kind) evs)
      (one : OneEvent evs)
      (numbers : All (λ (ev : Event). Ordinary (build_product_envelope lib ev)) evs) where
    abbrev kept : Products
    kept = apply_events lib evs []

    kept-Unique : Unique (apply_events lib evs [])
    kept-Unique = apply_events-Unique evs [] k tt

    stored_product :
        (a : Text) (pe : ProductEnvelope)
        → lookup a (apply_events lib evs []) ≡ some pe
        → Entry evs (a, pe) × Ordinary pe
    stored_product a pe e =
        let (s, at, made) = (events-Best lib evs k).source a pe e in
        let m = plain pe.event s in
        (
          (at, m),
          rw made (
              In-All (λ (ev : Event). Ordinary (build_product_envelope lib ev)) evs pe.event numbers
                m),
        )
      where
        plain : (e : Event) → Received lib evs e → In e evs
        plain e (inl m) = m
        plain e (inr o) = absurd o

    kept-Sortable : Sortable (envelopes (apply_events lib evs []))
    kept-Sortable = (
      All-In Ordinary (envelopes kept) (λ pe m.
          let (a, i) = (In-envelopes pe kept).0 m in
          (stored_product a pe (In-lookup a pe kept kept-Unique i)).1),
      entries-Distinct evs kept one
          (All-In (Entry evs) kept
            (λ kv m. (stored_product kv.0 kv.1 (In-lookup kv.0 kv.1 kept kept-Unique m)).0))
          kept-Unique,
    )

-- If two lists hold the same product events, in any order and any number of times, an id belongs to one
-- event, and no price is NaN, then a relay that received one list and a relay that received the other give
-- the same answer to every product query.
pub answers_agree :
    (lib : Library) (evs fs : List Event) (q : Query) (plan : SearchPlan) (opts : Scope2Options)
    → All (λ (ev : Event). ev.kind ≡ product_kind) evs
    → All (λ (ev : Event). ev.kind ≡ product_kind) fs
    → All (λ (ev : Event). Ordinary (build_product_envelope lib ev)) evs
    → All (λ (ev : Event). Ordinary (build_product_envelope lib ev)) fs
    → ((e : Event) → In e evs ↔ In e fs)
    → ((e f : Event) → In e evs → In f evs → e.id ≡ f.id → e ≡ f)
    → evaluate lib q plan opts (apply_events lib evs [])
      ≡ evaluate lib q plan opts (apply_events lib fs [])
answers_agree lib evs fs q plan opts k l m n same one =
    evaluate-Same lib q plan opts (apply_events lib evs []) (apply_events lib fs [])
      (kept-Sortable lib evs k one m) (kept-Sortable lib fs l other n)
      (λ pe. (
        λ i. moved evs fs k l same one pe i,
        λ i. moved fs evs l k (λ e. ((same e).1, (same e).0)) other pe i,
      ))
  where
    other : (e f : Event) → In e fs → In f fs → e.id ≡ f.id → e ≡ f
    other e f i j h = one e f ((same e).1 i) ((same f).1 j) h

    moved :
        (evs fs : List Event)
        → All (λ (ev : Event). ev.kind ≡ product_kind) evs
        → All (λ (ev : Event). ev.kind ≡ product_kind) fs
        → ((e : Event) → In e evs ↔ In e fs)
        → ((e f : Event) → In e evs → In f evs → e.id ≡ f.id → e ≡ f)
        → (pe : ProductEnvelope) → In pe (envelopes (apply_events lib evs []))
        → In pe (envelopes (apply_events lib fs []))
    moved evs fs k l same one pe i =
        let (a, there) = (In-envelopes lib pe (apply_events lib evs [])).0 i in
        let here =
          In-lookup a pe (apply_events lib evs []) (apply_events-Unique lib evs [] k tt) there in
        let agree = apply_events_agree lib evs fs a k l same one in
        (In-envelopes lib pe (apply_events lib fs [])).1
          (a, lookup-In a pe (apply_events lib fs []) (sym agree ∙ here))
