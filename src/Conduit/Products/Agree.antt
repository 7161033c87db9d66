-- ===== src/Conduit/Products/Agree.antt =====
-- scope2.go: the products kept by relays that received the same product events.
use conduit_relay.Base.{
  ◌≡◌, sym, ap, ◌∙◌, ◌↔◌, ◌⊎◌, inl, inr, false, some, List, [], ◌∷◌, arith, Option-cases, nat_eq,
  list_eq, All, In, beq_ℤ_iff, int_eq, Text,
}
use conduit_relay.Base.Assoc.{lookup}
use conduit_relay.Nostr.Event.{Event}
use conduit_relay.Nostr.Order.{not_newer_id}
use conduit_relay.Conduit.{Library}
use conduit_relay.Conduit.Products.{build_product_envelope}
use conduit_relay.Conduit.Products.Store.{
  Products, product_kind, event_beats_current, upsert_product, apply_event, apply_events,
}
use conduit_relay.Conduit.Products.Latest.{Best, upsert-Best}

unbeaten_id :
    (e f : Event) → event_beats_current e f ≡ false → event_beats_current f e ≡ false → e.id ≡ f.id
unfolding event_beats_current
unbeaten_id e f h k = not_newer_id e.created_at f.created_at e.id f.id h k

module _ (lib : Library) where
  -- The events that are still to come are seen in the end.
  apply_events-Best :
      (Seen : Event → Type 0) (evs : List Event) (ps : Products)
      → All (λ (ev : Event). ev.kind ≡ product_kind) evs
      → Best lib Seen ps
      → Best lib (λ f. In f evs ⊎ Seen f) (apply_events lib evs ps)
  unfolding apply_events apply_event
  apply_events-Best Seen [] ps k b = record {
    source = λ a pe h. let (s, at, made) = b.source a pe h in (inr s, at, made);
    unbeaten = λ a pe f h s at. elim s [ inl m ↦ absurd m | inr o ↦ b.unbeaten a pe f h o at ];
    kept = λ f s. elim s [ inl m ↦ absurd m | inr o ↦ b.kept f o ];
  }
  apply_events-Best Seen (ev ∷ evs) ps k b =
      let step : apply_event lib ev ps ≡ upsert_product lib ev ps =
        ground (arith, k.0, beq_ℤ_iff ev.kind product_kind) in
      let rest =
        apply_events-Best (λ f. (f ≡ ev) ⊎ Seen f) evs (upsert_product lib ev ps) k.1
          (upsert-Best lib Seen ps ev b) in
      rw step (record {
        source = λ a pe h.
            let (s, at, made) = rest.source a pe h in
            (
              elim s [
                | inl m ↦ inl (inr m)
                | inr o ↦ elim o [ inl e ↦ inl (inl e) | inr p ↦ inr p ]
              ],
              at,
              made,
            );
        unbeaten = λ a pe f h s at. rest.unbeaten a pe f h (later f s) at;
        kept = λ f s. rest.kept f (later f s);
      })
    where
      later : (f : Event) → In f (ev ∷ evs) ⊎ Seen f → In f evs ⊎ ((f ≡ ev) ⊎ Seen f)
      later f (inl (inl e)) = inr (inl e)
      later f (inl (inr m)) = inl m
      later f (inr o) = inr (inr o)

  no_products : Best lib (λ f. ⊥) []
  unfolding lookup
  no_products = record {
    source = λ a pe h. cc;
    unbeaten = λ a pe f h s at. absurd s;
    kept = λ f s. absurd s;
  }

  abbrev pub Received : List Event → Event → Type 0
  Received evs f = In f evs ⊎ ⊥

  pub events-Best :
      (evs : List Event)
      → All (λ (ev : Event). ev.kind ≡ product_kind) evs
      → Best lib (Received evs) (apply_events lib evs [])
  events-Best evs k = apply_events-Best (λ f. ⊥) evs [] k no_products

  -- If two lists hold the same product events, in any order and any number of times, and an id belongs
  -- to one event, then after either list the same product is kept under every address.
  pub apply_events_agree :
      (evs fs : List Event) (a : Text)
      → All (λ (ev : Event). ev.kind ≡ product_kind) evs
      → All (λ (ev : Event). ev.kind ≡ product_kind) fs
      → ((e : Event) → In e evs ↔ In e fs)
      → ((e f : Event) → In e evs → In f evs → e.id ≡ f.id → e ≡ f)
      → lookup a (apply_events lib evs []) ≡ lookup a (apply_events lib fs [])
  apply_events_agree evs fs a k l same one =
      elim (Option-cases (lookup a (apply_events lib evs []))) [
        | inl e ↦ elim (Option-cases (lookup a (apply_events lib fs []))) [
          | inl f ↦ e ∙ sym f
          | inr (q, f) ↦
              let (s, at, _) = right.source a q f in
              let there = left.kept q.event (to_left q.event s) in ground (arith, e, at, there)
        ]
        | inr (p, e) ↦ elim (Option-cases (lookup a (apply_events lib fs []))) [
          | inl f ↦
              let (s, at, _) = left.source a p e in
              let there = right.kept p.event (to_right p.event s) in ground (arith, f, at, there)
          | inr (q, f) ↦
              let (s, at, made) = left.source a p e in
              let (t, bt, nade) = right.source a q f in
              let first = left.unbeaten a p q.event e (to_left q.event t) bt in
              let second = right.unbeaten a q p.event f (to_right p.event s) at in
              let event_same =
                one p.event q.event (plain p.event s) (plain q.event (to_left q.event t))
                  (unbeaten_id p.event q.event second first) in
              e ∙ ap some (made ∙ ap (build_product_envelope lib) event_same ∙ sym nade) ∙ sym f
        ]
      ]
    where
      left : Best lib (Received evs) (apply_events lib evs [])
      left = events-Best evs k

      right : Best lib (Received fs) (apply_events lib fs [])
      right = events-Best fs l

      to_left : (e : Event) → Received fs e → Received evs e
      to_left e (inl m) = inl ((same e).1 m)
      to_left e (inr o) = absurd o

      to_right : (e : Event) → Received evs e → Received fs e
      to_right e (inl m) = inl ((same e).0 m)
      to_right e (inr o) = absurd o

      plain : (e : Event) → Received evs e → In e evs
      plain e (inl m) = m
      plain e (inr o) = absurd o
