-- ===== src/Conduit/GiftWrap/Delivery.antt =====
-- giftwrap.go: the connections that a gift wrap is delivered to.
use conduit_relay.Base.{
  ℕ, ◌≡◌, refl, sym, ap, ◌∙◌, ◌⊎◌, inl, inr, Bool, true, false, not, ◌&&◌, Option, none, some, List,
  [], ◌∷◌, arith, if◌then◌else◌, Bool-cases, Option-cases, ◌==◌, nat_eq, ==_iff, list_eq, list_beq,
  list_beq_iff, In, In-select, int_eq, Text, codes,
}
use conduit_relay.Base.Assoc.{lookup}
use conduit_relay.Nostr.Event.{Event}
use conduit_relay.Conduit.{Query, Library}
use conduit_relay.Conduit.Plan.{requests_protected_gift_wraps}
use conduit_relay.Conduit.Products.Evaluate.{Decision, accept, reject, crash}
use conduit_relay.Conduit.GiftWrap.{
  gift_wrap_kind, registry_current, sole_recipient, authorize_recipients, wildcard_read_reason,
  negentropy_reason, parse_canonical_pub_key, authorize_filter, may_deliver, enforced_request,
  enforced_query, enforced_prevent_broadcast,
}
use conduit_relay.Conduit.GiftWrap.Registry.{
  Action, registry_after, open_after, proved_key, identity_of, registry_current-history,
}

module _ (lib : Library) where
  -- The query asks for the gift wraps of one key and for nothing else.
  abbrev pub AsksFor : Text → Query → Type 0
  AsksFor key q =
      (q.kinds ≡ gift_wrap_kind ∷ [])
      × ((raw : Text) × (lookup (codes "p") q.tags ≡ some (raw ∷ []))
          × (parse_canonical_pub_key lib raw ≡ some key))

  abbrev Refused : Text × Text → Type 0
  Refused answer = list_beq answer.1 [] ≡ false

  recipients_cases :
      (recipients : List Text) (identity : Text)
      → Refused (authorize_recipients lib recipients identity)
        ⊎ ((raw : Text) × (recipients ≡ raw ∷ [])
            × (parse_canonical_pub_key lib raw ≡ some identity)
            × (authorize_recipients lib recipients identity ≡ (identity, [])))
  unfolding authorize_recipients list_beq
  recipients_cases [] identity = inl refl
  recipients_cases (p ∷ r ∷ rest) identity = inl refl
  recipients_cases (p ∷ []) identity = elim (Option-cases (parse_canonical_pub_key lib p)) [
    | inl e ↦ inl (rw (e, authorize_recipients) refl)
    | inr (key, e) ↦ elim (Bool-cases (key == identity)) [
      | inl f ↦
          let same = (==_iff key identity).0 f in
          inr (p, refl, e ∙ ap some same, rw (e, f, authorize_recipients) (ap (λ k. (k, [])) same))
      | inr f ↦ inl (rw (e, f, authorize_recipients) refl)
    ]
  ]

  authorize_cases :
      (q : Query) (identity : Text) (authed : Bool)
      → Refused (authorize_filter lib q identity authed)
        ⊎ ((authed ≡ true)
            × AsksFor identity q
            × (authorize_filter lib q identity authed ≡ (identity, [])))
  unfolding authorize_filter list_beq authorize_recipients
  authorize_cases q identity false = inl refl
  authorize_cases q identity true = elim (Bool-cases (list_beq q.kinds (gift_wrap_kind ∷ []))) [
    | inr e ↦ inl (rw e refl)
    | inl e ↦
        let kinds = (list_beq_iff q.kinds (gift_wrap_kind ∷ [])).0 e in
        elim (Option-cases (lookup (codes "p") q.tags)) [
          | inl f ↦ inl (rw (e, f, authorize_recipients) refl)
          | inr (recipients, f) ↦ elim (recipients_cases recipients identity) [
            | inl r ↦ inl (rw (e, f) r)
            | inr (raw, one, parsed, answer) ↦
                inr (refl, (kinds, (raw, f ∙ ap some one, parsed)), rw (e, f) answer)
          ]
        ]
  ]

  -- A connection whose identity is `current` may read gift wraps of `key`.
  abbrev Reader : Text × Bool → Text → Query → Event → Type 0
  Reader current key q ev =
      (current ≡ (key, true)) × AsksFor key q × (sole_recipient lib ev ≡ some key)

  may_deliver-Reader :
      (q : Query) (identity : Text) (authed : Bool) (ev : Event)
      → may_deliver lib q identity authed ev ≡ true
      → Reader (identity, authed) identity q ev
  unfolding may_deliver
  may_deliver-Reader q identity authed ev h = elim (authorize_cases q identity authed) [
    | inl r ↦ absurd (ground (arith, h, r))
    | inr (a, asks, answer) ↦ elim (Option-cases (sole_recipient lib ev)) [
      | inl e ↦ absurd (ground (arith, h, e))
      | inr (key, e) ↦
          let same : key ≡ identity = ground (arith, h, answer, e, ==_iff key identity) in
          (ap (λ b. (identity, b)) a, asks, e ∙ ap some same)
    ]
  ]

  -- The connection is open and has last proved the key that is the one recipient of the event and the one
  -- that the query asks for.
  abbrev pub Addressed : Option ℕ → List Action → Query → Event → Type 0
  Addressed ws history q ev =
      (w : ℕ) × (key : Text) × (ws ≡ some w)
      × (open_after w history ≡ true)
      × (proved_key w history ≡ some key)
      × AsksFor key q
      × (sole_recipient lib ev ≡ some key)

  proved_identity :
      (live : Bool) (proof : Option Text) (key : Text)
      → identity_of (if live then proof else none) ≡ (key, true)
      → (live ≡ true) × (proof ≡ some key)
  proved_identity true (some k) key e = (refl, ap some (ap (λ (x : Text × Bool). x.0) e))
  proved_identity true none key e =
      let f : false ≡ true = ap (λ (x : Text × Bool). x.1) e in absurd (ground (arith, f))
  proved_identity false proof key e =
      let f : false ≡ true = ap (λ (x : Text × Bool). x.1) e in absurd (ground (arith, f))

  authed_connection :
      (ws : Option ℕ) (history : List Action)
      → (registry_current ws (registry_after history)).1 ≡ true
      → (w : ℕ) × (ws ≡ some w)
        × (open_after w history ≡ true)
        × (proved_key w history ≡ some (registry_current ws (registry_after history)).0)
  unfolding registry_current
  authed_connection none history h = absurd (ground (arith, h))
  authed_connection (some w) history h =
      let current = registry_current (some w) (registry_after history) in
      let (live, proof) =
        proved_identity (open_after w history) (proved_key w history) current.0
          (sym (registry_current-history w history) ∙ ap (λ b. (current.0, b)) h) in
      (w, refl, live, proof)

  Reader-Addressed :
      (ws : Option ℕ) (history : List Action) (q : Query) (ev : Event)
      → may_deliver lib q
          (registry_current ws (registry_after history)).0
          (registry_current ws (registry_after history)).1
          ev
        ≡ true
      → Addressed ws history q ev
  Reader-Addressed ws history q ev h =
      let current = registry_current ws (registry_after history) in
      let (same, asks, sole) = may_deliver-Reader q current.0 current.1 ev h in
      let (w, here, live, proof) =
        authed_connection ws history (ap (λ (x : Text × Bool). x.1) same) in
      (w, current.0, here, live, proof, asks, sole)

  -- Of a stored query that is not internal, a gift wrap is returned only to an open connection that, after
  -- the relay's history of openings, authentications and closings, has last proved the key of the event's one recipient,
  -- and only to a query that asks for gift wraps of that key alone.
  pub enforced_query-Addressed :
      (prev : Query → List Event) (ws : Option ℕ) (history : List Action) (q : Query) (ev : Event)
      → In ev (enforced_query lib prev ws false (registry_after history) q)
      → ev.kind ≡ gift_wrap_kind
      → Addressed ws history q ev
  unfolding enforced_query
  enforced_query-Addressed prev ws history q ev m kind =
      let current = registry_current ws (registry_after history) in
      let (_, w) =
        (In-select
            (λ (e : Event).
              lib.filter_matches q e
              && not (e.kind == gift_wrap_kind && not (may_deliver lib q current.0 current.1 e)))
            ev (prev q)).0
          m in
      Reader-Addressed ws history q ev (ground (arith, w, (==_iff ev.kind gift_wrap_kind).1 kind))

  -- A gift wrap is broadcast to a connection only under the same conditions, for the filter of the
  -- subscription.
  pub enforced_prevent_broadcast-Addressed :
      (prev : Option (Option ℕ → Query → Event → Bool)) (ws : Option ℕ) (history : List Action)
      (q : Query) (ev : Event)
      → enforced_prevent_broadcast lib prev ws (registry_after history) q ev ≡ false
      → ev.kind ≡ gift_wrap_kind
      → Addressed ws history q ev
  unfolding enforced_prevent_broadcast
  enforced_prevent_broadcast-Addressed none ws history q ev h kind =
      Reader-Addressed ws history q ev (ground (arith, h, (==_iff ev.kind gift_wrap_kind).1 kind))
  enforced_prevent_broadcast-Addressed (some f) ws history q ev h kind =
      Reader-Addressed ws history q ev (ground (arith, h, (==_iff ev.kind gift_wrap_kind).1 kind))

  -- The tests of a request, on their results.
  request_tests :
      (before : Decision) (wild protected negentropy : Bool) (reason : Text)
      → elim before [
        | reject msg ↦ reject msg
        | crash ↦ crash
        | accept ↦
            if wild
            then reject wildcard_read_reason
            else if protected
            then (if negentropy
                then reject negentropy_reason
                else if not (list_beq reason [])
                then reject reason
                else accept)
            else accept
      ]
        ≡ accept
      → (wild ≡ false)
        × ((protected ≡ false) ⊎ ((negentropy ≡ false) × (list_beq reason [] ≡ true)))
  request_tests (reject msg) wild protected negentropy reason h = cc
  request_tests crash wild protected negentropy reason h = cc
  request_tests accept wild protected negentropy reason h = ground (arith, h)

  -- A request that is accepted names kinds, and if it asks for gift wraps then it is not of a negentropy session and the
  -- connection is open and has last proved the key whose gift wraps, and nothing else, it asks for.
  pub enforced_request-accepted :
      (prev : Query → Decision) (ws : Option ℕ) (negentropy : Bool) (history : List Action)
      (q : Query)
      → enforced_request lib prev ws negentropy (registry_after history) q ≡ accept
      → (list_beq q.kinds [] ≡ false)
        × ((requests_protected_gift_wraps q ≡ false)
            ⊎ ((negentropy ≡ false)
                × ((w : ℕ) × (key : Text) × (ws ≡ some w)
                    × (open_after w history ≡ true)
                    × (proved_key w history ≡ some key)
                    × AsksFor key q)))
  unfolding enforced_request
  enforced_request-accepted prev ws negentropy history q h =
      let current = registry_current ws (registry_after history) in
      let (kinds, rest) =
        request_tests (prev q) (list_beq q.kinds []) (requests_protected_gift_wraps q) negentropy
          (authorize_filter lib q current.0 current.1).1 h in
      (
        kinds,
        elim rest [
          | inl e ↦ inl e
          | inr (n, r) ↦ elim (authorize_cases q current.0 current.1) [
            | inl refused ↦ absurd (ground (arith, r, refused))
            | inr (authed, asks, _) ↦
                let (w, here, live, proof) = authed_connection ws history authed in
                inr (n, (w, current.0, here, live, proof, asks))
          ]
        ],
      )
