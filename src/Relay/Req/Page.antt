-- ===== src/Relay/Req/Page.antt =====
-- congee/internal/relay/req_query.go: one page, and what its merge sends.
use conduit_relay.Base.{
  ◌≡◌, refl, ap, inl, inr, true, false, ◌||◌, List, [], ◌∷◌, ◌++◌, arith, Bool-cases, Option-cases,
  nat_eq, list_eq, list_beq_iff, All, All-append, contains, int_eq, Text,
}
use conduit_relay.Base.Assoc.{lookup}
use conduit_relay.Nostr.Event.{Event}
use conduit_relay.Relay.Req.{Page, event_ids, emit_search, sort_page, emit_all, merge_page_events}
use conduit_relay.Relay.Req.Keys.{
  Distinct, keys, Keyed, WellKeyed, Keyed-lookup, contains-keys-sort_page, sort_page-WellKeyed,
  unseen_part, contains-keys-unseen, unseen-WellKeyed,
}

abbrev Unseen : List Text → List Text → Type 0
Unseen seen ids = All (λ x. contains seen x ≡ false) ids

-- What was sent, from `seen` to `after`: new events, each once, and `after` counts them.
pub record Sends (seen : List Text) (ids : List Text) (after : List Text) : Type 0 where
  pub distinct : Distinct ids
  pub unseen : Unseen seen ids
  pub counted : (x : Text) → contains after x ≡ (contains seen x || contains ids x)

Unseen-later :
    (x : Text) (seen ids : List Text)
    → Unseen (x ∷ seen) ids
    → Unseen seen ids × (contains ids x ≡ false)
Unseen-later x seen [] h = (tt, refl)
Unseen-later x seen (y ∷ ids) h =
    let rest = Unseen-later x seen ids h.1 in
    ((ground (arith, h.0), rest.0), ground (arith, h.0, rest.1, list_beq_iff x y, list_beq_iff y x))

Sends-cons :
    (x : Text) (seen ids after : List Text)
    → contains seen x ≡ false
    → Sends (x ∷ seen) ids after
    → Sends seen (x ∷ ids) after
Sends-cons x seen ids after new s =
    let (later, fresh) = Unseen-later x seen ids s.unseen in
    record {
      distinct = (fresh, s.distinct);
      unseen = (new, later);
      counted = λ y. ground (arith, s.counted y);
    }

emit_search-Sends :
    (page : Page) (order seen : List Text)
    → Keyed page
    → let (out, after) = emit_search page order seen in Sends seen (event_ids out) after
unfolding emit_search
emit_search-Sends page [] seen k = record {
  distinct = tt;
  unseen = tt;
  counted = λ x. ground arith;
}
emit_search-Sends page (id ∷ order) seen k = elim (Bool-cases (contains seen id)) [
  | inl e ↦ rw (e, emit_search) (emit_search-Sends page order seen k)
  | inr e ↦ elim (Option-cases (lookup id page)) [
    | inl f ↦ rw (e, f, emit_search) (emit_search-Sends page order seen k)
    | inr (ev, f) ↦
        rw (e, f, emit_search, Keyed-lookup id ev page k f)
          (Sends-cons id seen _ _ e (emit_search-Sends page order (id ∷ seen) k))
  ]
]

emit_all-Sends :
    (page : Page) (seen : List Text)
    → WellKeyed page
    → Unseen seen (keys page)
    → let (out, after) = emit_all page seen in Sends seen (event_ids out) after
unfolding emit_all
emit_all-Sends [] seen w u = record { distinct = tt; unseen = tt; counted = λ x. ground arith }
emit_all-Sends ((id, ev) ∷ page) seen w u = rw (w.keyed.0) (
    Sends-cons id seen _ _ u.0 (
      emit_all-Sends page (id ∷ seen) (record { keyed = w.keyed.1; once = w.once.1 })
        (unseen_cons id seen (keys page) w.once.0 u.1)))
  where
    unseen_cons :
        (x : Text) (seen ids : List Text)
        → contains ids x ≡ false
        → Unseen seen ids
        → Unseen (x ∷ seen) ids
    unseen_cons x seen [] f h = tt
    unseen_cons x seen (y ∷ ids) f h = (
      ground (arith, h.0, list_beq_iff x y, list_beq_iff y x),
      unseen_cons x seen ids (ground arith) h.1,
    )

pub Sends-append :
    (seen ids mid more after : List Text)
    → Sends seen ids mid
    → Sends mid more after
    → Sends seen (ids ++ more) after
Sends-append seen ids mid more after a b = record {
  distinct = distinct ids more a.distinct b.distinct (apart more b.unseen);
  unseen = All-append (λ x. contains seen x ≡ false) ids more a.unseen (old more b.unseen);
  counted = λ x. ground (arith, a.counted x, b.counted x, contains-append ids more x);
}
  where
    contains-append :
        (xs ys : List Text) (x : Text) → contains (xs ++ ys) x ≡ (contains xs x || contains ys x)
    contains-append [] ys x = refl
    contains-append (z ∷ xs) ys x = ground (arith, contains-append xs ys x)

    apart : (ys : List Text) → Unseen mid ys → Unseen ids ys
    apart [] u = tt
    apart (y ∷ ys) u = (ground (arith, u.0, a.counted y), apart ys u.1)

    old : (ys : List Text) → Unseen mid ys → Unseen seen ys
    old [] u = tt
    old (y ∷ ys) u = (ground (arith, u.0, a.counted y), old ys u.1)

    absent : (x : Text) (xs ys : List Text) → Unseen (x ∷ xs) ys → contains ys x ≡ false
    absent x xs ys u = (Unseen-later x xs ys u).1

    distinct : (xs ys : List Text) → Distinct xs → Distinct ys → Unseen xs ys → Distinct (xs ++ ys)
    distinct [] ys p q u = q
    distinct (x ∷ xs) ys p q u = (
      ground (arith, p.0, absent x xs ys u, contains-append xs ys x),
      distinct xs ys p.1 q (Unseen-later x xs ys u).0,
    )

Unseen-of :
    (seen ids : List Text)
    → ((x : Text) → contains ids x ≡ true → contains seen x ≡ false)
    → Unseen seen ids
Unseen-of seen [] f = tt
Unseen-of seen (x ∷ ids) f =
    (f x (ground (arith, list_beq_iff x x)), Unseen-of seen ids (λ y h. f y (ground (arith, h))))

event_ids-append : (xs ys : List Event) → event_ids (xs ++ ys) ≡ event_ids xs ++ event_ids ys
event_ids-append [] ys = refl
event_ids-append (x ∷ xs) ys = ap (◌∷◌ x.id) (event_ids-append xs ys)

-- The events of a page are new, each is in it once, and `seen` counts them afterwards.
pub merge_page_events-Sends :
    (page : Page) (order seen : List Text)
    → WellKeyed page
    → let (out, after) = merge_page_events page order seen in Sends seen (event_ids out) after
unfolding merge_page_events
merge_page_events-Sends page order seen w =
    let found = emit_search page order seen in
    let part = unseen_part found.1 page in
    let sorted = sort_page-WellKeyed part (unseen-WellKeyed found.1 page w) in
    let apart = Unseen-of found.1 (keys (sort_page part)) (λ x h.
      ground (arith, h, contains-keys-sort_page x part, contains-keys-unseen found.1 x page)) in
    rw event_ids-append (
      Sends-append seen (event_ids found.0) found.1 _ _ (emit_search-Sends page order seen w.keyed)
        (emit_all-Sends (sort_page part) found.1 sorted apart))
