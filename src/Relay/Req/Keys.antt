-- ===== src/Relay/Req/Keys.antt =====
-- A page is a map from ids to events: each id once, and each event under its id, also when the page is
-- sorted and when what was sent before is left out.
use conduit_relay.Base.{
  ◌≡◌, refl, ◌∙◌, inl, inr, false, not, ◌&&◌, ◌||◌, some, List, [], ◌∷◌, arith, Bool-cases, ◌==◌,
  nat_eq, list_eq, list_beq_iff, select, contains, int_eq, Text,
}
use conduit_relay.Base.Assoc.{lookup, insert}
use conduit_relay.Nostr.Event.{Event}
use conduit_relay.Relay.Req.{Page, add_events, insert_sorted, sort_page}

abbrev pub Distinct : List Text → Type 0
Distinct [] = Unit {0}
Distinct (x ∷ xs) = (contains xs x ≡ false) × Distinct xs

abbrev pub keys : Page → List Text
keys [] = []
keys ((id, ev) ∷ page) = id ∷ keys page

-- Every event is under its id.
abbrev pub Keyed : Page → Type 0
Keyed [] = Unit {0}
Keyed ((id, ev) ∷ page) = (ev.id ≡ id) × Keyed page

pub record WellKeyed (page : Page) : Type 0 where
  pub keyed : Keyed page
  pub once : Distinct (keys page)

pub contains-keys-insert :
    (id x : Text) (ev : Event) (page : Page)
    → contains (keys (insert id ev page)) x ≡ (id == x || contains (keys page) x)
unfolding insert
contains-keys-insert id x ev [] = refl
contains-keys-insert id x ev ((j, e) ∷ page) = ground (
  arith,
  list_beq_iff j id,
  list_beq_iff id x,
  list_beq_iff j x,
  contains-keys-insert id x ev page,
)

pub Keyed-insert : (ev : Event) (page : Page) → Keyed page → Keyed (insert ev.id ev page)
unfolding insert
Keyed-insert ev [] h = (refl, tt)
Keyed-insert ev ((j, e) ∷ page) h =
    let rest = Keyed-insert ev page h.1 in ground (arith, h.0, rest, h.1)

pub Distinct-insert :
    (ev : Event) (page : Page) → Distinct (keys page) → Distinct (keys (insert ev.id ev page))
unfolding insert
Distinct-insert ev [] h = (refl, tt)
Distinct-insert ev ((j, e) ∷ page) h =
    let rest = Distinct-insert ev page h.1 in
    ground (
      arith,
      h.0,
      rest,
      h.1,
      list_beq_iff j ev.id,
      list_beq_iff ev.id j,
      contains-keys-insert ev.id j ev page,
    )

pub add_events-WellKeyed :
    (evs : List Event) (page : Page) → WellKeyed page → WellKeyed (add_events evs page)
unfolding add_events
add_events-WellKeyed [] page w = w
add_events-WellKeyed (ev ∷ evs) page w =
    add_events-WellKeyed evs (insert ev.id ev page)
      (record { keyed = Keyed-insert ev page w.keyed; once = Distinct-insert ev page w.once })

pub Keyed-lookup :
    (id : Text) (ev : Event) (page : Page) → Keyed page → lookup id page ≡ some ev → ev.id ≡ id
unfolding lookup
Keyed-lookup id ev [] h k = cc
Keyed-lookup id ev ((j, e) ∷ page) h k =
    ground (arith, list_beq_iff j id, h.0, Keyed-lookup id ev page h.1)

pub contains-keys-insert_sorted :
    (id x : Text) (ev : Event) (page : Page)
    → contains (keys (insert_sorted (id, ev) page)) x ≡ (id == x || contains (keys page) x)
unfolding insert_sorted
contains-keys-insert_sorted id x ev [] = refl
contains-keys-insert_sorted id x ev ((j, e) ∷ page) =
    ground (arith, contains-keys-insert_sorted id x ev page)

pub Keyed-insert_sorted :
    (id : Text) (ev : Event) (page : Page)
    → ev.id ≡ id
    → Keyed page
    → Keyed (insert_sorted (id, ev) page)
unfolding insert_sorted
Keyed-insert_sorted id ev [] k h = (k, tt)
Keyed-insert_sorted id ev ((j, e) ∷ page) k h =
    let rest = Keyed-insert_sorted id ev page k h.1 in ground (arith, rest, h.0, h.1, k)

pub Distinct-insert_sorted :
    (id : Text) (ev : Event) (page : Page)
    → contains (keys page) id ≡ false
    → Distinct (keys page)
    → Distinct (keys (insert_sorted (id, ev) page))
unfolding insert_sorted
Distinct-insert_sorted id ev [] f h = (refl, tt)
Distinct-insert_sorted id ev ((j, e) ∷ page) f h =
    let rest = Distinct-insert_sorted id ev page (ground (arith, f)) h.1 in
    ground (
      arith,
      rest,
      h.0,
      h.1,
      f,
      contains-keys-insert_sorted id j ev page,
      list_beq_iff id j,
      list_beq_iff j id,
    )

pub contains-keys-sort_page :
    (x : Text) (page : Page) → contains (keys (sort_page page)) x ≡ contains (keys page) x
unfolding sort_page
contains-keys-sort_page x [] = refl
contains-keys-sort_page x ((id, ev) ∷ page) =
    ground
      (arith, contains-keys-sort_page x page, contains-keys-insert_sorted id x ev (sort_page page))

pub sort_page-WellKeyed : (page : Page) → WellKeyed page → WellKeyed (sort_page page)
unfolding sort_page
sort_page-WellKeyed [] w = w
sort_page-WellKeyed ((id, ev) ∷ page) w =
    let rest = sort_page-WellKeyed page (record { keyed = w.keyed.1; once = w.once.1 }) in
    record {
      keyed = Keyed-insert_sorted id ev (sort_page page) w.keyed.0 rest.keyed;
      once =
          Distinct-insert_sorted id ev (sort_page page) (contains-keys-sort_page id page ∙ w.once.0)
            rest.once;
    }

abbrev pub unseen_part : List Text → Page → Page
unseen_part seen = select (λ (kv : Text × Event). not (contains seen kv.0))

pub contains-keys-unseen :
    (seen : List Text) (x : Text) (page : Page)
    → contains (keys (unseen_part seen page)) x ≡ (not (contains seen x) && contains (keys page) x)
contains-keys-unseen seen x [] = ground arith
contains-keys-unseen seen x ((id, ev) ∷ page) =
    ground (arith, contains-keys-unseen seen x page, list_beq_iff id x)

pub unseen-WellKeyed :
    (seen : List Text) (page : Page) → WellKeyed page → WellKeyed (unseen_part seen page)
unseen-WellKeyed seen [] w = w
unseen-WellKeyed seen ((id, ev) ∷ page) w =
    let rest = unseen-WellKeyed seen page (record { keyed = w.keyed.1; once = w.once.1 }) in
    elim (Bool-cases (contains seen id)) [
      | inl e ↦ rw e rest
      | inr e ↦ rw e (record {
        keyed = (w.keyed.0, rest.keyed);
        once = (ground (arith, w.once.0, contains-keys-unseen seen id page), rest.once);
      })
    ]
