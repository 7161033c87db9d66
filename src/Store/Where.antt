-- ===== src/Store/Where.antt =====
-- congee/internal/storage/sqlevent/store.go: the rows that a filter selects in SQL against the
-- events that `Filter.Matches` accepts.
use conduit_relay.Base.{
  ℕ, ◌+◌, ◌≡◌, refl, ◌∙◌, inl, inr, Bool, true, false, ◌&&◌, Option, none, some, List, [], ◌∷◌,
  ◌++◌, arith, Bool-cases, Option-cases, ◌==◌, nat_eq, list_eq, list_beq_iff, any, all, All,
  All-imp, contains, int_eq, Text, codes, text_compare-flip, trim_prefix,
}
use conduit_relay.Nostr.Event.{Event}
use conduit_relay.Nostr.Kinds.{KindClass, classify_kind, is_ephemeral}
use conduit_relay.Nostr.Filter.{
  Filter, QueryCursor, has_search, tag_wanted, event_tag_matches, past_cursor, tag_condition,
  matches,
}
use conduit_relay.Store.{
  Row, TagRow, Tables, to_row, replaces, same_coordinate, outdated, delete_rows, tag_rows_from,
  has_id, insert_event, save_event, before_cursor, tag_selected, where_filter,
}
use conduit_relay.Store.Coordinates.{owned, Sound, delete_rows-Sound}

-- A tag with a name and a value.
abbrev pub HasValue : List Text → Type 0
HasValue [] = ⊥
HasValue (n ∷ []) = ⊥
HasValue (n ∷ v ∷ rest) = Unit {0}

-- A key of a filter begins with the character #.
abbrev pub IsTagKey : Text → Type 0
IsTagKey [] = ⊥
IsTagKey (c ∷ s) = c ≡ 35

before_cursor-past_cursor :
    (c : Option QueryCursor) (ev : Event) → before_cursor c (to_row ev) ≡ past_cursor c ev
unfolding before_cursor past_cursor to_row
before_cursor-past_cursor none ev = refl
before_cursor-past_cursor (some c) ev = ground (arith, text_compare-flip c.id ev.id)

module _ (id name : Text) (want : List Text) where
  abbrev wanted_row : TagRow → Bool
  wanted_row g = g.event_id == id && g.name == name && contains want g.value

  any_wanted-append :
      (gs old : List TagRow)
      → All (λ (g : TagRow). (g.event_id == id) ≡ false) old
      → any wanted_row (gs ++ old) ≡ any wanted_row gs
  any_wanted-append [] [] h = refl
  any_wanted-append [] (g ∷ old) h =
      let rest = any_wanted-append [] old h.1 in ground (arith, h.0, rest)
  any_wanted-append (g ∷ gs) old h = let rest = any_wanted-append gs old h in ground (arith, rest)

  any_wanted-tags :
      (marshal : List Text → Option Text) (i : ℕ) (tags : List (List Text)) (gs : List TagRow)
      → tag_rows_from marshal id i tags ≡ some gs
      → All HasValue tags
      → any wanted_row gs ≡ any (tag_wanted name want) tags
  unfolding tag_rows_from tag_wanted
  any_wanted-tags marshal i [] gs h v = ground arith
  any_wanted-tags marshal i ([] ∷ tags) gs h v = absurd v.0
  any_wanted-tags marshal i ((n ∷ []) ∷ tags) gs h v = absurd v.0
  any_wanted-tags marshal i ((n ∷ w ∷ more) ∷ tags) gs h v =
      elim (Option-cases (marshal (n ∷ w ∷ more))) [
        | inl e ↦ ground (arith, e)
        | inr (full, e) ↦ elim (Option-cases (tag_rows_from marshal id (i + 1) tags)) [
          | inl k ↦ ground (arith, e, k)
          | inr (rest, k) ↦
              let later = any_wanted-tags marshal (i + 1) tags rest k v.1 in
              ground (arith, e, k, later, list_beq_iff id id)
        ]
      ]

trim_tag_key : (s : Text) → trim_prefix (35 ∷ s) (codes "#") ≡ s
unfolding trim_prefix
trim_tag_key s = refl

module _ (marshal : List Text → Option Text) (ev : Event) where
  tag_selected-condition :
      (gs old : List TagRow) (kv : Text × List Text)
      → tag_rows_from marshal ev.id 0 ev.tags ≡ some gs
      → All HasValue ev.tags
      → All (λ (g : TagRow). (g.event_id == ev.id) ≡ false) old
      → IsTagKey kv.0
      → tag_selected (gs ++ old) ev.id kv ≡ tag_condition ev.tags kv
  unfolding tag_selected tag_condition event_tag_matches
  tag_selected-condition gs old (key, []) h v o k = refl
  tag_selected-condition gs old ([], w ∷ ws) h v o k = absurd k
  tag_selected-condition gs old (c ∷ s, w ∷ ws) h v o k =
      rw (k, trim_tag_key)
        (any_wanted-append ev.id s (w ∷ ws) gs old o
          ∙ any_wanted-tags ev.id s (w ∷ ws) marshal 0 ev.tags gs h v)

  all_selected :
      (gs old : List TagRow) (tag : List (Text × List Text))
      → tag_rows_from marshal ev.id 0 ev.tags ≡ some gs
      → All HasValue ev.tags
      → All (λ (g : TagRow). (g.event_id == ev.id) ≡ false) old
      → All (λ (kv : Text × List Text). IsTagKey kv.0) tag
      → all (tag_selected (gs ++ old) ev.id) tag ≡ all (tag_condition ev.tags) tag
  all_selected gs old [] h v o k = refl
  all_selected gs old (kv ∷ tag) h v o k =
      let first = tag_selected-condition gs old kv h v o k.0 in
      let rest = all_selected gs old tag h v o k.1 in ground (arith, first, rest)

  where_filter-matches :
      (gs old : List TagRow) (f : Filter)
      → tag_rows_from marshal ev.id 0 ev.tags ≡ some gs
      → All HasValue ev.tags
      → All (λ (g : TagRow). (g.event_id == ev.id) ≡ false) old
      → All (λ (kv : Text × List Text). IsTagKey kv.0) f.tag
      → has_search f ≡ false
      → where_filter (gs ++ old) f (to_row ev) ≡ matches f ev
  unfolding where_filter matches to_row
  where_filter-matches gs old f h v o k no_search =
      rw (no_search, all_selected gs old f.tag h v o k) (cc (before_cursor-past_cursor f.cursor ev))

  -- The tables into which an event that is saved was inserted.
  save_event-inserts :
      (t : Tables)
      → Sound t
      → (save_event marshal ev t).1 ≡ none
      → (b : Tables) × Sound b × (save_event marshal ev t ≡ insert_event marshal t b ev)
  unfolding save_event
  save_event-inserts t v h = elim (Bool-cases (is_ephemeral ev.kind)) [
    | inl e ↦ ground (arith, e)
    | inr e ↦ elim (Bool-cases (replaces class)) [
      | inr n ↦ (t, v, ground (arith, e, n))
      | inl n ↦ elim (Bool-cases (any (same_coordinate class (to_row ev)) (kept t).rows)) [
        | inl s ↦ ground (arith, e, n, s)
        | inr s ↦ (kept t, delete_rows-Sound _ t v, ground (arith, e, n, s))
      ]
    ]
  ]
    where
      class : KindClass
      class = classify_kind ev.kind

      kept : Tables → Tables
      kept t = delete_rows (λ r. same_coordinate class (to_row ev) r && outdated (to_row ev) r) t

  insert_event-tags :
      (t b : Tables)
      → (insert_event marshal t b ev).1 ≡ none
      → (any (has_id ev.id) b.rows ≡ false)
        × ((gs : List TagRow) × (tag_rows_from marshal ev.id 0 ev.tags ≡ some gs)
            × ((insert_event marshal t b ev).0.tag_rows ≡ gs ++ b.tag_rows))
  unfolding insert_event
  insert_event-tags t b h = elim (Bool-cases (any (has_id ev.id) b.rows)) [
    | inl e ↦ ground (arith, e)
    | inr e ↦ elim (Option-cases (tag_rows_from marshal ev.id 0 ev.tags)) [
      | inl k ↦ ground (arith, e, k)
      | inr (gs, k) ↦ (e, (gs, k, ground (arith, e, k)))
    ]
  ]

  foreign_tag :
      (rows : List Row) (g : TagRow)
      → any (has_id ev.id) rows ≡ false
      → owned rows g ≡ true
      → (g.event_id == ev.id) ≡ false
  foreign_tag [] g h k = cc
  foreign_tag (r ∷ rows) g h k = ground (
    arith,
    foreign_tag rows g,
    list_beq_iff r.id ev.id,
    list_beq_iff r.id g.event_id,
    list_beq_iff g.event_id ev.id,
  )

  -- If the tables keep their invariant and an event whose tags all have a value is saved, then a filter
  -- without search, whose tag keys begin with #, selects its row in SQL exactly when it matches the event.
  pub save_event-selected :
      (t : Tables) (f : Filter)
      → Sound t
      → (save_event marshal ev t).1 ≡ none
      → All HasValue ev.tags
      → All (λ (kv : Text × List Text). IsTagKey kv.0) f.tag
      → has_search f ≡ false
      → where_filter (save_event marshal ev t).0.tag_rows f (to_row ev) ≡ matches f ev
  save_event-selected t f v ok valued keys no_search =
      let (b, sound, e) = save_event-inserts t v ok in
      let (fresh, (gs, k, now)) = insert_event-tags t b (rw e at ok) in
      rw (e, now)
        (where_filter-matches gs b.tag_rows f k valued
          (All-imp _ _ b.tag_rows (λ g. foreign_tag b.rows g fresh) sound.tags_owned) keys
          no_search)
