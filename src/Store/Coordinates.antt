-- ===== src/Store/Coordinates.antt =====
-- congee/internal/storage/sqlevent/store.go: the invariant of the tables on ids, coordinates and
-- tags.
use conduit_relay.Base.{
  ℕ, ◌+◌, ◌≡◌, refl, ◌⊎◌, inl, inr, Bool, true, false, not, ◌&&◌, ◌||◌, Option, some, List, [], ◌∷◌,
  arith, Bool-cases, Option-cases, ◌==◌, nat_eq, list_eq, list_beq_iff, select, any, All,
  All-append, All-imp, int_eq, Text,
}
use conduit_relay.Nostr.Event.{Event}
use conduit_relay.Nostr.Kinds.{KindClass, classify_kind, is_ephemeral}
use conduit_relay.Store.{
  Row, TagRow, Tables, to_row, replaces, same_coordinate, outdated, delete_rows, tag_rows_from,
  has_id, insert_event, save_event, delete_event,
}

-- Two rows that may not both be stored.
unfoldable pub clash : Row → Row → Bool
clash a b =
    has_id a.id b || (replaces (classify_kind a.kind) && same_coordinate (classify_kind a.kind) a b)

abbrev pub Apart : List Row → Type 0
Apart [] = Unit {0}
Apart (r ∷ rs) = All (λ s. clash r s ≡ false) rs × Apart rs

abbrev pub owned : List Row → TagRow → Bool
owned rows g = any (has_id g.event_id) rows

pub record Sound (t : Tables) : Type 0 where
  pub apart : Apart t.rows
  pub tags_owned : All (λ g. owned t.rows g ≡ true) t.tag_rows

All-select :
    {A : Type 0} (P : A → Type 0) (p : A → Bool) (xs : List A) → All P xs → All P (select p xs)
All-select P p [] h = tt
All-select P p (x ∷ xs) h = elim (Bool-cases (p x)) [
  | inl e ↦ rw e (h.0, All-select P p xs h.1)
  | inr e ↦ rw e (All-select P p xs h.1)
]

Apart-select : (p : Row → Bool) (rs : List Row) → Apart rs → Apart (select p rs)
Apart-select p [] h = tt
Apart-select p (r ∷ rs) h = elim (Bool-cases (p r)) [
  | inl e ↦ rw e (All-select (λ s. clash r s ≡ false) p rs h.0, Apart-select p rs h.1)
  | inr e ↦ rw e (Apart-select p rs h.1)
]

pub any-false :
    {A : Type 0} (p : A → Bool) (xs : List A) → any p xs ≡ false → All (λ x. p x ≡ false) xs
any-false p [] h = tt
any-false p (x ∷ xs) h = (ground arith, any-false p xs (ground arith))

-- A tag whose row is deleted is deleted, and the others keep their row.
owned-select :
    (p : Row → Bool) (g : TagRow) (rows : List Row)
    → owned rows g ≡ true
    → any (λ (r : Row). p r && r.id == g.event_id) rows ≡ false
    → owned (select (λ r. not (p r)) rows) g ≡ true
owned-select p g [] h k = h
owned-select p g (r ∷ rows) h k = ground (arith, owned-select p g rows)

owned_after :
    (p : Row → Bool) (q : TagRow → Bool) (rows : List Row) (gs : List TagRow)
    → ((g : TagRow) → q g ≡ true → any (λ (r : Row). p r && r.id == g.event_id) rows ≡ false)
    → All (λ g. owned rows g ≡ true) gs
    → All (λ g. owned (select (λ r. not (p r)) rows) g ≡ true) (select q gs)
owned_after p q rows [] f h = tt
owned_after p q rows (g ∷ gs) f h = elim (Bool-cases (q g)) [
  | inl e ↦ rw e (owned-select p g rows h.0 (f g e), owned_after p q rows gs f h.1)
  | inr e ↦ rw e (owned_after p q rows gs f h.1)
]

pub delete_rows-Sound : (p : Row → Bool) (t : Tables) → Sound t → Sound (delete_rows p t)
unfolding delete_rows
delete_rows-Sound p t v = record {
  apart = Apart-select (λ r. not (p r)) t.rows v.apart;
  tags_owned = owned_after p _ t.rows t.tag_rows (λ g e. ground (arith, e)) v.tags_owned;
}

tag_rows-owned :
    (marshal : List Text → Option Text) (id : Text) (i : ℕ) (tags : List (List Text))
    (gs : List TagRow)
    → tag_rows_from marshal id i tags ≡ some gs
    → All (λ (g : TagRow). g.event_id ≡ id) gs
unfolding tag_rows_from
tag_rows-owned marshal id i [] [] h = tt
tag_rows-owned marshal id i [] (g ∷ gs) h = cc
tag_rows-owned marshal id i (t ∷ tags) gs h = elim (Option-cases (marshal t)) [
  | inl e ↦ ground (arith, e)
  | inr (full, e) ↦ elim (Option-cases (tag_rows_from marshal id (i + 1) tags)) [
    | inl k ↦ ground (arith, e, k)
    | inr (rest, k) ↦
        let later = tag_rows-owned marshal id (i + 1) tags rest k in ground (arith, e, k, later)
  ]
]

new_row-apart :
    (ev : Event) (rs : List Row)
    → any (has_id ev.id) rs ≡ false
    → (replaces (classify_kind ev.kind) ≡ false)
      ⊎ (any (same_coordinate (classify_kind ev.kind) (to_row ev)) rs ≡ false)
    → All (λ s. clash (to_row ev) s ≡ false) rs
unfolding clash to_row
new_row-apart ev [] h k = tt
new_row-apart ev (r ∷ rs) h k = let rest = new_row-apart ev rs in ground (arith, rest)

new_owned :
    (ev : Event) (rows : List Row) (g : TagRow)
    → g.event_id ≡ ev.id
    → owned (to_row ev ∷ rows) g ≡ true
unfolding to_row
new_owned ev rows g m = ground (arith, list_beq_iff ev.id g.event_id)

insert_event-Sound :
    (marshal : List Text → Option Text) (old t : Tables) (ev : Event)
    → Sound old
    → Sound t
    → (replaces (classify_kind ev.kind) ≡ false)
      ⊎ (any (same_coordinate (classify_kind ev.kind) (to_row ev)) t.rows ≡ false)
    → Sound (insert_event marshal old t ev).0
unfolding insert_event
insert_event-Sound marshal old t ev o v fresh = elim (Bool-cases (any (has_id ev.id) t.rows)) [
  | inl e ↦ rw e o
  | inr e ↦ elim (Option-cases (tag_rows_from marshal ev.id 0 ev.tags)) [
    | inl k ↦ rw (e, k) o
    | inr (gs, k) ↦
        rw (e, k)
          (record {
            apart = (new_row-apart ev t.rows e fresh, v.apart);
            tags_owned =
                All-append (λ g. owned (to_row ev ∷ t.rows) g ≡ true) gs t.tag_rows
                  (All-imp _ _ gs (new_owned ev t.rows)
                    (tag_rows-owned marshal ev.id 0 ev.tags gs k))
                  (All-imp _ _ t.tag_rows old_owned v.tags_owned);
          })
  ]
]
  where
    old_owned : (g : TagRow) → owned t.rows g ≡ true → owned (to_row ev ∷ t.rows) g ≡ true
    old_owned g m = ground (arith, m)

-- If the tables have one row for each id and for each coordinate of a replaceable or addressable kind,
-- and no tags without a row, then this is so after `SaveEvent`, whatever it returns.
pub save_event-Sound :
    (marshal : List Text → Option Text) (ev : Event) (t : Tables)
    → Sound t
    → Sound (save_event marshal ev t).0
unfolding save_event
save_event-Sound marshal ev t v = elim (Bool-cases (is_ephemeral ev.kind)) [
  | inl e ↦ rw e v
  | inr e ↦ elim (Bool-cases (replaces class)) [
    | inr n ↦ rw (e, n) (insert_event-Sound marshal t t ev v v (inl n))
    | inl n ↦ elim (Bool-cases (any (same_coordinate class (to_row ev)) kept.rows)) [
      | inl s ↦ rw (e, n, s) v
      | inr s ↦ rw (e, n, s) (insert_event-Sound marshal t kept ev v kept-Sound (inr s))
    ]
  ]
]
  where
    class : KindClass
    class = classify_kind ev.kind

    kept : Tables
    kept = delete_rows (λ r. same_coordinate class (to_row ev) r && outdated (to_row ev) r) t

    kept-Sound : Sound kept
    kept-Sound = delete_rows-Sound _ t v

delete_tags :
    (id : Text) (g : TagRow) (rows : List Row)
    → not (g.event_id == id) ≡ true
    → any (λ (r : Row). has_id id r && r.id == g.event_id) rows ≡ false
delete_tags id g [] h = refl
delete_tags id g (r ∷ rows) h = ground (
  arith,
  list_beq_iff r.id id,
  list_beq_iff r.id g.event_id,
  list_beq_iff g.event_id id,
  delete_tags id g rows h,
)

-- If the tables have one row for each id and for each coordinate of a replaceable or addressable kind,
-- and no tags without a row, then this is so after `DeleteEvent`.
pub delete_event-Sound : (id : Text) (t : Tables) → Sound t → Sound (delete_event id t)
unfolding delete_event
delete_event-Sound id t v = record {
  apart = Apart-select (λ r. not (has_id id r)) t.rows v.apart;
  tags_owned =
      owned_after (has_id id) _ t.rows t.tag_rows (λ g e. delete_tags id g t.rows e) v.tags_owned;
}
