-- ===== src/Store/Newest.antt =====
-- congee/internal/storage/sqlevent/store.go: which event of a coordinate is stored after a save.
use conduit_relay.Base.{
  ◌≡◌, refl, sym, ◌∙◌, ◌≢◌, ◌⊎◌, inl, inr, Bool, true, false, not, ◌&&◌, Option, none, some, List,
  [], ◌∷◌, arith, Bool-cases, Option-cases, nat_eq, list_eq, list_beq_iff, select, any, All,
  any_iff, In, All-In, In-All, In-select, ltb_ℤ, beq_ℤ_iff, int_eq, Text, text_ltb,
}
use conduit_relay.Nostr.Event.{Event}
use conduit_relay.Nostr.Kinds.{KindClass, classify_kind, is_ephemeral}
use conduit_relay.Store.{
  Row, Tables, SaveError, to_row, replaces, same_coordinate, outdated, delete_rows, tag_rows_from,
  has_id, insert_event, save_event,
}
use conduit_relay.Store.Coordinates.{clash, Apart, Sound, any-false}

same_coordinate-join :
    (c : KindClass) (new a b : Row)
    → same_coordinate c new a ≡ true
    → same_coordinate c new b ≡ true
    → (same_coordinate c a b ≡ true) × (a.kind ≡ new.kind)
unfolding same_coordinate
same_coordinate-join KindClass.addressable new a b h k = ground (
  arith,
  list_beq_iff a.pubkey new.pubkey,
  list_beq_iff b.pubkey new.pubkey,
  list_beq_iff b.pubkey a.pubkey,
  list_beq_iff a.d_tag new.d_tag,
  list_beq_iff b.d_tag new.d_tag,
  list_beq_iff b.d_tag a.d_tag,
  beq_ℤ_iff a.kind new.kind,
  beq_ℤ_iff b.kind new.kind,
  beq_ℤ_iff b.kind a.kind,
)
same_coordinate-join c new a b h k = ground (
  arith,
  list_beq_iff a.pubkey new.pubkey,
  list_beq_iff b.pubkey new.pubkey,
  list_beq_iff b.pubkey a.pubkey,
  beq_ℤ_iff a.kind new.kind,
  beq_ℤ_iff b.kind new.kind,
  beq_ℤ_iff b.kind a.kind,
)

same_coordinate-clash :
    (new a b : Row)
    → replaces (classify_kind new.kind) ≡ true
    → same_coordinate (classify_kind new.kind) new a ≡ true
    → same_coordinate (classify_kind new.kind) new b ≡ true
    → clash a b ≡ true
unfolding clash
same_coordinate-clash new a b c h k =
    let (same, kind) = same_coordinate-join (classify_kind new.kind) new a b h k in
    rw kind (ground (arith, same, c))

Apart-one :
    (new a b : Row) (rs : List Row)
    → Apart rs
    → replaces (classify_kind new.kind) ≡ true
    → In a rs
    → In b rs
    → same_coordinate (classify_kind new.kind) new a ≡ true
    → same_coordinate (classify_kind new.kind) new b ≡ true
    → a ≡ b
Apart-one new a b [] p c m n h k = absurd m
Apart-one new a b (r ∷ rs) p c (inl e) (inl f) h k = e ∙ sym f
Apart-one new a b (r ∷ rs) p c (inr m) (inr n) h k = Apart-one new a b rs p.1 c m n h k
Apart-one new a b (r ∷ rs) p c (inl e) (inr n) h k =
    let far = In-All (λ s. clash r s ≡ false) rs b p.0 n in
    let near = same_coordinate-clash new a b c h k in ground (arith, far, near, e)
Apart-one new a b (r ∷ rs) p c (inr m) (inl f) h k =
    let far = In-All (λ s. clash r s ≡ false) rs a p.0 m in
    let near = same_coordinate-clash new b a c k h in ground (arith, far, near, f)

insert_event-rows :
    (marshal : List Text → Option Text) (old t : Tables) (ev : Event)
    → (insert_event marshal old t ev).1 ≡ none
    → (insert_event marshal old t ev).0.rows ≡ to_row ev ∷ t.rows
unfolding insert_event
insert_event-rows marshal old t ev h = elim (Bool-cases (any (has_id ev.id) t.rows)) [
  | inl e ↦ ground (arith, e)
  | inr e ↦ elim (Option-cases (tag_rows_from marshal ev.id 0 ev.tags)) [
    | inl k ↦ ground (arith, e, k)
    | inr (gs, k) ↦ ground (arith, e, k)
  ]
]

insert_event-not_stale :
    (marshal : List Text → Option Text) (old t : Tables) (ev : Event)
    → (insert_event marshal old t ev).1 ≢ some SaveError.stale_replaceable
unfolding insert_event
insert_event-not_stale marshal old t ev = elim (Bool-cases (any (has_id ev.id) t.rows)) [
  | inl e ↦ ground (arith, e)
  | inr e ↦ elim (Option-cases (tag_rows_from marshal ev.id 0 ev.tags)) [
    | inl k ↦ ground (arith, e, k)
    | inr (gs, k) ↦ ground (arith, e, k)
  ]
]

-- The event takes the place of the row: the row is older, or of the same time and with a higher id.
abbrev pub Supersedes : Event → Row → Type 0
Supersedes ev r =
    (ltb_ℤ r.created_at ev.created_at ≡ true)
    ⊎ ((r.created_at ≡ ev.created_at) × (text_ltb ev.id r.id ≡ true))

outdated-Supersedes : (ev : Event) (r : Row) → outdated (to_row ev) r ≡ true → Supersedes ev r
unfolding outdated to_row
outdated-Supersedes ev r h = elim (Bool-cases (ltb_ℤ r.created_at ev.created_at)) [
  | inl e ↦ inl e
  | inr e ↦ inr (ground (arith, h, e, beq_ℤ_iff ev.created_at r.created_at), ground (arith, h, e))
]

Supersedes-outdated : (ev : Event) (r : Row) → Supersedes ev r → outdated (to_row ev) r ≡ true
unfolding outdated to_row
Supersedes-outdated ev r (inl e) = ground (arith, e)
Supersedes-outdated ev r (inr (e, k)) = ground (arith, e, k, beq_ℤ_iff ev.created_at r.created_at)

-- The rows of the event's coordinate.
abbrev pub rivals : Event → List Row → List Row
rivals ev = select (same_coordinate (classify_kind ev.kind) (to_row ev))

module _ (marshal : List Text → Option Text) (ev : Event) (t : Tables) where
  abbrev class : KindClass
  class = classify_kind ev.kind

  abbrev new : Row
  new = to_row ev

  abbrev stays : Row → Bool
  stays s = not (same_coordinate class new s && outdated new s)

  abbrev kept : Tables
  kept = delete_rows (λ s. same_coordinate class new s && outdated new s) t

  abbrev pub Saved : Type 0
  Saved =
      ((save_event marshal ev t).1 ≡ none)
      × All (Supersedes ev) (rivals ev t.rows)
      × In (to_row ev) (save_event marshal ev t).0.rows
      × All (λ r. r ≡ to_row ev) (rivals ev (save_event marshal ev t).0.rows)

  abbrev pub Stale : Type 0
  Stale =
      (save_event marshal ev t ≡ (t, some SaveError.stale_replaceable))
      × ((r : Row) × In r (rivals ev t.rows)
          × All (λ x. x ≡ r) (rivals ev t.rows)
          × ¬ Supersedes ev r)

  -- No row of the coordinate was kept, so all were outdated.
  rivals-Supersedes :
      any (same_coordinate class new) kept.rows ≡ false → All (Supersedes ev) (rivals ev t.rows)
  unfolding delete_rows
  rivals-Supersedes gone = All-In (Supersedes ev) (rivals ev t.rows) (λ o m.
      let (there, same) = (In-select (same_coordinate class new) o t.rows).0 m in
      elim (Bool-cases (outdated new o)) [
        | inl e ↦ outdated-Supersedes ev o e
        | inr e ↦
            let far =
              In-All (λ x. same_coordinate class new x ≡ false) kept.rows o
                (any-false _ kept.rows gone)
                ((In-select stays o t.rows).1 (there, ground (arith, e))) in
            ground (arith, far, same)
      ])

  kept_rival :
      Sound t
      → replaces class ≡ true
      → any (same_coordinate class new) kept.rows ≡ true
      → (r : Row) × In r (rivals ev t.rows)
        × All (λ x. x ≡ r) (rivals ev t.rows)
        × ¬ Supersedes ev r
  unfolding delete_rows to_row
  kept_rival v c found =
      let (r, n, same) = (any_iff (same_coordinate class new) kept.rows).0 found in
      let (there, e) = (In-select stays r t.rows).0 n in
      (
        r,
        (In-select (same_coordinate class new) r t.rows).1 (there, same),
        All-In (λ x. x ≡ r) (rivals ev t.rows)
            (λ x m.
              let (i, k) = (In-select (same_coordinate class new) x t.rows).0 m in
              Apart-one new x r t.rows v.apart c i there k same),
        λ o. ground (arith, e, same, Supersedes-outdated ev r o),
      )

  -- The tables have one row for each coordinate, the event is of a replaceable or addressable kind, and it is
  -- saved or refused as stale. If it is saved, every row that its coordinate had is older than the event, or
  -- of the same time and with a higher id, and its own row is stored and is the only one of the coordinate afterwards. If
  -- it is refused, the tables stay, and the one row of the coordinate is neither older, nor of the same
  -- time and with a higher id.
  pub save_event-newest :
      Sound t
      → replaces (classify_kind ev.kind) ≡ true
      → ((save_event marshal ev t).1 ≡ none)
        ⊎ ((save_event marshal ev t).1 ≡ some SaveError.stale_replaceable)
      → Saved ⊎ Stale
  unfolding save_event
  save_event-newest v c done = elim (Bool-cases (is_ephemeral ev.kind)) [
    | inl e ↦ ground (arith, e)
    | inr e ↦ elim (Bool-cases (any (same_coordinate class new) kept.rows)) [
      | inl s ↦ inr (ground (arith, e, s), kept_rival v c s)
      | inr s ↦
          let ok : (insert_event marshal t kept ev).1 ≡ none =
            ground (arith, e, s, done, insert_event-not_stale marshal t kept ev) in
          inl (ground (arith, e, s, ok), rivals-Supersedes s, there e s ok, alone e s ok)
    ]
  ]
    where
      there :
          is_ephemeral ev.kind ≡ false
          → any (same_coordinate class new) kept.rows ≡ false
          → (insert_event marshal t kept ev).1 ≡ none
          → In (to_row ev) (save_event marshal ev t).0.rows
      there e s ok = rw (e, c, s, insert_event-rows marshal t kept ev ok, save_event) (inl refl)

      alone :
          is_ephemeral ev.kind ≡ false
          → any (same_coordinate class new) kept.rows ≡ false
          → (insert_event marshal t kept ev).1 ≡ none
          → All (λ r. r ≡ to_row ev) (rivals ev (save_event marshal ev t).0.rows)
      alone e s ok =
          All-In (λ r. r ≡ to_row ev) _
            (λ r m.
              let (i, k) = (In-select (same_coordinate class new) r _).0 m in
              let now : In r (new ∷ kept.rows) =
                rw (insert_event-rows marshal t kept ev ok) at (rw (e, c, s) at i) in
              elim now [
                | inl q ↦ q
                | inr n ↦
                    let far =
                      In-All (λ x. same_coordinate class new x ≡ false) kept.rows r
                        (any-false _ kept.rows s) n in
                    ground (arith, far, k)
              ])
