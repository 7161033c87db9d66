-- ===== src/Nostr/Filter/Accepts.antt =====
-- What a filter asks of an event, stated apart from the code, and `Matches` decides it.
use conduit_relay.Base.{
  Ordering, ◌≡◌, refl, ◌≢◌, ◌↔◌, ◌⊎◌, true, false, Option, none, some, List, [], ◌∷◌, arith, Eq,
  nat_eq, ==_iff, list_eq, all, All, All-imp, any_iff, all_iff, In, contains_iff, ℤ, ◌≤ℤ◌, ◌<ℤ◌,
  beq_ℤ_iff, int_eq, Text, codes, text_compare, text_compare-flip, trim_prefix,
}
use conduit_relay.Nostr.Event.{Event}
use conduit_relay.Nostr.Filter.{
  Filter, QueryCursor, has_search, tag_wanted, event_tag_matches, listed, tag_condition, not_before,
  not_after, past_cursor, matches,
}

-- Some tag carries the name, and a first value that is wanted.
abbrev pub Tagged : List (List Text) → Text → List Text → Type 0
Tagged tags name want =
    (t : List Text) × In t tags
    × ((v : Text) × (rest : List Text) × (t ≡ name ∷ v ∷ rest) × In v want)

pub record Accepts (f : Filter) (e : Event) : Type 0 where
  pub no_search : has_search f ≡ false
  pub id_listed : (f.ids ≡ []) ⊎ In e.id f.ids
  pub author_listed : (f.authors ≡ []) ⊎ In e.pub_key f.authors
  pub kind_listed : (f.kinds ≡ []) ⊎ In e.kind f.kinds
  pub not_early : (s : ℤ) → f.since ≡ some s → s ≤ℤ e.created_at
  pub not_late : (u : ℤ) → f.until ≡ some u → e.created_at ≤ℤ u
  pub after_cursor :
      (c : QueryCursor)
      → f.cursor ≡ some c
      → (e.created_at <ℤ c.created_at)
        ⊎ ((e.created_at ≡ c.created_at) × (text_compare c.id e.id ≡ Ordering.lt))
  pub tagged : All (λ kv. (kv.1 ≢ []) × Tagged e.tags (trim_prefix kv.0 (codes "#")) kv.1) f.tag

listed_iff :
    {A : Type 0} ⦃e : Eq A⦄ (xs : List A) (a : A) → (listed xs a ≡ true) ↔ ((xs ≡ []) ⊎ In a xs)
unfolding listed
listed_iff [] a = ground arith
listed_iff (x ∷ xs) a = ground (arith, contains_iff (x ∷ xs) a)

tag_wanted_iff :
    (name : Text) (want : List Text) (t : List Text)
    → (tag_wanted name want t ≡ true)
      ↔ ((v : Text) × (rest : List Text) × (t ≡ name ∷ v ∷ rest) × In v want)
unfolding tag_wanted
tag_wanted_iff name want [] = ground arith
tag_wanted_iff name want (n ∷ []) = ground arith
tag_wanted_iff name want (n ∷ v ∷ rest) = (
  λ h. (v, rest, ground (arith, ==_iff n name), ground (arith, contains_iff want v)),
  λ (w, r, e, m). ground (arith, ==_iff n name, contains_iff want v),
)

event_tag_matches_iff :
    (tags : List (List Text)) (name : Text) (want : List Text)
    → (event_tag_matches tags name want ≡ true) ↔ Tagged tags name want
unfolding event_tag_matches
event_tag_matches_iff tags name want = (
  λ h.
      let (t, m, k) = (any_iff (tag_wanted name want) tags).0 h in
      (t, m, (tag_wanted_iff name want t).0 k),
  λ (t, m, k). (any_iff (tag_wanted name want) tags).1 (t, m, (tag_wanted_iff name want t).1 k),
)

tag_condition_iff :
    (tags : List (List Text)) (kv : Text × List Text)
    → (tag_condition tags kv ≡ true)
      ↔ ((kv.1 ≢ []) × Tagged tags (trim_prefix kv.0 (codes "#")) kv.1)
unfolding tag_condition
tag_condition_iff tags (key, []) = ground arith
tag_condition_iff tags (key, v ∷ vs) = (
  λ h. ((λ e. cc), (event_tag_matches_iff tags _ (v ∷ vs)).0 h),
  λ h. (event_tag_matches_iff tags _ (v ∷ vs)).1 h.1,
)

not_before_iff : (o : Option ℤ) (t : ℤ) → (not_before o t ≡ true) ↔ ((s : ℤ) → o ≡ some s → s ≤ℤ t)
unfolding not_before
not_before_iff none t = (λ h s e. cc, λ h. refl)
not_before_iff (some s) t = (λ h u e. ground arith, λ h. ground (arith, h s refl))

not_after_iff : (o : Option ℤ) (t : ℤ) → (not_after o t ≡ true) ↔ ((u : ℤ) → o ≡ some u → t ≤ℤ u)
unfolding not_after
not_after_iff none t = (λ h s e. cc, λ h. refl)
not_after_iff (some s) t = (λ h u e. ground arith, λ h. ground (arith, h s refl))

abbrev Past : QueryCursor → Event → Type 0
Past c e =
    (e.created_at <ℤ c.created_at)
    ⊎ ((e.created_at ≡ c.created_at) × (text_compare c.id e.id ≡ Ordering.lt))

past_cursor_iff :
    (o : Option QueryCursor) (e : Event)
    → (past_cursor o e ≡ true) ↔ ((c : QueryCursor) → o ≡ some c → Past c e)
unfolding past_cursor
past_cursor_iff none e = (λ h c k. cc, λ h. refl)
past_cursor_iff (some c) e = (
  λ h d k. ground (arith, text_compare-flip c.id e.id, beq_ℤ_iff e.created_at c.created_at),
  λ h. ground (arith, h c refl, text_compare-flip c.id e.id, beq_ℤ_iff e.created_at c.created_at),
)

module _ (f : Filter) (e : Event) where
  abbrev Conditions : Type 0
  Conditions =
      (has_search f ≡ false)
      × (listed f.ids e.id ≡ true)
      × (listed f.authors e.pub_key ≡ true)
      × (listed f.kinds e.kind ≡ true)
      × (not_before f.since e.created_at ≡ true)
      × (not_after f.until e.created_at ≡ true)
      × (past_cursor f.cursor e ≡ true)
      × (all (tag_condition e.tags) f.tag ≡ true)

  matches-Conditions : (matches f e ≡ true) ↔ Conditions
  unfolding matches
  matches-Conditions = (λ h. ground arith, λ h. ground arith)

  -- `Matches` returns true exactly for the events that the filter accepts.
  pub matches_iff : (matches f e ≡ true) ↔ Accepts f e
  matches_iff = (
    λ h.
        let c = matches-Conditions.0 h in
        record {
          no_search = c.0;
          id_listed = (listed_iff f.ids e.id).0 c.1;
          author_listed = (listed_iff f.authors e.pub_key).0 c.2;
          kind_listed = (listed_iff f.kinds e.kind).0 c.3;
          not_early = (not_before_iff f.since e.created_at).0 c.4;
          not_late = (not_after_iff f.until e.created_at).0 c.5;
          after_cursor = (past_cursor_iff f.cursor e).0 c.6;
          tagged =
              All-imp _ _ f.tag (λ kv. (tag_condition_iff e.tags kv).0)
                ((all_iff (tag_condition e.tags) f.tag).0 c.7);
        },
    λ a. matches-Conditions.1 (
      a.no_search,
      (listed_iff f.ids e.id).1 a.id_listed,
      (listed_iff f.authors e.pub_key).1 a.author_listed,
      (listed_iff f.kinds e.kind).1 a.kind_listed,
      (not_before_iff f.since e.created_at).1 a.not_early,
      (not_after_iff f.until e.created_at).1 a.not_late,
      (past_cursor_iff f.cursor e).1 a.after_cursor,
      (all_iff (tag_condition e.tags) f.tag).1
          (All-imp _ _ f.tag (λ kv. (tag_condition_iff e.tags kv).1) a.tagged),
    ),
  )
