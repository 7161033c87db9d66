-- ===== src/Store/GroupQueries.antt =====
-- The queries of NIP-29 in congee/internal/storage/sqlevent/store.go: the latest metadata and admins of a
-- group, and who is a member.
use conduit_relay.Base.{
  ◌≡◌, sym, ◌∙◌, ◌↔◌, ◌⊎◌, inl, inr, Bool, true, false, ◌&&◌, ◌||◌, Option, none, some, List, [],
  ◌∷◌, arith, Option-cases, ◌==◌, nat_eq, list_eq, list_beq_iff, select, any, In, In-All, In-select,
  ℤ, beq_ℤ_iff, int_eq, Text, codes, text_compare-flip, text_compare_refl, eq_of_text_compare,
}
use conduit_relay.Nostr.Groups.{
  kind_group_metadata, kind_group_admins, kind_put_user, kind_remove_user,
}
use conduit_relay.Store.{Row, TagRow, Tables, order_rows}
use conduit_relay.Store.Coordinates.{Apart, Sound, clash}
use conduit_relay.Store.Newer.{before, Ordered, Ordered-order_rows, In-order_rows}

-- `LIMIT 1`.
abbrev pub first : {A : Type 0} → List A → Option A
first [] = none
first (x ∷ xs) = some x

unfoldable pub latest_group_row : ℤ → Tables → Text → Text → Option Row
latest_group_row kind t relay_pubkey group = first (
    order_rows
      (select (λ (r : Row). r.pubkey == relay_pubkey && r.kind == kind && r.d_tag == group) t.rows))

unfoldable pub get_latest_group_metadata : Tables → Text → Text → Option Row
get_latest_group_metadata = latest_group_row kind_group_metadata

unfoldable pub get_latest_group_admins : Tables → Text → Text → Option Row
get_latest_group_admins = latest_group_row kind_group_admins

-- An inner join with `event_tags` on a name and a value: whether some tag joins.
unfoldable pub joins : List TagRow → Text → Text → Row → Bool
joins gs name value r =
    any (λ (g : TagRow). g.event_id == r.id && g.name == name && g.value == value) gs

unfoldable pub membership_row : List TagRow → Text → Text → Text → Row → Bool
membership_row gs relay_pubkey group member r =
    joins gs (codes "h") group r
    && joins gs (codes "p") member r
    && r.pubkey == relay_pubkey
    && (r.kind == kind_put_user || r.kind == kind_remove_user)

unfoldable pub is_group_member : Tables → Text → Text → Text → Bool
is_group_member t relay_pubkey group member =
    elim (first
      (order_rows (select (membership_row t.tag_rows relay_pubkey group member) t.rows))) [
        | none ↦ false
        | some r ↦ r.kind == kind_put_user
      ]

first-Ordered :
    (xs : List Row) (r s : Row)
    → Ordered xs
    → first xs ≡ some r
    → In s xs
    → (s ≡ r) ⊎ (before s r ≡ false)
first-Ordered [] r s o h m = absurd m
first-Ordered (x ∷ xs) r s o h (inl e) = inl (ground (arith, e, h))
first-Ordered (x ∷ xs) r s o h (inr m) =
    let later = In-All (λ z. before z x ≡ false) xs s o.0 m in inr (ground (arith, later, h))

first-In : (xs : List Row) (r : Row) → first xs ≡ some r → In r xs
first-In [] r h = cc
first-In (x ∷ xs) r h = inl (ground (arith, h))

before_irrefl : (r : Row) → before r r ≡ false
before_irrefl r = ground (arith, text_compare_refl r.id)

-- Of two rows that do not come before each other, both have the same id, and so they are one row.
same_place :
    (rs : List Row) (a b : Row)
    → Apart rs
    → In a rs
    → In b rs
    → before a b ≡ false
    → before b a ≡ false
    → a ≡ b
same_place [] a b p m n h k = absurd m
same_place (r ∷ rs) a b p (inl e) (inl f) h k = e ∙ sym f
same_place (r ∷ rs) a b p (inr m) (inr n) h k = same_place rs a b p.1 m n h k
same_place (r ∷ rs) a b p (inl e) (inr n) h k =
    let far = In-All (λ s. clash r s ≡ false) rs b p.0 n in
    unfold clash in
    ground (
      arith,
      far,
      e,
      text_compare-flip a.id b.id,
      eq_of_text_compare a.id b.id,
      list_beq_iff b.id r.id,
    )
same_place (r ∷ rs) a b p (inr m) (inl f) h k =
    let far = In-All (λ s. clash r s ≡ false) rs a p.0 m in
    unfold clash in
    ground (
      arith,
      far,
      f,
      text_compare-flip a.id b.id,
      eq_of_text_compare a.id b.id,
      list_beq_iff a.id r.id,
    )

module _ (t : Tables) (relay_pubkey group member : Text) where
  abbrev about : Row → Bool
  about = membership_row t.tag_rows relay_pubkey group member

  -- The relay's row that puts the member into the group, with no such row, nor one that removes the
  -- member, before it in the order newest first.
  pub record LatestPut (r : Row) : Type 0 where
    pub stored : In r t.rows
    pub of_member : about r ≡ true
    pub put : r.kind ≡ kind_put_user
    pub latest : (s : Row) → In s t.rows → about s ≡ true → before s r ≡ false

  abbrev found : List Row
  found = order_rows (select about t.rows)

  In-found : (r : Row) → In r found ↔ (In r t.rows × (about r ≡ true))
  In-found r = ground (arith, In-order_rows r (select about t.rows), In-select about r t.rows)

  first_latest :
      (r s : Row) → first found ≡ some r → In s t.rows → about s ≡ true → before s r ≡ false
  first_latest r s e m k =
      elim (first-Ordered found r s (Ordered-order_rows (select about t.rows)) e
        ((In-found s).1 (m, k))) [ inl same ↦ rw same (before_irrefl r) | inr later ↦ later ]

  put_found : (r : Row) → first found ≡ some r → r.kind ≡ kind_put_user → LatestPut r
  put_found r e p =
      let m = (In-found r).0 (first-In found r e) in
      record { stored = m.0; of_member = m.1; put = p; latest = λ s. first_latest r s e }

  -- If the tables keep their invariant, a key is a member of a group exactly when the newest row of the
  -- relay that names the group and the key, the one with the lowest id of those of the newest time, is
  -- a put-user and not a remove-user event.
  pub is_group_member_iff :
      Sound t → (is_group_member t relay_pubkey group member ≡ true) ↔ ((r : Row) × LatestPut r)
  unfolding is_group_member
  is_group_member_iff v = elim (Option-cases (first found)) [
    | inl e ↦ (
      (λ h. ground (arith, e)),
      λ (r, p). absurd (nobody r e ((In-found r).1 (p.stored, p.of_member))),
    )
    | inr (x, e) ↦ (
      (λ h. (x, put_found x e (ground (arith, e, h, beq_ℤ_iff x.kind kind_put_user)))),
      λ (r, p).
          let m = (In-found x).0 (first-In found x e) in
          let same =
            same_place t.rows x r v.apart m.0 p.stored (p.latest x m.0 m.1)
              (first_latest x r e p.stored p.of_member) in
          ground (arith, e, same, p.put, beq_ℤ_iff x.kind kind_put_user),
    )
  ]
    where
      none_in : (xs : List Row) (r : Row) → first xs ≡ none → In r xs → ⊥
      none_in [] r e m = m
      none_in (y ∷ ys) r e m = cc

      nobody : (r : Row) → first found ≡ none → In r found → ⊥
      nobody r e m = none_in found r e m
