-- ===== src/Relay/GiftWrap/Recipient.antt =====
-- The recipient of a gift wrap, stated apart from the loop that finds it.
use conduit_relay.Base.{
  ℕ, ◌≡◌, refl, sym, ap, ◌≢◌, ◌↔◌, ◌⊎◌, inl, inr, true, some, List, [], ◌∷◌, arith, Bool-cases,
  Option-cases, ◌==◌, nat_eq, list_eq, list_beq_iff, select, int_eq, Text, codes,
}
use conduit_relay.Nostr.Event.{Event}
use conduit_relay.Nostr.Groups.{has_name}
use conduit_relay.Relay.Auth.{AuthState, current_auth_pubkey}
use conduit_relay.Base.Assoc.{lookup}
use conduit_relay.Relay.GiftWrap.{
  is_canonical, valid_x_only_pubkey_hex, recipient_from, sole_gift_wrap_recipient,
  gift_wrap_visible,
}

abbrev p_tags : List (List Text) → List (List Text)
p_tags = select (has_name (codes "p"))

-- The event has one tag named p, and its value is a canonical key.
abbrev pub SoleRecipient : Event → Text → Type 0
SoleRecipient ev r =
    (rest : List Text) × (p_tags ev.tags ≡ (codes "p" ∷ r ∷ rest) ∷ []) × (is_canonical r ≡ true)

pub is_canonical_nonempty : (r : Text) → is_canonical r ≡ true → r ≢ []
unfolding is_canonical valid_x_only_pubkey_hex
is_canonical_nonempty [] h = cc
is_canonical_nonempty (c ∷ r) h = λ e. cc

-- Once a recipient was found, another p tag ends the search.
recipient_from_found :
    (found r : Text) (tags : List (List Text))
    → found ≢ []
    → (recipient_from found tags ≡ some r) ↔ ((p_tags tags ≡ []) × (found ≡ r))
unfolding recipient_from
recipient_from_found found r [] ne = ground arith
recipient_from_found found r ([] ∷ tags) ne = ground (arith, recipient_from_found found r tags)
recipient_from_found found r ((n ∷ []) ∷ tags) ne =
    ground (arith, recipient_from_found found r tags)
recipient_from_found found r ((n ∷ v ∷ rest) ∷ tags) ne =
    ground (arith, recipient_from_found found r tags, list_beq_iff found [])

abbrev Found : List (List Text) → Text → Type 0
Found tags r =
    ((p_tags tags ≡ []) × (r ≡ []))
    ⊎ ((rest : List Text) × (p_tags tags ≡ (codes "p" ∷ r ∷ rest) ∷ []) × (is_canonical r ≡ true))

recipient_from_start :
    (r : Text) (tags : List (List Text)) → (recipient_from [] tags ≡ some r) ↔ Found tags r
unfolding recipient_from is_canonical
recipient_from_start r [] = (
  λ h. inl (refl, ground arith),
  λ h. elim h [ inl (_, e) ↦ ap some (sym e) | inr (_, e, _) ↦ cc ],
)
recipient_from_start r ([] ∷ tags) = recipient_from_start r tags
recipient_from_start r ((n ∷ []) ∷ tags) = elim (Bool-cases (n == codes "p")) [
  | inl e ↦ rw (e, recipient_from) ((λ h. cc), λ h. elim h [ inl (k, _) ↦ cc | inr (_, k, _) ↦ cc ])
  | inr e ↦ rw (e, recipient_from) (recipient_from_start r tags)
]
recipient_from_start r ((n ∷ v ∷ rest) ∷ tags) = elim (Bool-cases (n == codes "p")) [
  | inl e ↦ (
    λ h. inr (
      rest,
      ground (
        arith,
        list_beq_iff n (codes "p"),
        list_beq_iff {A = ℕ} [] [],
        recipient_from_found v r tags,
        is_canonical_nonempty v,
      ),
      ground (
        arith,
        list_beq_iff n (codes "p"),
        list_beq_iff {A = ℕ} [] [],
        recipient_from_found v r tags,
        is_canonical_nonempty v,
      ),
    ),
    λ h. ground (
      arith,
      list_beq_iff n (codes "p"),
      list_beq_iff {A = ℕ} [] [],
      recipient_from_found v r tags,
      is_canonical_nonempty v,
    ),
  )
  | inr e ↦ rw (e, recipient_from) (recipient_from_start r tags)
]

-- `soleGiftWrapRecipient` returns a key exactly when it is the sole recipient of the event.
pub sole_gift_wrap_recipient_iff :
    (ev : Event) (r : Text) → (sole_gift_wrap_recipient ev ≡ some r) ↔ SoleRecipient ev r
unfolding sole_gift_wrap_recipient
sole_gift_wrap_recipient_iff ev r = (
  λ h. elim ((recipient_from_start r ev.tags).0 (ground (arith, list_beq_iff r []))) [
    | inl (_, e) ↦ ground (arith, e, list_beq_iff r [])
    | inr s ↦ s
  ],
  λ s.
      let e = (recipient_from_start r ev.tags).1 (inr s) in
      ground (arith, e, list_beq_iff r [], is_canonical_nonempty r s.2),
)

-- A gift wrap is shown on a connection exactly when the connection is live and its current
-- authenticated key is the sole recipient of the gift wrap.
pub gift_wrap_visible_iff :
    (conns : List (Text × AuthState)) (conn_id : Text) (ev : Event)
    → (gift_wrap_visible conns conn_id ev ≡ true) ↔ (
        (c : AuthState) × (lookup conn_id conns ≡ some c)
        × SoleRecipient ev (current_auth_pubkey c))
unfolding gift_wrap_visible
gift_wrap_visible_iff conns conn_id ev = (
  λ h. elim (Option-cases (lookup conn_id conns)) [
    | inl e ↦ ground (arith, e)
    | inr (c, e) ↦ elim (Option-cases (sole_gift_wrap_recipient ev)) [
      | inl k ↦ ground (arith, e, k)
      | inr (q, k) ↦ (
        c,
        e,
        (sole_gift_wrap_recipient_iff ev (current_auth_pubkey c)).0
            (ground (arith, e, k, list_beq_iff (current_auth_pubkey c) q)),
      )
    ]
  ],
  λ (c, e, s). ground (
    arith,
    e,
    (sole_gift_wrap_recipient_iff ev (current_auth_pubkey c)).1 s,
    list_beq_iff (current_auth_pubkey c) (current_auth_pubkey c),
  ),
)
