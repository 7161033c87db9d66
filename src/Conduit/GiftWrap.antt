-- ===== src/Conduit/GiftWrap.antt =====
-- giftwrap.go: which requests for gift wraps (kind 1059) the relay accepts, and to whom it delivers them.
-- A connection (`*khatru.WebSocket`) is a number, and `none` is nil. Contexts are what the code asks them for: the
-- connection, whether it is authenticated, whether a call is internal or of a negentropy session.
pub mod Registry
pub mod Delivery
use conduit_relay.Base.{
  ℕ, ◌+◌, Bool, true, false, not, ◌&&◌, ◌||◌, Option, none, some, List, [], ◌∷◌, nat_beq,
  if◌then◌else◌, is_some, ◌==◌, nat_eq, list_eq, list_beq, select, ℤ, pos, int_eq, Text, codes,
}
use conduit_relay.Base.Assoc.{lookup, insert, delete}
use conduit_relay.Nostr.Event.{Event}
use conduit_relay.Conduit.{Query, Library}
use conduit_relay.Conduit.Plan.{requests_protected_gift_wraps}
use conduit_relay.Conduit.Products.Evaluate.{Decision, accept, reject, crash}

pub record ConnectionIdentity : Type 0 where
  pub pubkey : Text
  pub authenticated : Bool

abbrev pub AuthRegistry : Type 0
AuthRegistry = List (ℕ × ConnectionIdentity)

abbrev pub zero_pk : Text
zero_pk = codes "0000000000000000000000000000000000000000000000000000000000000000"

abbrev pub gift_wrap_kind : ℤ
gift_wrap_kind = pos 1059

abbrev pub auth_required_reason : Text
auth_required_reason = codes "auth-required: kind 1059 requests require NIP-42 authentication"

abbrev pub mixed_kinds_reason : Text
mixed_kinds_reason = codes "restricted: kind 1059 cannot be mixed with other kinds"

abbrev pub recipient_reason : Text
recipient_reason = codes "restricted: kind 1059 requests require exactly one valid recipient"

abbrev pub identity_reason : Text
identity_reason = codes "restricted: kind 1059 recipient does not match authenticated identity"

abbrev pub count_reason : Text
count_reason = codes "restricted: protected event counts are not supported"

abbrev pub wildcard_read_reason : Text
wildcard_read_reason = codes "restricted: wildcard subscriptions are not supported"

abbrev pub wildcard_count_reason : Text
wildcard_count_reason = codes "restricted: wildcard counts are not supported"

abbrev pub negentropy_reason : Text
negentropy_reason = codes "restricted: protected event negentropy is not supported"

abbrev pub write_reason : Text
write_reason = codes "blocked: kind 1059 events require exactly one valid recipient"

-- `authRegistry.connect`, `record`, `current` and `remove`.
unfoldable pub registry_connect : ℕ → AuthRegistry → AuthRegistry
registry_connect ws reg = insert ws (record { pubkey = zero_pk; authenticated = false }) reg

unfoldable pub registry_record : ℕ → Text → AuthRegistry → AuthRegistry
registry_record ws key reg = elim (lookup ws reg) [
  | none ↦ reg
  | some identity ↦ insert ws (record { pubkey = key; authenticated = true }) reg
]

unfoldable pub registry_current : Option ℕ → AuthRegistry → Text × Bool
registry_current none reg = (zero_pk, false)
registry_current (some ws) reg = elim (lookup ws reg) [
  | none ↦ (zero_pk, false)
  | some identity ↦ if not identity.authenticated then (zero_pk, false) else (identity.pubkey, true)
]

unfoldable pub registry_remove : ℕ → AuthRegistry → AuthRegistry
registry_remove ws reg = delete ws reg

-- The loop of `soleGiftWrapRecipient`: the last value of a p tag and the number of p tags; `none` when a p tag has no
-- value.
unfoldable pub recipient_scan : List (List Text) → Text → ℕ → Option (Text × ℕ)
recipient_scan [] raw count = some (raw, count)
recipient_scan ([] ∷ tags) raw count = recipient_scan tags raw count
recipient_scan ((n ∷ []) ∷ tags) raw count =
    let later = recipient_scan tags raw count in if n == codes "p" then none else later
recipient_scan ((n ∷ v ∷ rest) ∷ tags) raw count =
    let counted = recipient_scan tags v (count + 1) in
    let later = recipient_scan tags raw count in if n == codes "p" then counted else later

-- How a count refuses: what the function that it replaces says, or nothing.
abbrev pub refusal : Option (Query → Option Text) → Query → Option Text
refusal none q = none
refusal (some f) q = f q

abbrev pub of_refusal : Option Text → Decision
of_refusal none = accept
of_refusal (some msg) = reject msg

module _ (lib : Library) where
  unfoldable pub parse_canonical_pub_key : Text → Option Text
  parse_canonical_pub_key raw = elim (lib.pubkey_from_hex raw) [
    | none ↦ none
    | some key ↦ if raw == key then some key else none
  ]

  unfoldable pub sole_recipient : Event → Option Text
  sole_recipient ev = elim (recipient_scan ev.tags [] 0) [
    | none ↦ none
    | some (raw, count) ↦ if not (nat_beq count 1) then none else parse_canonical_pub_key raw
  ]

  -- The tests of `filter.Tags["p"]`.
  unfoldable pub authorize_recipients : List Text → Text → Text × Text
  authorize_recipients [] identity = (zero_pk, recipient_reason)
  authorize_recipients (p ∷ r ∷ rest) identity = (zero_pk, recipient_reason)
  authorize_recipients (p ∷ []) identity = elim (parse_canonical_pub_key p) [
    | none ↦ (zero_pk, recipient_reason)
    | some key ↦ if not (key == identity) then (zero_pk, identity_reason) else (key, [])
  ]

  -- `authorizeGiftWrapFilterForIdentity`: the recipient, and the reason for a refusal, which is empty when
  -- there is none.
  unfoldable pub authorize_filter : Query → Text → Bool → Text × Text
  authorize_filter q identity authed =
      if not authed
      then (zero_pk, auth_required_reason)
      else if not (list_beq q.kinds (gift_wrap_kind ∷ []))
      then (zero_pk, mixed_kinds_reason)
      else elim (lookup (codes "p") q.tags) [
        | none ↦ authorize_recipients [] identity
        | some recipients ↦ authorize_recipients recipients identity
      ]

  unfoldable pub may_deliver : Query → Text → Bool → Event → Bool
  may_deliver q identity authed ev =
      let (recipient, reason) = authorize_filter q identity authed in
      if not (list_beq reason []) || not (lib.filter_matches q ev)
      then false
      else elim (sole_recipient ev) [ none ↦ false | some key ↦ key == recipient ]

  -- `relay.OnEvent` after `configureGiftWrapWriteValidation`.
  unfoldable pub on_event : Option (Event → Option Text) → Event → Option Text
  on_event prev ev =
      let next : Option Text = elim prev [ none ↦ none | some f ↦ f ev ] in
      if ev.kind == gift_wrap_kind && not (is_some (sole_recipient ev))
      then some write_reason
      else next

  -- The functions of `configureGiftWrapEnforcement`.
  unfoldable pub enforced_request :
      (Query → Decision) → Option ℕ → Bool → AuthRegistry → Query → Decision
  enforced_request prev ws negentropy reg q =
      let (identity, authed) = registry_current ws reg in
      let reason = (authorize_filter q identity authed).1 in
      elim (prev q) [
        | reject msg ↦ reject msg
        | crash ↦ crash
        | accept ↦
            if list_beq q.kinds []
            then reject wildcard_read_reason
            else if requests_protected_gift_wraps q
            then (if negentropy
                then reject negentropy_reason
                else if not (list_beq reason [])
                then reject reason
                else accept)
            else accept
      ]

  unfoldable pub enforced_query :
      (Query → List Event) → Option ℕ → Bool → AuthRegistry → Query → List Event
  enforced_query prev ws internal reg q =
      let (identity, authed) = registry_current ws reg in
      let results = prev q in
      if internal
      then results
      else select
          (λ (ev : Event).
            lib.filter_matches q ev
            && not (ev.kind == gift_wrap_kind && not (may_deliver q identity authed ev)))
          results

  unfoldable pub enforced_count :
      Option (Query → Option Text) → Option ℕ → Bool → AuthRegistry → Query → Option Text
  enforced_count prev ws internal reg q =
      let (identity, authed) = registry_current ws reg in
      let reason = (authorize_filter q identity authed).1 in
      if not internal && list_beq q.kinds []
      then some wildcard_count_reason
      else if not internal && requests_protected_gift_wraps q
      then (if not (list_beq reason []) then some reason else some count_reason)
      else refusal prev q

  unfoldable pub enforced_prevent_broadcast :
      Option (Option ℕ → Query → Event → Bool) → Option ℕ → AuthRegistry → Query → Event → Bool
  enforced_prevent_broadcast prev ws reg q ev =
      let (identity, authed) = registry_current ws reg in
      let prevented : Bool = elim prev [ none ↦ false | some f ↦ f ws q ev ] in
      if prevented
      then true
      else if not (ev.kind == gift_wrap_kind)
      then false
      else not (may_deliver q identity authed ev)

-- The functions of `configureGiftWrapChallengeHooks`: the answer, and whether the client is asked to authenticate, which
-- `offerGiftWrapAuth` does on a connection that has not done so.
unfoldable pub challenge_request : (Query → Decision) → Option ℕ → Bool → Query → Decision × Bool
challenge_request prev ws authed q = elim (prev q) [
  | reject msg ↦ (reject msg, false)
  | crash ↦ (crash, false)
  | accept ↦ (accept, requests_protected_gift_wraps q && is_some ws && not authed)
]

unfoldable pub challenge_count :
    Option (Query → Option Text) → Option ℕ → Bool → Query → Option Text × Bool
challenge_count prev ws authed q = elim (refusal prev q) [
  | some msg ↦ (some msg, false)
  | none ↦ (none, requests_protected_gift_wraps q && is_some ws && not authed)
]
