-- ===== src/Relay/Groups.antt =====
-- congee/internal/relay/nip29.go: the validators of group events and who may read a group. The store
-- is an interface, and so are the clock and `strings.EqualFold`. The relay-signed events that follow a
-- stored one are left out.
pub mod Visible
pub mod Writes
use conduit_relay.Base.{
  ◌≡◌, refl, ◌⊎◌, inl, inr, Bool, true, false, not, ◌&&◌, ◌||◌, Option, none, some, List, [], ◌∷◌,
  if◌then◌else◌, ◌==◌, nat_eq, list_eq, list_beq, ℤ, ltb_ℤ, int_eq, sub64, Text,
}
use conduit_relay.Base.Assoc.{lookup}
use conduit_relay.Nostr.Event.{Event}
use conduit_relay.Nostr.Groups.{
  group_h_tag, group_h_tags_valid, previous_tag_values, is_valid_previous_prefix,
  is_moderation_kind, metadata_is_private, metadata_is_restricted, metadata_is_closed,
  admins_contain, kind_create_group, kind_delete_group, kind_join_request, kind_leave_req,
  kind_put_user, kind_remove_user, kind_group_metadata,
}
use conduit_relay.Relay.Config.{Config, nip_on, nip29_max_past_sec}
use conduit_relay.Relay.Auth.{AuthState, authed_pubkeys}
use conduit_relay.Relay.GiftWrap.{is_gift_wrap_kind, gift_wrap_visible}

-- The answer of the store: an error, or a value.
pub data Fetch (A : Type 0) : Type 0 where
  failed : Fetch A
  got : A → Fetch A

pub Fetch-cases : {A : Type 0} (m : Fetch A) → (m ≡ failed) ⊎ ((a : A) × (m ≡ got a))
Fetch-cases failed = inl refl
Fetch-cases (got a) = inr (a, refl)

-- The methods of `storage.Store` that NIP-29 calls.
pub record GroupStore : Type 0 where
  pub metadata : Text → Text → Fetch (Option Event)
  pub admins : Text → Text → Fetch (Option Event)
  pub member : Text → Text → Text → Fetch Bool
  pub prefix_exists : Text → Text → Bool → Fetch Bool

pub record Server : Type 0 where
  pub cfg : Config
  pub relay_id : Option Text
  pub store : GroupStore
  pub conns : List (Text × AuthState)

pub data GroupError : Type 0 where
  two_h_tags bad_previous previous_failed unknown_previous too_old : GroupError
  metadata_failed membership_failed not_a_member : GroupError
  no_h_tag no_relay_identity not_relay_signed admins_failed not_permitted : GroupError
  already_member group_closed leaving_non_member : GroupError

unfoldable pub validate_h_tags : Event → Option GroupError
validate_h_tags ev = if group_h_tags_valid ev then none else some GroupError.two_h_tags

unfoldable pub check_previous : GroupStore → Text → Bool → List Text → Option GroupError
check_previous store gid strict [] = none
check_previous store gid strict (p ∷ ps) =
    let rest = check_previous store gid strict ps in
    if not (is_valid_previous_prefix p)
    then some GroupError.bad_previous
    else elim (store.prefix_exists p gid strict) [
      | failed ↦ some GroupError.previous_failed
      | got true ↦ rest
      | got false ↦ some GroupError.unknown_previous
    ]

unfoldable pub validate_previous : GroupStore → Config → Event → Option GroupError
validate_previous store cfg ev =
    if list_beq (group_h_tag ev) []
    then none
    else check_previous store (group_h_tag ev) cfg.strict_previous_same_h (previous_tag_values ev)

-- `now - ev.CreatedAt` is an int64 difference.
unfoldable pub validate_late_publication : Config → ℤ → Event → Option GroupError
validate_late_publication cfg now ev =
    if list_beq (group_h_tag ev) []
    then none
    else if ltb_ℤ (nip29_max_past_sec cfg) (sub64 now ev.created_at)
    then some GroupError.too_old
    else none

unfoldable pub member_or : Fetch Bool → Option GroupError → Option GroupError → Option GroupError
member_or failed yes_error no_error = some GroupError.membership_failed
member_or (got true) yes_error no_error = yes_error
member_or (got false) yes_error no_error = no_error

unfoldable pub validate_restricted_write : Server → Event → Option GroupError
validate_restricted_write s ev = elim s.relay_id [
  | none ↦ none
  | some rpk ↦
      let gid = group_h_tag ev in
      if list_beq gid [] || ev.pub_key == rpk
      then none
      else if ev.kind == kind_join_request || ev.kind == kind_leave_req
      then none
      else if is_moderation_kind ev.kind
      then none
      else elim (s.store.metadata rpk gid) [
        | failed ↦ some GroupError.metadata_failed
        | got md ↦
            if not (metadata_is_restricted md)
            then none
            else member_or (s.store.member rpk gid ev.pub_key) none (some GroupError.not_a_member)
      ]
]

module _ (equal_fold : Text → Text → Bool) where
  unfoldable pub validate_moderation : Server → Text → Event → Option GroupError
  validate_moderation s gid ev =
      if list_beq gid [] then some GroupError.no_h_tag else elim s.relay_id [
        | none ↦ some GroupError.no_relay_identity
        | some rpk ↦
            if ev.pub_key == rpk
            then none
            else if ev.kind == kind_create_group || ev.kind == kind_delete_group
            then some GroupError.not_relay_signed
            else elim (s.store.admins rpk gid) [
              | failed ↦ some GroupError.admins_failed
              | got admins ↦
                  if not (admins_contain equal_fold admins ev.pub_key)
                  then some GroupError.not_permitted
                  else none
            ]
      ]

  unfoldable pub validate_join : Server → Text → Event → Option GroupError
  validate_join s gid ev = if list_beq gid [] then some GroupError.no_h_tag else elim s.relay_id [
    | none ↦ some GroupError.no_relay_identity
    | some rpk ↦
        member_or (s.store.member rpk gid ev.pub_key) (some GroupError.already_member)
          (elim (s.store.metadata rpk gid) [
            | failed ↦ some GroupError.metadata_failed
            | got md ↦ if metadata_is_closed md then some GroupError.group_closed else none
          ])
  ]

  unfoldable pub validate_leave : Server → Text → Event → Option GroupError
  validate_leave s gid ev = if list_beq gid [] then some GroupError.no_h_tag else elim s.relay_id [
    | none ↦ some GroupError.no_relay_identity
    | some rpk ↦
        member_or (s.store.member rpk gid ev.pub_key) none (some GroupError.leaving_non_member)
  ]

  unfoldable pub validate_moderation_and_join_leave : Server → Event → Option GroupError
  validate_moderation_and_join_leave s ev =
      let gid = group_h_tag ev in
      if is_moderation_kind ev.kind
      then validate_moderation s gid ev
      else if ev.kind == kind_join_request
      then validate_join s gid ev
      else if ev.kind == kind_leave_req
      then validate_leave s gid ev
      else none

  -- The validators that `RegisterNIP29` appends, in its order; the first error is returned.
  unfoldable pub validate_group_event : Server → ℤ → Event → Option GroupError
  validate_group_event s now ev =
      if not (nip_on 29 s.cfg) then none else elim (validate_h_tags ev) [
        | some e ↦ some e
        | none ↦ elim (validate_previous s.store s.cfg ev) [
          | some e ↦ some e
          | none ↦ elim (validate_late_publication s.cfg now ev) [
            | some e ↦ some e
            | none ↦ elim (validate_restricted_write s ev) [
              | some e ↦ some e
              | none ↦ validate_moderation_and_join_leave s ev
            ]
          ]
        ]
      ]

-- The loop over the authenticated keys; an error of the store counts as no membership.
unfoldable pub some_member : (Text → Fetch Bool) → List Text → Bool
some_member member [] = false
some_member member (pk ∷ pks) =
    let rest = some_member member pks in
    elim (member pk) [ failed ↦ rest | got true ↦ true | got false ↦ rest ]

unfoldable pub private_visible : Server → Text → Text → Text → Bool
private_visible s rpk h conn_id = elim (lookup conn_id s.conns) [
  | none ↦ false
  | some c ↦ some_member (s.store.member rpk h) (authed_pubkeys c)
]

unfoldable pub group_visible : Server → Text → Event → Bool
group_visible s conn_id ev = if not (nip_on 29 s.cfg) then true else elim s.relay_id [
  | none ↦ true
  | some rpk ↦
      let h = group_h_tag ev in
      if list_beq h [] then true else elim (s.store.metadata rpk h) [
        | failed ↦ false
        | got md ↦ if not (metadata_is_private md) then true else private_visible s rpk h conn_id
      ]
]

-- `eventVisibleToSubscription`.
unfoldable pub event_visible : Server → Text → Event → Bool
event_visible s conn_id ev =
    if nip_on 29 s.cfg && not (group_h_tags_valid ev)
    then false
    else if is_gift_wrap_kind ev.kind
    then (if not (nip_on 17 s.cfg) then false else gift_wrap_visible s.conns conn_id ev)
    else group_visible s conn_id ev
