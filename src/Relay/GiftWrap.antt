-- ===== src/Relay/GiftWrap.antt =====
-- congee/internal/relay/nip17.go: who may publish, ask for and receive gift wraps.
pub mod Recipient
pub mod Request
use conduit_relay.Base.{
  Bool, false, not, ◌&&◌, ◌||◌, Option, none, some, List, [], ◌∷◌, nat_beq, if◌then◌else◌, is_some,
  ◌==◌, nat_eq, list_eq, list_beq, length, ℤ, pos, int_eq, Text, codes, hex_decodes, to_lower,
}
use conduit_relay.Nostr.Event.{Event}
use conduit_relay.Nostr.Filter.{Filter}
use conduit_relay.Nostr.Groups.{has_name}
use conduit_relay.Relay.Config.{Config, nip_on, nip17_reject_gift_wrap_when_disabled}
use conduit_relay.Relay.Auth.{AuthState, current_auth_pubkey}
use conduit_relay.Base.Assoc.{lookup}

abbrev pub kind_gift_wrap : ℤ
kind_gift_wrap = pos 1059

abbrev pub kind_ephemeral_gift_wrap : ℤ
kind_ephemeral_gift_wrap = pos 21059

abbrev pub kind_seal : ℤ
kind_seal = pos 13

unfoldable pub is_gift_wrap_kind : ℤ → Bool
is_gift_wrap_kind k = k == kind_gift_wrap || k == kind_ephemeral_gift_wrap

pub data GiftWrapError : Type 0 where
  not_accepted bad_recipient_tag seal_with_tags : GiftWrapError

pub data ReqError : Type 0 where
  wildcard mixed_kinds bad_recipient auth_required other_recipient : ReqError

unfoldable pub valid_x_only_pubkey_hex : Text → Bool
valid_x_only_pubkey_hex s = if not (nat_beq (length s) 64) then false else hex_decodes s

unfoldable pub is_canonical : Text → Bool
is_canonical s = valid_x_only_pubkey_hex s && to_lower s == s

-- The loop of `soleGiftWrapRecipient`; the first argument is `recipient`.
unfoldable pub recipient_from : Text → List (List Text) → Option Text
recipient_from found [] = some found
recipient_from found (t ∷ tags) =
    if not (has_name (codes "p") t) then recipient_from found tags else elim t [
      | [] ↦ none
      | n ∷ rest ↦ elim rest [
        | [] ↦ none
        | v ∷ _ ↦
            if not (list_beq found []) || not (valid_x_only_pubkey_hex v) || not (to_lower v == v)
            then none
            else recipient_from v tags
      ]
    ]

-- `none` is the false of the source's second result.
unfoldable pub sole_gift_wrap_recipient : Event → Option Text
sole_gift_wrap_recipient ev = elim (recipient_from [] ev.tags) [
  | none ↦ none
  | some r ↦ if list_beq r [] then none else some r
]

unfoldable pub validate_reject_when_disabled : Config → Event → Option GiftWrapError
validate_reject_when_disabled cfg ev =
    if not (is_gift_wrap_kind ev.kind)
    then none
    else if not (nip17_reject_gift_wrap_when_disabled cfg)
    then none
    else some GiftWrapError.not_accepted

unfoldable pub validate_published_event : Event → Option GiftWrapError
validate_published_event ev =
    if is_gift_wrap_kind ev.kind
    then (if is_some (sole_gift_wrap_recipient ev)
        then none
        else some GiftWrapError.bad_recipient_tag)
    else if ev.kind == kind_seal
    then (if list_beq ev.tags [] then none else some GiftWrapError.seal_with_tags)
    else none

-- `conns` are the live connections.
unfoldable pub gift_wrap_visible : List (Text × AuthState) → Text → Event → Bool
gift_wrap_visible conns conn_id ev = elim (sole_gift_wrap_recipient ev) [
  | none ↦ false
  | some recipient ↦ elim (lookup conn_id conns) [
    | none ↦ false
    | some c ↦ current_auth_pubkey c == recipient
  ]
]

-- The first loop of `validateNIP17REQ`: a filter without kinds is refused, and the last gift-wrap
-- kind is kept.
unfoldable pub last_protected : Option ℤ → List ℤ → Option ℤ
last_protected seen [] = seen
last_protected seen (k ∷ ks) = last_protected (if is_gift_wrap_kind k then some k else seen) ks

unfoldable pub protected_kind : Option ℤ → List Filter → Option (Option ℤ)
protected_kind seen [] = some seen
protected_kind seen (f ∷ fs) =
    let rest = protected_kind (last_protected seen f.kinds) fs in
    if list_beq f.kinds [] then none else rest

-- The body of the second loop.
unfoldable pub check_recipient : AuthState → List Text → Option ReqError
check_recipient c [] = some ReqError.bad_recipient
check_recipient c (p ∷ q ∷ rest) = some ReqError.bad_recipient
check_recipient c (p ∷ []) =
    if not (is_canonical p)
    then some ReqError.bad_recipient
    else if list_beq (current_auth_pubkey c) []
    then some ReqError.auth_required
    else if not (p == current_auth_pubkey c)
    then some ReqError.other_recipient
    else none

abbrev pub values_of : Text → List (Text × List Text) → List Text
values_of key tag = elim (lookup key tag) [ none ↦ [] | some vs ↦ vs ]

unfoldable pub check_filter : AuthState → ℤ → Filter → Option ReqError
check_filter c protected f =
    if not (list_beq f.kinds (protected ∷ []))
    then some ReqError.mixed_kinds
    else check_recipient c (values_of (codes "#p") f.tag)

unfoldable pub check_filters : AuthState → ℤ → List Filter → Option ReqError
check_filters c protected [] = none
check_filters c protected (f ∷ fs) =
    let rest = check_filters c protected fs in
    elim (check_filter c protected f) [ some e ↦ some e | none ↦ rest ]

unfoldable pub validate_req : Config → AuthState → List Filter → Option ReqError
validate_req cfg c filters =
    if not (nip_on 17 cfg) then none else elim (protected_kind none filters) [
      | none ↦ some ReqError.wildcard
      | some none ↦ none
      | some (some k) ↦ check_filters c k filters
    ]
