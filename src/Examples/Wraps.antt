-- ===== src/Examples/Wraps.antt =====
-- Gift wraps for bob on two connections, of which the first has proved his key.
use conduit_relay.Base.{
  ℕ, ◌≡◌, refl, ◌⊎◌, inl, true, false, none, some, List, [], ◌∷◌, if◌then◌else◌, nat_eq, list_eq,
  list_beq, pos, int_eq, Text, codes,
}
use conduit_relay.Base.Assoc.{lookup}
use conduit_relay.Conduit.{Query}
use conduit_relay.Conduit.Products.Evaluate.{accept}
use conduit_relay.Conduit.Plan.{requests_protected_gift_wraps}
use conduit_relay.Conduit.GiftWrap.{
  registry_current, registry_connect, registry_record, sole_recipient, recipient_scan,
  parse_canonical_pub_key, authorize_recipients, authorize_filter, may_deliver, enforced_request,
  enforced_query, enforced_prevent_broadcast,
}
use conduit_relay.Conduit.GiftWrap.Registry.{
  Action, opened, proved, registry_after, open_after, proved_key, identity_of,
  registry_current-history,
}
use conduit_relay.Conduit.GiftWrap.Delivery.{
  AsksFor, Addressed, enforced_query-Addressed, enforced_prevent_broadcast-Addressed,
  enforced_request-accepted,
}
use conduit_relay.Base.Assoc.{insert}
use conduit_relay.Examples.Data.{bob, wrap}
use conduit_relay.Examples.Library.{library}

abbrev history : List Action
history = opened 2 ∷ proved 1 bob ∷ opened 1 ∷ []

registry_current-history_example :
    registry_current (some 1) (registry_after history)
    ≡ identity_of (if open_after 1 history then proved_key 1 history else none)
registry_current-history_example = registry_current-history 1 history

abbrev for_bob : Query
for_bob = record {
  kinds = pos 1059 ∷ [];
  tags = (codes "p", bob ∷ []) ∷ [];
  limit = pos 1;
  limit_zero = false;
  search = [];
  other = [];
}

enforced_query-Addressed_example : Addressed library (some 1) history for_bob wrap
unfolding enforced_query registry_after registry_current registry_connect registry_record
    may_deliver authorize_filter authorize_recipients parse_canonical_pub_key sole_recipient
    recipient_scan lookup insert list_beq
enforced_query-Addressed_example =
    enforced_query-Addressed library (λ q. wrap ∷ []) (some 1) history for_bob wrap (inl refl) refl

enforced_prevent_broadcast-Addressed_example : Addressed library (some 1) history for_bob wrap
unfolding enforced_prevent_broadcast registry_after registry_current registry_connect
    registry_record may_deliver authorize_filter authorize_recipients parse_canonical_pub_key
    sole_recipient recipient_scan lookup insert list_beq
enforced_prevent_broadcast-Addressed_example =
    enforced_prevent_broadcast-Addressed library none (some 1) history for_bob wrap refl refl

enforced_request-accepted_example :
    (list_beq for_bob.kinds [] ≡ false)
    × ((requests_protected_gift_wraps for_bob ≡ false)
        ⊎ ((false ≡ false)
            × ((w : ℕ) × (key : Text) × (some 1 ≡ some w)
                × (open_after w history ≡ true)
                × (proved_key w history ≡ some key)
                × AsksFor library key for_bob)))
unfolding enforced_request registry_after registry_current registry_connect registry_record
    authorize_filter requests_protected_gift_wraps authorize_recipients parse_canonical_pub_key
    lookup insert list_beq
enforced_request-accepted_example =
    enforced_request-accepted library (λ q. accept) (some 1) false history for_bob refl
