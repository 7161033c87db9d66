-- ===== src/Examples/Writing.antt =====
-- Authentication and the writes to groups, on concrete events.
use conduit_relay.Base.{
  ◌-◌, ◌^◌, ◌≡◌, refl, ◌≢◌, ◌⊎◌, true, Option, none, some, [], ◌∷◌, arith, nat_eq, list_eq,
  list_beq, contains, pos, negsuc, ◌-ℤ◌, int_eq, wrap64, sub64, codes, trim_space,
}
use conduit_relay.Nostr.Event.{Event}
use conduit_relay.Nostr.Groups.{
  named_value, h_tags_valid_from, group_h_tags_valid, first_h_tag, group_h_tag, is_moderation_kind,
  metadata_has_bare_tag, metadata_is_restricted, previous_values, previous_tag_values,
  admins_contain, names_pubkey, kind_create_group, kind_delete_group, kind_group_admins,
}
use conduit_relay.Relay.Config.{nip29_max_past_sec}
use conduit_relay.Relay.Auth.{
  AuthState, Reply, tag_first, handle_auth, add_pubkey, enqueue_auth_challenge, ensure_challenge,
}
use conduit_relay.Relay.Auth.Handler.{Proves, handle_auth-accepts_iff}
use conduit_relay.Relay.Auth.Skew.{handle_auth-overflow}
use conduit_relay.Relay.Auth.Once.{AuthStep, AuthRun, AuthInv, run-AuthInv}
use conduit_relay.Relay.Groups.{
  got, Server, member_or, check_previous, validate_h_tags, validate_previous,
  validate_late_publication, validate_restricted_write, validate_moderation,
  validate_moderation_and_join_leave, validate_group_event,
}
use conduit_relay.Relay.Groups.Writes.{
  validate_group_event-moderation, validate_group_event-restricted,
  validate_late_publication-overflow,
}
use conduit_relay.Examples.Data.{
  alice, bob, relay_key, event_of, config, as_bob, chat, metadata, server_with,
}

-- Every signature is good, and every URL is its own normal form.
abbrev auth_event : Event
auth_event =
    event_of (pos 22242)
      ((codes "relay" ∷ codes "wss://r" ∷ []) ∷ (codes "challenge" ∷ codes "c0ffee" ∷ []) ∷ [])

handle_auth-accepts_iff_example :
    ((handle_auth (λ e. true) some config (pos 1010) as_bob auth_event
        ≡ (add_pubkey as_bob alice, Reply.accepted (codes "e1")))
      × Proves (λ e. true) some config as_bob (pos 1010) auth_event)
    ⊎ (((handle_auth (λ e. true) some config (pos 1010) as_bob auth_event).0 ≡ as_bob)
        × ((handle_auth (λ e. true) some config (pos 1010) as_bob auth_event).1
            ≢ Reply.accepted (codes "e1"))
        × ¬ Proves (λ e. true) some config as_bob (pos 1010) auth_event)
handle_auth-accepts_iff_example =
    handle_auth-accepts_iff (λ e. true) some config (pos 1010) as_bob auth_event

-- An event from 2^63 seconds before the present.
abbrev old_event : Event
old_event = record auth_event { created_at = pos 990 -ℤ pos (2 ^ 63) }

handle_auth-overflow_example :
    handle_auth (λ e. true) some config (pos 990) as_bob old_event
    ≡ (add_pubkey as_bob old_event.pub_key, Reply.accepted old_event.id)
unfolding tag_first list_beq
handle_auth-overflow_example =
    handle_auth-overflow (λ e. true) some config 990 as_bob old_event (codes "wss://r")
      (omega arith) refl refl (λ e. cc) refl refl (λ e. cc) refl refl refl

abbrev challenged : AuthState
challenged = record {
  challenge = codes "c0ffee";
  auth_sent = true;
  pubkeys = [];
  current_pubkey = [];
}

run-AuthInv_example : AuthInv (add_pubkey challenged bob) (codes "c0ffee" ∷ [])
unfolding enqueue_auth_challenge ensure_challenge list_beq
run-AuthInv_example = run-AuthInv config (
    AuthRun.more
      (AuthRun.more AuthRun.start
        (AuthStep.challenge (codes "c0ffee") (some (codes "c0ffee")) (λ e. cc) refl refl))
      (AuthStep.authenticate bob (λ e. cc) refl refl))

-- Alice is the group's admin.
abbrev admins : Event
admins = event_of kind_group_admins ((codes "p" ∷ alice ∷ []) ∷ [])

abbrev moderated : Server
moderated = record {
  cfg = config;
  relay_id = some relay_key;
  store = record (server_with [] (got none)).store { admins = λ rpk g. got (some admins) };
  conns = [];
}

abbrev put_user : Event
put_user = event_of (pos 9000) ((codes "h" ∷ codes "g" ∷ []) ∷ [])

validate_group_event-moderation_example :
    (group_h_tags_valid put_user ≡ true)
    × (group_h_tag put_user ≢ [])
    × ((alice ≡ relay_key)
        ⊎ ((put_user.kind ≢ kind_create_group)
            × (put_user.kind ≢ kind_delete_group)
            × ((a : Option Event) × (got (some admins) ≡ got a)
                × (admins_contain list_beq a alice ≡ true))))
unfolding validate_group_event validate_h_tags validate_previous check_previous
    validate_late_publication validate_restricted_write validate_moderation_and_join_leave
    validate_moderation group_h_tags_valid h_tags_valid_from named_value group_h_tag first_h_tag
    previous_tag_values previous_values is_moderation_kind admins_contain names_pubkey trim_space
    list_beq nip29_max_past_sec sub64 wrap64
validate_group_event-moderation_example =
    validate_group_event-moderation list_beq moderated (pos 1010) put_user relay_key refl refl refl
      refl

validate_group_event-restricted_example :
    (alice ≡ relay_key) ⊎ (got (contains (alice ∷ []) alice) ≡ got true)
unfolding validate_group_event validate_h_tags validate_previous check_previous
    validate_late_publication validate_restricted_write validate_moderation_and_join_leave member_or
    group_h_tags_valid h_tags_valid_from named_value group_h_tag first_h_tag previous_tag_values
    previous_values is_moderation_kind metadata_is_restricted metadata_has_bare_tag list_beq
    nip29_max_past_sec sub64 wrap64
validate_group_event-restricted_example =
    validate_group_event-restricted list_beq (server_with (alice ∷ []) (got (some metadata)))
      (pos 1010) chat relay_key (some metadata) refl refl refl (λ e. cc) (λ e. cc) (λ e. cc) refl
      refl refl

validate_late_publication-overflow_example :
    validate_late_publication config (pos 1000) (record chat { created_at = negsuc (2 ^ 63 - 1) })
    ≡ none
validate_late_publication-overflow_example =
    validate_late_publication-overflow config 1000 (2 ^ 63 - 1)
      (record chat { created_at = negsuc (2 ^ 63 - 1) }) (omega arith) (omega arith) (omega arith)
      refl
