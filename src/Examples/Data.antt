-- ===== src/Examples/Data.antt =====
-- The connections, events and groups of the examples.
use conduit_relay.Base.{
  true, false, Option, none, some, List, [], ◌∷◌, nat_eq, list_eq, contains, ℤ, pos, int_eq, Text,
  codes,
}
use conduit_relay.Nostr.Event.{Event}
use conduit_relay.Nostr.Filter.{Filter}
use conduit_relay.Nostr.Groups.{kind_group_metadata}
use conduit_relay.Relay.Config.{Config}
use conduit_relay.Relay.Auth.{AuthState}
use conduit_relay.Relay.Groups.{Fetch, got, Server}

abbrev pub alice : Text
alice = codes "00000000000000000000000000000000000000000000000000000000000000aa"

abbrev pub bob : Text
bob = codes "00000000000000000000000000000000000000000000000000000000000000bb"

abbrev pub relay_key : Text
relay_key = codes "relay"

abbrev pub event_of : ℤ → List (List Text) → Event
event_of kind tags = record {
  id = codes "e1";
  pub_key = alice;
  created_at = pos 1000;
  kind = kind;
  tags = tags;
  content = [];
  sig = [];
}

abbrev pub wrap : Event
wrap = event_of (pos 1059) ((codes "p" ∷ bob ∷ []) ∷ [])

abbrev pub config : Config
config = record {
  enabled = pos 17 ∷ pos 29 ∷ pos 42 ∷ [];
  reject_gift_wrap_when_disabled = none;
  require_auth_connect = false;
  require_auth_subscribe_kinds = [];
  require_auth_publish_kinds = [];
  allowlisted_pubkeys = [];
  created_at_skew_seconds = pos 600;
  nip42_relay_url = codes "wss://r";
  late_publication_max_past_seconds = pos 86400;
  strict_previous_same_h = false;
}

abbrev pub as_bob : AuthState
as_bob = record {
  challenge = codes "c0ffee";
  auth_sent = true;
  pubkeys = bob ∷ [];
  current_pubkey = bob;
}

abbrev pub any_filter : Filter
any_filter = record {
  cursor = none;
  ids = [];
  authors = [];
  kinds = [];
  since = none;
  until = none;
  limit = none;
  search = none;
  tag = [];
}

abbrev pub wraps_of_bob : Filter
wraps_of_bob = record any_filter { kinds = pos 1059 ∷ []; tag = (codes "#p", bob ∷ []) ∷ [] }

-- A chat message of the group.
abbrev pub chat : Event
chat = event_of (pos 9) ((codes "h" ∷ codes "g" ∷ []) ∷ [])

-- The group is private and restricted.
abbrev pub metadata : Event
metadata = event_of kind_group_metadata ((codes "private" ∷ []) ∷ (codes "restricted" ∷ []) ∷ [])

-- The stored members are the given ones.
abbrev pub server_with : List Text → Fetch (Option Event) → Server
server_with members answer = record {
  cfg = config;
  relay_id = some relay_key;
  store = record {
    metadata = λ rpk g. answer;
    admins = λ rpk g. got none;
    member = λ rpk g pk. got (contains members pk);
    prefix_exists = λ p g strict. got true;
  };
  conns = (codes "conn1", as_bob) ∷ [];
}
