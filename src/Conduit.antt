-- ===== src/Conduit.antt =====
-- The Go package conduitl2 at the repository's root, which adds product queries and the protection of
-- gift wraps to a khatru relay. Events are those of Nostr/Event: an id and a key are their hexadecimal
-- texts. The functions of fiatjaf.com/nostr and of Go's Unicode, number and JSON packages that the
-- code calls are the fields of `Library`.
pub mod Float
pub mod Options
pub mod Plan
pub mod Products
pub mod GiftWrap
pub mod Sync
use conduit_relay.Base.{ℕ, Bool, Option, List, nat_eq, list_eq, ℤ, int_eq, Text, to_lower}
use conduit_relay.Nostr.Event.{Event}

-- The fields of `nostr.Filter` that the package reads or sets. `other` stands for those that it only
-- passes on to `Matches`.
pub record Query : Type 0 where
  pub kinds : List ℤ
  pub tags : List (Text × List Text)
  pub limit : ℤ
  pub limit_zero : Bool
  pub search : Text
  pub other : Text

-- A value of a decoded JSON object. A number is a float64, by its bits.
pub data JsonValue : Type 0 where
  number : ℕ → JsonValue
  text : Text → JsonValue
  other_value : JsonValue

pub record Library : Type 0 where
  pub to_lower : Text → Text
  pub to_upper : Text → Text
  pub equal_fold : Text → Text → Bool
  pub atoi : Text → Option ℤ
  pub parse_int : Text → Option ℤ
  pub format_int : ℤ → Text
  pub parse_float : Text → Option ℕ
  pub float_to_int : ℕ → ℤ
  pub unmarshal_object : Text → Option (List (Text × JsonValue))
  pub marshal_cursor : Text → Text
  pub unmarshal_cursor : Text → Option Text
  pub encode_base64 : Text → Text
  pub decode_base64 : Text → Option Text
  pub id_from_hex : Text → Option Text
  pub pubkey_from_hex : Text → Option Text
  pub get_d : List (List Text) → Text
  pub filter_matches : Query → Event → Bool
