-- ===== src/Conduit/Products.antt =====
-- scope2.go: the products that the package keeps, and what it reads from a product event.
pub mod Store
pub mod Latest
pub mod Agree
pub mod Compare
pub mod Evaluate
pub mod Sorted
pub mod Policy
pub mod Slice
pub mod Pages
pub mod Complete
pub mod Deleted
pub mod Currency
pub mod Answers
use conduit_relay.Base.{
  Bool, false, not, ◌||◌, Option, none, some, List, [], ◌∷◌, ◌++◌, if◌then◌else◌, is_some, ◌==◌,
  nat_eq, list_eq, list_beq, ℤ, int_eq, Text, codes, trim_space, to_lower,
}
use conduit_relay.Base.Assoc.{lookup}
use conduit_relay.Nostr.Event.{Event}
use conduit_relay.Conduit.{JsonValue, number, text, other_value, Library}
use conduit_relay.Conduit.Float.{Float}

pub record ProductEnvelope : Type 0 where
  pub address : Text
  pub event : Event
  pub updated_at : ℤ
  pub price : Float
  pub currency : Text
  pub has_price : Bool
  pub search_text : Text
  pub tombstoned : Bool

module _ (lib : Library) where
  -- `firstTagValue` for one name; the source's other calls give it one name each.
  unfoldable pub first_tag_value : List (List Text) → Text → Text
  first_tag_value [] name = []
  first_tag_value ([] ∷ tags) name = first_tag_value tags name
  first_tag_value ((n ∷ []) ∷ tags) name = first_tag_value tags name
  first_tag_value ((n ∷ v ∷ rest) ∷ tags) name =
      let later = first_tag_value tags name in if n == name then trim_space v else later

  abbrev pub text_field : Text → List (Text × JsonValue) → Text
  text_field key payload = elim (lookup key payload) [ some (text s) ↦ s | _ ↦ [] ]

  unfoldable pub extract_product_text_from_content : Text → Text × Text
  extract_product_text_from_content content = elim (lib.unmarshal_object content) [
    | none ↦ ([], [])
    | some payload ↦ (text_field (codes "title") payload, text_field (codes "summary") payload)
  ]

  abbrev pub or_else : Text → Text → Text
  or_else s fallback = if list_beq s [] then fallback else s

  unfoldable pub extract_product_text : Event → Text × Text
  extract_product_text ev =
      let title = first_tag_value ev.tags (codes "title") in
      let summary = first_tag_value ev.tags (codes "summary") in
      let content = extract_product_text_from_content ev.content in
      if not (list_beq title []) || not (list_beq summary [])
      then (or_else title content.0, or_else summary content.1)
      else content

  -- `toFloat` on a text and on a decoded JSON value.
  unfoldable pub text_to_float : Text → Option Float
  text_to_float s = lib.parse_float (trim_space s)

  unfoldable pub to_float : JsonValue → Option Float
  to_float (number b) = some b
  to_float (text s) = text_to_float s
  to_float other_value = none

  abbrev pub currency_of : Text → Text
  currency_of s = lib.to_upper (trim_space s)

  abbrev pub tag_currency : List (List Text) → List Text → Text
  tag_currency tags [] = first_tag_value tags (codes "currency")
  tag_currency tags (c ∷ rest) = c

  -- The loop over the tags; `all_tags` are the tags of the event.
  unfoldable pub price_from : List (List Text) → List (List Text) → Option (Float × Text)
  price_from all_tags [] = none
  price_from all_tags ([] ∷ tags) = price_from all_tags tags
  price_from all_tags ((n ∷ []) ∷ tags) = price_from all_tags tags
  price_from all_tags ((n ∷ v ∷ rest) ∷ tags) =
      let later = price_from all_tags tags in
      if not (n == codes "price") then later else elim (text_to_float v) [
        | none ↦ later
        | some price ↦ some (price, currency_of (tag_currency all_tags rest))
      ]

  unfoldable pub extract_price_from_content : Text → Option (Float × Text)
  extract_price_from_content content = elim (lib.unmarshal_object content) [
    | none ↦ none
    | some payload ↦ elim (lookup (codes "price") payload) [
      | none ↦ none
      | some raw ↦ elim (to_float raw) [
        | none ↦ none
        | some price ↦ some (price, currency_of (text_field (codes "currency") payload))
      ]
    ]
  ]

  unfoldable pub extract_price : Event → Option (Float × Text)
  extract_price ev = elim (price_from ev.tags ev.tags) [
    | some p ↦ some p
    | none ↦ extract_price_from_content ev.content
  ]

  unfoldable pub timestamp_from_value : JsonValue → Option ℤ
  timestamp_from_value raw = elim (to_float raw) [
    | some f ↦ some (lib.float_to_int f)
    | none ↦ elim raw [ text s ↦ lib.parse_int (trim_space s) | _ ↦ none ]
  ]

  unfoldable pub timestamp_from_tags : List (List Text) → List Text → Option ℤ
  timestamp_from_tags tags [] = none
  timestamp_from_tags tags (name ∷ names) =
      let later = timestamp_from_tags tags names in
      elim (timestamp_from_value (text (first_tag_value tags name))) [
        | some t ↦ some t
        | none ↦ later
      ]

  -- A key that the object lacks is the nil value, which is no timestamp.
  unfoldable pub timestamp_from_object : List (Text × JsonValue) → List Text → Option ℤ
  timestamp_from_object payload [] = none
  timestamp_from_object payload (key ∷ keys) =
      let later = timestamp_from_object payload keys in
      let raw : JsonValue = elim (lookup key payload) [ none ↦ other_value | some v ↦ v ] in
      elim (timestamp_from_value raw) [ some t ↦ some t | none ↦ later ]

  unfoldable pub extract_updated_at_from_content : Text → Option ℤ
  extract_updated_at_from_content content = elim (lib.unmarshal_object content) [
    | none ↦ none
    | some payload ↦
        timestamp_from_object payload
          (codes "updatedAt" ∷ codes "updated_at" ∷ codes "publishedAt" ∷ codes "published_at" ∷ [])
  ]

  unfoldable pub extract_updated_at : Event → ℤ
  extract_updated_at ev =
      elim (timestamp_from_tags ev.tags (
        codes "updated_at" ∷ codes "updatedAt" ∷ codes "published_at" ∷ codes "publishedAt" ∷ [])) [
          | some t ↦ t
          | none ↦ elim (extract_updated_at_from_content ev.content) [
            | some t ↦ t
            | none ↦ ev.created_at
          ]
        ]

  abbrev pub join_address : ℤ → Text → Text → Text
  join_address kind pubkey d_tag = lib.format_int kind ++ b':' ∷ (pubkey ++ b':' ∷ d_tag)

  unfoldable pub product_address : Event → Text
  product_address ev =
      let d_tag = lib.get_d ev.tags in
      if list_beq d_tag [] then ev.id else join_address ev.kind ev.pub_key d_tag

  unfoldable pub build_product_envelope : Event → ProductEnvelope
  build_product_envelope ev =
      let (title, summary) = extract_product_text ev in
      let price = extract_price ev in
      record {
        address = product_address ev;
        event = ev;
        updated_at = extract_updated_at ev;
        price = elim price [ none ↦ 0 | some p ↦ p.0 ];
        currency = elim price [ none ↦ [] | some p ↦ p.1 ];
        has_price = is_some price;
        search_text = lib.to_lower (trim_space (title ++ 10 ∷ summary));
        tombstoned = false;
      }
