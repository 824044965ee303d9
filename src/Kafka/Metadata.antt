-- ===== src/Kafka/Metadata.antt =====
-- The metadata of an audit log: extractMetadata and normalizeFieldValue.
use auditchain_gateway_backe.Prelude.{
  Bool, false, ◌||◌, Option, none, some, List, [], ◌∷◌, if◌then◌else◌,
}
use auditchain_gateway_backe.Prelude.Text.{Text, codes, text_eq, to_lower, contains}
use auditchain_gateway_backe.Json.{
  Value, Items, Fields, null, boolean, number, string, array, object, no_items, item, no_fields,
  field, get_field,
}
use auditchain_gateway_backe.Kafka.Libraries.{Libraries}
use auditchain_gateway_backe.Kafka.Payload.{extract_scalar_value}

unfoldable pub is_in : Text → List Text → Bool
unfolding text_eq
is_in s [] = false
is_in s (t ∷ ts) = text_eq s t || is_in s ts

abbrev skipped_keys : List Text
skipped_keys =
    codes "__op"
    ∷ codes "__table"
    ∷ codes "__db"
    ∷ codes "__schema"
    ∷ codes "__ts_ms"
    ∷ codes "__deleted"
    ∷ codes "__user_name"
    ∷ codes "__scn"
    ∷ codes "__tx_id"
    ∷ codes "__row_id"
    ∷ codes "op"
    ∷ codes "table"
    ∷ codes "db"
    ∷ codes "schema"
    ∷ codes "ts_ms"
    ∷ codes "deleted"
    ∷ codes "user_name"
    ∷ codes "__collection"
    ∷ codes "collection"
    ∷ []

abbrev pub redacted : Text
redacted = codes "[REDACTED]"

module _ (lib : Libraries) where
  open lib use {Float, wide_lower}

  unfoldable pub is_skipped : Text → Bool
  unfolding is_in to_lower
  is_skipped key = is_in (to_lower wide_lower key) skipped_keys || is_in key skipped_keys

  unfoldable pub is_secret : Text → Bool
  unfolding contains text_eq to_lower
  is_secret key =
      let k = to_lower wide_lower key in
      contains k (codes "password")
      || contains k (codes "token")
      || contains k (codes "secret")
      || text_eq k (codes "pin")
      || text_eq k (codes "pass")

  -- a map, by its field `value` and its normalized fields
  unfoldable pub normalize_object :
      Text → Fields Float → Option (Value Float) → Fields Float → Value Float
  normalize_object key m (some v) rest = string (extract_scalar_value lib key (object m))
  normalize_object key m none rest = object rest

  unfoldable mutual
    pub normalize_field_value : Text → Value Float → Value Float
    normalize_field_value key (string s) = string (extract_scalar_value lib key (string s))
    normalize_field_value key (object m) =
        normalize_object key m (get_field (codes "value") m) (normalize_fields m)
    normalize_field_value key (array xs) = array (normalize_items key xs)
    normalize_field_value key null = null
    normalize_field_value key (boolean b) = boolean b
    normalize_field_value key (number n) = number n

    pub normalize_items : Text → Items Float → Items Float
    normalize_items key no_items = no_items
    normalize_items key (item v xs) = item (normalize_field_value key v) (normalize_items key xs)

    pub normalize_fields : Fields Float → Fields Float
    normalize_fields no_fields = no_fields
    normalize_fields (field k v m) = field k (normalize_field_value k v) (normalize_fields m)

  unfoldable pub extract_metadata : Fields Float → Fields Float
  unfolding is_skipped is_secret normalize_field_value
  extract_metadata no_fields = no_fields
  extract_metadata (field k v m) =
      if is_skipped k
      then extract_metadata m
      else field k (if is_secret k then string redacted else normalize_field_value k v)
          (extract_metadata m)
