-- ===== src/Kafka/Payload.antt =====
-- Reading the fields of a change: findFieldInsensitive, extractScalarValue and what they call.
use auditchain_gateway_backe.Prelude.{
  ℕ, ◌+◌, ◌*◌, ◌%◌, ◌^◌, Bool, true, false, not, ◌&&◌, ◌||◌, Option, none, some, List, [], ◌∷◌,
  ◌++◌, length, ltb, leb, ◌==◌, if◌then◌else◌,
}
use auditchain_gateway_backe.Prelude.Text.{
  Text, codes, text_eq, is_empty, to_lower, has_prefix, has_suffix, text_le,
}
use auditchain_gateway_backe.Prelude.Int.{ℤ, pos, sub_ℕ}
use auditchain_gateway_backe.Prelude.Table.{order_by}
use auditchain_gateway_backe.Json.{
  Value, Items, Fields, null, boolean, number, string, array, object, no_items, item, no_fields,
  field, get_field,
}
use auditchain_gateway_backe.Decimal.{format_int}
use auditchain_gateway_backe.Hex.{hex_encode}
use auditchain_gateway_backe.Base64.{base64_decode}
use auditchain_gateway_backe.Kafka.Libraries.{Libraries}

-- the bytes of result = result*256 + int64(b), an int64 that wraps around
unfoldable pub big_endian : ℕ → List ℕ → ℕ
big_endian acc [] = acc
big_endian acc (b ∷ bs) = big_endian ((acc * 256 + b) % 2 ^ 64) bs

unfoldable pub int64_of_bytes : List ℕ → ℤ
unfolding big_endian
int64_of_bytes bs =
    let bits : ℕ = big_endian 0 bs in if ltb bits (2 ^ 63) then pos bits else sub_ℕ bits (2 ^ 64)

unfoldable pub decode_oracle_number : Text → Option Text
unfolding int64_of_bytes base64_decode
decode_oracle_number s = if is_empty s || ltb 12 (length s) then none else elim (base64_decode s) [
  | none ↦ none
  | some bytes ↦
      if length bytes == 0 || ltb 8 (length bytes)
      then none
      else some (format_int (int64_of_bytes bytes))
]

unfoldable pub is_printable : Text → Bool
is_printable [] = true
is_printable (c ∷ s) = leb 32 c && leb c 126 && is_printable s

-- strings.TrimRight(s, "\x00")
unfoldable pub trim_zeros : Text → Text
trim_zeros [] = []
trim_zeros (c ∷ s) = let rest = trim_zeros s in if c == 0 && is_empty rest then [] else c ∷ rest

-- the texts of a map or slice with blanks between them
join_blank : List Text → Text
join_blank [] = []
join_blank (s ∷ []) = s
join_blank (s ∷ t ∷ rest) = s ++ 32 ∷ join_blank (t ∷ rest)

entry_text : List (Text × Text) → List Text
entry_text [] = []
entry_text ((k, t) ∷ es) = (k ++ 58 ∷ t) ∷ entry_text es

abbrev by_key : Text × Text → Text × Text → Bool
by_key a b = text_le a.0 b.0

module _ (lib : Libraries) where
  open lib use {Float, whole, is_zero, format_g, wide_lower}

  abbrev same_folded : Text → Text → Bool
  same_folded name k = text_eq (to_lower wide_lower k) (to_lower wide_lower name)

  -- for k, v := range m { if strings.ToLower(k) == lowerField … }
  -- Go ranges over m in a random order. This takes the order of the message, and so the same field
  -- wherever at most one key equals the name up to case.
  unfoldable pub find_folded : Text → Fields Float → Option (Value Float)
  find_folded name no_fields = none
  find_folded name (field k v m) = if same_folded name k then some v else find_folded name m

  -- first the exact key, then one that differs in case
  unfoldable pub find_in : Text → Fields Float → Option (Value Float)
  unfolding get_field find_folded
  find_in name m = elim (get_field name m) [ some v ↦ some v | none ↦ find_folded name m ]

  -- m[key].(map[string]interface{}), and the search in it
  find_nested : Text → Option (Value Float) → Option (Value Float)
  find_nested name (some (object m)) = find_in name m
  find_nested name _ = none

  unfoldable pub find_field_insensitive : Fields Float → Text → Option (Value Float)
  unfolding find_in find_nested get_field
  find_field_insensitive payload name =
      if is_empty name then none else elim (find_in name payload) [
        | some v ↦ some v
        | none ↦ elim (find_nested name (get_field (codes "after") payload)) [
          | some v ↦ some v
          | none ↦ find_nested name (get_field (codes "before") payload)
        ]
      ]

  unfoldable pub is_numeric_column : Text → Bool
  unfolding text_eq has_prefix has_suffix to_lower
  is_numeric_column key =
      let k = to_lower wide_lower key in
      text_eq k (codes "user_input")
      || text_eq k (codes "user_updated")
      || text_eq k (codes "user_inserted")
      || text_eq k (codes "id_unit")
      || text_eq k (codes "id")
      || has_prefix k (codes "id_")
      || has_suffix k (codes "_id")
      || has_suffix k (codes "id")

  -- the verb %v of fmt; maps are printed in the order of their keys
  mutual
    format_value : Value Float → Text
    format_value null = codes "<nil>"
    format_value (boolean true) = codes "true"
    format_value (boolean false) = codes "false"
    format_value (number n) = format_g n
    format_value (string s) = s
    format_value (array xs) = 91 ∷ (join_blank (format_items xs) ++ 93 ∷ [])
    format_value (object m) =
        codes "map[" ++ (join_blank (entry_text (order_by by_key (format_fields m))) ++ 93 ∷ [])

    format_items : Items Float → List Text
    format_items no_items = []
    format_items (item v xs) = format_value v ∷ format_items xs

    format_fields : Fields Float → List (Text × Text)
    format_fields no_fields = []
    format_fields (field k v m) = (k, format_value v) ∷ format_fields m

  unfoldable pub extract_string : Text → Text → Text
  unfolding decode_oracle_number is_numeric_column
  extract_string key s =
      if is_numeric_column key
      then elim (decode_oracle_number s) [ some decoded ↦ decoded | none ↦ s ]
      else s

  extract_float : Float → Text
  extract_float v = elim (whole v) [ some n ↦ format_int n | none ↦ format_g v ]

  -- hasScale && scale == 0
  zero_scale : Option (Value Float) → Bool
  zero_scale (some (number n)) = is_zero n
  zero_scale _ = false

  -- the bytes of a structured number
  extract_bytes : Fields Float → List ℕ → Text
  unfolding int64_of_bytes trim_zeros is_printable zero_scale get_field hex_encode
  extract_bytes m decoded =
      if zero_scale (get_field (codes "scale") m) && leb (length decoded) 8
      then format_int (int64_of_bytes decoded)
      else if not (is_empty (trim_zeros decoded)) && is_printable (trim_zeros decoded)
      then trim_zeros decoded
      else hex_encode decoded

  extract_encoded : Fields Float → Option (Value Float) → Text
  unfolding extract_bytes base64_decode format_value
  extract_encoded m (some (string encoded)) =
      if is_empty encoded
      then format_value (object m)
      else elim (base64_decode encoded) [ none ↦ encoded | some decoded ↦ extract_bytes m decoded ]
  extract_encoded m _ = format_value (object m)

  unfoldable pub extract_scalar_value : Text → Value Float → Text
  unfolding extract_string extract_float extract_encoded format_value get_field join_blank
      entry_text
  extract_scalar_value key (string s) = extract_string key s
  extract_scalar_value key (number v) = extract_float v
  extract_scalar_value key (object m) = extract_encoded m (get_field (codes "value") m)
  extract_scalar_value key null = format_value null
  extract_scalar_value key (boolean b) = format_value (boolean b)
  extract_scalar_value key (array xs) = format_value (array xs)

  -- a found value that is not nil
  unfoldable pub present : Option (Value Float) → Option (Value Float)
  present (some null) = none
  present (some v) = some v
  present none = none

  pk_of : Fields Float → List Text → Option Text
  unfolding present
  pk_of payload [] = none
  pk_of payload (key ∷ keys) =
      let rest = pk_of payload keys in
      elim (present (find_field_insensitive payload key)) [
        | some v ↦ some (extract_scalar_value key v)
        | none ↦ rest
      ]

  -- m[key].(string), or ""
  unfoldable pub text_field : Text → Fields Float → Text
  unfolding get_field
  text_field key m = elim (get_field key m) [ some (string s) ↦ s | _ ↦ [] ]

  unfoldable pub find_primary_key : Fields Float → Text → Text
  unfolding pk_of find_field_insensitive extract_scalar_value text_field
  find_primary_key payload pk_field =
      elim (pk_of payload
        (pk_field ∷ codes "ID" ∷ codes "id" ∷ codes "ogc_fid" ∷ codes "_id" ∷ codes "fid" ∷ [])) [
          | some key ↦ key
          | none ↦
              if is_empty (text_field (codes "__row_id") payload)
              then codes "unknown"
              else text_field (codes "__row_id") payload
        ]
