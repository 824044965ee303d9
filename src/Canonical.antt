-- ===== src/Canonical.antt =====
-- The canonical form of a client's row and its hash (pkg/canonicalstate/canonical.go). The decoder
-- and the encoder of encoding/json and unicode.ToLower outside ASCII are parameters.
pub mod Number
pub mod Trim
pub mod Place
pub mod Accepted
pub mod Rewriting
mod Examples
use auditchain_gateway_backe.Prelude.{
  ℕ, Bool, true, false, not, ◌&&◌, ◌||◌, Option, none, some, List, [], ◌∷◌, ◌++◌, if◌then◌else◌,
}
use auditchain_gateway_backe.Prelude.Text.{
  Text, codes, text_eq, is_empty, is_blank, trim_space, to_lower,
}
use auditchain_gateway_backe.Prelude.Int.{pos}
use auditchain_gateway_backe.Decimal.{format_int}
use auditchain_gateway_backe.Merkle.{generate_sha3_256}
use auditchain_gateway_backe.LogHash.{join_fields}
use auditchain_gateway_backe.Json.{
  Value, Items, Fields, null, boolean, number, string, array, object, no_items, item, no_fields,
  field,
}
use auditchain_gateway_backe.Canonical.Number.{canonical_number}

-- A decoder that is told UseNumber: the first value with the rest of the input (`none`: an error),
-- and whether the next Decode meets the end of the input. json.Marshal sorts the keys.
pub record Codec : Type 0 where
  pub decode : Text → Option (Value Text × Text)
  pub at_end : Text → Bool
  pub marshal : Value Text → Text
  pub wide_lower : Text → Text

-- `_, exists := result[key]`
unfoldable pub has_field : {N : Type 0} → Text → Fields N → Bool
unfolding text_eq
has_field key no_fields = false
has_field key (field k v m) = text_eq k key || has_field key m

abbrev pub as_number : Option Text → Option (Value Text)
as_number none = none
as_number (some s) = some (number s)

abbrev pub as_array : Option (Items Text) → Option (Value Text)
as_array none = none
as_array (some xs) = some (array xs)

abbrev pub as_object : Option (Fields Text) → Option (Value Text)
as_object none = none
as_object (some m) = some (object m)

abbrev pub as_item : Option (Value Text) → Option (Items Text) → Option (Items Text)
as_item none _ = none
as_item (some v) none = none
as_item (some v) (some xs) = some (item v xs)

-- the tests and the write of a round for a key (`none`: one of the errors, from now on)
abbrev pub put : Text → Bool → Bool → Option (Value Text) → Fields Text → Option (Fields Text)
put key true exists v result = none
put key false true v result = none
put key false false none result = none
put key false false (some w) result = some (field key w result)

unfoldable pub put_field : Text → Option (Value Text) → Option (Fields Text) → Option (Fields Text)
unfolding has_field
put_field key v none = none
put_field key v (some result) = put key (is_empty key) (has_field key result) v result

module _ (wide_lower : Text → Text) where
  unfoldable pub normalize_key : Text → Text
  unfolding to_lower trim_space
  normalize_key key = to_lower wide_lower (trim_space key)

  -- IsNormalizedKey, where `has_space` is strings.ContainsFunc(key, unicode.IsSpace)
  unfoldable pub is_normalized_key : (Text → Bool) → Text → Bool
  unfolding text_eq
  is_normalized_key has_space key =
      not (is_empty key) && text_eq key (normalize_key key) && not (has_space key)

  -- normalizeValue (`none`: one of its errors). The last argument of normalize_fields is the map
  -- result; a new key is put in front.
  unfoldable mutual
    pub normalize_value : Value Text → Option (Value Text)
    normalize_value (object m) = as_object (normalize_fields m (some no_fields))
    normalize_value (array xs) = as_array (normalize_items xs)
    normalize_value (number n) = as_number (canonical_number n)
    normalize_value null = some null
    normalize_value (boolean b) = some (boolean b)
    normalize_value (string s) = some (string s)

    pub normalize_items : Items Text → Option (Items Text)
    normalize_items no_items = some no_items
    normalize_items (item v xs) = as_item (normalize_value v) (normalize_items xs)

    pub normalize_fields : Fields Text → Option (Fields Text) → Option (Fields Text)
    normalize_fields no_fields result = result
    normalize_fields (field k v m) result =
        normalize_fields m (put_field (normalize_key k) (normalize_value v) result)

module _ (codec : Codec) where
  open codec use {decode, at_end, marshal, wide_lower}

  -- CanonicalizeJSON
  unfoldable pub canonicalize_json : Text → Option Text
  canonicalize_json raw = if is_blank raw then none else elim (decode raw) [
    | none ↦ none
    | some (v, rest) ↦
        if at_end rest
        then elim (normalize_value wide_lower v) [ none ↦ none | some w ↦ some (marshal w) ]
        else none
  ]

  abbrev object_of : Text → Option (Value Text × Text) → Option (Fields Text × Text)
  object_of canonical (some (object m, _)) = some (m, canonical)
  object_of canonical _ = none

  -- CanonicalizeObject: null decodes to a nil map, which is refused
  unfoldable pub canonicalize_object : Text → Option (Fields Text × Text)
  canonicalize_object raw = elim (canonicalize_json raw) [
    | none ↦ none
    | some canonical ↦ object_of canonical (decode canonical)
  ]

-- HashCanonical, with SchemaVersion
unfoldable pub hash_canonical : (List ℕ → List ℕ) → Text → Text → Text → Text
unfolding join_fields
hash_canonical sha3 client resource canonical =
    generate_sha3_256 sha3 (join_fields (format_int (pos 1) ∷ client ∷ resource ∷ canonical ∷ []))
