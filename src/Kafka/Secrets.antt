-- ===== src/Kafka/Secrets.antt =====
-- What the metadata of an audit log hides, and what it does not.
use auditchain_gateway_backe.Prelude.{
  ◌≡◌, ◌≢◌, refl, ap, List, [], ◌∷◌, ◌∙◌, sym, false, none, Bool-cases, inl, inr, if◌then◌else◌,
}
use auditchain_gateway_backe.Prelude.Text.{Text, codes}
use auditchain_gateway_backe.Json.{Value, Fields, string, object, no_fields, field, get_field}
use auditchain_gateway_backe.Kafka.Libraries.{Libraries}
use auditchain_gateway_backe.Kafka.Payload.{is_numeric_column, extract_string, extract_scalar_value}
use auditchain_gateway_backe.Kafka.Metadata.{
  is_skipped, is_secret, normalize_field_value, normalize_fields, normalize_object,
  extract_metadata,
}

module _ (lib : Libraries) where
  open lib use {Float}

  -- the same change with other values under the sensitive columns
  unfoldable pub change_columns : (Text → Value Float → Value Float) → Fields Float → Fields Float
  change_columns other no_fields = no_fields
  change_columns other (field k v m) =
      field k (if is_secret lib k then other k v else v) (change_columns other m)

  -- The metadata of a change does not depend on the values of the columns whose names are
  -- sensitive: with other values in them it is the same.
  pub metadata_hides_columns :
      (other : Text → Value Float → Value Float) (m : Fields Float)
      → extract_metadata lib (change_columns other m) ≡ extract_metadata lib m
  unfolding extract_metadata change_columns
  metadata_hides_columns other no_fields = refl
  metadata_hides_columns other (field k v m) = elim (Bool-cases (is_skipped lib k)) [
    | inl e ↦ rw e (metadata_hides_columns other m)
    | inr e ↦ elim (Bool-cases (is_secret lib k)) [
      | inl f ↦ rw (e, f, metadata_hides_columns other m) refl
      | inr f ↦ rw (e, f, metadata_hides_columns other m) refl
    ]
  ]

  -- A place in a row: the fields in front of it, its key, and the fields behind it.
  pub record Place : Type 0 where
    pub front : Fields Float
    pub key : Text
    pub back : Fields Float

  unfoldable pub join : Fields Float → Fields Float → Fields Float
  join no_fields n = n
  join (field k v m) n = field k v (join m n)

  abbrev pub put_at : Place → Value Float → Fields Float
  put_at p v = join p.front (field p.key v p.back)

  -- the text at the end of a path of places, each in the row at the place before
  abbrev pub text_at : List Place → Text → Value Float
  text_at [] s = string s
  text_at (p ∷ ps) s = object (put_at p (text_at ps s))

  -- the key under which the text stands
  abbrev pub last_key : Text → List Place → Text
  last_key key [] = key
  last_key key (p ∷ ps) = last_key p.key ps

  -- No row on the path has a field `value`, which would stand for the whole row.
  abbrev pub ArePlainRows : List Place → Type 0
  ArePlainRows [] = Unit
  ArePlainRows (p ∷ ps) =
      ((v : Value Float) → get_field (codes "value") (put_at p v) ≡ none) × ArePlainRows ps

  normalize_fields-join :
      (m : Fields Float) (k : Text) (v : Value Float) (n : Fields Float)
      → normalize_fields lib (join m (field k v n))
        ≡ join
            (normalize_fields lib m)
            (field k (normalize_field_value lib k v) (normalize_fields lib n))
  unfolding normalize_field_value join
  normalize_fields-join no_fields k v n = refl
  normalize_fields-join (field j w m) k v n = rw (normalize_fields-join m k v n) refl

  extract_metadata-join :
      (m : Fields Float) (k : Text) (v : Value Float) (n : Fields Float)
      → is_skipped lib k ≡ false
      → is_secret lib k ≡ false
      → extract_metadata lib (join m (field k v n))
        ≡ join
            (extract_metadata lib m)
            (field k (normalize_field_value lib k v) (extract_metadata lib n))
  unfolding extract_metadata join
  extract_metadata-join no_fields k v n shown plain = rw (shown, plain) refl
  extract_metadata-join (field j w m) k v n shown plain = elim (Bool-cases (is_skipped lib j)) [
    | inl e ↦ rw e (extract_metadata-join m k v n shown plain)
    | inr e ↦ rw (e, extract_metadata-join m k v n shown plain) refl
  ]

  join-injective :
      (m n : Fields Float) (k : Text) (v w : Value Float)
      → join m (field k v n) ≡ join m (field k w n)
      → v ≡ w
  unfolding join
  join-injective no_fields n k v w h = cc
  join-injective (field j x m) n k v w h = join-injective m n k v w (cc)

  normalized_text :
      (key s : Text)
      → is_numeric_column lib key ≡ false
      → normalize_field_value lib key (string s) ≡ string s
  unfolding normalize_field_value extract_scalar_value extract_string
  normalized_text key s t = rw t refl

  normalized_row :
      (key : Text) (p : Place) (v : Value Float)
      → get_field (codes "value") (put_at p v) ≡ none
      → normalize_field_value lib key (object (put_at p v))
        ≡ object (
            join
              (normalize_fields lib p.front)
              (field p.key (normalize_field_value lib p.key v) (normalize_fields lib p.back)))
  unfolding normalize_field_value normalize_object
  normalized_row key p v plain = rw plain (ap object (normalize_fields-join p.front p.key v p.back))

  object-injective : (m n : Fields Float) → object m ≡ object n → m ≡ n
  object-injective m n h = cc

  -- different texts at the end of a path have different normal forms
  normalized_texts_agree :
      (key : Text) (ps : List Place) (secret another : Text)
      → ArePlainRows ps
      → is_numeric_column lib (last_key key ps) ≡ false
      → normalize_field_value lib key (text_at ps secret)
        ≡ normalize_field_value lib key (text_at ps another)
      → secret ≡ another
  normalized_texts_agree key [] secret another plain t h =
      let same : string secret ≡ string another =
        sym (normalized_text key secret t) ∙ h ∙ normalized_text key another t in
      cc
  normalized_texts_agree key (p ∷ ps) secret another plain t h =
      normalized_texts_agree p.key ps secret another plain.1 t (
        join-injective (normalize_fields lib p.front) (normalize_fields lib p.back) p.key _ _ (
          object-injective _ _ (
            sym (normalized_row key p (text_at ps secret) (plain.0 (text_at ps secret)))
            ∙ h
            ∙ normalized_row key p (text_at ps another) (plain.0 (text_at ps another)))))

  -- In the rows that stand inside a column that is shown (the `before` and `after` of a change),
  -- at any depth and beside any other fields, no text is hidden: different texts under any key
  -- there, sensitive or not, give different metadata. The rows on the way have no field `value`, and
  -- the last key is not taken for a number.
  pub nested_secret_is_kept :
      (column p : Place) (ps : List Place) (secret another : Text)
      → is_skipped lib column.key ≡ false
      → is_secret lib column.key ≡ false
      → ArePlainRows (p ∷ ps)
      → is_numeric_column lib (last_key p.key ps) ≡ false
      → secret ≢ another
      → extract_metadata lib (put_at column (text_at (p ∷ ps) secret))
        ≢ extract_metadata lib (put_at column (text_at (p ∷ ps) another))
  nested_secret_is_kept column p ps secret another shown open_column plain t differ same = differ (
      normalized_texts_agree column.key (p ∷ ps) secret another plain t (
        join-injective (extract_metadata lib column.front) (extract_metadata lib column.back)
          column.key _ _
          (sym (
              extract_metadata-join column.front column.key (text_at (p ∷ ps) secret) column.back
                shown open_column)
            ∙ same
            ∙ extract_metadata-join column.front column.key (text_at (p ∷ ps) another) column.back
                shown open_column)))
