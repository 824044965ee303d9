-- ===== src/Redaction/Secrets.antt =====
-- What the redaction hides.
use auditchain_gateway_backe.Prelude.{◌≡◌, refl, ap, Bool-cases, inl, inr, if◌then◌else◌}
use auditchain_gateway_backe.Prelude.Text.{Text}
use auditchain_gateway_backe.Json.{
  Value, Items, Fields, null, boolean, number, string, array, object, no_items, item, no_fields,
  field,
}
use auditchain_gateway_backe.Redaction.{is_sensitive_key, redact_value, redact_items, redact_fields}

module _ (wide_lower : Text → Text) where
  -- the same document with other secrets: `other` is the value in place of a secret, by its key
  unfoldable mutual
    pub change_secrets : {N : Type 0} → (Text → Value N → Value N) → Value N → Value N
    change_secrets other (array xs) = array (change_items other xs)
    change_secrets other (object m) = object (change_fields other m)
    change_secrets other null = null
    change_secrets other (boolean b) = boolean b
    change_secrets other (number n) = number n
    change_secrets other (string s) = string s

    pub change_items : {N : Type 0} → (Text → Value N → Value N) → Items N → Items N
    change_items other no_items = no_items
    change_items other (item v xs) = item (change_secrets other v) (change_items other xs)

    pub change_fields : {N : Type 0} → (Text → Value N → Value N) → Fields N → Fields N
    change_fields other no_fields = no_fields
    change_fields other (field k v m) =
        field k (if is_sensitive_key wide_lower k then other k v else change_secrets other v)
          (change_fields other m)

  mutual
    unfolding redact_value change_secrets

    redacted_value :
        {N : Type 0} (other : Text → Value N → Value N) (v : Value N)
        → redact_value wide_lower (change_secrets other v) ≡ redact_value wide_lower v
    redacted_value other (array xs) = ap array (redacted_items other xs)
    redacted_value other (object m) = ap object (redacted_fields other m)
    redacted_value other null = refl
    redacted_value other (boolean b) = refl
    redacted_value other (number n) = refl
    redacted_value other (string s) = refl

    redacted_items :
        {N : Type 0} (other : Text → Value N → Value N) (xs : Items N)
        → redact_items wide_lower (change_items other xs) ≡ redact_items wide_lower xs
    redacted_items other no_items = refl
    redacted_items other (item v xs) = rw (redacted_value other v, redacted_items other xs) refl

    redacted_fields :
        {N : Type 0} (other : Text → Value N → Value N) (m : Fields N)
        → redact_fields wide_lower (change_fields other m) ≡ redact_fields wide_lower m
    redacted_fields other no_fields = refl
    redacted_fields other (field k v m) = elim (Bool-cases (is_sensitive_key wide_lower k)) [
      | inl secret ↦ rw (secret, redacted_fields other m) refl
      | inr shown ↦ rw (shown, redacted_value other v, redacted_fields other m) refl
    ]

  -- What a preview shows does not depend on any value that stands under a sensitive key, at any
  -- depth of the document: with other secrets in its place it is the same.
  pub redaction_hides_secrets :
      {N : Type 0} (other : Text → Value N → Value N) (v : Value N)
      → redact_value wide_lower (change_secrets other v) ≡ redact_value wide_lower v
  redaction_hides_secrets other v = redacted_value other v
