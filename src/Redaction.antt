-- ===== src/Redaction.antt =====
-- The redaction of recovery previews and evidence (pkg/redaction/json.go), on decoded JSON.
-- `wide_lower` stands for unicode.ToLower on a text with bytes outside ASCII.
pub mod Secrets
mod Examples
use auditchain_gateway_backe.Prelude.{
  Bool, true, false, ◌||◌, List, [], ◌∷◌, map, ◌==◌, if◌then◌else◌,
}
use auditchain_gateway_backe.Prelude.Text.{Text, codes, trim_space, contains, to_lower}
use auditchain_gateway_backe.Json.{
  Value, Items, Fields, null, boolean, number, string, array, object, no_items, item, no_fields,
  field,
}

abbrev pub mask : Text
mask = codes "***REDACTED***"

abbrev sensitive_fragments : List Text
sensitive_fragments =
    codes "password"
    ∷ codes "passwd"
    ∷ codes "pwd"
    ∷ codes "token"
    ∷ codes "secret"
    ∷ codes "api_key"
    ∷ codes "apikey"
    ∷ codes "private_key"
    ∷ codes "privatekey"
    ∷ codes "authorization"
    ∷ codes "cookie"
    ∷ codes "credential"
    ∷ codes "passphrase"
    ∷ codes "pin"
    ∷ []

-- for _, fragment := range fragments { if strings.Contains(key, fragment) … }
contains_any : Text → List Text → Bool
contains_any key [] = false
contains_any key (f ∷ fs) = contains key f || contains_any key fs

-- the two calls of strings.ReplaceAll: - and blank by _
replace_separators : Text → Text
replace_separators = map λ c. if c == 45 || c == 32 then 95 else c

module _ (wide_lower : Text → Text) where
  unfoldable pub is_sensitive_key : Text → Bool
  unfolding contains_any replace_separators to_lower trim_space contains
  is_sensitive_key key =
      contains_any (replace_separators (to_lower wide_lower (trim_space key))) sensitive_fragments

  unfoldable mutual
    pub redact_value : {N : Type 0} → Value N → Value N
    redact_value (array xs) = array (redact_items xs)
    redact_value (object m) = object (redact_fields m)
    redact_value null = null
    redact_value (boolean b) = boolean b
    redact_value (number n) = number n
    redact_value (string s) = string s

    pub redact_items : {N : Type 0} → Items N → Items N
    redact_items no_items = no_items
    redact_items (item v xs) = item (redact_value v) (redact_items xs)

    pub redact_fields : {N : Type 0} → Fields N → Fields N
    redact_fields no_fields = no_fields
    redact_fields (field k v m) =
        field k (if is_sensitive_key k then string mask else redact_value v) (redact_fields m)
