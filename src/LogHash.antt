-- ===== src/LogHash.antt =====
-- The hash of an audit log (internal/engine/hasher/hasher.go). `sha3` stands for
-- golang.org/x/crypto/sha3.Sum256; `remarshal` for json.Unmarshal followed by json.Marshal of
-- encoding/json (`none`: the text is no JSON).
pub mod Fields
pub mod Binding
mod Examples
use auditchain_gateway_backe.Prelude.{
  ℕ, Option, none, some, Bool, List, [], ◌∷◌, ◌++◌, ◌||◌, if◌then◌else◌,
}
use auditchain_gateway_backe.Prelude.Text.{Text, codes, text_eq, is_empty}
use auditchain_gateway_backe.Decimal.{format_int}
use auditchain_gateway_backe.Merkle.{generate_sha3_256}
use auditchain_gateway_backe.Model.{AuditLog}

-- the byte |
abbrev pub bar : ℕ
bar = 124

-- strings.Join(fields, "|"), and the verbs of the Sprintf with | between them
unfoldable pub join_fields : List Text → Text
join_fields [] = []
join_fields (s ∷ []) = s
join_fields (s ∷ t ∷ rest) = s ++ bar ∷ join_fields (t ∷ rest)

-- the texts that stand for an absent JSON value
unfoldable pub is_null_text : Text → Bool
unfolding text_eq
is_null_text s = is_empty s || text_eq s (codes "null") || text_eq s (codes "<nil>")

-- authCtx
unfoldable pub canonical_context : Text → Text
unfolding is_null_text
canonical_context raw = if is_null_text raw then [] else raw

module _ (remarshal : Text → Option Text) where
  unfoldable pub canonicalize_json : Text → Text
  unfolding is_null_text
  canonicalize_json raw =
      if is_null_text raw
      then []
      else elim (remarshal raw) [ none ↦ raw | some normalized ↦ normalized ]

  -- what contextString joins
  unfoldable pub log_fields : AuditLog → List Text
  unfolding canonicalize_json canonical_context
  log_fields l =
      l.log_id
      ∷ l.actor
      ∷ l.action
      ∷ l.resource
      ∷ format_int l.timestamp
      ∷ l.source_system
      ∷ canonical_context l.authorization_context
      ∷ canonicalize_json l.metadata
      ∷ []

  unfoldable pub generate_log_hash : (List ℕ → List ℕ) → AuditLog → Text
  unfolding log_fields join_fields
  generate_log_hash sha3 l = generate_sha3_256 sha3 (join_fields (log_fields l))
