-- ===== src/Kafka/Libraries.antt =====
-- What the consumer of database changes takes from the language's libraries, as one parameter.
use auditchain_gateway_backe.Prelude.{ℕ, Bool, Option, List}
use auditchain_gateway_backe.Prelude.Text.{Text}
use auditchain_gateway_backe.Prelude.Int.{ℤ}
use auditchain_gateway_backe.Json.{Value, Fields}

-- `Float` is float64. `whole v` is int64(v) where v == float64(int64(v)); `truncated` is int64(v);
-- `format_g` is the verb %g of fmt. `decode` is json.Unmarshal into a map (`none`: its error),
-- `marshal` json.Marshal; `remarshal` is the one after the other on a text; `wide_lower` is
-- unicode.ToLower on a text with bytes outside ASCII; `sha3` is sha3.Sum256.
pub record Libraries : Type 1 where
  pub Float : Type 0
  pub whole : Float → Option ℤ
  pub truncated : Float → ℤ
  pub is_zero : Float → Bool
  pub is_positive : Float → Bool
  pub format_g : Float → Text
  pub decode : Text → Option (Fields Float)
  pub marshal : Value Float → Text
  pub remarshal : Text → Option Text
  pub wide_lower : Text → Text
  pub sha3 : List ℕ → List ℕ
