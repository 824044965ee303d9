-- ===== src/LogHash/Examples.antt =====
-- Hashes of concrete logs, and the theorems at concrete inputs.
use auditchain_gateway_backe.Prelude.{
  false, ℕ, ◌≡◌, refl, ◌≢◌, Option, none, List, [], ◌∷◌, replicate, arith,
}
use auditchain_gateway_backe.Prelude.Text.{Text, codes}
use auditchain_gateway_backe.Prelude.Int.{pos}
use auditchain_gateway_backe.Decimal.{format_int, digits}
use auditchain_gateway_backe.Merkle.{generate_sha3_256}
use auditchain_gateway_backe.Merkle.Collision.{Collision, IsDigest}
use auditchain_gateway_backe.Model.{
  AuditLog, received, snapshot_pending, not_checked, unknown_source,
}
use auditchain_gateway_backe.LogHash.{join_fields, log_fields, generate_log_hash}
use auditchain_gateway_backe.LogHash.Binding.{
  HasPlainFields, changed_log_collides, actor_action_ambiguous,
}

abbrev no_json : Text → Option Text
no_json s = none

abbrev constant_sha3 : List ℕ → List ℕ
constant_sha3 bs = replicate 32 0

constant_sha3-IsDigest : IsDigest (replicate 32 0)
constant_sha3-IsDigest = record { size = refl; bytes = omega arith }

abbrev log_of : Text → AuditLog
log_of actor = record {
  log_id = codes "log-1";
  client_id = codes "c1";
  actor = actor;
  action = codes "UPDATE";
  resource = codes "users:7";
  timestamp = pos 12;
  db_timestamp = none;
  source_system = codes "RS";
  authorization_context = codes "null";
  metadata = codes "{}";
  is_latest = false;
  hash_value = [];
  merkle_root = [];
  blockchain_tx_id = none;
  blockchain_timestamp = none;
  status = received;
  snapshot_status = snapshot_pending;
  integrity_status = not_checked;
  integrity_checked_at = none;
  integrity_source = unknown_source;
  integrity_run_id = [];
}

preimage_of_log :
    join_fields (log_fields no_json (log_of (codes "budi")))
    ≡ codes "log-1|budi|UPDATE|users:7|12|RS||{}"
unfolding join_fields log_fields format_int digits
preimage_of_log = refl

budi-HasPlainFields : HasPlainFields (log_of (codes "budi"))
unfolding log_fields
budi-HasPlainFields = omega arith

siti-HasPlainFields : HasPlainFields (log_of (codes "siti"))
unfolding log_fields
siti-HasPlainFields = omega arith

fields_differ :
    log_fields no_json (log_of (codes "budi")) ≢ log_fields no_json (log_of (codes "siti"))
unfolding log_fields
fields_differ e = cc e

changed_log_collides_example :
    Collision constant_sha3
      (join_fields (log_fields no_json (log_of (codes "budi"))) ∷ [])
      (join_fields (log_fields no_json (log_of (codes "siti"))) ∷ [])
unfolding generate_log_hash generate_sha3_256
changed_log_collides_example =
    changed_log_collides no_json constant_sha3 (log_of (codes "budi")) (log_of (codes "siti"))
      (λ bs. constant_sha3-IsDigest) budi-HasPlainFields siti-HasPlainFields fields_differ refl

actor_action_ambiguous_example :
    generate_log_hash no_json constant_sha3
      (record (log_of (codes "budi")) { actor = codes "budi|DELETE"; action = codes "UPDATE" })
    ≡ generate_log_hash no_json constant_sha3
        (record (log_of (codes "budi")) { actor = codes "budi"; action = codes "DELETE|UPDATE" })
actor_action_ambiguous_example =
    actor_action_ambiguous no_json constant_sha3 (log_of (codes "budi")) (codes "budi")
      (codes "DELETE") (codes "UPDATE")
