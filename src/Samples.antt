-- ===== src/Samples.antt =====
-- Concrete rows for the examples of several modules.
use auditchain_gateway_backe.Prelude.{none, [], false}
use auditchain_gateway_backe.Prelude.Text.{Text, codes}
use auditchain_gateway_backe.Prelude.Int.{ℤ}
use auditchain_gateway_backe.Model.{
  AuditLog, received, snapshot_pending, not_checked, unknown_source,
}

-- a row that is not hashed yet
abbrev pub received_log : Text → ℤ → AuditLog
received_log id time = record {
  log_id = id;
  client_id = codes "c1";
  actor = codes "budi";
  action = codes "UPDATE";
  resource = codes "users:7";
  timestamp = time;
  db_timestamp = none;
  source_system = codes "RS";
  authorization_context = codes "null";
  metadata = codes "{}";
  is_latest = false;
  hash_value = [];
  merkle_root = [];
  blockchain_tx_id = none;
  blockchain_timestamp = none;
  status = received;
  snapshot_status = snapshot_pending;
  integrity_status = not_checked;
  integrity_checked_at = none;
  integrity_source = unknown_source;
  integrity_run_id = [];
}
