-- ===== src/Model.antt =====
-- The rows of the gateway's database (internal/models/log.go): the columns that the modelled code
-- reads or writes. Times are integers, in microseconds since 1970; a null column is `none`.
use auditchain_gateway_backe.Prelude.{ℕ, Bool, Option}
use auditchain_gateway_backe.Prelude.Text.{Text}
use auditchain_gateway_backe.Prelude.Int.{ℤ}

-- AuditLog.Status; the code writes no other value to the column
pub data LogStatus : Type 0 where
  received hashed aggregated anchored : LogStatus

-- AuditLog.IntegrityStatus and SourceIntegrityStatus
pub data IntegrityStatus : Type 0 where
  not_checked valid tampered pending unreachable : IntegrityStatus

-- AuditLog.SnapshotStatus
pub data SnapshotStatus : Type 0 where
  snapshot_pending uploading snapshot_retry verified snapshot_failed legacy_missing : SnapshotStatus

-- AuditLog.IntegritySource; `unknown_source` is the empty text
pub data IntegritySource : Type 0 where
  unknown_source tamper_scanner manual_range background_run scheduled_run manual_single_log recovery
        agent_audit :
      IntegritySource

pub record AuditLog : Type 0 where
  pub log_id : Text
  pub client_id : Text
  pub actor : Text
  pub action : Text
  pub resource : Text
  pub timestamp : ℤ
  pub db_timestamp : Option ℤ
  pub source_system : Text
  pub authorization_context : Text
  pub metadata : Text
  pub is_latest : Bool
  pub hash_value : Text
  pub merkle_root : Text
  pub blockchain_tx_id : Option Text
  pub blockchain_timestamp : Option ℤ
  pub status : LogStatus
  pub snapshot_status : SnapshotStatus
  pub integrity_status : IntegrityStatus
  pub integrity_checked_at : Option ℤ
  pub integrity_source : IntegritySource
  pub integrity_run_id : Text

pub record MerkleMetadata : Type 0 where
  pub root : Text
  pub batch_size : ℕ

pub record MerkleProofRow : Type 0 where
  pub transaction_hash : Text
  pub sibling_hash : Text
  pub is_left : Bool
  pub tree_level : ℕ
  pub merkle_root : Text
