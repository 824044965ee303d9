-- ===== src/Recovery/EventHash.antt =====
-- The hash of a recovery event (internal/engine/hasher/recovery.go) over its columns
-- (internal/models/recovery.go). `remarshal` stands for json.Unmarshal followed by json.Marshal of
-- encoding/json (`none`: the text is no JSON), `sha3` for SHA3-256.
use auditchain_gateway_backe.Prelude.{
  ℕ, Bool, not, ◌||◌, Option, none, some, List, [], ◌∷◌, ◌++◌, if◌then◌else◌,
}
use auditchain_gateway_backe.Prelude.Text.{Text, codes, text_eq, trim_space, is_blank}
use auditchain_gateway_backe.Prelude.Int.{ℤ, pos}
use auditchain_gateway_backe.Decimal.{format_int}
use auditchain_gateway_backe.Merkle.{generate_sha3_256}
use auditchain_gateway_backe.LogHash.{join_fields}

-- RecoveryRequest.CDCStatus and RecoveryEvent.CDCStatus
pub data CdcStatus : Type 0 where
  cdc_pending cdc_confirmed cdc_timeout cdc_conflict cdc_not_required : CdcStatus

-- RecoveryEvent.ResultStatus
pub data EventResult : Type 0 where
  result_succeeded result_awaiting_cdc result_cdc_timeout result_verification result_execution :
      EventResult

abbrev pub cdc_text : CdcStatus → Text
cdc_text cdc_pending = codes "PENDING"
cdc_text cdc_confirmed = codes "CONFIRMED"
cdc_text cdc_timeout = codes "TIMEOUT"
cdc_text cdc_conflict = codes "CONFLICT"
cdc_text cdc_not_required = codes "NOT_REQUIRED"

abbrev pub result_text : EventResult → Text
result_text result_succeeded = codes "SUCCEEDED"
result_text result_awaiting_cdc = codes "APPLIED_AWAITING_CDC"
result_text result_cdc_timeout = codes "APPLIED_CDC_TIMEOUT"
result_text result_verification = codes "FAILED_VERIFICATION"
result_text result_execution = codes "FAILED_EXECUTION"

-- the columns that are written once, with the event
pub record EventFacts : Type 0 where
  pub id : Text
  pub client_id : Text
  pub request_id : Text
  pub incident_id : Text
  pub target_log_id : Text
  pub selected_log_id : Text
  pub event_type : Text
  pub resource : Text
  pub target_actor : Text
  pub target_action : Text
  pub source_system : Text
  pub target_source_system : Text
  pub target_authorization : Text
  pub target_source_record_id : Text
  pub recovered_metadata : Text
  pub executor_system : Text
  pub executed_by : Text
  pub reason : Text
  pub before_hash : Text
  pub after_hash : Text
  pub source_snapshot_object_key : Text
  pub source_snapshot_version_id : Text
  pub source_snapshot_checksum : Text
  pub source_snapshot_plain_hash : Text
  pub source_anchor_id : Text
  pub source_expected_merkle_root : Text
  pub operation : Text
  pub reference_log_hash : Text
  pub reference_merkle_root : Text
  pub reference_anchor_id : Text
  pub client_before_hash : Text
  pub client_after_hash : Text
  pub readback_status : Text
  pub target_timestamp : Option ℤ
  pub executed_at : ℤ

-- all columns that the hash covers
pub record EventContent : Type 0 where
  pub facts : EventFacts
  pub result_status : EventResult
  pub event_cdc_status : CdcStatus
  pub result_audit_log_id : Text
  pub failure_code : Text
  pub failure_reason : Text

abbrev pub micros : Option ℤ → ℤ
micros none = pos 0
micros (some t) = t

module _ (remarshal : Text → Option Text) where
  unfoldable pub canonical_recovery_json : Text → Text
  unfolding is_blank text_eq trim_space
  canonical_recovery_json raw =
      if is_blank raw || text_eq (trim_space raw) (codes "null")
      then codes "null"
      else elim (remarshal raw) [ none ↦ raw | some normalized ↦ normalized ]

  unfoldable pub is_direct_recovery_event : EventFacts → Bool
  unfolding is_blank
  is_direct_recovery_event f =
      not (is_blank f.operation)
      || not (is_blank f.reference_log_hash)
      || not (is_blank f.client_after_hash)

  -- the version in front of the parts
  abbrev pub schema_version : EventFacts → Text
  schema_version f = if is_direct_recovery_event f then format_int (pos 2) else format_int (pos 1)

  -- the parts of each event
  abbrev pub common_parts : EventContent → List Text
  common_parts e =
      schema_version e.facts
      ∷ e.facts.id
      ∷ e.facts.client_id
      ∷ e.facts.request_id
      ∷ e.facts.incident_id
      ∷ e.facts.target_log_id
      ∷ e.facts.selected_log_id
      ∷ e.facts.event_type
      ∷ result_text e.result_status
      ∷ e.facts.resource
      ∷ e.facts.target_actor
      ∷ e.facts.target_action
      ∷ format_int (micros e.facts.target_timestamp)
      ∷ (if is_blank e.facts.source_system
          then e.facts.target_source_system
          else e.facts.source_system)
      ∷ e.facts.target_authorization
      ∷ e.facts.target_source_record_id
      ∷ canonical_recovery_json e.facts.recovered_metadata
      ∷ e.facts.executor_system
      ∷ e.facts.executed_by
      ∷ e.facts.reason
      ∷ e.facts.before_hash
      ∷ e.facts.after_hash
      ∷ e.facts.source_snapshot_object_key
      ∷ e.facts.source_snapshot_version_id
      ∷ e.facts.source_snapshot_checksum
      ∷ e.facts.source_snapshot_plain_hash
      ∷ e.facts.source_anchor_id
      ∷ e.facts.source_expected_merkle_root
      ∷ e.failure_code
      ∷ e.failure_reason
      ∷ format_int e.facts.executed_at
      ∷ []

  -- the parts of a direct recovery
  abbrev pub direct_parts : EventContent → List Text
  direct_parts e =
      e.facts.operation
      ∷ e.facts.reference_log_hash
      ∷ e.facts.reference_merkle_root
      ∷ e.facts.reference_anchor_id
      ∷ e.facts.client_before_hash
      ∷ e.facts.client_after_hash
      ∷ e.facts.readback_status
      ∷ cdc_text e.event_cdc_status
      ∷ e.result_audit_log_id
      ∷ []

  -- GenerateRecoveryEventHash, of an event that is not nil
  unfoldable pub generate_recovery_event_hash : (List ℕ → List ℕ) → EventContent → Text
  unfolding join_fields canonical_recovery_json is_direct_recovery_event
  generate_recovery_event_hash sha3 e = generate_sha3_256 sha3 (
      join_fields (
        if is_direct_recovery_event e.facts
        then common_parts e ++ direct_parts e
        else common_parts e))
