-- ===== src/Recovery.antt =====
-- The life of one direct recovery request (internal/modules/recovery/direct_recovery.go): the rows
-- of the request, its event and its incident. The Agent writes to the client's database; the
-- request counts as done only after the change came back through CDC and its event was verified.
-- `none` is an error that rolls the transaction back; the texts, times and hashes of the request and
-- of the incident are left out.
pub mod EventHash
pub mod Lifecycle
pub mod Frozen
mod Examples
use auditchain_gateway_backe.Prelude.{
  ℕ, List, Bool, true, false, not, ◌&&◌, ◌||◌, Option, none, some, [], if◌then◌else◌,
}
use auditchain_gateway_backe.Prelude.Text.{Text, codes, is_blank}
use auditchain_gateway_backe.Recovery.EventHash.{
  CdcStatus, cdc_pending, cdc_confirmed, cdc_timeout, cdc_conflict, EventResult, result_succeeded,
  result_awaiting_cdc, result_cdc_timeout, result_verification, result_execution, EventFacts,
  EventContent, generate_recovery_event_hash,
}

-- RecoveryRequest.Status
pub data RequestStatus : Type 0 where
  pending_execution pending_approval approved rejected executing succeeded failed_verification
        failed_execution applied_awaiting_cdc applied_cdc_timeout :
      RequestStatus

-- RecoveryEvent.PipelineStatus
pub data EventPipeline : Type 0 where
  event_hashed event_aggregated event_anchored : EventPipeline

-- An event: the columns that its hash covers, the hash, and the pipeline's.
pub record RecoveryEvent : Type 0 where
  pub content : EventContent
  pub event_hash : Text
  pub event_pipeline : EventPipeline

pub record RecoveryRows : Type 0 where
  pub status : RequestStatus
  pub cdc_status : CdcStatus
  pub event : Option RecoveryEvent
  pub incident_resolved : Bool

abbrev pub is_pending_execution : RequestStatus → Bool
is_pending_execution pending_execution = true
is_pending_execution _ = false

abbrev pub is_pending_approval : RequestStatus → Bool
is_pending_approval pending_approval = true
is_pending_approval _ = false

abbrev pub is_executing : RequestStatus → Bool
is_executing executing = true
is_executing _ = false

abbrev pub is_awaiting_cdc : RequestStatus → Bool
is_awaiting_cdc applied_awaiting_cdc = true
is_awaiting_cdc _ = false

abbrev pub is_succeeded : RequestStatus → Bool
is_succeeded succeeded = true
is_succeeded _ = false

abbrev pub is_cdc_pending : CdcStatus → Bool
is_cdc_pending cdc_pending = true
is_cdc_pending _ = false

abbrev pub is_cdc_confirmed : CdcStatus → Bool
is_cdc_confirmed cdc_confirmed = true
is_cdc_confirmed _ = false

-- transitionRequest, as Approve (true) and Reject call it
unfoldable pub transition_request : Bool → RecoveryRows → Option RecoveryRows
transition_request approve r =
    if is_pending_approval r.status
    then some (record r { status = if approve then approved else rejected })
    else none

-- the transaction at the start of executeDirect
unfoldable pub begin_execution : RecoveryRows → Option RecoveryRows
begin_execution r =
    if is_awaiting_cdc r.status
    then some r
    else if is_pending_execution r.status
    then some (record r { status = executing })
    else none

-- directFailureStatuses, for a code of the first kind (true) or another
abbrev pub failure_status : Bool → RequestStatus
failure_status verification = if verification then failed_verification else failed_execution

abbrev pub failure_result : Bool → EventResult
failure_result verification = if verification then result_verification else result_execution

abbrev pub event_or : Option RecoveryEvent → RecoveryEvent → Option RecoveryEvent
event_or none e = some e
event_or (some old) e = some old

module _ (remarshal : Text → Option Text) (sha3 : List ℕ → List ℕ) where
  -- an event as it is written, with the hash of its content
  abbrev pub hashed_event : EventContent → RecoveryEvent
  hashed_event c = record {
    content = c;
    event_hash = generate_recovery_event_hash remarshal sha3 c;
    event_pipeline = event_hashed;
  }

  -- the same for an event that is there
  abbrev pub rehashed_event : RecoveryEvent → EventContent → RecoveryEvent
  rehashed_event e c = record e {
    content = c;
    event_hash = generate_recovery_event_hash remarshal sha3 c;
  }

  -- persistDirectApplied, for the columns that it copies from the request, the log and the Agent's
  -- answer; a second event of the request violates a unique index
  unfoldable pub persist_direct_applied : EventFacts → RecoveryRows → Option RecoveryRows
  persist_direct_applied facts r = elim r.event [
    | some e ↦ none
    | none ↦
        let e : RecoveryEvent = hashed_event (record {
          facts = facts;
          result_status = result_awaiting_cdc;
          event_cdc_status = cdc_pending;
          result_audit_log_id = [];
          failure_code = [];
          failure_reason = [];
        }) in
        if is_executing r.status
        then some
            (record r { status = applied_awaiting_cdc; cdc_status = cdc_pending; event = some e })
        else if is_awaiting_cdc r.status || is_succeeded r.status
        then some (record r { event = some e })
        else none
  ]

  -- failDirectRequest, for the code and the message of the failure
  unfoldable pub fail_direct_request : Bool → EventFacts → Text → Text → RecoveryRows → RecoveryRows
  fail_direct_request verification facts code message r =
      if is_executing r.status
      then record r {
        status = failure_status verification;
        event = event_or r.event (
            hashed_event (record {
              facts = facts;
              result_status = failure_result verification;
              event_cdc_status = cdc_conflict;
              result_audit_log_id = [];
              failure_code = code;
              failure_reason = message;
            }));
      }
      else r

  -- markDirectCDCConfirmed, for the id of the client event that was found
  unfoldable pub mark_direct_cdc_confirmed : Text → RecoveryRows → Option RecoveryRows
  mark_direct_cdc_confirmed log_id r =
      if is_awaiting_cdc r.status && is_cdc_pending r.cdc_status
      then elim r.event [
        | none ↦ none
        | some e ↦ some (record r {
          cdc_status = cdc_confirmed;
          event = some (
              rehashed_event e (record e.content {
                result_status = result_succeeded;
                event_cdc_status = cdc_confirmed;
                result_audit_log_id = log_id;
              }));
        })
      ]
      else some r

  -- markDirectCDCTimeout
  unfoldable pub mark_direct_cdc_timeout : RecoveryRows → Option RecoveryRows
  mark_direct_cdc_timeout r =
      if is_awaiting_cdc r.status && is_cdc_pending r.cdc_status
      then elim r.event [
        | none ↦ none
        | some e ↦ some (record r {
          status = applied_cdc_timeout;
          cdc_status = cdc_timeout;
          event = some (
              rehashed_event e (record e.content {
                result_status = result_cdc_timeout;
                event_cdc_status = cdc_timeout;
                failure_code = codes "cdc_confirmation_timeout";
                failure_reason = codes "event CDC hasil recovery belum diterima sampai batas waktu";
              }));
        })
      ]
      else some r

  -- reconcileDirectRequest, for the matching client event in the window, if there is one, and
  -- whether the deadline is over
  unfoldable pub reconcile_direct_request : Option Text → Bool → RecoveryRows → Option RecoveryRows
  unfolding mark_direct_cdc_confirmed mark_direct_cdc_timeout
  reconcile_direct_request (some log_id) late r = mark_direct_cdc_confirmed log_id r
  reconcile_direct_request none late r = if late then mark_direct_cdc_timeout r else some r

-- finalizeDirectRecoveryIfVerified, for the verified event
unfoldable pub finalize_direct_recovery : RecoveryEvent → RecoveryRows → RecoveryRows
finalize_direct_recovery e r =
    if is_cdc_confirmed e.content.event_cdc_status && not (is_blank e.content.result_audit_log_id)
    then (if is_succeeded r.status
        then r
        else if is_awaiting_cdc r.status && is_cdc_confirmed r.cdc_status
        then record r { status = succeeded; incident_resolved = true }
        else r)
    else r

-- the statuses for which ProcessRecoveryBatch takes an event without a snapshot
abbrev pub is_cdc_settled : CdcStatus → Bool
is_cdc_settled cdc_pending = false
is_cdc_settled _ = true

abbrev pub is_event_hashed : EventPipeline → Bool
is_event_hashed event_hashed = true
is_event_hashed _ = false

abbrev pub is_event_aggregated : EventPipeline → Bool
is_event_aggregated event_aggregated = true
is_event_aggregated _ = false

-- ProcessRecoveryBatch on the request's event, where the batch takes it; a direct event has no
-- snapshot
unfoldable pub aggregate_event : RecoveryRows → RecoveryRows
aggregate_event r = elim r.event [
  | none ↦ r
  | some e ↦
      if is_event_hashed e.event_pipeline && is_cdc_settled e.content.event_cdc_status
      then record r { event = some (record e { event_pipeline = event_aggregated }) }
      else r
]

-- AnchorPendingRecoveryRoots on the request's event
unfoldable pub anchor_event : RecoveryRows → RecoveryRows
anchor_event r = elim r.event [
  | none ↦ r
  | some e ↦
      if is_event_aggregated e.event_pipeline
      then record r { event = some (record e { event_pipeline = event_anchored }) }
      else r
]
